-- ===== src/Agent/Tests/Setup.antt =====
-- Starts of the agent of cmd/agent/main.go.
use kubezonnet.Prelude.{◌≡◌, ◌↔◌, refl, [], some, true, false, ok, pos}
use kubezonnet.Agent.Subnet.{Constants, configure}
use kubezonnet.Agent.Setup.{Host, exited, run_agent, Flags, main_agent, exit_status}
use kubezonnet.Agent.Setup.Tidy.{nothing_open, after_all, run_agent-tidy}
use kubezonnet.Agent.Setup.Exit.{IsAccepted, IsWorking, whole_run, main_agent_iff}
use kubezonnet.Agent.Tests.{no_text, sample_cidr}

-- The kernel refuses to attach the hook.
abbrev host : Host
host = record {
  in_cluster_config = true;
  build_config_from_flags = false;
  new_for_config = true;
  v6_text = no_text;
  parse_cidr = sample_cidr;
  remove_memlock = true;
  load_kubezonnet = true;
  rewrite_constants = true;
  load_and_assign = true;
  attach_netfilter = false;
  loop_returns = true;
}

run_agent-tidy_example :
    after_all nothing_open (run_agent host "n1" "10.0.1.2/24").1 ≡ some nothing_open
run_agent-tidy_example = run_agent-tidy host "n1" "10.0.1.2/24"

abbrev flags : Flags
flags = record {
  subnet_cidr = "10.0.1.2/24";
  flush_interval = pos 10_000_000_000;
  server = "";
  node = "n1";
}

no_server : main_agent host flags ≡ (exited "Error: server must not be empty", [])
unfolding main_agent
no_server = refl

main_agent_iff_example : (exit_status (main_agent host flags).0 ≡ 0) ↔ (
    IsAccepted flags
    × IsWorking host
    × ((c : Constants) × (configure no_text sample_cidr "10.0.1.2/24" ≡ ok (some c))
        × ((main_agent host flags).1 ≡ whole_run "n1" c)))
main_agent_iff_example = main_agent_iff host flags
