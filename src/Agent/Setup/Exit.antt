-- ===== src/Agent/Setup/Exit.antt =====
-- When the agent of cmd/agent/main.go ends without an error, and what it has attached then.
use kubezonnet.Prelude.{
  ◌≡◌, ◌≢◌, ◌↔◌, String, List, [], ◌∷◌, some, Bool, true, false, ok, ◌||◌, Option-cases,
  Outcome-cases, inl, inr, arith, ap, sym, ◌∙◌,
}
use kubezonnet.Dict.{same, string_keys}
use kubezonnet.Agent.Subnet.{Constants, configure}
use kubezonnet.Agent.Setup.{
  Host, Effect, informer_started, memlock_removed, objects_loaded, hook_attached, loop_run,
  link_closed, objects_closed, context_cancelled, run_body, run_agent, Flags, is_positive,
  main_agent, exit_status,
}

-- No flag is missing, and the interval is positive.
pub record IsAccepted (flags : Flags) : Type 0 where
  pub has_subnet : flags.subnet_cidr ≢ ""
  pub has_interval : is_positive flags.flush_interval ≡ true
  pub has_server : flags.server ≢ ""
  pub has_node : flags.node ≢ ""

-- Every call succeeds, and the loop returns.
pub record IsWorking (host : Host) : Type 0 where
  pub configured : (host.in_cluster_config || host.build_config_from_flags) ≡ true
  pub connected : host.new_for_config ≡ true
  pub unlimited : host.remove_memlock ≡ true
  pub specified : host.load_kubezonnet ≡ true
  pub rewritten : host.rewrite_constants ≡ true
  pub loaded : host.load_and_assign ≡ true
  pub attached : host.attach_netfilter ≡ true
  pub looped : host.loop_returns ≡ true

-- What an agent does that works.
abbrev pub whole_run : String → Constants → List Effect
whole_run node constants =
    informer_started node
    ∷ memlock_removed
    ∷ objects_loaded constants
    ∷ hook_attached 2 4
    ∷ loop_run
    ∷ link_closed
    ∷ objects_closed
    ∷ context_cancelled
    ∷ []

abbrev no_flag : String → Bool
no_flag flag = same flag ""

given : (flag : String) → (no_flag flag ≡ false) ↔ (flag ≢ "")
given flag = (
  λ h e. cc (h, (string_keys.same_iff flag "").1 e),
  λ h. ground (arith, string_keys.same_iff flag "", h),
)

main_agent-IsAccepted :
    (host : Host) (flags : Flags) → exit_status (main_agent host flags).0 ≡ 0 → IsAccepted flags
unfolding main_agent
main_agent-IsAccepted host flags h = record {
  has_subnet = (given flags.subnet_cidr).0 (ground arith);
  has_interval = ground arith;
  has_server = (given flags.server).0 (ground arith);
  has_node = (given flags.node).0 (ground arith);
}

main_agent-run_agent :
    (host : Host) (flags : Flags)
    → IsAccepted flags
    → main_agent host flags ≡ run_agent host flags.node flags.subnet_cidr
unfolding main_agent
main_agent-run_agent host flags a = ground (
  arith,
  (given flags.subnet_cidr).1 a.has_subnet,
  a.has_interval,
  (given flags.server).1 a.has_server,
  (given flags.node).1 a.has_node,
)

run_agent-IsWorking :
    (host : Host) (node subnet_cidr : String)
    → exit_status (run_agent host node subnet_cidr).0 ≡ 0
    → IsWorking host
      × ((c : Constants) × (configure host.v6_text host.parse_cidr subnet_cidr ≡ ok (some c))
          × ((run_agent host node subnet_cidr).1 ≡ whole_run node c))
unfolding run_agent run_body
run_agent-IsWorking host node subnet_cidr h =
    elim (Outcome-cases (configure host.v6_text host.parse_cidr subnet_cidr)) [
      | inl (found, e) ↦ elim (Option-cases found) [
        | inl missing ↦ let bad : ⊥ = ground arith in absurd bad
        | inr (c, f) ↦ (
          record {
            configured = ground arith;
            connected = ground arith;
            unlimited = ground arith;
            specified = ground arith;
            rewritten = ground arith;
            loaded = ground arith;
            attached = ground arith;
            looped = ground arith;
          },
          (c, ground arith, ground arith),
        )
      ]
      | inr (inl (nothing, e)) ↦ absurd nothing
      | inr (inr e) ↦ let bad : ⊥ = ground arith in absurd bad
    ]

run_agent_succeeds :
    (host : Host) (node subnet_cidr : String) (c : Constants)
    → IsWorking host
    → configure host.v6_text host.parse_cidr subnet_cidr ≡ ok (some c)
    → exit_status (run_agent host node subnet_cidr).0 ≡ 0
unfolding run_agent run_body
run_agent_succeeds host node subnet_cidr c w e = ground (
  arith, e, w.configured, w.connected, w.unlimited, w.specified, w.rewritten, w.loaded, w.attached,
  w.looped,
)

-- The agent ends with status 0 exactly if no flag is missing and the interval is positive, the subnet
-- of the flags gives constants, every call succeeds and the loop returns. Then it has loaded the
-- eBPF objects with just these constants, attached the hook with protocol family 2 and number 4, run
-- the loop, and closed both.
pub main_agent_iff :
    (host : Host) (flags : Flags)
    → (exit_status (main_agent host flags).0 ≡ 0) ↔ (
        IsAccepted flags
        × IsWorking host
        × ((c : Constants) × (configure host.v6_text host.parse_cidr flags.subnet_cidr
              ≡ ok (some c))
            × ((main_agent host flags).1 ≡ whole_run flags.node c)))
main_agent_iff host flags = (
  λ h.
      let accepted = main_agent-IsAccepted host flags h in
      let whole = main_agent-run_agent host flags accepted in
      let (working, (c, e, trace)) =
        run_agent-IsWorking host flags.node flags.subnet_cidr
          (ap (λ r. exit_status r.0) (sym whole) ∙ h) in
      (accepted, working, (c, e, ap (λ r. r.1) whole ∙ trace)),
  λ h.
      let (accepted, working, (c, e, trace)) = h in
      ap (λ r. exit_status r.0) (main_agent-run_agent host flags accepted)
      ∙ run_agent_succeeds host flags.node flags.subnet_cidr c working e,
)
