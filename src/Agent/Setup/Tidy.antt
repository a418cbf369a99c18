-- ===== src/Agent/Setup/Tidy.antt =====
-- What `Run` of agent/agent.go opens, it closes.
use kubezonnet.Prelude.{◌≡◌, String, List, [], ◌∷◌, Option, none, some, arith}
use kubezonnet.Agent.Setup.{
  Host, Effect, informer_started, memlock_removed, objects_loaded, hook_attached, loop_run,
  link_closed, objects_closed, context_cancelled, run_body, run_agent,
}

-- What is open: nothing, the eBPF objects, or these and the hook.
pub data Open : Type 0 where
  nothing_open loaded attached : Open

-- The order of the effects: the objects are loaded before the hook is attached, the loop runs only
-- while it is, and it is detached before the objects are closed.
abbrev pub after : Open → Effect → Option Open
after o (informer_started node) = some o
after o memlock_removed = some o
after o context_cancelled = some o
after nothing_open (objects_loaded constants) = some loaded
after loaded (hook_attached family number) = some attached
after attached loop_run = some attached
after attached link_closed = some loaded
after loaded objects_closed = some nothing_open
after o _ = none

abbrev pub after_all : Open → List Effect → Option Open
after_all o [] = some o
after_all o (e ∷ es) = elim (after o e) [ none ↦ none | some o' ↦ after_all o' es ]

-- Whichever call fails, and also if the loop panics, `Run` leaves nothing open: the hook that it has
-- attached is detached, and after that the eBPF objects that it has loaded are closed, once each. The
-- hook is only attached with loaded objects, and the loop runs only while it is.
pub run_agent-tidy :
    (host : Host) (node subnet_cidr : String)
    → after_all nothing_open (run_agent host node subnet_cidr).1 ≡ some nothing_open
unfolding run_agent run_body
run_agent-tidy host node subnet_cidr = ground arith
