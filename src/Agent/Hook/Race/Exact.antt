-- ===== src/Agent/Hook/Race/Exact.antt =====
-- Flows that already have an entry when packets run through agent/kubezonnet.c at the same time.
use kubezonnet.Prelude.{ℕ, ◌+◌, ◌≡◌, ◌≢◌, ap, sym, ◌∙◌, List, ◌∷◌, none, some, false, u64, arith}
use kubezonnet.Payload.{IpKey}
use kubezonnet.Agent.Hook.Totals.{same_key_iff}
use kubezonnet.Agent.Hook.Race.{
  looking_up, found, missed, Cpus, Access, arrives, finds, misses, adds, writes, fails, Accesses,
  stop, arrive, access,
}
use kubezonnet.Agent.Sizes.{sizes_for}
use kubezonnet.Agent.Hook.Race.Running.{
  running_for-append, known_for, any_disturbs, any_disturbs-append,
}

-- The flow's entry is the element at an address, which is the entry of no other flow, and no packet
-- on its way disturbs it.
pub record IsSettled (key : IpKey) (element : ℕ) (c : Cpus) : Type 0 where
  pub entry : c.table key ≡ some element
  pub alone : (k : IpKey) → c.table k ≡ some element → k ≡ key
  pub quiet : any_disturbs key element c.running ≡ false

Access-IsSettled :
    {c c' : Cpus} (key : IpKey) (element : ℕ)
    → Access none c c'
    → IsSettled key element c
    → IsSettled key element c' × (u64 (known_for key element c') ≡ u64 (known_for key element c))
Access-IsSettled key element (finds t m ps qs k size value e) h = (
  record {
    entry = h.entry;
    alone = h.alone;
    quiet = ground (
      arith,
      e,
      h.entry,
      h.quiet,
      h.alone k,
      same_key_iff k key,
      any_disturbs-append key element ps (looking_up k size) qs,
      any_disturbs-append key element ps (found k size value) qs,
    );
  },
  ground (
    arith,
    running_for-append key ps (looking_up k size) qs,
    running_for-append key ps (found k size value) qs,
  ),
)
Access-IsSettled key element (misses t m ps qs k size e) h = (
  record {
    entry = h.entry;
    alone = h.alone;
    quiet = ground (
      arith,
      e,
      h.entry,
      h.quiet,
      same_key_iff k key,
      any_disturbs-append key element ps (looking_up k size) qs,
      any_disturbs-append key element ps (missed k size) qs,
    );
  },
  ground (
    arith,
    running_for-append key ps (looking_up k size) qs,
    running_for-append key ps (missed k size) qs,
  ),
)
Access-IsSettled key element (adds t m ps qs k size value) h =
    let rest = any_disturbs-append key element ps (found k size value) qs in
    (
      record { entry = h.entry; alone = h.alone; quiet = ground (arith, h.quiet, rest) },
      ground (arith, h.quiet, rest, running_for-append key ps (found k size value) qs),
    )
Access-IsSettled key element (writes t m ps qs k size fresh unused) h =
    let rest = any_disturbs-append key element ps (missed k size) qs in
    let other : fresh ≢ element = λ e. unused key (h.entry ∙ ap some (sym e)) in
    (
      record {
        entry = ground (arith, h.entry, h.quiet, rest);
        alone = λ j e. h.alone j (ground (arith, e, other));
        quiet = ground (arith, h.quiet, rest);
      },
      ground (arith, h.quiet, rest, other, running_for-append key ps (missed k size) qs),
    )
Access-IsSettled key element (fails t m ps qs k size e) h =
    let rest = any_disturbs-append key element ps (missed k size) qs in
    (
      record { entry = h.entry; alone = h.alone; quiet = ground (arith, h.quiet, rest) },
      ground (arith, h.quiet, rest, running_for-append key ps (missed k size) qs),
    )

-- Whatever the order of the accesses of all CPUs between two reads of the map, a flow is counted
-- exactly, modulo 2 ^ 64, if it has an entry that is in the place of no other flow's, if no packet of
-- the flow is about to write a new entry or has a pointer to another one, and if no packet of another
-- flow has a pointer to this one: what is counted and on its way at the end is what it was at the
-- start and the sizes of its packets that arrived; and all of these conditions still hold.
pub Accesses-IsSettled :
    {packets : List (IpKey × ℕ)} {c c' : Cpus} (key : IpKey) (element : ℕ)
    → Accesses packets c c'
    → IsSettled key element c
    → IsSettled key element c'
      × (u64 (known_for key element c') ≡ u64 (known_for key element c + sizes_for key packets))
Accesses-IsSettled key element (stop c) h = (h, ap u64 (omega arith))
Accesses-IsSettled key element (arrive (k, size) (arrives t m ps _ _) rest) h =
    let now : IsSettled key element
        (record { table = t; memory = m; running = looking_up k size ∷ ps }) =
      record { entry = h.entry; alone = h.alone; quiet = h.quiet } in
    let later = Accesses-IsSettled key element rest now in (later.0, later.1 ∙ ap u64 (omega arith))
Accesses-IsSettled key element (access a rest) h =
    let here = Access-IsSettled key element a h in
    let later = Accesses-IsSettled key element rest here.0 in
    (later.0, omega (arith, here.1, later.1))
