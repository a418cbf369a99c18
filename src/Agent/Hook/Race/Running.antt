-- ===== src/Agent/Hook/Race/Running.antt =====
-- The packets on their way through agent/kubezonnet.c: how much they bring to a flow, and whether one
-- of them may disturb the flow's entry.
use kubezonnet.Prelude.{
  ℕ, ◌+◌, ◌≡◌, refl, List, [], ◌∷◌, ◌++◌, Bool, false, not, ◌||◌, ◌==◌, arith, if◌then◌else◌,
}
use kubezonnet.Payload.{IpKey}
use kubezonnet.Agent.Hook.Totals.{same_key}
use kubezonnet.Agent.Sizes.{size_for}
use kubezonnet.Agent.Hook.Race.{Pending, looking_up, found, missed, Cpus}

abbrev pub packet_of : Pending → IpKey × ℕ
packet_of (looking_up key size) = (key, size)
packet_of (found key size value) = (key, size)
packet_of (missed key size) = (key, size)

abbrev pub running_for : IpKey → List Pending → ℕ
running_for key [] = 0
running_for key (p ∷ ps) = size_for key (packet_of p) + running_for key ps

-- What is counted for a flow in the element at an address, and what is on its way.
abbrev pub known_for : IpKey → ℕ → Cpus → ℕ
known_for key element c = c.memory element + running_for key c.running

pub running_for-append :
    (key : IpKey) (ps : List Pending) (p : Pending) (qs : List Pending)
    → running_for key (ps ++ (p ∷ qs)) ≡ size_for key (packet_of p) + running_for key (ps ++ qs)
running_for-append key [] p qs = refl
running_for-append key (q ∷ ps) p qs = omega (arith, running_for-append key ps p qs)

-- A packet of the flow is about to write a new element or has the pointer to another one, or a packet
-- of another flow has the pointer to this one.
abbrev pub disturbs : IpKey → ℕ → Pending → Bool
disturbs key element (looking_up k size) = false
disturbs key element (found k size value) =
    if same_key k key then not (value == element) else value == element
disturbs key element (missed k size) = same_key k key

abbrev pub any_disturbs : IpKey → ℕ → List Pending → Bool
any_disturbs key element [] = false
any_disturbs key element (p ∷ ps) = disturbs key element p || any_disturbs key element ps

pub any_disturbs-append :
    (key : IpKey) (element : ℕ) (ps : List Pending) (p : Pending) (qs : List Pending)
    → any_disturbs key element (ps ++ (p ∷ qs))
      ≡ (disturbs key element p || any_disturbs key element (ps ++ qs))
any_disturbs-append key element [] p qs = refl
any_disturbs-append key element (q ∷ ps) p qs =
    ground (arith, any_disturbs-append key element ps p qs)
