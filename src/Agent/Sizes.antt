-- ===== src/Agent/Sizes.antt =====
-- Flows with sizes, as the packets of agent/kubezonnet.c give them and as the batches of
-- agent/agent.go carry them: a flow may come more than once.
pub mod Agree
use kubezonnet.Prelude.{ℕ, ◌+◌, ◌≡◌, refl, List, [], ◌∷◌, ◌++◌, Bool, if◌then◌else◌, arith}
use kubezonnet.Payload.{IpKey, IpValue}
use kubezonnet.Agent.Hook.Totals.{same_key}

-- The size, if it is of the flow.
abbrev pub size_for : IpKey → IpKey × ℕ → ℕ
size_for key (k, size) = if same_key k key then size else 0

abbrev pub sizes_for : IpKey → List (IpKey × ℕ) → ℕ
sizes_for key [] = 0
sizes_for key (p ∷ ps) = size_for key p + sizes_for key ps

-- The sizes of all flows with some property.
abbrev pub sizes_where : (IpKey → Bool) → List (IpKey × ℕ) → ℕ
sizes_where test [] = 0
sizes_where test ((key, size) ∷ ps) = (if test key then size else 0) + sizes_where test ps

-- The keys and values of a batch, side by side.
abbrev pub pairs : List IpKey → List IpValue → List (IpKey × ℕ)
pairs [] values = []
pairs (key ∷ keys) [] = []
pairs (key ∷ keys) (value ∷ values) = (key, value.packet_size) ∷ pairs keys values

pub sizes_for-append :
    (key : IpKey) (ps qs : List (IpKey × ℕ))
    → sizes_for key (ps ++ qs) ≡ sizes_for key ps + sizes_for key qs
sizes_for-append key [] qs = omega arith
sizes_for-append key (p ∷ ps) qs = omega (arith, sizes_for-append key ps qs)

pub sizes_where-append :
    (test : IpKey → Bool) (ps qs : List (IpKey × ℕ))
    → sizes_where test (ps ++ qs) ≡ sizes_where test ps + sizes_where test qs
sizes_where-append test [] qs = omega arith
sizes_where-append test (p ∷ ps) qs = omega (arith, sizes_where-append test ps qs)
