-- ===== src/Agent/Sizes/Agree.antt =====
-- Two lists that have the same sum for each flow have the same sum for each set of flows.
use kubezonnet.Prelude.{
  ℕ, zero, suc, ◌+◌, ◌≤◌, ◌≡◌, refl, sym, ◌∙◌, List, [], ◌∷◌, Bool, true, if◌then◌else◌, length,
  arith,
}
use kubezonnet.Payload.{IpKey}
use kubezonnet.Agent.Hook.Totals.{same_key, same_key_iff}
use kubezonnet.Agent.Sizes.{sizes_for, sizes_where}

-- The other flows, and those with a property.
abbrev without : IpKey → List (IpKey × ℕ) → List (IpKey × ℕ)
without key [] = []
without key ((k, size) ∷ ps) =
    let rest = without key ps in if same_key k key then rest else (k, size) ∷ rest

abbrev only : (IpKey → Bool) → List (IpKey × ℕ) → List (IpKey × ℕ)
only test [] = []
only test ((k, size) ∷ ps) = let rest = only test ps in if test k then (k, size) ∷ rest else rest

length-without : (key : IpKey) (ps : List (IpKey × ℕ)) → length (without key ps) ≤ length ps
length-without key [] = omega arith
length-without key ((k, size) ∷ ps) = ground (arith, length-without key ps)

sizes_for-without :
    (key j : IpKey) (ps : List (IpKey × ℕ))
    → sizes_for j (without key ps) ≡ (if same_key key j then 0 else sizes_for j ps)
sizes_for-without key j [] = ground arith
sizes_for-without key j ((k, size) ∷ ps) =
    ground
      (arith, sizes_for-without key j ps, same_key_iff k key, same_key_iff k j, same_key_iff key j)

sizes_where-without :
    (test : IpKey → Bool) (key : IpKey) (ps : List (IpKey × ℕ))
    → sizes_where test ps
      ≡ (if test key then sizes_for key ps else 0) + sizes_where test (without key ps)
sizes_where-without test key [] = ground arith
sizes_where-without test key ((k, size) ∷ ps) =
    ground (arith, sizes_where-without test key ps, same_key_iff k key)

sizes_where_zero :
    (test : IpKey → Bool) (ps : List (IpKey × ℕ))
    → ((key : IpKey) → sizes_for key ps ≡ 0)
    → sizes_where test ps ≡ 0
sizes_where_zero test [] h = refl
sizes_where_zero test ((k, size) ∷ ps) h =
    let rest = sizes_where_zero test ps (λ key. omega (arith, h key)) in
    ground (arith, h k, same_key_iff k k, rest)

-- `n` bounds the length of the first list, which loses a flow in each round.
agree_all :
    (n : ℕ) (test : IpKey → Bool) (ps qs : List (IpKey × ℕ))
    → length ps ≤ n
    → ((key : IpKey) → sizes_for key ps ≡ sizes_for key qs)
    → sizes_where test ps ≡ sizes_where test qs
agree_all n test [] qs small h = sym (sizes_where_zero test qs (λ key. sym (h key)))
agree_all zero test (p ∷ ps) qs small h = absurd (omega arith)
agree_all (suc n) test ((k, size) ∷ ps) qs small h =
    let rest =
      agree_all n test (without k ((k, size) ∷ ps)) (without k qs)
        (ground (arith, length-without k ps, same_key_iff k k))
        (λ key.
          sizes_for-without k key ((k, size) ∷ ps)
          ∙ ground (arith, h key)
          ∙ sym (sizes_for-without k key qs)) in
    ground
      (arith, rest, h k, sizes_where-without test k ((k, size) ∷ ps), sizes_where-without test k qs)

sizes_for-only :
    (test : IpKey → Bool) (key : IpKey) (ps : List (IpKey × ℕ))
    → sizes_for key (only test ps) ≡ (if test key then sizes_for key ps else 0)
sizes_for-only test key [] = ground arith
sizes_for-only test key ((k, size) ∷ ps) =
    ground (arith, sizes_for-only test key ps, same_key_iff k key)

sizes_where-only :
    (test : IpKey → Bool) (ps : List (IpKey × ℕ))
    → sizes_where test (only test ps) ≡ sizes_where test ps
sizes_where-only test [] = refl
sizes_where-only test ((k, size) ∷ ps) = ground (arith, sizes_where-only test ps)

pub sizes_where-agree :
    (test : IpKey → Bool) (ps qs : List (IpKey × ℕ))
    → ((key : IpKey) → test key ≡ true → sizes_for key ps ≡ sizes_for key qs)
    → sizes_where test ps ≡ sizes_where test qs
sizes_where-agree test ps qs h =
    sym (sizes_where-only test ps)
    ∙ agree_all (length (only test ps)) test (only test ps) (only test qs) (omega arith) (λ key.
      sizes_for-only test key ps ∙ ground (arith, h key) ∙ sym (sizes_for-only test key qs))
    ∙ sizes_where-only test qs

-- A flow is among those with the property, so that its sum is not greater.
pub sizes_for-le :
    (test : IpKey → Bool) (key : IpKey) (ps : List (IpKey × ℕ))
    → test key ≡ true
    → sizes_for key ps ≤ sizes_where test ps
sizes_for-le test key [] h = omega arith
sizes_for-le test key ((k, size) ∷ ps) h =
    ground (arith, sizes_for-le test key ps h, same_key_iff k key)
