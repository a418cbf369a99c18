-- ===== src/Delivery/Merge.antt =====
-- The bodies of several agents as they arrive at the server of cmd/server/main.go: those of one
-- agent in their order, those of different agents in any.
use kubezonnet.Prelude.{ℕ, ◌+◌, ◌≡◌, List, [], ◌∷◌, ◌++◌, Bool, ok, All, arith}
use kubezonnet.Payload.{IpKey, IpValue, decode}
use kubezonnet.Payload.RoundTrip.{IsKey, all_received}
use kubezonnet.Agent.Sizes.{sizes_where, pairs, sizes_where-append}
use kubezonnet.Agent.Node.Carried.{Carry, nothing, carry}

pub data Merge {ℓ} {A : Type ℓ} : List A → List A → List A → Type ℓ where
  none_left : Merge [] [] []
  from_first : {xs ys zs : List A} (x : A) → Merge xs ys zs → Merge (x ∷ xs) ys (x ∷ zs)
  from_second : {xs ys zs : List A} (y : A) → Merge xs ys zs → Merge xs (y ∷ ys) (y ∷ zs)

pub data Merges {ℓ} {A : Type ℓ} : List (List A) → List A → Type ℓ where
  no_lists : Merges [] []
  one_more :
      {xss : List (List A)} {xs ys zs : List A}
      → Merges xss ys
      → Merge xs ys zs
      → Merges (xs ∷ xss) zs

-- What merged bodies carry.
pub record Merged (spare : List ℕ) (bodies : List (List ℕ)) (first second : List (IpKey × ℕ))
    : Type 0 where
  pub carried : List (IpKey × ℕ)
  pub readable : Carry spare bodies carried
  pub summed :
      (test : IpKey → Bool)
      → sizes_where test carried ≡ sizes_where test first + sizes_where test second

swap :
    {spare : List ℕ} {bodies : List (List ℕ)} {first second : List (IpKey × ℕ)}
    → Merged spare bodies first second
    → Merged spare bodies second first
swap m = record {
  carried = m.carried;
  readable = m.readable;
  summed = λ test. omega (arith, m.summed test);
}

-- One more body of the first agent, in front.
front :
    {spare : List ℕ} {bodies : List (List ℕ)} {first second : List (IpKey × ℕ)} (content : List ℕ)
    (keys : List IpKey) (values : List IpValue)
    → decode (record { items = content; spare = spare }) ≡ ok (all_received keys values)
    → All IsKey keys
    → Merged spare bodies first second
    → Merged spare (content ∷ bodies) (pairs keys values ++ first) second
front {first} content keys values decoded fit later = record {
  carried = pairs keys values ++ later.carried;
  readable = carry content keys values decoded fit later.readable;
  summed = λ test. omega (
    arith,
    later.summed test,
    sizes_where-append test (pairs keys values) later.carried,
    sizes_where-append test (pairs keys values) first,
  );
}

pub Carry-Merge :
    {spare : List ℕ} {xs ys zs : List (List ℕ)} {first second : List (IpKey × ℕ)}
    → Carry spare xs first
    → Carry spare ys second
    → Merge xs ys zs
    → Merged spare zs first second
Carry-Merge nothing nothing none_left = record {
  carried = [];
  readable = nothing;
  summed = λ test. omega arith;
}
Carry-Merge (carry content keys values decoded fit more) c (from_first _ m) =
    front content keys values decoded fit (Carry-Merge more c m)
Carry-Merge c (carry content keys values decoded fit more) (from_second _ m) =
    swap (front content keys values decoded fit (swap (Carry-Merge c more m)))
