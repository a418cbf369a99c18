-- ===== src/Dict.antt =====
-- Go's `map`, and the hash map of the eBPF program: an association list with one entry for a key.
-- Go leaves the order of an iteration open: no theorem about the program depends on the order.
use kubezonnet.Prelude.{
  ℕ, String, ◌≡◌, ◌↔◌, refl, Bool, true, Option, none, some, List, [], ◌∷◌, ◌==◌, ==_iff,
  if◌then◌else◌, arith,
}
use text.Mathlib.Text.{◌==◌ as str_eq}
use text.Mathlib.TextEquality.{eq_iff}

-- Keys are compared by a test that decides equality.
pub record IsKeyType {ℓ} (K : Type ℓ) : Type ℓ where
  pub same : K → K → Bool
  pub same_iff : (a b : K) → (same a b ≡ true) ↔ (a ≡ b)

abbrev pub same {ℓ} : {K : Type ℓ} ⦃t : IsKeyType K⦄ → K → K → Bool
same ⦃t⦄ = t.same

instance abbrev pub number_keys : IsKeyType ℕ
number_keys = record { same = ◌==◌; same_iff = ==_iff }

instance abbrev pub string_keys : IsKeyType String
string_keys = record { same = str_eq; same_iff = eq_iff }

abbrev pub Dict {ℓ κ} : Type ℓ → Type κ → Type (ℓ ⊔ κ)
Dict K V = List (K × V)

-- A value that a test drops.
abbrev pub unless {κ} : {V : Type κ} → (V → Bool) → Option V → Option V
unless test none = none
unless test (some v) = if test v then none else some v

module _ {ℓ} {K : Type ℓ} ⦃t : IsKeyType K⦄ where
  pub same_refl : (k : K) → same k k ≡ true
  same_refl k = (t.same_iff k k).1 refl

module _ {ℓ κ} {K : Type ℓ} {V : Type κ} ⦃t : IsKeyType K⦄ where
  -- `v, found := m[k]`
  unfoldable pub get : Dict K V → K → Option V
  get [] k = none
  get ((j, v) ∷ m) k = if same j k then some v else get m k

  -- `m[k] = v`
  unfoldable pub put : Dict K V → K → V → Dict K V
  put [] k v = (k, v) ∷ []
  put ((j, w) ∷ m) k v = if same j k then (j, v) ∷ m else (j, w) ∷ put m k v

  -- `delete(m, k)`
  unfoldable pub delete : Dict K V → K → Dict K V
  delete [] k = []
  delete ((j, v) ∷ m) k = let rest = delete m k in if same j k then rest else (j, v) ∷ rest

  -- `for k, v := range m { if test(v) { delete(m, k) } }`
  unfoldable pub delete_where : (V → Bool) → Dict K V → Dict K V
  delete_where test [] = []
  delete_where test ((j, v) ∷ m) =
      let rest = delete_where test m in if test v then rest else (j, v) ∷ rest

  -- Each key has one entry.
  abbrev pub HasDistinctKeys : Dict K V → Type κ
  HasDistinctKeys [] = Unit
  HasDistinctKeys ((k, v) ∷ m) = (get m k ≡ none) × HasDistinctKeys m

  pub get-put :
      (m : Dict K V) (k : K) (v : V) (j : K)
      → get (put m k v) j ≡ (if same k j then some v else get m j)
  unfolding get put
  get-put [] k v j = refl
  get-put ((i, w) ∷ m) k v j =
      ground (arith, get-put m k v j, t.same_iff i k, t.same_iff i j, t.same_iff k j)

  pub get-delete :
      (m : Dict K V) (k j : K) → get (delete m k) j ≡ (if same k j then none else get m j)
  unfolding get delete
  get-delete [] k j = ground arith
  get-delete ((i, v) ∷ m) k j =
      ground (arith, get-delete m k j, t.same_iff i k, t.same_iff i j, t.same_iff k j)

  get-delete_where-none :
      (test : V → Bool) (m : Dict K V) (j : K) → get m j ≡ none → get (delete_where test m) j ≡ none
  unfolding get delete_where
  get-delete_where-none test [] j h = refl
  get-delete_where-none test ((i, v) ∷ m) j h = ground (arith, get-delete_where-none test m j)

  pub get-delete_where :
      (test : V → Bool) (m : Dict K V) (j : K)
      → HasDistinctKeys m
      → get (delete_where test m) j ≡ unless test (get m j)
  unfolding get delete_where
  get-delete_where test [] j h = refl
  get-delete_where test ((i, v) ∷ m) j h = ground (
    arith,
    get-delete_where test m j h.1,
    get-delete_where-none test m i h.0,
    get-delete_where-none test m j,
    t.same_iff i j,
  )

  pub put-HasDistinctKeys :
      (m : Dict K V) (k : K) (v : V) → HasDistinctKeys m → HasDistinctKeys (put m k v)
  unfolding get put
  put-HasDistinctKeys [] k v h = (refl, tt)
  put-HasDistinctKeys ((i, w) ∷ m) k v h =
      ground (arith, put-HasDistinctKeys m k v h.1, get-put m k v i, t.same_iff i k, t.same_iff k i)

  pub delete-HasDistinctKeys :
      (m : Dict K V) (k : K) → HasDistinctKeys m → HasDistinctKeys (delete m k)
  unfolding delete
  delete-HasDistinctKeys [] k h = tt
  delete-HasDistinctKeys ((i, w) ∷ m) k h =
      ground (arith, delete-HasDistinctKeys m k h.1, get-delete m k i)

  pub delete_where-HasDistinctKeys :
      (test : V → Bool) (m : Dict K V) → HasDistinctKeys m → HasDistinctKeys (delete_where test m)
  unfolding delete_where
  delete_where-HasDistinctKeys test [] h = tt
  delete_where-HasDistinctKeys test ((i, w) ∷ m) h =
      ground (arith, delete_where-HasDistinctKeys test m h.1, get-delete_where-none test m i h.0)

pub ruleset dict_laws = (get-put, get-delete, same_refl)
