-- ===== src/Agent/Tests/Cell.antt =====
-- A map with room for one flow, in place of the kernel's map of agent/kubezonnet.c.
use kubezonnet.Prelude.{
  ℕ, zero, suc, ◌<◌, ◌≡◌, ◌≢◌, not, ◌^◌, refl, ◌∷◌, Option, none, some, Bool, true, false,
  if◌then◌else◌, length, replicate, length-replicate, take, ◌≤◌, arith, All, ap, Bool-cases, inl,
  inr,
}
use kubezonnet.Payload.{IpKey, IpValue}
use kubezonnet.Payload.RoundTrip.{IsKey, IsValue}
use kubezonnet.Agent.Hook.{MapOps}
use kubezonnet.Agent.Hook.Totals.{same_key, same_key_iff, MapLaws, total}
use kubezonnet.Agent.Collection.{Batch, key_not_exist}
use kubezonnet.Agent.Node.{max_entries, BatchRead, ReadsToEnd}
use kubezonnet.Agent.Sizes.{sizes_for, pairs}

abbrev pub Cell : Type 0
Cell = Option (IpKey × ℕ)

abbrev pub cell_lookup : Cell → IpKey → Option ℕ
cell_lookup none key = none
cell_lookup (some (k, v)) key = if same_key k key then some v else none

abbrev pub cell_update : Cell → IpKey → ℕ → Cell
cell_update none key v = some (key, v)
cell_update (some (k, w)) key v = if same_key k key then some (key, v) else some (k, w)

abbrev pub cell_refuses : Cell → IpKey → Bool
cell_refuses none key = false
cell_refuses (some (k, w)) key = not (same_key k key)

abbrev pub result_of : Cell → IpKey → ℕ
result_of m key = if cell_refuses m key then 1 else 0

abbrev pub cell_ops : MapOps Cell
cell_ops = record {
  lookup = cell_lookup;
  store = cell_update;
  update = λ m key v. (cell_update m key v, result_of m key);
}

abbrev pub cell_full : Cell → Bool
cell_full none = false
cell_full (some entry) = true

pub lookup-cell_store :
    (m : Cell) (k : IpKey) (w v : ℕ) (j : IpKey)
    → cell_lookup m k ≡ some w
    → cell_lookup (cell_update m k v) j ≡ (if same_key k j then some v else cell_lookup m j)
lookup-cell_store none k w v j e = refl
lookup-cell_store (some (k0, v0)) k w v j e = ground (arith, same_key_iff k0 k)

pub lookup-cell_update :
    (m : Cell) (k : IpKey) (v : ℕ) (j : IpKey)
    → cell_lookup m k ≡ none
    → cell_full m ≡ false
    → cell_lookup (cell_update m k v) j ≡ (if same_key k j then some v else cell_lookup m j)
lookup-cell_update none k v j e room = refl
lookup-cell_update (some entry) k v j e room = ground arith

pub cell_update_full :
    (m : Cell) (k : IpKey) (v : ℕ)
    → cell_lookup m k ≡ none
    → cell_full m ≡ true
    → (cell_update m k v ≡ m) × (result_of m k ≢ 0)
cell_update_full none k v e no_room = ground arith
cell_update_full (some (k0, v0)) k v e no_room = ground arith

unfoldable pub cell_laws : MapLaws cell_ops
cell_laws = record {
  full = cell_full;
  lookup-store = lookup-cell_store;
  lookup-update = lookup-cell_update;
  update_full = cell_update_full;
}

abbrev pub IsCell : Cell → Type 0
IsCell none = Unit
IsCell (some (k, v)) = IsKey k × (v < 2 ^ 64)

pub cell_update-IsCell :
    (m : Cell) (k : IpKey) (v : ℕ) → IsKey k → v < 2 ^ 64 → IsCell m → IsCell (cell_update m k v)
cell_update-IsCell none k v h fits valid = (h, fits)
cell_update-IsCell (some (k0, w)) k v h fits valid = elim (Bool-cases (same_key k0 k)) [
  | inl here ↦ rw (here) (h, fits)
  | inr elsewhere ↦ rw (elsewhere) valid
]

-- The slices that the agent reads into, with what they had before behind the entries read.
abbrev pub old_key : IpKey
old_key = record { src_ip = 0; dst_ip = 0; src_port = 0; dst_port = 0 }

abbrev pub old_value : IpValue
old_value = record { packet_size = 0 }

All-replicate {ℓ} : {A : Type ℓ} (P : A → Type ℓ) (n : ℕ) (x : A) → P x → All P (replicate n x)
All-replicate P zero x h = tt
All-replicate P (suc n) x h = (h, All-replicate P n x h)

abbrev pub cell_read : Cell → Batch × Cell
cell_read none = (
  record {
    n = 0;
    error = some key_not_exist;
    keys = replicate max_entries old_key;
    values = replicate max_entries old_value;
  },
  none,
)
cell_read (some (k, v)) = (
  record {
    n = 1;
    error = some key_not_exist;
    keys = k ∷ replicate 1023 old_key;
    values = record { packet_size = v } ∷ replicate 1023 old_value;
  },
  none,
)

old_key-IsKey : IsKey old_key
old_key-IsKey = record {
  src_ip_fits = omega arith;
  dst_ip_fits = omega arith;
  src_port_fits = omega arith;
  dst_port_fits = omega arith;
}

pub cell_read-keys :
    (m : Cell)
    → IsCell m
    → (length (cell_read m).0.keys ≡ max_entries) × All IsKey (cell_read m).0.keys
cell_read-keys none h =
    (length-replicate max_entries old_key, All-replicate IsKey max_entries old_key old_key-IsKey)
cell_read-keys (some (k, v)) h =
    (ap suc (length-replicate 1023 old_key), (h.0, All-replicate IsKey 1023 old_key old_key-IsKey))

pub cell_read-values :
    (m : Cell)
    → IsCell m
    → (length (cell_read m).0.values ≡ max_entries) × All IsValue (cell_read m).0.values
cell_read-values none h = (
  length-replicate max_entries old_value,
  All-replicate IsValue max_entries old_value (omega arith),
)
cell_read-values (some (k, v)) h = (
  ap suc (length-replicate 1023 old_value),
  (h.1, All-replicate IsValue 1023 old_value (omega arith)),
)

pub cell_read-fits : (m : Cell) → (cell_read m).0.n ≤ max_entries
cell_read-fits none = omega arith
cell_read-fits (some entry) = omega arith

pub cell_read-all :
    (m : Cell) (key : IpKey)
    → sizes_for key (
        pairs
          (take (cell_read m).0.n (cell_read m).0.keys)
          (take (cell_read m).0.n (cell_read m).0.values))
      ≡ total cell_ops m key
cell_read-all none key = refl
cell_read-all (some entry) key = ground arith

pub cell_read-removed : (m : Cell) (key : IpKey) → total cell_ops (cell_read m).1 key ≡ 0
cell_read-removed none key = refl
cell_read-removed (some entry) key = refl

pub cell_read-IsCell : (m : Cell) → IsCell m → IsCell (cell_read m).1
cell_read-IsCell none h = tt
cell_read-IsCell (some entry) h = tt

unfoldable pub cell_reader : BatchRead cell_ops
cell_reader = record {
  IsValid = IsCell;
  store_valid = cell_update-IsCell;
  update_valid = cell_update-IsCell;
  read = cell_read;
  read_fits = cell_read-fits;
  keys_written = cell_read-keys;
  values_written = cell_read-values;
  read_all = λ m key e. cell_read-all m key;
  removed = λ m key e. cell_read-removed m key;
  read_valid = cell_read-IsCell;
}

pub cell_reader-ReadsToEnd : ReadsToEnd cell_reader
unfolding cell_reader
cell_reader-ReadsToEnd none = refl
cell_reader-ReadsToEnd (some entry) = refl
