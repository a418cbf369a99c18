-- ===== src/Agent/Hook/Race.antt =====
-- The hook of agent/kubezonnet.c on several CPUs at a time: each packet first looks its flow up in
-- the map and then adds through the pointer that it has got, or writes a new element. Only these
-- accesses are atomic, and the accesses of different packets come in any order. The accesses are
-- those between two reads of the agent, which remove entries.
pub mod Running
pub mod Exact
use kubezonnet.Prelude.{
  ℕ, ◌+◌, ◌≡◌, ◌≢◌, List, [], ◌∷◌, ◌++◌, Option, none, some, if◌then◌else◌, u64, ◌==◌,
}
use kubezonnet.Payload.{IpKey}
use kubezonnet.Agent.Hook.Totals.{same_key}

-- The element that each flow's entry is, by its address.
abbrev pub Table : Type 0
Table = IpKey → Option ℕ

abbrev pub link : Table → IpKey → ℕ → Table
link table key element j = if same_key key j then some element else table j

-- What is stored at an address: the `packet_size` of the element there.
abbrev pub write : (ℕ → ℕ) → ℕ → ℕ → ℕ → ℕ
write memory element v a = if element == a then v else memory a

-- Where a packet is in `handle_v4`: before the lookup, with the pointer that the lookup returned, or
-- with none.
pub data Pending : Type 0 where
  looking_up : IpKey → ℕ → Pending
  found : IpKey → ℕ → ℕ → Pending
  missed : IpKey → ℕ → Pending

pub record Cpus : Type 0 where
  pub table : Table
  pub memory : ℕ → ℕ
  pub running : List Pending

-- One access, or a packet that arrives with its flow and size.
pub data Access : Option (IpKey × ℕ) → Cpus → Cpus → Type 0 where
  arrives :
      (t : Table) (m : ℕ → ℕ) (ps : List Pending) (key : IpKey) (size : ℕ)
      → Access
          (some (key, size))
          (record { table = t; memory = m; running = ps })
          (record { table = t; memory = m; running = looking_up key size ∷ ps })
  finds :
      (t : Table) (m : ℕ → ℕ) (ps qs : List Pending) (key : IpKey) (size value : ℕ)
      → t key ≡ some value
      → Access none
          (record { table = t; memory = m; running = ps ++ (looking_up key size ∷ qs) })
          (record { table = t; memory = m; running = ps ++ (found key size value ∷ qs) })
  misses :
      (t : Table) (m : ℕ → ℕ) (ps qs : List Pending) (key : IpKey) (size : ℕ)
      → t key ≡ none
      → Access none
          (record { table = t; memory = m; running = ps ++ (looking_up key size ∷ qs) })
          (record { table = t; memory = m; running = ps ++ (missed key size ∷ qs) })
  -- `__sync_fetch_and_add` at the pointer, whatever the element there is by now.
  adds :
      (t : Table) (m : ℕ → ℕ) (ps qs : List Pending) (key : IpKey) (size value : ℕ)
      → Access none
          (record { table = t; memory = m; running = ps ++ (found key size value ∷ qs) })
          (record { table = t; memory = write m value (u64 (m value + size)); running = ps ++ qs })
  -- `bpf_map_update_elem` with BPF_ANY: an element that is not in use takes the place of the one
  -- that the flow may have got in the meantime, which may be used again from then on.
  writes :
      (t : Table) (m : ℕ → ℕ) (ps qs : List Pending) (key : IpKey) (size element : ℕ)
      → ((k : IpKey) → t k ≢ some element)
      → Access none
          (record { table = t; memory = m; running = ps ++ (missed key size ∷ qs) })
          (record { table = link t key element; memory = write m element size; running = ps ++ qs })
  -- The same call on a full map; its result is ignored.
  fails :
      (t : Table) (m : ℕ → ℕ) (ps qs : List Pending) (key : IpKey) (size : ℕ)
      → t key ≡ none
      → Access none
          (record { table = t; memory = m; running = ps ++ (missed key size ∷ qs) })
          (record { table = t; memory = m; running = ps ++ qs })

-- Accesses one after the other, with the packets that arrived.
pub data Accesses : List (IpKey × ℕ) → Cpus → Cpus → Type 0 where
  stop : (c : Cpus) → Accesses [] c c
  arrive :
      {packets : List (IpKey × ℕ)} {c c' c'' : Cpus} (packet : IpKey × ℕ)
      → Access (some packet) c c'
      → Accesses packets c' c''
      → Accesses (packet ∷ packets) c c''
  access :
      {packets : List (IpKey × ℕ)} {c c' c'' : Cpus}
      → Access none c c'
      → Accesses packets c' c''
      → Accesses packets c c''
