-- ===== src/Agent/Tests/Race.antt =====
-- Two packets on two CPUs in the hook of agent/kubezonnet.c.
use kubezonnet.Prelude.{ℕ, ◌+◌, ◌≡◌, refl, List, [], ◌∷◌, none, some, u64, arith}
use kubezonnet.Payload.{IpKey}
use kubezonnet.Agent.Hook.Totals.{same_key, same_key_iff}
use kubezonnet.Agent.Hook.Race.{
  Table, link, write, Pending, looking_up, found, missed, Cpus, arrives, finds, misses, adds,
  writes, Accesses, stop, arrive, access,
}
use kubezonnet.Agent.Sizes.{sizes_for}
use kubezonnet.Agent.Hook.Race.Running.{known_for}
use kubezonnet.Agent.Hook.Race.Exact.{IsSettled, Accesses-IsSettled}
use kubezonnet.Agent.Tests.{sample_key}

abbrev no_table : Table
no_table key = none

abbrev zeros : ℕ → ℕ
zeros a = 0

abbrev cpus : Table → (ℕ → ℕ) → List Pending → Cpus
cpus t m ps = record { table = t; memory = m; running = ps }

abbrev packets : List (IpKey × ℕ)
packets = (sample_key, 1500) ∷ (sample_key, 40) ∷ []

abbrev one_entry : Table
one_entry = link no_table sample_key 0

abbrev at_zero : ℕ → ℕ
at_zero = write zeros 0 1500

abbrev two_entries : Table
two_entries = link one_entry sample_key 1

abbrev at_one : ℕ → ℕ
at_one = write at_zero 1 40

-- Both packets miss, and the element of the second one takes the place of the first one's.
lost_update : Accesses packets (cpus no_table zeros []) (cpus two_entries at_one [])
unfolding same_key
lost_update =
    arrive (sample_key, 1500) (arrives no_table zeros [] sample_key 1500)
      (arrive (sample_key, 40)
        (arrives no_table zeros (looking_up sample_key 1500 ∷ []) sample_key 40)
        (access (misses no_table zeros [] (looking_up sample_key 1500 ∷ []) sample_key 40 refl) (
          access (misses no_table zeros (missed sample_key 40 ∷ []) [] sample_key 1500 refl) (
            access
              (writes no_table zeros (missed sample_key 40 ∷ []) [] sample_key 1500 0
                (λ k e. ground (arith, e)))
              (access (writes one_entry at_zero [] [] sample_key 40 1 (λ k e. ground (arith, e)))
                (stop _))))))

lost_bytes : (two_entries sample_key ≡ some 1) × (at_one 1 ≡ 40)
unfolding same_key
lost_bytes = (refl, refl)

abbrev seven : ℕ → ℕ
seven = write zeros 0 7

abbrev both_added : ℕ → ℕ
both_added = write (write seven 0 1507) 0 1547

-- The flow has an entry: both packets find it, and add to it in the other order.
both_found : Accesses packets (cpus one_entry seven []) (cpus one_entry both_added [])
unfolding same_key
both_found =
    arrive (sample_key, 1500) (arrives one_entry seven [] sample_key 1500)
      (arrive (sample_key, 40)
        (arrives one_entry seven (looking_up sample_key 1500 ∷ []) sample_key 40)
        (access (finds one_entry seven [] (looking_up sample_key 1500 ∷ []) sample_key 40 0 refl) (
          access (finds one_entry seven (found sample_key 40 0 ∷ []) [] sample_key 1500 0 refl) (
            access (adds one_entry seven (found sample_key 40 0 ∷ []) [] sample_key 1500 0)
              (access (adds one_entry (write seven 0 1507) [] [] sample_key 40 0) (stop _))))))

one_entry-IsSettled : IsSettled sample_key 0 (cpus one_entry seven [])
unfolding same_key
one_entry-IsSettled = record {
  entry = refl;
  alone = λ k e. ground (arith, e, same_key_iff sample_key k);
  quiet = refl;
}

Accesses-IsSettled_example :
    IsSettled sample_key 0 (cpus one_entry both_added [])
    × (u64 (known_for sample_key 0 (cpus one_entry both_added []))
        ≡ u64 (known_for sample_key 0 (cpus one_entry seven []) + sizes_for sample_key packets))
Accesses-IsSettled_example = Accesses-IsSettled sample_key 0 both_found one_entry-IsSettled
