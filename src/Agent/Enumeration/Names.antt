-- ===== src/Agent/Enumeration/Names.antt =====
-- The constants of the enumerations of agent/vmlinux.h by their names.
use kubezonnet.Prelude.{
  ℕ, zero, suc, ◌≡◌, refl, String, List, [], ◌∷◌, some, Bool, true, false, ◌&&◌, not, get_elem?,
  arith,
}
use kubezonnet.Dict.{get, same, string_keys}
use kubezonnet.Agent.Enumeration.{Enumeration, number_of}
use kubezonnet.Agent.Vmlinux.Protocols.{ipproto, nf_inet_hooks, nfproto}
use kubezonnet.Agent.Vmlinux.Kinds.{
  bpf_map_type, bpf_prog_type, bpf_attach_type, bpf_link_type, bpf_cmd,
}
use kubezonnet.Agent.Vmlinux.Helpers.{bpf_func_id}

abbrev pub enumerations : List Enumeration
enumerations =
    ipproto ∷ nf_inet_hooks ∷ nfproto ∷ bpf_map_type ∷ bpf_prog_type ∷ bpf_attach_type
    ∷ bpf_link_type ∷ bpf_cmd ∷ bpf_func_id ∷ []

is_new : String → Enumeration → Bool
is_new name [] = true
is_new name ((other, n) ∷ e) = not (same other name) && is_new name e

are_distinct : Enumeration → Bool
are_distinct [] = true
are_distinct ((name, n) ∷ e) = is_new name e && are_distinct e

is_new-listed :
    (name : String) (e : Enumeration) (i : ℕ) (other : String) (n : ℕ)
    → is_new name e ≡ true
    → get_elem? e i ≡ some (other, n)
    → same name other ≡ false
unfolding is_new
is_new-listed name [] i other n h listed = ground arith
is_new-listed name ((next, m) ∷ e) zero other n h listed =
    ground (arith, string_keys.same_iff next name, string_keys.same_iff name other)
is_new-listed name ((next, m) ∷ e) (suc i) other n h listed =
    is_new-listed name e i other n (ground arith) listed

number_of-distinct :
    (e : Enumeration) (i : ℕ) (name : String) (n : ℕ)
    → are_distinct e ≡ true
    → get_elem? e i ≡ some (name, n)
    → number_of e name ≡ some n
unfolding are_distinct number_of get
number_of-distinct [] i name n h listed = ground arith
number_of-distinct ((next, m) ∷ e) zero name n h listed =
    ground (arith, string_keys.same_iff next name)
number_of-distinct ((next, m) ∷ e) (suc i) name n h listed =
    ground
      (arith, is_new-listed next e i name n, number_of-distinct e i name n (ground arith) listed)

all_distinct : List Enumeration → Bool
all_distinct [] = true
all_distinct (e ∷ es) = are_distinct e && all_distinct es

all_distinct_sound :
    (es : List Enumeration) (k : ℕ) (e : Enumeration)
    → all_distinct es ≡ true
    → get_elem? es k ≡ some e
    → are_distinct e ≡ true
unfolding all_distinct
all_distinct_sound [] k e h listed = ground arith
all_distinct_sound (d ∷ es) zero e h listed = ground arith
all_distinct_sound (d ∷ es) (suc k) e h listed = all_distinct_sound es k e (ground arith) listed

enumerations-distinct : all_distinct enumerations ≡ true
unfolding all_distinct are_distinct is_new
enumerations-distinct = refl

-- In each of the declared enumerations the number of a constant is the one that the declaration
-- gives its name: no name is declared twice.
pub number_of-listed :
    (k i : ℕ) (e : Enumeration) (name : String) (n : ℕ)
    → get_elem? enumerations k ≡ some e
    → get_elem? e i ≡ some (name, n)
    → number_of e name ≡ some n
number_of-listed k i e name n known listed =
    number_of-distinct e i name n (all_distinct_sound enumerations k e enumerations-distinct known)
      listed
