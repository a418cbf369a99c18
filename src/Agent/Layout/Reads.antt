-- ===== src/Agent/Layout/Reads.antt =====
-- Reading a member of an object in memory, on a little-endian machine.
use kubezonnet.Prelude.{
  ℕ, zero, suc, ◌+◌, ◌*◌, ◌/◌, ◌%◌, ◌^◌, ◌<◌, ◌≡◌, refl, ap, ap₂, ◌∙◌, String, Option, none, some,
  true, arith, Option-cases, inl, inr, List, get_elem?,
}
use kubezonnet.Agent.Layout.{CType, size_of, Slot, member_of}
use kubezonnet.Agent.Layout.Sized.{is_sized}
use kubezonnet.Agent.Layout.Inside.{member_of-inside}

-- The byte at an address.
abbrev pub Memory : Type 0
Memory = ℕ → ℕ

-- Memory that holds some bytes from address 0 on.
abbrev pub memory_of : List ℕ → Memory
memory_of bytes a = elim (get_elem? bytes a) [ none ↦ 0 | some b ↦ b ]

-- `n` bytes from an address on, the least significant one first.
abbrev pub load_le : Memory → ℕ → ℕ → ℕ
load_le memory zero a = 0
load_le memory (suc n) a = memory a + load_le memory n (a + 1) * 2 ^ 8

-- The bits of a slot, of the bytes that hold them.
abbrev pub read_slot : Memory → ℕ → Slot → ℕ
read_slot memory base s =
    load_le memory ((s.first % 8 + s.width + 7) / 8) (base + s.first / 8)
    / 2 ^ (s.first % 8)
    % 2 ^ s.width

-- `base->name`
unfoldable pub read_member : Memory → ℕ → CType → String → Option ℕ
read_member memory base t name = elim (member_of t name) [
  | none ↦ none
  | some s ↦ some (read_slot memory base s)
]

load_le-agree :
    (m m' : Memory) (n a : ℕ)
    → ((i : ℕ) → i < n → m (a + i) ≡ m' (a + i))
    → load_le m n a ≡ load_le m' n a
load_le-agree m m' zero a h = refl
load_le-agree m m' (suc n) a h =
    let rest =
      load_le-agree m m' n (a + 1)
        (λ i lt. ap m (omega arith) ∙ h (i + 1) (omega arith) ∙ ap m' (omega arith)) in
    ap₂ (λ x y. x + y * 2 ^ 8) (ap m (omega arith) ∙ h 0 (omega arith) ∙ ap m' (omega arith)) rest

-- The bytes that a read of a member touches are bytes of the object: two memories that have the same
-- bytes there give the same value.
pub read_member-agree :
    (m m' : Memory) (base : ℕ) (t : CType) (name : String)
    → is_sized t ≡ true
    → ((i : ℕ) → i < size_of t → m (base + i) ≡ m' (base + i))
    → read_member m base t name ≡ read_member m' base t name
unfolding read_member
read_member-agree m m' base t name h same = elim (Option-cases (member_of t name)) [
  | inl absent ↦ rw (read_member, absent)
  | inr (s, e) ↦
      let inside = member_of-inside t name s h e in
      let bytes = (s.first % 8 + s.width + 7) / 8 in
      let loaded = load_le-agree m m' bytes (base + s.first / 8) (λ i lt.
        ap m (omega arith)
        ∙ same (s.first / 8 + i) (omega (arith, inside, lt))
        ∙ ap m' (omega arith)) in
      rw (read_member, e) (ap (λ v. some (v / 2 ^ (s.first % 8) % 2 ^ s.width)) loaded)
]
