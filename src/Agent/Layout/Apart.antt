-- ===== src/Agent/Layout/Apart.antt =====
-- The members of a struct do not share bits.
use kubezonnet.Prelude.{ℕ, ◌+◌, ◌*◌, ◌≤◌, ◌≡◌, true, List, [], ◌∷◌, arith}
use kubezonnet.Agent.Layout.{
  struct_of, Fields, end, ◌◂◌, size_of, width_of, start_of, fields_end, Slot,
}
use kubezonnet.Agent.Layout.Sized.{is_sized, are_sized, le-start_of, le-struct}

-- The direct members of a struct, in order, from bit `o` on, those without a name included.
abbrev pub slots : Fields → ℕ → List Slot
slots end o = []
slots (f ◂ fs) o =
    record { first = start_of f o; width = width_of f } ∷ slots fs (start_of f o + width_of f)

-- Each slot starts where the one before it ends, or later, and the last one ends at `last` or
-- before.
abbrev pub AreApart : ℕ → List Slot → ℕ → Type 0
AreApart first [] last = first ≤ last
AreApart first (s ∷ ss) last = (first ≤ s.first) × AreApart (s.first + s.width) ss last

slots-AreApart :
    (fs : Fields) (o last : ℕ)
    → are_sized fs ≡ true
    → fields_end fs o ≤ last
    → AreApart o (slots fs o) last
unfolding size_of is_sized
slots-AreApart end o last h e = e
slots-AreApart (f ◂ fs) o last h e = (
  le-start_of f o (ground arith),
  slots-AreApart fs (start_of f o + width_of f) last (ground arith) e,
)

pub struct_of-AreApart :
    (fs : Fields)
    → is_sized (struct_of fs) ≡ true
    → AreApart 0 (slots fs 0) (8 * size_of (struct_of fs))
unfolding is_sized
struct_of-AreApart fs h = slots-AreApart fs 0 (8 * size_of (struct_of fs)) h (le-struct fs h)
