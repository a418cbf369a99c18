-- ===== src/Agent/Vmlinux/Apart.antt =====
-- agent/vmlinux.h: the members of the structs do not share bits.
use kubezonnet.Prelude.{ℕ, ◌*◌, ◌≡◌, some, get_elem?}
use kubezonnet.Agent.Layout.{struct_of, Fields, size_of}
use kubezonnet.Agent.Layout.Apart.{slots, AreApart, struct_of-AreApart}
use kubezonnet.Agent.Vmlinux.Types.{kernel_types, kernel_types-is_sized}

-- The members of each of the declared structs lie one behind the other, in the order of the
-- declaration and without a bit in common, from the start of the struct to its size; a struct or
-- union without a name inside another counts as one member.
pub kernel_types-AreApart :
    (i : ℕ) (fs : Fields)
    → get_elem? kernel_types i ≡ some (struct_of fs)
    → AreApart 0 (slots fs 0) (8 * size_of (struct_of fs))
kernel_types-AreApart i fs listed =
    struct_of-AreApart fs (kernel_types-is_sized i (struct_of fs) listed)
