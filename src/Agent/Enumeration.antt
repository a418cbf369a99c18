-- ===== src/Agent/Enumeration.antt =====
-- An enumeration of agent/vmlinux.h: the names of its constants with their numbers, in the order of
-- the file. Two names may have one number.
pub mod Names
use kubezonnet.Prelude.{ℕ, String, Option}
use kubezonnet.Dict.{Dict, get, string_keys}

abbrev pub Enumeration : Type 0
Enumeration = Dict String ℕ

-- The number of a constant.
unfoldable pub number_of : Enumeration → String → Option ℕ
unfolding get
number_of e name = get e name
