-- ===== src/Net.antt =====
-- What agent/agent.go and cmd/server/main.go use of Go's `net`, `strings` and `strconv`: an
-- address as its bytes, its text, `strings.Split` at dots, `strconv.Atoi` on decimal digits, and
-- the bytes of a prefix mask. `net.ParseIP` and `net.ParseCIDR` are parameters where they are
-- called.
pub mod Laws
use kubezonnet.Prelude.{
  ℕ, zero, suc, ◌+◌, ◌-◌, ◌*◌, ◌/◌, ◌%◌, ◌^◌, List, [], ◌∷◌, ◌++◌, Option, none, some, Bool, true,
  false, ◌&&◌, leb, ◌==◌, if◌then◌else◌,
}

-- `net.IP`: the bytes of an address, 4 or 16 of them.
abbrev pub Ip : Type 0
Ip = List ℕ

pub record Quad : Type 0 where
  pub a : ℕ
  pub b : ℕ
  pub c : ℕ
  pub d : ℕ

-- `To4`: a 4-byte address, or the end of an IPv4 address in 16-byte form.
unfoldable pub to4 : Ip → Option Quad
to4 (a ∷ b ∷ c ∷ d ∷ []) = some (record { a = a; b = b; c = c; d = d })
to4 (z0 ∷ z1 ∷ z2 ∷ z3 ∷ z4 ∷ z5 ∷ z6 ∷ z7 ∷ z8 ∷ z9 ∷ f0 ∷ f1 ∷ a ∷ b ∷ c ∷ d ∷ []) =
    if z0 == 0
      && z1 == 0
      && z2 == 0
      && z3 == 0
      && z4 == 0
      && z5 == 0
      && z6 == 0
      && z7 == 0
      && z8 == 0
      && z9 == 0
      && f0 == 0xff
      && f1 == 0xff
    then some (record { a = a; b = b; c = c; d = d })
    else none
to4 _ = none

-- The decimal text of a byte.
unfoldable pub decimal : ℕ → List ℕ
decimal n =
    if leb 100 n
    then (b'0' + n / 100) ∷ (b'0' + n / 10 % 10) ∷ (b'0' + n % 10) ∷ []
    else if leb 10 n
    then (b'0' + n / 10) ∷ (b'0' + n % 10) ∷ []
    else (b'0' + n) ∷ []

-- `String` of an address; `v6_text` prints the ones that are not IPv4.
unfoldable pub ip_string : (Ip → List ℕ) → Ip → List ℕ
ip_string v6_text ip = elim (to4 ip) [
  | some q ↦ decimal q.a ++ (b'.' ∷ (decimal q.b ++ (b'.' ∷ (decimal q.c ++ (b'.' ∷ decimal q.d)))))
  | none ↦ v6_text ip
]

abbrev cons_head : ℕ → List (List ℕ) → List (List ℕ)
cons_head c [] = (c ∷ []) ∷ []
cons_head c (part ∷ parts) = (c ∷ part) ∷ parts

-- `strings.Split(s, ".")`
unfoldable pub split_dots : List ℕ → List (List ℕ)
split_dots [] = [] ∷ []
split_dots (c ∷ s) = let rest = split_dots s in if c == b'.' then [] ∷ rest else cons_head c rest

unfoldable pub digits_from : ℕ → List ℕ → Option ℕ
digits_from acc [] = some acc
digits_from acc (c ∷ s) =
    let rest = digits_from (acc * 10 + (c - b'0')) s in
    if leb b'0' c && leb c b'9' then rest else none

-- `strconv.Atoi` on a text without a sign that fits an int: `none` is its error.
unfoldable pub atoi : List ℕ → Option ℕ
unfolding digits_from
atoi [] = none
atoi (c ∷ s) = digits_from 0 (c ∷ s)

-- `net.CIDRMask`: `l` bytes, the first `n` bits set.
unfoldable pub cidr_mask : ℕ → ℕ → List ℕ
cidr_mask n zero = []
cidr_mask n (suc l) = (if leb 8 n then 0xff else 0xff - 0xff / 2 ^ n) ∷ cidr_mask (n - 8) l
