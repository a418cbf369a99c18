-- ===== src/Net/Laws.antt =====
-- Printing an IPv4 address and reading its parts.
use kubezonnet.Prelude.{ℕ, ◌<◌, ◌≡◌, ◌≢◌, refl, List, [], ◌∷◌, ◌++◌, some, arith, All, IsByte}
use kubezonnet.Net.{Ip, Quad, to4, decimal, ip_string, split_dots, atoi}

pub record IsQuad (q : Quad) : Type 0 where
  pub a_byte : IsByte q.a
  pub b_byte : IsByte q.b
  pub c_byte : IsByte q.c
  pub d_byte : IsByte q.d

pub atoi-decimal : (n : ℕ) → n < 256 → atoi (decimal n) ≡ some n
unfolding atoi decimal
atoi-decimal n h = ground arith

no_dots : (n : ℕ) → All (λ c. c ≢ b'.') (decimal n)
unfolding decimal
no_dots n = ground arith

split_dots-append :
    (p s : List ℕ) → All (λ c. c ≢ b'.') p → split_dots (p ++ b'.' ∷ s) ≡ p ∷ split_dots s
unfolding split_dots
split_dots-append [] s h = refl
split_dots-append (c ∷ p) s h = ground (arith, split_dots-append p s h.1)

split_dots-last : (p : List ℕ) → All (λ c. c ≢ b'.') p → split_dots p ≡ p ∷ []
unfolding split_dots
split_dots-last [] h = refl
split_dots-last (c ∷ p) h = ground (arith, split_dots-last p h.1)

-- The text of an IPv4 address splits into its four numbers.
pub split_dots-ip_string :
    (v6_text : Ip → List ℕ) (ip : Ip) (q : Quad)
    → to4 ip ≡ some q
    → split_dots (ip_string v6_text ip) ≡ decimal q.a ∷ decimal q.b ∷ decimal q.c ∷ decimal q.d ∷ []
unfolding ip_string
split_dots-ip_string v6_text ip q e = rw (
  ip_string,
  e,
  split_dots-append (decimal q.a) _ (no_dots q.a),
  split_dots-append (decimal q.b) _ (no_dots q.b),
  split_dots-append (decimal q.c) _ (no_dots q.c),
  split_dots-last (decimal q.d) (no_dots q.d),
)
