-- ===== src/Agent/Node/Posted.antt =====
-- What can be read of a flow in the bodies that agent/agent.go posts.
use kubezonnet.Prelude.{
  ℕ, ◌+◌, ◌^◌, ◌<◌, ◌≡◌, refl, ap, sym, ◌∙◌, List, [], ◌∷◌, Bool, ◌&&◌, ◌==◌, if◌then◌else◌, ok,
  panic, err, All, arith,
}
use kubezonnet.ByteOrder.{htonl, ntohl}
use kubezonnet.ByteOrder.Laws.{ntohl-htonl}
use kubezonnet.Payload.{IpKey, IpValue, Entry, decode}
use kubezonnet.Payload.RoundTrip.{IsKey, all_received}
use kubezonnet.Agent.Hook.Totals.{same_key_iff}
use kubezonnet.Agent.Node.Carried.{Carry, nothing, carry}
use kubezonnet.Agent.Sizes.{sizes_for, pairs, sizes_for-append}

-- The entry is of the flow, with its addresses in host byte order.
abbrev pub is_of : IpKey → Entry → Bool
is_of key entry =
    entry.src_ip == ntohl key.src_ip
    && entry.dst_ip == ntohl key.dst_ip
    && entry.src_port == key.src_port
    && entry.dst_port == key.dst_port

abbrev pub entries_for : IpKey → List Entry → ℕ
entries_for key [] = 0
entries_for key (entry ∷ entries) =
    (if is_of key entry then entry.traffic else 0) + entries_for key entries

-- What the server can read of a flow in a body, and in some bodies.
abbrev pub body_for : IpKey → List ℕ → ℕ
body_for key body = elim (decode (record { items = body; spare = [] })) [
  | ok entries ↦ entries_for key entries
  | err e ↦ 0
  | panic ↦ 0
]

abbrev pub posted_for : IpKey → List (List ℕ) → ℕ
posted_for key [] = 0
posted_for key (body ∷ bodies) = body_for key body + posted_for key bodies

ntohl-injective : (x y : ℕ) → x < 2 ^ 32 → y < 2 ^ 32 → ntohl x ≡ ntohl y → x ≡ y
ntohl-injective x y hx hy e = sym (ntohl-htonl x hx).1 ∙ ap htonl e ∙ (ntohl-htonl y hy).1

entries_for-all_received :
    (key : IpKey) (keys : List IpKey) (values : List IpValue)
    → IsKey key
    → All IsKey keys
    → entries_for key (all_received keys values) ≡ sizes_for key (pairs keys values)
entries_for-all_received key [] values h hs = refl
entries_for-all_received key (k ∷ keys) [] h hs = refl
entries_for-all_received key (k ∷ keys) (value ∷ values) h hs = ground (
  arith,
  entries_for-all_received key keys values h hs.1,
  same_key_iff k key,
  ntohl-injective k.src_ip key.src_ip hs.0.src_ip_fits h.src_ip_fits,
  ntohl-injective k.dst_ip key.dst_ip hs.0.dst_ip_fits h.dst_ip_fits,
)

pub posted_for-Carry :
    (key : IpKey) {bodies : List (List ℕ)} {carried : List (IpKey × ℕ)}
    → IsKey key
    → Carry [] bodies carried
    → posted_for key bodies ≡ sizes_for key carried
posted_for-Carry key h nothing = refl
posted_for-Carry key h (carry {bodies} {rest} content keys values decoded fit more) =
    let entries = entries_for-all_received key keys values h fit in
    let here : body_for key content ≡ sizes_for key (pairs keys values) =
      rw (body_for, decoded) entries in
    omega (arith, here, posted_for-Carry key h more, sizes_for-append key (pairs keys values) rest)
