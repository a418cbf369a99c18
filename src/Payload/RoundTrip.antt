-- ===== src/Payload/RoundTrip.antt =====
-- `Encode` and `Decode` of payload/payload.go against one another.
use native.Mathlib.Nat.{mod-eq_of_lt}
use kubezonnet.Prelude.{
  ℕ, ◌+◌, ◌*◌, ◌^◌, ◌≤◌, ◌<◌, List, [], ◌∷◌, ◌++◌, ◌≡◌, refl, sym, ap, ap₂, ◌∙◌, length, take, ok,
  Slice, u32, arith, length-append, drop-append_add, append_assoc, All,
}
use kubezonnet.Payload.BigEndian.{be_value, be_bytes, be_value-be_bytes}
use kubezonnet.Payload.{IpKey, IpValue, Entry, encode, decode}
use kubezonnet.Payload.Encode.{entry_bytes, entries_bytes, wire, encode-eq-wire}
use kubezonnet.Payload.Decode.{be_at, entry_at, entries_from, decode_lem}
use kubezonnet.ByteOrder.{ntohl}

-- The fields fit their types.
pub record IsKey (key : IpKey) : Type 0 where
  pub src_ip_fits : key.src_ip < 2 ^ 32
  pub dst_ip_fits : key.dst_ip < 2 ^ 32
  pub src_port_fits : key.src_port < 2 ^ 16
  pub dst_port_fits : key.dst_port < 2 ^ 16

abbrev pub IsValue : IpValue → Type 0
IsValue value = value.packet_size < 2 ^ 64

-- What arrives: the fields, with the addresses in host byte order.
abbrev pub received : IpKey → IpValue → Entry
received key value = record {
  src_ip = ntohl key.src_ip;
  dst_ip = ntohl key.dst_ip;
  src_port = key.src_port;
  dst_port = key.dst_port;
  traffic = value.packet_size;
}

abbrev pub all_received : List IpKey → List IpValue → List Entry
all_received [] values = []
all_received (key ∷ keys) [] = []
all_received (key ∷ keys) (value ∷ values) = received key value ∷ all_received keys values

be_at-append : (k : ℕ) (p q : List ℕ) (j : ℕ) → be_at k (p ++ q) (length p + j) ≡ be_at k q j
be_at-append k p q j = ap (λ l. be_value 0 (take k l)) (drop-append_add p q j)

entry_at-append :
    (key : IpKey) (value : IpValue) (p q : List ℕ) (o : ℕ)
    → o ≡ length p
    → IsKey key
    → IsValue value
    → entry_at (p ++ (entry_bytes key value ++ q)) o ≡ received key value
entry_at-append key value p q o e hk hv =
    let b = entry_bytes key value ++ q in
    rw (e) ground (
      arith,
      ap ntohl (be_at-append 4 p b 0 ∙ be_value-be_bytes 4 key.src_ip hk.src_ip_fits),
      ap ntohl (be_at-append 4 p b 4 ∙ be_value-be_bytes 4 key.dst_ip hk.dst_ip_fits),
      be_at-append 2 p b 8 ∙ be_value-be_bytes 2 key.src_port hk.src_port_fits,
      be_at-append 2 p b 10 ∙ be_value-be_bytes 2 key.dst_port hk.dst_port_fits,
      be_at-append 8 p b 12 ∙ be_value-be_bytes 8 value.packet_size hv,
    )

entries_from-append :
    (keys : List IpKey) (values : List IpValue) (i : ℕ) (p : List ℕ)
    → 4 + 20 * i ≡ length p
    → All IsKey keys
    → All IsValue values
    → length keys ≤ length values
    → entries_from (p ++ entries_bytes keys values) (length keys) i ≡ all_received keys values
entries_from-append [] values i p e hk hv h = refl
entries_from-append (key ∷ keys) [] i p e hk hv h = absurd (omega arith)
entries_from-append (key ∷ keys) (value ∷ values) i p e hk hv h =
    let b = entry_bytes key value in
    let rest = entries_bytes keys values in
    ap₂ ◌∷◌ (entry_at-append key value p rest (4 + 20 * i) e hk.0 hv.0) (
      ap (λ l. entries_from l (length keys) (i + 1)) (sym (append_assoc p b rest))
      ∙ entries_from-append keys values (i + 1) (p ++ b) (omega (arith, length-append p b)) hk.1
          hv.1 (omega arith))

length-entries_bytes :
    (keys : List IpKey) (values : List IpValue)
    → length keys ≤ length values
    → length (entries_bytes keys values) ≡ 20 * length keys
length-entries_bytes [] values h = refl
length-entries_bytes (key ∷ keys) [] h = absurd (omega arith)
length-entries_bytes (key ∷ keys) (value ∷ values) h = omega (
  arith,
  length-append (entry_bytes key value) (entries_bytes keys values),
  length-entries_bytes keys values (omega arith),
)

-- If every key has a value, the fields fit their types and the buffer, with the spare capacity
-- behind it, ends below 2 ^ 32 - 20, then `Encode` returns a buffer that `Decode` reads without
-- error as the same flows in the same order: ports and byte counts as they were, addresses
-- converted to host byte order.
pub decode-encode :
    (keys : List IpKey) (values : List IpValue) (spare : List ℕ)
    → All IsKey keys
    → All IsValue values
    → length keys ≤ length values
    → 24 + 20 * length keys + length spare < 2 ^ 32
    → (buf : List ℕ) × (encode keys values ≡ ok buf)
      × (decode (record { items = buf; spare = spare }) ≡ ok (all_received keys values))
decode-encode keys values spare hk hv h small =
    let n = length keys in
    let header = be_bytes 4 (u32 n) in
    let buf : Slice ℕ = record { items = wire keys values; spare = spare } in
    let size = length-entries_bytes keys values h in
    let counted : be_at 4 buf.items 0 ≡ n =
      be_value-be_bytes 4 (u32 n) (omega arith) ∙ mod-eq_of_lt (omega arith) in
    (
      wire keys values,
      encode-eq-wire keys values ∙ ground arith,
      decode_lem buf (omega arith)
          ∙ rw (counted)
              (ground (arith, size, entries_from-append keys values 0 header refl hk hv h)),
    )
