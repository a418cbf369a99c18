-- ===== src/Payload/Encode.antt =====
-- `Encode` of payload/payload.go writes into a buffer of its own, in place: here its result is
-- the concatenation of a header and the bytes of each entry.
use Prim.Native.Nat.add
use native.Mathlib.Nat.{add_assoc, suc-add}
use kubezonnet.Prelude.{
  ℕ, zero, suc, ◌+◌, ◌*◌, ◌≤◌, List, [], ◌∷◌, ◌++◌, none, some, ◌≡◌, refl, ap, ◌∙◌, leb,
  if◌then◌else◌, length, get_elem?, take, drop, replicate, ok, panic, ◌>>=◌, u32, arith,
  length-append, append_assoc, take-append_add, drop-append_add,
}
use kubezonnet.Payload.BigEndian.{be_bytes}
use kubezonnet.Payload.{IpKey, IpValue, put, value_at, encode_entry, encode_from, encode}

-- The 20 bytes of an entry.
abbrev pub entry_bytes : IpKey → IpValue → List ℕ
entry_bytes key value =
    be_bytes 4 key.src_ip
    ++ (be_bytes 4 key.dst_ip
        ++ (be_bytes 2 key.src_port ++ (be_bytes 2 key.dst_port ++ be_bytes 8 value.packet_size)))

-- The entries of the keys in order, each with the value of its index; spare values are left out.
abbrev pub entries_bytes : List IpKey → List IpValue → List ℕ
entries_bytes [] values = []
entries_bytes (key ∷ keys) [] = []
entries_bytes (key ∷ keys) (value ∷ values) = entry_bytes key value ++ entries_bytes keys values

abbrev pub wire : List IpKey → List IpValue → List ℕ
wire keys values = be_bytes 4 (u32 (length keys)) ++ entries_bytes keys values

abbrev overwrite : ℕ → List ℕ → List ℕ → List ℕ
overwrite j xs q = take j q ++ (xs ++ drop (j + length xs) q)

put_inside :
    (buf xs : List ℕ) (lo hi : ℕ)
    → hi ≡ lo + length xs
    → hi ≤ length buf
    → put buf lo hi xs ≡ ok (overwrite lo xs buf)
unfolding put
put_inside buf xs lo hi e h = ground arith

overwrite-append :
    (p q xs : List ℕ) (j : ℕ) → overwrite (length p + j) xs (p ++ q) ≡ p ++ overwrite j xs q
overwrite-append p q xs j = rw (
  take-append_add p q j,
  add_assoc (length p) j (length xs),
  drop-append_add p q (j + length xs),
  append_assoc p (take j q) (xs ++ drop (j + length xs) q),
)

put-append :
    (p q xs : List ℕ) (lo hi j : ℕ)
    → lo ≡ length p + j
    → hi ≡ lo + length xs
    → j + length xs ≤ length q
    → put (p ++ q) lo hi xs ≡ ok (p ++ overwrite j xs q)
put-append p q xs lo hi j el eh fits =
    put_inside (p ++ q) xs lo hi eh (omega (arith, length-append p q))
    ∙ ap (λ n. ok (overwrite n xs (p ++ q))) el
    ∙ ap ok (overwrite-append p q xs j)

abbrev blank : List ℕ → List ℕ
blank q = replicate 20 0 ++ q

-- What a round has written before it reads the value.
abbrev ports_written : IpKey → List ℕ → List ℕ
ports_written key q = overwrite 10 (be_bytes 2 key.dst_port) (
    overwrite 8 (be_bytes 2 key.src_port)
      (overwrite 4 (be_bytes 4 key.dst_ip) (overwrite 0 (be_bytes 4 key.src_ip) (blank q))))

encode_entry_lem :
    (key : IpKey) (values : List IpValue) (i : ℕ) (p q : List ℕ)
    → encode_entry key values i (length p) (p ++ blank q) ≡ (
        value_at values i >>= λ value.
        put
          (p ++ ports_written key q)
          (length p + 12)
          (length p + 20)
          (be_bytes 8 value.packet_size))
unfolding encode_entry
encode_entry_lem key values i p q =
    let s = be_bytes 4 key.src_ip in
    let d = be_bytes 4 key.dst_ip in
    let sp = be_bytes 2 key.src_port in
    let dp = be_bytes 2 key.dst_port in
    let q1 = overwrite 0 s (blank q) in
    let q2 = overwrite 4 d q1 in
    let q3 = overwrite 8 sp q2 in
    rw (
      put-append p (blank q) s (length p) (length p + 4) 0 (omega arith) refl (omega arith),
      put-append p q1 d (length p + 4) (length p + 8) 4 refl (omega arith) (omega arith),
      put-append p q2 sp (length p + 8) (length p + 10) 8 refl (omega arith) (omega arith),
      put-append p q3 dp (length p + 10) (length p + 12) 10 refl (omega arith) (omega arith),
    )

encode_entry-some :
    (key : IpKey) (values : List IpValue) (i : ℕ) (value : IpValue) (p q : List ℕ)
    → get_elem? values i ≡ some value
    → encode_entry key values i (length p) (p ++ blank q) ≡ ok (p ++ (entry_bytes key value ++ q))
unfolding value_at
encode_entry-some key values i value p q e =
    rw (encode_entry_lem key values i p q, value_at, e)
      (put-append p (ports_written key q) (be_bytes 8 value.packet_size) (length p + 12)
        (length p + 20) 12 refl (omega arith) (omega arith))

encode_entry-none :
    (key : IpKey) (values : List IpValue) (i : ℕ) (p q : List ℕ)
    → get_elem? values i ≡ none
    → encode_entry key values i (length p) (p ++ blank q) ≡ panic
unfolding value_at
encode_entry-none key values i p q e = rw (encode_entry_lem key values i p q, value_at, e)

-- The element at an index is the head of what is left there.
pub get_elem?-drop :
    (i : ℕ) (values vs : List IpValue) (v : IpValue)
    → drop i values ≡ v ∷ vs
    → (get_elem? values i ≡ some v) × (drop (i + 1) values ≡ vs)
get_elem?-drop zero [] vs v e = ground arith
get_elem?-drop zero (w ∷ values) vs v e = ground arith
get_elem?-drop (suc i) [] vs v e = ground arith
get_elem?-drop (suc i) (w ∷ values) vs v e = rw suc-add (get_elem?-drop i values vs v e)

get_elem?-drop_nil :
    (i : ℕ) (values : List IpValue) → drop i values ≡ [] → get_elem? values i ≡ none
get_elem?-drop_nil zero [] e = refl
get_elem?-drop_nil zero (w ∷ values) e = ground arith
get_elem?-drop_nil (suc i) [] e = refl
get_elem?-drop_nil (suc i) (w ∷ values) e = get_elem?-drop_nil i values e

abbrev zeros : ℕ → List ℕ
zeros n = replicate n 0

zeros-add : (m n : ℕ) → zeros (m + n) ≡ zeros m ++ zeros n
zeros-add zero n = ap zeros (add.zero n)
zeros-add (suc m) n = rw suc-add (ap (◌∷◌ 0) (zeros-add m n))

blank-replicate : (n : ℕ) → zeros (20 * suc n) ≡ blank (zeros (20 * n))
blank-replicate n =
    let more : 20 * suc n ≡ 20 + 20 * n = omega arith in ap zeros more ∙ zeros-add 20 (20 * n)

-- The loop, behind `p`: it stops with a panic if the values run out.
encode_from-append :
    (keys : List IpKey) (values vs : List IpValue) (i : ℕ) (p : List ℕ)
    → drop i values ≡ vs
    → encode_from keys values i (length p) (p ++ zeros (20 * length keys))
      ≡ (if leb (length keys) (length vs) then ok (p ++ entries_bytes keys vs) else panic)
unfolding encode_from
encode_from-append [] values vs i p e = ground arith
encode_from-append (key ∷ keys) values [] i p e =
    rw
      (
        blank-replicate (length keys),
        encode_entry-none key values i p (zeros (20 * length keys)) (get_elem?-drop_nil i values e),
      )
      (ground arith)
encode_from-append (key ∷ keys) values (v ∷ vs) i p e =
    let rest = zeros (20 * length keys) in
    let here = get_elem?-drop i values vs v e in
    let p' = p ++ entry_bytes key v in
    rw
      (
        blank-replicate (length keys),
        encode_entry-some key values i v p rest here.0,
        ← append_assoc p (entry_bytes key v) rest,
      )
      (ap (λ n. encode_from keys values (i + 1) n (p' ++ rest))
          (omega (arith, length-append p (entry_bytes key v)))
        ∙ encode_from-append keys values vs (i + 1) p' here.1
        ∙ ground (arith, append_assoc p (entry_bytes key v) (entries_bytes keys vs)))

-- With a value for every key `Encode` returns the header and the entries; with fewer values it
-- panics.
pub encode-eq-wire :
    (keys : List IpKey) (values : List IpValue)
    → encode keys values
      ≡ (if leb (length keys) (length values) then ok (wire keys values) else panic)
unfolding encode
encode-eq-wire keys values =
    let n = length keys in
    let header = be_bytes 4 (u32 n) in
    rw (zeros-add 4 (20 * n), put_inside (zeros 4 ++ zeros (20 * n)) header 0 4 refl (omega arith))
      (encode_from-append keys values values 0 header refl)
