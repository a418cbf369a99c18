-- ===== src/Payload/Canonical.antt =====
-- `Decode` of payload/payload.go followed by `Encode`: a batch has one encoding.
use native.Mathlib.Nat.{add-zero}
use kubezonnet.Prelude.{
  ℕ, zero, suc, ◌+◌, ◌*◌, ◌^◌, ◌≤◌, ◌<◌, List, ◌++◌, ◌≡◌, refl, sym, ap, ap₂, ◌∙◌, length, take,
  drop, ok, Slice, len, cap, u32, arith, length-take, length-drop, take-add, drop-add, map, All,
  IsByte, All-take, All-drop, drop-length, take-append-drop, length-map,
}
use kubezonnet.Payload.BigEndian.{be_value, be_bytes, be_bytes-be_value, be_value_bounds}
use kubezonnet.Payload.{IpKey, IpValue, Entry, encode, decode}
use kubezonnet.Payload.Encode.{entry_bytes, entries_bytes, encode-eq-wire}
use kubezonnet.Payload.Decode.{be_at, entry_at, entries_from, decode_lem}
use kubezonnet.ByteOrder.{htonl, ntohl}
use kubezonnet.ByteOrder.Laws.{ntohl-htonl}

-- The key and the value that an entry came from.
abbrev pub key_of : Entry → IpKey
key_of e = record {
  src_ip = htonl e.src_ip;
  dst_ip = htonl e.dst_ip;
  src_port = e.src_port;
  dst_port = e.dst_port;
}

abbrev pub value_of : Entry → IpValue
value_of e = record { packet_size = e.traffic }

-- Twenty bytes are the five fields of an entry.
take_fields :
    (l : List ℕ)
    → take 20 l
      ≡ take 4 l
        ++ (take 4 (drop 4 l) ++ (take 2 (drop 8 l) ++ (take 2 (drop 10 l) ++ take 8 (drop 12 l))))
take_fields l =
    rw (drop-add 4 4 l, drop-add 4 6 l, drop-add 4 8 l)
      (take-add 4 16 l ∙ ap (◌++◌ (take 4 l)) (after_source (drop 4 l)))
  where
    after_ports : (d : List ℕ) → take 10 d ≡ take 2 d ++ take 8 (drop 2 d)
    after_ports d = take-add 2 8 d

    after_destination :
        (d : List ℕ) → take 12 d ≡ take 2 d ++ (take 2 (drop 2 d) ++ take 8 (drop 4 d))
    after_destination d =
        take-add 2 10 d
        ∙ ap (◌++◌ (take 2 d)) (
            after_ports (drop 2 d) ∙ ap (λ e. take 2 (drop 2 d) ++ take 8 e) (sym (drop-add 2 2 d)))

    after_source :
        (d : List ℕ)
        → take 16 d ≡ take 4 d ++ (take 2 (drop 4 d) ++ (take 2 (drop 6 d) ++ take 8 (drop 8 d)))
    after_source d =
        take-add 4 12 d
        ∙ ap (◌++◌ (take 4 d)) (
            after_destination (drop 4 d)
            ∙ ap₂ (λ e f. take 2 (drop 4 d) ++ (take 2 e ++ take 8 f)) (sym (drop-add 4 2 d))
                (sym (drop-add 4 4 d)))

module _ (items : List ℕ) (bytes : All IsByte items) where
  be_bytes-be_at :
      (k o : ℕ) → o + k ≤ length items → be_bytes k (be_at k items o) ≡ take k (drop o items)
  be_bytes-be_at k o h =
      let l = take k (drop o items) in
      ap (λ n. be_bytes n (be_value 0 l))
        (sym (length-take k (drop o items) (omega (arith, length-drop o items))))
      ∙ be_bytes-be_value 0 l (All-take IsByte k (drop o items) (All-drop IsByte o items bytes))

  be_at-lt : (o : ℕ) → o + 4 ≤ length items → be_at 4 items o < 2 ^ 32
  be_at-lt o h =
      let l = take 4 (drop o items) in
      let bound =
        (be_value_bounds 0 l
          (All-take IsByte 4 (drop o items) (All-drop IsByte o items bytes))).1 in
      let e : length l ≡ 4 = length-take 4 (drop o items) (omega (arith, length-drop o items)) in
      omega (arith, ap (λ n. 256 ^ n) e, bound)

  -- The bytes of a field that starts `j` bytes into the entry at `o`.
  field_bytes :
      (k j o : ℕ)
      → o + j + k ≤ length items
      → be_bytes k (be_at k items (o + j)) ≡ take k (drop j (drop o items))
  field_bytes k j o h = be_bytes-be_at k (o + j) h ∙ ap (take k) (drop-add o j items)

  address_bytes :
      (j o : ℕ)
      → o + j + 4 ≤ length items
      → be_bytes 4 (htonl (ntohl (be_at 4 items (o + j)))) ≡ take 4 (drop j (drop o items))
  address_bytes j o h =
      ap (be_bytes 4) (ntohl-htonl (be_at 4 items (o + j)) (be_at-lt (o + j) h)).1
      ∙ field_bytes 4 j o h

  entry_bytes-entry_at :
      (o : ℕ)
      → o + 20 ≤ length items
      → entry_bytes (key_of (entry_at items o)) (value_of (entry_at items o))
        ≡ take 20 (drop o items)
  entry_bytes-entry_at o h =
      ap₂ ◌++◌
        (ap (λ n. be_bytes 4 (htonl (ntohl (be_at 4 items n)))) (sym (add-zero o))
          ∙ address_bytes 0 o (omega arith))
        (ap₂ ◌++◌ (address_bytes 4 o (omega arith)) (
          ap₂ ◌++◌ (field_bytes 2 8 o (omega arith))
            (ap₂ ◌++◌ (field_bytes 2 10 o (omega arith)) (field_bytes 8 12 o (omega arith)))))
      ∙ sym (take_fields (drop o items))

  entries_bytes-entries_from :
      (n i : ℕ)
      → 4 + 20 * (i + n) ≡ length items
      → entries_bytes (map key_of (entries_from items n i)) (map value_of (entries_from items n i))
        ≡ drop (4 + 20 * i) items
  entries_bytes-entries_from zero i e =
      sym (ap (λ m. drop m items) (omega arith) ∙ drop-length items)
  entries_bytes-entries_from (suc n) i e =
      let o = 4 + 20 * i in
      ap₂ ◌++◌ (entry_bytes-entry_at o (omega arith)) (
        entries_bytes-entries_from n (i + 1) (omega arith)
        ∙ ap (λ m. drop m items) (omega arith)
        ∙ drop-add o 20 items)
      ∙ take-append-drop 20 (drop o items)

length-entries_from : (items : List ℕ) (n i : ℕ) → length (entries_from items n i) ≡ n
length-entries_from items zero i = refl
length-entries_from items (suc n) i = ap suc (length-entries_from items n (i + 1))

length-map_entries :
    {A : Type 0} (items : List ℕ) (f : Entry → A) (n : ℕ)
    → length (map f (entries_from items n 0)) ≡ n
length-map_entries items f n = length-map (entries_from items n 0) f ∙ length-entries_from items n 0

accepted :
    (buf : Slice ℕ) (entries : List Entry)
    → cap buf + 20 < 2 ^ 32
    → decode buf ≡ ok entries
    → (entries ≡ entries_from buf.items (be_at 4 buf.items 0) 0)
      × (4 + 20 * be_at 4 buf.items 0 ≡ len buf)
accepted buf entries small h = ground (arith, decode_lem buf small)

-- The bytes of an accepted buffer, below 2 ^ 32 - 20 with its spare capacity, are those that
-- `Encode` writes for the keys and the values of the decoded entries: nothing of the buffer is
-- ignored, and two buffers that decode to the same entries are the same.
pub encode-decode :
    (buf : Slice ℕ) (entries : List Entry)
    → All IsByte buf.items
    → cap buf + 20 < 2 ^ 32
    → decode buf ≡ ok entries
    → encode (map key_of entries) (map value_of entries) ≡ ok buf.items
encode-decode buf entries bytes small h =
    let items = buf.items in
    let n = be_at 4 items 0 in
    let read = accepted buf entries small h in
    let keys = map key_of (entries_from items n 0) in
    let values = map value_of (entries_from items n 0) in
    let all_keys = length-map_entries items key_of n in
    let all_values = length-map_entries items value_of n in
    let header : be_bytes 4 (u32 (length keys)) ≡ take 4 items =
      ap (be_bytes 4) (omega (arith, all_keys, be_at-lt items bytes 0 (omega (arith, read.1))))
      ∙ be_bytes-be_at items bytes 4 0 (omega (arith, read.1)) in
    let body = entries_bytes-entries_from items bytes n 0 (omega (arith, read.1)) in
    rw (read.0, encode-eq-wire keys values)
      (ground (arith, all_keys, all_values, ap₂ ◌++◌ header body ∙ take-append-drop 4 items))
