-- ===== src/Payload/Decode.antt =====
-- `Decode` of payload/payload.go on every buffer: its errors, its result and its panics.
use native.Mathlib.Decide.{dec_le, dec_lt}
use native.Mathlib.Nat.{mod-eq_of_lt}
use kubezonnet.Prelude.{
  ℕ, zero, suc, ◌+◌, ◌*◌, ◌^◌, ◌≤◌, ◌<◌, List, [], ◌∷◌, ◌≡◌, refl, ltb, ◌==◌, not, if◌then◌else◌,
  take, drop, Outcome, ok, err, panic, ◌>>=◌, Slice, len, cap, u32, arith, NeverErrs,
  bind-NeverErrs, bind-panic, length-take, length-drop, take-take, take-drop-append,
}
use kubezonnet.Payload.BigEndian.{be_value}
use kubezonnet.Payload.{
  Entry, DecodeError, unexpected_length, unexpected_length_for_entries, read_at, decode_entry,
  decode_from, decode,
}
use kubezonnet.ByteOrder.{ntohl}

-- The number in the `k` bytes at an offset.
abbrev pub be_at : ℕ → List ℕ → ℕ → ℕ
be_at k items o = be_value 0 (take k (drop o items))

abbrev pub entry_at : List ℕ → ℕ → Entry
entry_at items o = record {
  src_ip = ntohl (be_at 4 items o);
  dst_ip = ntohl (be_at 4 items (o + 4));
  src_port = be_at 2 items (o + 8);
  dst_port = be_at 2 items (o + 10);
  traffic = be_at 8 items (o + 12);
}

-- `n` entries, the first one that of index `i`.
abbrev pub entries_from : List ℕ → ℕ → ℕ → List Entry
entries_from items zero i = []
entries_from items (suc n) i = entry_at items (4 + 20 * i) ∷ entries_from items n (i + 1)

module _ (E : Type 0) (buf : Slice ℕ) where
  read_at_inside :
      (k lo hi : ℕ)
      → hi ≡ lo + k
      → hi ≤ len buf
      → read_at {E = E} k buf lo hi ≡ ok (be_at k buf.items lo)
  unfolding read_at
  read_at_inside k lo hi e h = ground (
    arith,
    take-drop-append k lo buf.items buf.spare (omega arith),
    take-take k (drop lo buf.items),
    length-take k (drop lo buf.items),
    length-drop lo buf.items,
  )

  read_at_outside : (k lo hi : ℕ) → cap buf < hi → read_at {E = E} k buf lo hi ≡ panic
  unfolding read_at
  read_at_outside k lo hi h = ground arith

  read_at-NeverErrs : (k lo hi : ℕ) → NeverErrs (read_at {E = E} k buf lo hi)
  unfolding read_at
  read_at-NeverErrs k lo hi = ground arith

module _ (buf : Slice ℕ) where
  -- The offsets of an entry that ends below 2 ^ 32 do not wrap.
  abbrev fields : ℕ → Outcome DecodeError Entry
  fields o = do
    src_ip ← read_at 4 buf o (o + 4)
    dst_ip ← read_at 4 buf (o + 4) (o + 8)
    src_port ← read_at 2 buf (o + 8) (o + 10)
    dst_port ← read_at 2 buf (o + 10) (o + 12)
    traffic ← read_at 8 buf (o + 12) (o + 20)
    ok (record {
      src_ip = ntohl src_ip;
      dst_ip = ntohl dst_ip;
      src_port = src_port;
      dst_port = dst_port;
      traffic = traffic;
    })

  decode_entry_lem : (i : ℕ) → 4 + 20 * i + 20 < 2 ^ 32 → decode_entry buf i ≡ fields (4 + 20 * i)
  unfolding decode_entry
  decode_entry_lem i h =
      let o = 4 + 20 * i in
      let offset : u32 (4 + u32 (i * 20)) ≡ o = omega arith in
      rw (
        offset,
        mod-eq_of_lt {n = o + 4} {m = 2 ^ 32} (omega arith),
        mod-eq_of_lt {n = o + 8} {m = 2 ^ 32} (omega arith),
        mod-eq_of_lt {n = o + 10} {m = 2 ^ 32} (omega arith),
        mod-eq_of_lt {n = o + 12} {m = 2 ^ 32} (omega arith),
        mod-eq_of_lt {n = o + 20} {m = 2 ^ 32} (omega arith),
      )

  decode_entry_inside :
      (i : ℕ)
      → 4 + 20 * i + 20 ≤ len buf
      → len buf < 2 ^ 32
      → decode_entry buf i ≡ ok (entry_at buf.items (4 + 20 * i))
  decode_entry_inside i h small =
      let o = 4 + 20 * i in
      rw (
        decode_entry_lem i (omega arith),
        read_at_inside DecodeError buf 4 o (o + 4) refl (omega arith),
        read_at_inside DecodeError buf 4 (o + 4) (o + 8) (omega arith) (omega arith),
        read_at_inside DecodeError buf 2 (o + 8) (o + 10) (omega arith) (omega arith),
        read_at_inside DecodeError buf 2 (o + 10) (o + 12) (omega arith) (omega arith),
        read_at_inside DecodeError buf 8 (o + 12) (o + 20) (omega arith) (omega arith),
      )

  decode_from_inside :
      (left i : ℕ)
      → 4 + 20 * (i + left) ≤ len buf
      → len buf < 2 ^ 32
      → decode_from buf left i ≡ ok (entries_from buf.items left i)
  unfolding decode_from
  decode_from_inside zero i h small = refl
  decode_from_inside (suc left) i h small = rw (
    decode_entry_inside i (omega arith) small,
    mod-eq_of_lt {n = i + 1} {m = 2 ^ 32} (omega arith),
    decode_from_inside left (i + 1) (omega arith) small,
  )

  field-NeverErrs : (k lo hi : ℕ) → NeverErrs (read_at {E = DecodeError} k buf lo hi)
  field-NeverErrs = read_at-NeverErrs DecodeError buf

  fields-NeverErrs : (o : ℕ) → NeverErrs (fields o)
  fields-NeverErrs o = bind-NeverErrs _ _ (field-NeverErrs 4 o (o + 4)) λ _.
      bind-NeverErrs _ _ (field-NeverErrs 4 (o + 4) (o + 8)) λ _.
        bind-NeverErrs _ _ (field-NeverErrs 2 (o + 8) (o + 10)) λ _.
          bind-NeverErrs _ _ (field-NeverErrs 2 (o + 10) (o + 12))
            λ _. bind-NeverErrs _ _ (field-NeverErrs 8 (o + 12) (o + 20)) λ _. tt

  -- The last field of an entry that leaves the backing array is out of bounds.
  fields_outside : (o : ℕ) → cap buf < o + 20 → fields o ≡ panic
  fields_outside o h = bind-panic _ _ (field-NeverErrs 4 o (o + 4)) λ _.
      bind-panic _ _ (field-NeverErrs 4 (o + 4) (o + 8)) λ _.
        bind-panic _ _ (field-NeverErrs 2 (o + 8) (o + 10)) λ _.
          bind-panic _ _ (field-NeverErrs 2 (o + 10) (o + 12))
            λ _. rw (read_at_outside DecodeError buf 8 (o + 12) (o + 20) h)

  -- With more entries to read than the backing array holds, the loop panics.
  decode_from_outside :
      (left i : ℕ)
      → cap buf + 20 < 2 ^ 32
      → 4 + 20 * i ≤ cap buf
      → cap buf < 4 + 20 * (i + left)
      → decode_from buf left i ≡ panic
  unfolding decode_from
  decode_from_outside zero i small lo hi = absurd (omega arith)
  decode_from_outside (suc left) i small lo hi = elim (dec_le (4 + 20 * i + 20) (cap buf)) [
    | yes more ↦
        rw (decode_entry_lem i (omega arith), mod-eq_of_lt {n = i + 1} {m = 2 ^ 32} (omega arith))
          (bind-panic (fields (4 + 20 * i)) _ (fields-NeverErrs (4 + 20 * i))
            λ _. rw (decode_from_outside left (i + 1) small (omega arith) (omega arith)))
    | no last ↦ rw (decode_entry_lem i (omega arith), fields_outside (4 + 20 * i) (omega arith))
  ]

  -- The count in the header, read as `Decode` reads it.
  abbrev count : ℕ
  count = be_at 4 buf.items 0

  -- `Decode` on a buffer whose backing array ends below 2 ^ 32 - 20: a buffer of fewer than four
  -- bytes and one whose length is not the size computed in 32 bits are refused with their errors;
  -- if the size is right without wrapping around, the result is the `count` entries of the
  -- buffer in order; and if the size is right only because it wrapped around, `Decode` panics.
  pub decode_lem :
      cap buf + 20 < 2 ^ 32
      → decode buf ≡ (
          if ltb (len buf) 4
          then err unexpected_length
          else if not (u32 (4 + 20 * count) == len buf)
          then err unexpected_length_for_entries
          else if 4 + 20 * count == len buf
          then ok (entries_from buf.items count 0)
          else panic)
  unfolding decode
  decode_lem small = elim (dec_lt (len buf) 4) [
    | yes short ↦ ground arith
    | no long ↦
        rw (read_at_inside DecodeError buf 4 0 4 refl (omega arith))
          (ground (arith, decode_from_inside count 0, decode_from_outside count 0 small))
  ]
