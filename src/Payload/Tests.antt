-- ===== src/Payload/Tests.antt =====
-- Runs of payload/payload.go on small batches.
use kubezonnet.Prelude.{ℕ, ◌≡◌, refl, List, [], ◌∷◌, ok, err, panic, Slice, arith}
use kubezonnet.Payload.{
  IpKey, IpValue, Entry, encode, decode, decode_from, decode_entry, read_at, unexpected_length,
  unexpected_length_for_entries,
}
use kubezonnet.Payload.Decode.{decode_lem}
use kubezonnet.Payload.RoundTrip.{decode-encode}
use kubezonnet.Payload.Canonical.{encode-decode}
use kubezonnet.ByteOrder.{htonl, ntohl}

-- From 10.0.1.2 port 5000 to 10.0.2.3 port 80.
abbrev pub sample_key : IpKey
sample_key = record { src_ip = 0x0201000a; dst_ip = 0x0302000a; src_port = 5000; dst_port = 80 }

abbrev pub sample_value : IpValue
sample_value = record { packet_size = 1500 }

abbrev pub sample_entry : Entry
sample_entry = record {
  src_ip = 0x0a000102;
  dst_ip = 0x0a000203;
  src_port = 5000;
  dst_port = 80;
  traffic = 1500;
}

abbrev sample_items : List ℕ
sample_items =
    0 ∷ 0 ∷ 0 ∷ 1 ∷ 2 ∷ 1 ∷ 0 ∷ 10 ∷ 3 ∷ 2 ∷ 0 ∷ 10 ∷ 19 ∷ 136 ∷ 0 ∷ 80 ∷ 0 ∷ 0 ∷ 0 ∷ 0 ∷ 0 ∷ 0 ∷ 5
    ∷ 220 ∷ []

abbrev pub sample_buf : Slice ℕ
sample_buf = record { items = sample_items; spare = 7 ∷ [] }

-- A header that counts 2 ^ 30 entries, and no entry.
abbrev pub wrapped_buf : Slice ℕ
wrapped_buf = record { items = 0x40 ∷ 0 ∷ 0 ∷ 0 ∷ []; spare = [] }

short_buf_test : decode (record { items = 1 ∷ []; spare = [] }) ≡ err unexpected_length
unfolding decode
short_buf_test = refl

cut_buf_test :
    decode (record { items = 0 ∷ 0 ∷ 0 ∷ 1 ∷ []; spare = sample_items })
    ≡ err unexpected_length_for_entries
unfolding decode read_at
cut_buf_test = refl

pub sample_decoded : decode sample_buf ≡ ok (sample_entry ∷ [])
unfolding decode decode_from decode_entry read_at ntohl
sample_decoded = refl

decode-encode_example :
    (buf : List ℕ) × (encode (sample_key ∷ []) (sample_value ∷ []) ≡ ok buf)
    × (decode (record { items = buf; spare = 7 ∷ [] }) ≡ ok (sample_entry ∷ []))
unfolding ntohl
decode-encode_example =
    decode-encode (sample_key ∷ []) (sample_value ∷ []) (7 ∷ [])
      (
        record {
          src_ip_fits = omega arith;
          dst_ip_fits = omega arith;
          src_port_fits = omega arith;
          dst_port_fits = omega arith;
        },
        tt,
      )
      (omega arith, tt) (omega arith) (omega arith)

decode_lem_example : decode wrapped_buf ≡ panic
decode_lem_example = decode_lem wrapped_buf (omega arith)

encode-decode_example : encode (sample_key ∷ []) (sample_value ∷ []) ≡ ok sample_items
unfolding htonl
encode-decode_example =
    encode-decode sample_buf (sample_entry ∷ []) (omega arith) (omega arith) sample_decoded
