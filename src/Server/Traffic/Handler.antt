-- ===== src/Server/Traffic/Handler.antt =====
-- `handlePayload` of cmd/server/main.go as a whole: accepted batches, replies with an error, and
-- the panics that come from the decoder.
use kubezonnet.Prelude.{
  ℕ, ◌+◌, ◌*◌, ◌≤◌, ◌<◌, ◌^◌, ◌≡◌, ◌≢◌, ◌⊎◌, inl, inr, refl, List, [], map, none, some, arith, u32,
  u64, Slice, len, cap, length, Outcome, ok, err, panic, All, Bool-cases, Option-cases,
  Outcome-cases,
}
use kubezonnet.Dict.{same, string_keys}
use kubezonnet.Payload.{IpKey, IpValue, Entry, DecodeError, encode, decode}
use kubezonnet.Payload.Decode.{be_at, decode_lem}
use kubezonnet.Payload.RoundTrip.{IsKey, IsValue, all_received, decode-encode}
use kubezonnet.Server.{Server, PodKey}
use kubezonnet.Server.Traffic.{
  Request, Response, count_at, handle_entries, handle_decoded, handle_payload,
}
use kubezonnet.Server.Traffic.Credit.{
  Flow, Flows, line_of, bytes_from, cross_flows, cross_flows-Flows, credited, count_entries_lem,
  count_at-credited,
}

abbrev pub post : Slice ℕ → Request
post body = record { method = "POST"; body = some body }

-- No counter has more than 64 bits.
abbrev pub HasCounters : Server → Type 0
HasCounters s = (key : PodKey) → count_at s.statistics key < 2 ^ 64

-- What a batch has done when it is accepted.
pub record IsCounted (s : Server) (entries : List Entry) (result : Outcome ⊥ (Server × Response))
    : Type 0 where
  pub after : Server
  pub flows : List Flow
  pub replies :
      result ≡ ok (after, record { status = 200; message = ""; logged = map line_of flows })
  pub cross_zone : Flows s entries flows
  pub indexes_kept : after ≡ record s { statistics = after.statistics }
  pub counted :
      (key : PodKey)
      → count_at after.statistics key ≡ u64 (count_at s.statistics key + bytes_from key flows)

-- In a state with counters below 2 ^ 64, a POST whose body decodes is answered with status 200. It
-- changes nothing but the counters: the counter of each key grows, modulo 2 ^ 64, by the bytes of
-- the batch's cross-zone flows from that key, and exactly those flows are logged, in order.
pub handle_payload-IsCounted :
    (s : Server) (body : Slice ℕ) (entries : List Entry)
    → HasCounters s
    → decode body ≡ ok entries
    → IsCounted s entries (handle_payload s (post body))
unfolding handle_payload handle_decoded handle_entries
handle_payload-IsCounted s body entries h decoded = record {
  after = record s { statistics = credited (cross_flows s entries) s.statistics };
  flows = cross_flows s entries;
  replies = rw (decoded, count_entries_lem s entries s.statistics []);
  cross_zone = cross_flows-Flows s entries;
  indexes_kept = refl;
  counted = λ key. count_at-credited (cross_flows s entries) s.statistics key (h key);
}

-- What an agent encodes is counted: if the counters are below 2 ^ 64, every key has a value, the
-- fields fit their types and the batch, with the spare capacity behind it, ends below 2 ^ 32 - 20
-- bytes, `Encode` returns a body, and the server that receives it counts the agent's flows, with
-- their addresses in host byte order.
pub encoded_batch-IsCounted :
    (s : Server) (keys : List IpKey) (values : List IpValue) (spare : List ℕ)
    → HasCounters s
    → All IsKey keys
    → All IsValue values
    → length keys ≤ length values
    → 24 + 20 * length keys + length spare < 2 ^ 32
    → (buf : List ℕ) × (encode keys values ≡ ok buf)
      × IsCounted s
          (all_received keys values)
          (handle_payload s (post (record { items = buf; spare = spare })))
encoded_batch-IsCounted s keys values spare h hk hv enough small =
    let (buf, encoded, decoded) = decode-encode keys values spare hk hv enough small in
    (
      buf,
      encoded,
      handle_payload-IsCounted s (record { items = buf; spare = spare }) (all_received keys values)
          h decoded,
    )

-- Every reply other than 200 leaves the server as it was and logs nothing, and it is 405 for a
-- method other than POST, 500 for a body that cannot be read and 400 for one that `Decode`
-- refuses.
pub handle_payload_refusal :
    (s s' : Server) (r : Request) (response : Response)
    → handle_payload s r ≡ ok (s', response)
    → response.status ≢ 200
    → (s' ≡ s)
      × (response.logged ≡ [])
      × (((response.status ≡ 405) × (r.method ≢ "POST"))
          ⊎ ((response.status ≡ 500) × (r.method ≡ "POST") × (r.body ≡ none))
          ⊎ ((response.status ≡ 400)
              × (r.method ≡ "POST")
              × ((body : Slice ℕ) × (e : DecodeError) × (r.body ≡ some body)
                  × (decode body ≡ err e))))
unfolding handle_payload handle_decoded handle_entries
handle_payload_refusal s s' r response h refused = elim (Bool-cases (same r.method "POST")) [
  | inr not_post ↦ (
    ground arith,
    ground arith,
    inl (ground arith, ground (arith, string_keys.same_iff r.method "POST")),
  )
  | inl is_post ↦ elim (Option-cases r.body) [
    | inl unread ↦ (
      ground arith,
      ground arith,
      inr (inl (ground arith, (string_keys.same_iff r.method "POST").0 is_post, unread)),
    )
    | inr (body, e) ↦ elim (Outcome-cases (decode body)) [
      | inl (entries, d) ↦ let bad : ⊥ = ground arith in absurd bad
      | inr (inl (why, d)) ↦ (
        ground arith,
        ground arith,
        inr (
            inr
              (ground arith, (string_keys.same_iff r.method "POST").0 is_post, (body, why, e, d))),
      )
      | inr (inr d) ↦ let bad : ⊥ = ground arith in absurd bad
    ]
  ]
]

-- A POST panics in the handler if its body, with its spare capacity, ends below 2 ^ 32 - 20 and
-- has the size that `Decode` computes in 32 bits, but only because that size wrapped around.
pub handle_payload_panic :
    (s : Server) (body : Slice ℕ)
    → cap body + 20 < 2 ^ 32
    → 4 ≤ len body
    → u32 (4 + 20 * be_at 4 body.items 0) ≡ len body
    → 4 + 20 * be_at 4 body.items 0 ≢ len body
    → handle_payload s (post body) ≡ panic
unfolding handle_payload handle_decoded
handle_payload_panic s body small long wraps differ = ground (arith, decode_lem body small)
