-- ===== src/Server/Service/Replies.antt =====
-- The replies of cmd/server/main.go to a request, by its path.
use kubezonnet.Prelude.{
  ap, sym, length, none, some, ok, err, panic, Bool, Outcome, ◌&&◌, true, false, Option-cases,
  Bool-cases, Outcome-cases, inl, inr, if◌then◌else◌, arith, ◌≡◌,
}
use kubezonnet.Payload.{DecodeError, decode}
use kubezonnet.Server.Traffic.{Request, Response, handle_payload, handle_decoded}
use kubezonnet.Server.Service.{
  replies_of, Libraries, HttpRequest, Service, serve_handler, instrument_handler, serve, scraped,
  written, unrouted,
}
use kubezonnet.Dict.{same, string_keys, get}
use kubezonnet.Server.{Server}
use kubezonnet.Server.Collect.{collect}

-- A request to the path for batches, with a body that makes `Decode` panic.
abbrev is_panic : {A : Type 0} → Outcome DecodeError A → Bool
is_panic (ok a) = false
is_panic (err e) = false
is_panic panic = true

abbrev breaks : Request → Bool
breaks r =
    same r.method "POST" && (elim r.body [ none ↦ false | some body ↦ is_panic (decode body) ])

abbrev pub is_broken : HttpRequest → Bool
is_broken q =
    same "/write-network-statistics" q.path && breaks (record { method = q.method; body = q.body })

breaks-handle_payload :
    (s : Server) (r : Request) (result : Outcome ⊥ (Server × Response))
    → handle_payload s r ≡ result
    → breaks r ≡ (elim result [ ok a ↦ false | err e ↦ false | panic ↦ true ])
unfolding handle_payload handle_decoded
breaks-handle_payload s r result e = elim (Bool-cases (same r.method "POST")) [
  | inr not_post ↦ ground arith
  | inl is_post ↦ elim (Option-cases r.body) [
    | inl unread ↦ ground arith
    | inr (body, b) ↦ elim (Outcome-cases (decode body)) [
      | inl (entries, d) ↦ ground arith
      | inr (inl (why, d)) ↦ ground arith
      | inr (inr d) ↦ ground arith
    ]
  ]
]

module _ {F C : Type 0} (lib : Libraries F C) where
  pub serve_metrics :
      (q : HttpRequest) (v : Service C)
      → q.path ≡ "/metrics"
      → serve lib q v ≡ (
        record {
          server = v.server;
          requests = lib.count_request "metrics" q.method 200 v.requests;
        },
        some (scraped (collect lib.to_float (lib.range_of v.server)) v.requests),
      )
  unfolding serve instrument_handler serve_handler get
  serve_metrics q v e =
      ground (arith, lib.find_exactly q.path, (string_keys.same_iff "/metrics" q.path).1 (sym e))

  pub serve_unrouted :
      (q : HttpRequest) (v : Service C)
      → same "/metrics" q.path ≡ false
      → same "/write-network-statistics" q.path ≡ false
      → serve lib q v ≡ (v, some unrouted)
  unfolding serve get
  serve_unrouted q v h k = ground (arith, lib.find_exactly q.path)

  pub serve_batch :
      (q : HttpRequest) (v : Service C) (s' : Server) (response : Response)
      → same "/metrics" q.path ≡ false
      → same "/write-network-statistics" q.path ≡ true
      → handle_payload v.server (record { method = q.method; body = q.body }) ≡ ok (s', response)
      → serve lib q v ≡ (
        record {
          server = s';
          requests = lib.count_request "write_statistics" q.method response.status v.requests;
        },
        some (written response),
      )
  unfolding serve instrument_handler serve_handler get
  serve_batch q v s' response h k e = ground (arith, e, lib.find_exactly q.path)

  pub serve_batch_aborted :
      (q : HttpRequest) (v : Service C)
      → same "/metrics" q.path ≡ false
      → same "/write-network-statistics" q.path ≡ true
      → handle_payload v.server (record { method = q.method; body = q.body }) ≡ panic
      → serve lib q v ≡ (v, none)
  unfolding serve instrument_handler serve_handler get
  serve_batch_aborted q v h k e = ground (arith, lib.find_exactly q.path)

  -- A request has one reply, unless its body makes `Decode` panic.
  pub length-serve :
      (q : HttpRequest) (v : Service C)
      → length (replies_of (serve lib q v).1) ≡ (if is_broken q then 0 else 1)
  length-serve q v = elim (Bool-cases (same "/metrics" q.path)) [
    | inl here ↦
        let path : q.path ≡ "/metrics" = sym ((string_keys.same_iff "/metrics" q.path).0 here) in
        let other : same "/write-network-statistics" q.path ≡ false =
          ap (same "/write-network-statistics") path in
        ground (arith, other, serve_metrics q v path)
    | inr there ↦ elim (Bool-cases (same "/write-network-statistics" q.path)) [
      | inr elsewhere ↦ ground (arith, elsewhere, serve_unrouted q v there elsewhere)
      | inl to_write ↦
          let r : Request = record { method = q.method; body = q.body } in
          elim (Outcome-cases (handle_payload v.server r)) [
            | inl ((s', response), e) ↦
                let whole = breaks-handle_payload v.server r (ok (s', response)) e in
                ground (arith, to_write, whole, serve_batch q v s' response there to_write e)
            | inr (inl (nothing, e)) ↦ absurd nothing
            | inr (inr e) ↦
                let broken = breaks-handle_payload v.server r panic e in
                ground (arith, to_write, broken, serve_batch_aborted q v there to_write e)
          ]
    ]
  ]
