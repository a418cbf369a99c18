-- ===== src/Delivery/Sent.antt =====
-- What the result of `sendDataToServer` in agent/agent.go says about the server of
-- cmd/server/main.go.
use kubezonnet.Prelude.{
  ℕ, ◌+◌, ◌*◌, ◌^◌, ◌<◌, ◌≤◌, ◌≡◌, ◌⊎◌, refl, ap, sym, ◌∙◌, subst, String, List, Option, none, some,
  length, Outcome, ok, err, Slice, map, All, Bool-cases, inl, inr,
}
use kubezonnet.Dict.{same, string_keys}
use kubezonnet.Payload.{IpKey, IpValue, Entry, encode}
use kubezonnet.Payload.RoundTrip.{IsKey, IsValue, all_received}
use kubezonnet.Agent.Send.{
  Reply, Client, SendError, new_request, do_failed, read_response, write_not_successful,
  check_reply, send_data_to_server,
}
use kubezonnet.Server.{Server}
use kubezonnet.Server.Traffic.{Response, http_error, handle_payload}
use kubezonnet.Server.Traffic.Credit.{line_of}
use kubezonnet.Server.Traffic.Handler.{post, HasCounters, IsCounted, encoded_batch-IsCounted}
use kubezonnet.Server.Service.{
  Libraries, HttpRequest, HttpReply, unrouted, scraped, written, Service, serve,
}
use kubezonnet.Server.Service.Replies.{serve_batch}

-- The request of the agent to a path; the server reads the body as a whole, or it cannot.
abbrev pub posted_to : String → Option (Slice ℕ) → HttpRequest
posted_to path received = record { path = path; method = "POST"; body = received }

abbrev pub IsReceived : Slice ℕ → Option (Slice ℕ) → Type 0
IsReceived body received = (received ≡ some body) ⊎ (received ≡ none)

-- The status that net/http sends with a reply; without a handler it is that of a path not found.
abbrev pub status_of : {F C : Type 0} → HttpReply F C → ℕ
status_of unrouted = 404
status_of (scraped metrics requests) = 200
status_of (written response) = response.status

abbrev status_or : {F C : Type 0} → Option (HttpReply F C) → ℕ
status_or none = 0
status_or (some reply) = status_of reply

module _ {F C : Type 0} (lib : Libraries F C) where
  -- A request of `client.Do`: it does not arrive, it is served without an answer for the client, or
  -- it is answered with a content that can be read to its end or not.
  pub data Exchange (path : String) (body : Slice ℕ) (v : Service C)
      : Option Reply → Service C → Type 0 where
    not_arrived : Exchange path body v none v
    unanswered :
        (received : Option (Slice ℕ))
        → IsReceived body received
        → Exchange path body v none (serve lib (posted_to path received) v).0
    answered :
        (received : Option (Slice ℕ)) (reply : HttpReply F C) (content : Option (List ℕ))
        → IsReceived body received
        → (serve lib (posted_to path received) v).1 ≡ some reply
        → Exchange path body v
            (some (record { status_code = status_of reply; body = content }))
            (serve lib (posted_to path received) v).0

  -- Every request of the client is at most one such exchange with the service, at the path of its
  -- URL, and the server reads a body into a slice with this spare capacity.
  abbrev pub Delivers : Client (Service C) → (String → String) → List ℕ → Type 0
  Delivers client path_of spare =
      (url : String) (content : List ℕ) (v : Service C)
      → Exchange (path_of url) (record { items = content; spare = spare }) v
          (client.do_request url content v).0 (client.do_request url content v).1

-- What a result of `sendDataToServer` says, where `after` is the server that has counted the flows
-- once.
pub data Sent (s after : Server) : Outcome SendError (Unit {0}) → Server → Type 0 where
  success : Sent s after (ok tt) after
  never_sent : Sent s after (err new_request) s
  lost : Sent s after (err do_failed) s
  unnoticed : Sent s after (err do_failed) after
  half_noticed : Sent s after (err read_response) after
  half_refused : Sent s after (err read_response) s
  refused : (content : List ℕ) → Sent s after (err (write_not_successful content)) s

module _ {F C : Type 0} (lib : Libraries F C) where
  -- What the service does with a body that is received, and without one.
  served :
      (path : String) (body : Slice ℕ) (v : Service C) (entries : List Entry)
      (c : IsCounted v.server entries (handle_payload v.server (post body)))
      (received : Option (Slice ℕ))
      → path ≡ "/write-network-statistics"
      → IsReceived body received
      → (response : Response) × ((serve lib (posted_to path received) v).1
          ≡ some (written response))
        × (((response.status ≡ 200) × ((serve lib (posted_to path received) v).0.server ≡ c.after))
            ⊎ ((response.status ≡ 500)
                × ((serve lib (posted_to path received) v).0.server ≡ v.server)))
  unfolding handle_payload
  served path body v entries c received at_path (inl e) =
      let response : Response = record {
        status = 200;
        message = "";
        logged = map line_of c.flows;
      } in
      let handled : handle_payload v.server (record { method = "POST"; body = received })
          ≡ ok (c.after, response) =
        ap (λ b. handle_payload v.server (record { method = "POST"; body = b })) e ∙ c.replies in
      let whole =
        serve_batch lib (posted_to path received) v c.after response (ap (same "/metrics") at_path)
          (ap (same "/write-network-statistics") at_path) handled in
      (response, ap (λ a. a.1) whole, inl (refl, ap (λ a. a.0.server) whole))
  served path body v entries c received at_path (inr e) =
      let response : Response = http_error "Failed to read request body" 500 in
      let handled : handle_payload v.server (record { method = "POST"; body = received })
          ≡ ok (v.server, response) =
        ap (λ b. handle_payload v.server (record { method = "POST"; body = b })) e in
      let whole =
        serve_batch lib (posted_to path received) v v.server response (ap (same "/metrics") at_path)
          (ap (same "/write-network-statistics") at_path) handled in
      (response, ap (λ a. a.1) whole, inr (refl, ap (λ a. a.0.server) whole))

  answered-Sent :
      (v : Service C) (after s' : Server) (reply : HttpReply F C) (content : Option (List ℕ))
      → ((status_of reply ≡ 200) × (s' ≡ after)) ⊎ ((status_of reply ≡ 500) × (s' ≡ v.server))
      → Sent v.server after
          (check_reply (some (record { status_code = status_of reply; body = content })))
          s'
  unfolding check_reply
  answered-Sent v after s' reply none (inl (status, e)) =
      subst (Sent v.server after (err read_response)) (sym e) half_noticed
  answered-Sent v after s' reply none (inr (status, e)) =
      subst (Sent v.server after (err read_response)) (sym e) half_refused
  answered-Sent v after s' reply (some content) (inl (status, e)) =
      rw (status) (subst (Sent v.server after (ok tt)) (sym e) success)
  answered-Sent v after s' reply (some content) (inr (status, e)) =
      rw (status)
        (subst (Sent v.server after (err (write_not_successful content))) (sym e) (refused content))

  check_reply-Sent :
      (path : String) (body : Slice ℕ) (v : Service C) (entries : List Entry) (reply : Option Reply)
      (v' : Service C) (c : IsCounted v.server entries (handle_payload v.server (post body)))
      → path ≡ "/write-network-statistics"
      → Exchange lib path body v reply v'
      → Sent v.server c.after (check_reply reply) v'.server
  unfolding check_reply
  check_reply-Sent path body v entries _ _ c at_path not_arrived = lost
  check_reply-Sent path body v entries _ _ c at_path (unanswered received h) =
      let (response, e, outcome) = served path body v entries c received at_path h in
      elim outcome [
        | inl (status, counted) ↦
            subst (Sent v.server c.after (err do_failed)) (sym counted) unnoticed
        | inr (status, same_server) ↦
            subst (Sent v.server c.after (err do_failed)) (sym same_server) lost
      ]
  check_reply-Sent path body v entries _ _ c at_path (answered received reply content h e) =
      let (response, f, outcome) = served path body v entries c received at_path h in
      let status : status_of reply ≡ response.status = ap status_or (sym e ∙ f) in
      answered-Sent v c.after _ reply content (elim outcome [
        | inl (ok_status, counted) ↦ inl (status ∙ ok_status, counted)
        | inr (no_status, same_server) ↦ inr (status ∙ no_status, same_server)
      ])

  -- If the URL of the flag leads to the path for batches of the server and client.Do sends a request
  -- at most once, if the flows' fields fit their types, a body of them with the spare capacity would
  -- end below 2 ^ 32 - 20 bytes and the server's counters are below 2 ^ 64, then flows are never
  -- counted twice: the server has counted them once or not at all. They have been counted if
  -- sendDataToServer succeeds; they have not if the URL is refused or the write is reported as not
  -- successful; and if client.Do fails or the reply cannot be read, either may be the case. There is
  -- no other result.
  pub send_data_to_server-Sent :
      (client : Client (Service C)) (path_of : String → String) (server : String) (v : Service C)
      (keys : List IpKey) (values : List IpValue) (spare : List ℕ)
      → Delivers lib client path_of spare
      → path_of server ≡ "/write-network-statistics"
      → HasCounters v.server
      → All IsKey keys
      → All IsValue values
      → length keys ≤ length values
      → 24 + 20 * length keys + length spare < 2 ^ 32
      → (content : List ℕ) × (encode keys values ≡ ok content)
        × (c : IsCounted v.server
            (all_received keys values)
            (handle_payload v.server (post (record { items = content; spare = spare }))))
        × Sent v.server c.after
            (send_data_to_server client server keys values v).0
            (send_data_to_server client server keys values v).1.server
  unfolding send_data_to_server
  send_data_to_server-Sent client path_of server v keys values spare delivers at_path h hk hv paired
        small =
      let (content, encoded, c) =
        encoded_batch-IsCounted v.server keys values spare h hk hv paired small in
      let body : Slice ℕ = record { items = content; spare = spare } in
      (
        content,
        encoded,
        c,
        elim (Bool-cases (client.accepts server)) [
          | inl accepted ↦
              rw (send_data_to_server, encoded, accepted)
                (check_reply-Sent (path_of server) body v (all_received keys values)
                  (client.do_request server content v).0 (client.do_request server content v).1 c
                  at_path (delivers server content v))
          | inr refused_url ↦ rw (send_data_to_server, encoded, refused_url) never_sent
        ],
      )
