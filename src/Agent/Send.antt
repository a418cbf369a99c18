-- ===== src/Agent/Send.antt =====
-- `sendDataToServer` of agent/agent.go: the flows of a tick are encoded and posted once.
use kubezonnet.Prelude.{
  ℕ, String, List, Option, none, some, Bool, not, ◌==◌, if◌then◌else◌, Outcome, ok, err, panic,
}
use kubezonnet.Payload.{IpKey, IpValue, encode}

-- What `client.Do` returns; the body is missing if it cannot be read to its end.
pub record Reply : Type 0 where
  pub status_code : ℕ
  pub body : Option (List ℕ)

-- The calls of net/http, on a world that they change: whether `http.NewRequest` accepts the URL, and
-- `client.Do` of a POST, which fails or gives a reply.
pub record Client (World : Type 0) : Type 0 where
  pub accepts : String → Bool
  pub do_request : String → List ℕ → World → Option Reply × World

pub data SendError : Type 0 where
  new_request do_failed read_response : SendError
  write_not_successful : List ℕ → SendError

-- From the reply on.
unfoldable pub check_reply : Option Reply → Outcome SendError (Unit {0})
check_reply none = err do_failed
check_reply (some res) = elim res.body [
  | none ↦ err read_response
  | some resp_content ↦
      if not (res.status_code == 200) then err (write_not_successful resp_content) else ok tt
]

unfoldable pub send_data_to_server :
    {World : Type 0}
    → Client World
    → String
    → List IpKey
    → List IpValue
    → World
    → Outcome SendError (Unit {0}) × World
send_data_to_server client server keys values world = elim (encode keys values) [
  | ok content ↦ if not (client.accepts server) then (err new_request, world) else (
    check_reply (client.do_request server content world).0,
    (client.do_request server content world).1,
  )
  | err e ↦ absurd e
  | panic ↦ (panic, world)
]
