-- ===== src/Server/Traffic.antt =====
-- `handlePayload` of cmd/server/main.go: a batch of statistics from an agent.
pub mod Credit
pub mod Crossing
pub mod Handler
use kubezonnet.Prelude.{
  ℕ, zero, ◌+◌, not, ◌≡◌, refl, String, List, [], ◌∷◌, ◌++◌, Option, none, some, Bool, true, false,
  arith, if◌then◌else◌, Outcome, ok, err, panic, ◌>>=◌, Slice, u64, ℤ, pos, int64,
}
use kubezonnet.Dict.{Dict, get, put, same, string_keys}
use kubezonnet.Payload.{
  Entry, DecodeError, unexpected_length, unexpected_length_for_entries, decode,
}
use kubezonnet.Server.{Server, PodKey, pod_keys}
use kubezonnet.Server.Resolve.{Place, resolve}

pub record FlowLog : Type 0 where
  pub src : PodKey
  pub src_port : ℤ
  pub dst : PodKey
  pub dst_port : ℤ
  pub bytes : ℤ

-- The value at a key of a map of counters, 0 if there is none.
abbrev pub count_at : Dict PodKey ℕ → PodKey → ℕ
count_at statistics key = elim (get statistics key) [ none ↦ 0 | some n ↦ n ]

-- `s.statistics[key] += traffic`
unfoldable pub add_traffic : Server → PodKey → ℕ → Server
add_traffic s key traffic = record s {
  statistics = put s.statistics key (u64 (count_at s.statistics key + traffic));
}

-- The state of the loop: the server and the lines to be logged.
pub record Progress : Type 0 where
  pub server : Server
  pub flow_logs : List FlowLog

unfoldable pub count_entry : Entry → Progress → Progress
count_entry entry p = elim (resolve p.server entry.src_ip) [
  | none ↦ p
  | some src ↦ elim (resolve p.server entry.dst_ip) [
    | none ↦ p
    | some dst ↦ if same src.zone dst.zone then p else record {
      server = add_traffic p.server src.key entry.traffic;
      flow_logs =
          p.flow_logs
          ++ (record {
            src = src.key;
            src_port = pos entry.src_port;
            dst = dst.key;
            dst_port = pos entry.dst_port;
            bytes = int64 entry.traffic;
          }
              ∷ []);
    }
  ]
]

unfoldable pub count_entries : List Entry → Progress → Progress
count_entries [] p = p
count_entries (entry ∷ entries) p = count_entries entries (count_entry entry p)

-- `none` is a body that cannot be read.
pub record Request : Type 0 where
  pub method : String
  pub body : Option (Slice ℕ)

-- The status, the text of an error, and the lines that were logged.
pub record Response : Type 0 where
  pub status : ℕ
  pub message : String
  pub logged : List FlowLog

abbrev pub http_error : String → ℕ → Response
http_error message status = record { status = status; message = message; logged = [] }

unfoldable pub decode_message : DecodeError → String
decode_message unexpected_length = "Failed to decode request body: unexpected length of buffer"
decode_message unexpected_length_for_entries =
    "Failed to decode request body: unexpected length of buffer for number of entries"

-- The handler of one decoded batch, the part under the mutex first.
unfoldable pub handle_entries : List Entry → Server → Server × Response
handle_entries entries s =
    let done = count_entries entries (record { server = s; flow_logs = [] }) in
    (done.server, record { status = 200; message = ""; logged = done.flow_logs })

-- What the handler does with the result of `Decode`: an error is a reply, a panic goes on.
unfoldable pub handle_decoded :
    Server → Outcome DecodeError (List Entry) → Outcome ⊥ (Server × Response)
handle_decoded s (ok entries) = ok (handle_entries entries s)
handle_decoded s (err e) = ok (s, http_error (decode_message e) 400)
handle_decoded s panic = panic

unfoldable pub handle_payload : Server → Request → Outcome ⊥ (Server × Response)
handle_payload s r =
    if not (same r.method "POST")
    then ok (s, http_error "Invalid request method" 405)
    else elim r.body [
      | none ↦ ok (s, http_error "Failed to read request body" 500)
      | some body ↦ handle_decoded s (decode body)
    ]
