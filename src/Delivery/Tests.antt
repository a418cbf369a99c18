-- ===== src/Delivery/Tests.antt =====
-- A tick of agent/agent.go over two flows, one of them from a pod of another node.
pub mod Charged
use kubezonnet.Prelude.{
  String, ap, subst, inl, ◌<◌, length, ℕ, ◌≡◌, ◌⊎◌, List, [], ◌∷◌, map, none, some, true, Option,
  Outcome, err, panic, Slice, ok, refl, arith, All,
}
use kubezonnet.Cluster.{Pod, pod_object}
use kubezonnet.Payload.{IpKey, IpValue, encode}
use kubezonnet.Payload.RoundTrip.{IsKey, all_received}
use kubezonnet.Payload.Tests.{sample_key, sample_value}
use kubezonnet.Agent.Collection.{
  Batch, key_not_exist, is_failure, filter_src_ip_on_current_host, tick,
}
use kubezonnet.Agent.Collection.Filter.{Kept, filter_src_ip_on_current_host-Kept}
use kubezonnet.Agent.Collection.Tick.{tick-Kept}
use kubezonnet.Agent.Send.{Reply, Client, send_data_to_server}
use kubezonnet.Delivery.Sent.{
  posted_to, status_of, Exchange, unanswered, answered, Sent, send_data_to_server-Sent,
}
use kubezonnet.Server.Service.{HttpRequest, HttpReply, Service, serve}
use kubezonnet.Server.Tests.Service.{lists}
use kubezonnet.Server.{Server}
use kubezonnet.Server.Traffic.{Response, handle_payload}
use kubezonnet.Server.Traffic.Handler.{post, IsCounted}
use kubezonnet.Server.Tests.{test_net, pod_a, two_pods, two_pods-HasCounters}
use kubezonnet.Delivery.{tick-IsCounted}

-- From 10.0.2.3 port 80 to 10.0.1.2 port 5000.
abbrev answer_key : IpKey
answer_key = record { src_ip = 0x0302000a; dst_ip = 0x0201000a; src_port = 80; dst_port = 5000 }

abbrev two_keys : List IpKey
two_keys = sample_key ∷ answer_key ∷ []

abbrev two_values : List IpValue
two_values = sample_value ∷ sample_value ∷ []

abbrev sample_batch : Batch
sample_batch = record { n = 2; error = some key_not_exist; keys = two_keys; values = two_values }

abbrev pods : List Pod
pods = pod_a ∷ []

two_keys-IsKey : All IsKey two_keys
two_keys-IsKey = (
  record {
    src_ip_fits = omega arith;
    dst_ip_fits = omega arith;
    src_port_fits = omega arith;
    dst_port_fits = omega arith;
  },
  (
    record {
      src_ip_fits = omega arith;
      dst_ip_fits = omega arith;
      src_port_fits = omega arith;
      dst_port_fits = omega arith;
    },
    tt,
  ),
)

tick-IsCounted_example :
    (ks : List IpKey) × (vs : List IpValue) × Kept test_net pods two_keys two_values ks vs
    × (((ks ≡ []) × (tick test_net true sample_batch (map pod_object pods) ≡ ok none))
        ⊎ ((0 < length ks)
            × (content : List ℕ) × (tick test_net true sample_batch (map pod_object pods)
                ≡ ok (some content))
            × IsCounted two_pods
                (all_received ks vs)
                (handle_payload two_pods (post (record { items = content; spare = [] })))))
unfolding is_failure
tick-IsCounted_example =
    tick-IsCounted test_net sample_batch pods two_pods [] (omega arith) refl (omega arith)
      (omega arith) two_keys-IsKey (omega arith) (omega arith) two_pods-HasCounters

abbrev Counts : Type 0
Counts = List (String × String × ℕ)

-- A client whose requests all arrive, and which gets the content of every reply.
abbrev answer_of : Service Counts × Option (HttpReply ℕ Counts) → Option Reply × Service Counts
answer_of (v, none) = (none, v)
answer_of (v, some reply) = (some (record { status_code = status_of reply; body = some [] }), v)

abbrev path_of : String → String
path_of url = "/write-network-statistics"

abbrev sent_request : List ℕ → HttpRequest
sent_request content = posted_to (path_of "") (some (record { items = content; spare = [] }))

abbrev sample_client : Client (Service Counts)
sample_client = record {
  accepts = λ url. true;
  do_request = λ url content v. answer_of (serve lists (sent_request content) v);
}

answer_of-Exchange :
    (body : Slice ℕ) (v : Service Counts) (result : Service Counts × Option (HttpReply ℕ Counts))
    → serve lists (posted_to (path_of "") (some body)) v ≡ result
    → Exchange lists (path_of "") body v (answer_of result).0 (answer_of result).1
answer_of-Exchange body v (v', none) e =
    subst (Exchange lists (path_of "") body v none) (ap (λ a. a.0) e)
      (unanswered (some body) (inl refl))
answer_of-Exchange body v (v', some reply) e =
    subst
      (Exchange lists (path_of "") body v
        (some (record { status_code = status_of reply; body = some [] })))
      (ap (λ a. a.0) e) (answered (some body) reply (some []) (inl refl) (ap (λ a. a.1) e))

abbrev service : Service Counts
service = record { server = two_pods; requests = [] }

send_data_to_server-Sent_example :
    (content : List ℕ) × (encode (sample_key ∷ []) (sample_value ∷ []) ≡ ok content)
    × (c : IsCounted two_pods
        (all_received (sample_key ∷ []) (sample_value ∷ []))
        (handle_payload two_pods (post (record { items = content; spare = [] }))))
    × Sent two_pods c.after
        (send_data_to_server sample_client "http://server"
          (sample_key ∷ [])
          (sample_value ∷ [])
          service).0
        (send_data_to_server sample_client "http://server"
          (sample_key ∷ [])
          (sample_value ∷ [])
          service).1.server
send_data_to_server-Sent_example =
    send_data_to_server-Sent lists sample_client path_of "http://server" service (sample_key ∷ [])
      (sample_value ∷ []) []
      (λ url content v.
        answer_of-Exchange (record { items = content; spare = [] }) v
          (serve lists (sent_request content) v) refl)
      refl two_pods-HasCounters (two_keys-IsKey.0, tt) (omega arith, tt) (omega arith) (omega arith)
