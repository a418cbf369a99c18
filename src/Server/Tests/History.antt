-- ===== src/Server/Tests/History.antt =====
-- A history of cmd/server/main.go: two nodes and two pods come, and a batch is counted.
use kubezonnet.Prelude.{ap, ◌≡◌, refl, [], ◌∷◌, ok, u64}
use kubezonnet.Cluster.{pod_object, other_object}
use kubezonnet.Dict.{get, put}
use kubezonnet.Net.{to4}
use kubezonnet.ByteOrder.{ntohl}
use kubezonnet.Payload.{decode, read_at, decode_from, decode_entry}
use kubezonnet.Payload.Tests.{sample_buf, sample_entry, sample_decoded}
use kubezonnet.Server.{Server, same_pod, pod_keys}
use kubezonnet.Server.Resolve.{resolve}
use kubezonnet.Server.Pods.{on_pod_update, store_pod, index_ips}
use kubezonnet.Server.Pods.Numbers.{handle_pod_lem}
use kubezonnet.Server.Traffic.{
  Response, count_at, handle_payload, handle_decoded, handle_entries, count_entries, count_entry,
  add_traffic,
}
use kubezonnet.Server.Traffic.Handler.{post}
use kubezonnet.Server.Steps.{pod_updated, batch, Reach, next}
use kubezonnet.Server.History.{balance, Reach-balance}
use kubezonnet.Server.Tests.{test_net, key_a, one_pod, one_pod-Reach, two_pods}
use kubezonnet.Server.Tests.Progress.{pod_b}

pod_b_added : on_pod_update test_net one_pod other_object (pod_object pod_b) ≡ ok two_pods
unfolding on_pod_update store_pod index_ips put to4 same_pod
pod_b_added = handle_pod_lem test_net one_pod pod_b

abbrev counted : Server
counted = record two_pods { statistics = (key_a, 1500) ∷ [] }

abbrev counted_reply : Response
counted_reply = (handle_entries (sample_entry ∷ []) two_pods).1

batch_counted : handle_payload two_pods (post sample_buf) ≡ ok (counted, counted_reply)
unfolding handle_payload handle_decoded handle_entries count_entries count_entry add_traffic get put
    to4 same_pod resolve
batch_counted = ap (handle_decoded two_pods) sample_decoded

pub two_pods-Reach : Reach test_net two_pods
two_pods-Reach = next one_pod-Reach (pod_updated other_object (pod_object pod_b) pod_b_added)

abbrev after_batch : Reach test_net counted
after_batch = next two_pods-Reach (batch (post sample_buf) counted_reply batch_counted)

Reach-balance_example : count_at counted.statistics key_a ≡ u64 (balance after_batch key_a)
Reach-balance_example = Reach-balance after_batch key_a

after_batch_total : balance after_batch key_a ≡ 1500
unfolding two_pods-Reach one_pod-Reach decode read_at decode_from decode_entry resolve ntohl get
    same_pod
after_batch_total = refl
