-- ===== src/Server/Tests/Progress.antt =====
-- Traffic of two pods that have just come.
use kubezonnet.Prelude.{◌+◌, ◌≡◌, ◌≢◌, refl, String, false, [], ◌∷◌, ok, u64, arith}
use kubezonnet.Cluster.{Node, pod_object, node_object, Pod}
use kubezonnet.Payload.Tests.{sample_buf, sample_entry, sample_decoded}
use kubezonnet.Dict.{get, same, string_keys}
use kubezonnet.Net.{to4}
use kubezonnet.Server.{Server, empty, key_of, same_pod, same_pod_iff}
use kubezonnet.Server.Nodes.{on_node_add, zone_of}
use kubezonnet.Server.Pods.{on_pod_add}
use kubezonnet.Server.Traffic.{Response, count_at, handle_payload}
use kubezonnet.Server.Traffic.Handler.{post}
use kubezonnet.Server.Progress.{new_pods-counted}
use kubezonnet.Server.Tests.{test_net, pod_a}

abbrev pub pod_b : Pod
pod_b = record {
  namespace = "default";
  name = "b";
  node_name = "n2";
  host_ip = "";
  pod_ips = "10.0.2.3" ∷ [];
}

abbrev pub node_1 : Node
node_1 = record { name = "n1"; labels = ("topology.kubernetes.io/zone", "z1") ∷ [] }

abbrev pub node_2 : Node
node_2 = record { name = "n2"; labels = ("topology.kubernetes.io/zone", "z2") ∷ [] }

strings_differ : (a b : String) → same a b ≡ false → a ≢ b
strings_differ a b h e = ground (arith, string_keys.same_iff a b)

names_differ : key_of pod_a ≢ key_of pod_b
unfolding same_pod
names_differ e = let both = (same_pod_iff (key_of pod_a) (key_of pod_b)).1 e in ground arith

new_pods-counted_example :
    (s3 s4 s5 : Server) × (response : Response) × (on_pod_add test_net
        (on_node_add (on_node_add empty (node_object node_1)) (node_object node_2))
        (pod_object pod_a)
      ≡ ok s3)
    × (on_pod_add test_net s3 (pod_object pod_b) ≡ ok s4)
    × (handle_payload s4 (post sample_buf) ≡ ok (s5, response))
    × (response.status ≡ 200)
    × (count_at s5.statistics (key_of pod_a)
        ≡ u64 (count_at empty.statistics (key_of pod_a) + 1500))
unfolding zone_of to4 get
new_pods-counted_example =
    new_pods-counted test_net empty node_1 node_2 pod_a pod_b sample_buf sample_entry
      (strings_differ "n1" "n2" refl) (strings_differ "z1" "z2" refl) refl refl names_differ
      (refl, refl) (refl, refl) refl sample_decoded
