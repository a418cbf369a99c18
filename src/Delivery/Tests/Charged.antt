-- ===== src/Delivery/Tests/Charged.antt =====
-- Two packets of a pod on its own node, and one of them on a node that does not list the pod.
use kubezonnet.Prelude.{
  some, map, String, ℕ, ◌+◌, ◌≡◌, refl, List, [], ◌∷◌, none, true, ok, u64, arith,
}
use kubezonnet.ByteOrder.{ntohl}
use kubezonnet.Dict
use kubezonnet.Dict.{get, same, number_keys, string_keys}
use kubezonnet.Net.{to4, split_dots, ip_string, decimal, atoi, digits_from}
use kubezonnet.Payload
use kubezonnet.Payload.{encode, encode_entry, encode_from, value_at, IpKey}
use kubezonnet.Agent.Address.{ip_to_uint32, add_parts, part_number}
use kubezonnet.Agent.Collection.{
  tick, is_failure, convert_to_pods, filter_src_ip_on_current_host, add_pods, add_pod_ips,
  filter_from,
}
use kubezonnet.Payload.Tests.{sample_buf}
use kubezonnet.Agent.Packet.{iphdr_of, ports_of}
use kubezonnet.Agent.Subnet.{in_subnet}
use kubezonnet.Agent.Hook.{key_of, count_packet, handle_v4, nf_postrouting_hook}
use kubezonnet.Agent.Hook.Totals.{same_key, packet_of}
use kubezonnet.Agent.Collection.Filter.{is_local}
use kubezonnet.Agent.Node.{NodeEvent, packet, ticker, stop_signal, run_node}
use kubezonnet.Agent.Tests.{sample_skb, sample_constants, test_kernel}
use kubezonnet.Agent.Tests.Cell.{Cell, cell_ops, cell_laws, cell_reader, cell_reader-ReadsToEnd}
use mathlib.Core.List.{Mem, Nodup}
use kubezonnet.Server.Collect.{Metric}
use kubezonnet.Server.History.Scraped.{metric_for}
use kubezonnet.Server.Service.{HttpReply, Service, scraped, serve, run_service}
use kubezonnet.Server.Tests.Service.{lists}
use kubezonnet.Server.Tests.History.{two_pods-Reach}
use kubezonnet.Delivery.Shown.{writes, nodes-shown}
use kubezonnet.Server.{Server, same_pod}
use kubezonnet.Server.Resolve.{resolve}
use kubezonnet.Server.Traffic.{count_at}
use kubezonnet.Server.Tests.{test_net, pod_a, key_a, two_pods, two_pods-HasCounters}
use kubezonnet.Delivery.Bodies.{deliver, sends_from}
use kubezonnet.Delivery.Merge.{none_left, from_first, no_lists, one_more}
use kubezonnet.Delivery.Nodes.{no_nodes, node_posts}
use kubezonnet.Delivery.Charged.{run_node-charged}

abbrev events : List (NodeEvent (List ℕ))
events =
    packet sample_skb
    ∷ ticker (pod_a ∷ [])
    ∷ packet sample_skb
    ∷ ticker (pod_a ∷ [])
    ∷ stop_signal
    ∷ []

-- The server knows the first pod under the address that the node's informer lists.
pod_a-is_local :
    (flow : IpKey)
    → sends_from two_pods key_a flow ≡ true
    → is_local test_net (pod_a ∷ []) (ntohl flow.src_ip) ≡ true
unfolding resolve get to4 same_pod
pod_a-is_local flow h = ground arith

run_node-charged_example :
    (m' : Cell) × (bodies : List (List ℕ)) × (s' : Server) × (run_node test_net test_kernel cell_ops
        cell_reader sample_constants true events none
      ≡ ok (m', bodies))
    × (deliver [] two_pods bodies ≡ ok s')
    × (count_at s'.statistics key_a ≡ u64 (0 + 3000))
unfolding packet_of key_of iphdr_of ports_of in_subnet same_key nf_postrouting_hook handle_v4
    count_packet resolve get ntohl same_pod cell_laws cell_reader
run_node-charged_example =
    run_node-charged test_net test_kernel cell_ops cell_laws cell_reader sample_constants [] events
      none two_pods key_a (omega arith) cell_reader-ReadsToEnd tt (λ flow. refl) (refl, (refl, tt))
      refl two_pods-HasCounters (λ flow h. (pod_a-is_local flow h, (pod_a-is_local flow h, tt)))
      (omega arith)

abbrev elsewhere : List (NodeEvent (List ℕ))
elsewhere = packet sample_skb ∷ ticker [] ∷ []

-- The pod's node posts two bodies, and the other node none.
node_bodies :
    run_node test_net test_kernel cell_ops cell_reader sample_constants true events none
    ≡ ok (none, sample_buf.items ∷ sample_buf.items ∷ [])
unfolding packet_of key_of iphdr_of ports_of in_subnet same_key nf_postrouting_hook handle_v4
    count_packet cell_laws cell_reader run_node tick is_failure convert_to_pods
    filter_src_ip_on_current_host add_pods add_pod_ips to4 ip_to_uint32 add_parts split_dots
    ip_string decimal part_number atoi filter_from get Dict.put ntohl digits_from encode
    encode_entry encode_from Payload.put value_at
node_bodies = refl

elsewhere_bodies :
    run_node test_net test_kernel cell_ops cell_reader sample_constants true elsewhere none
    ≡ ok (none, [])
unfolding packet_of key_of iphdr_of ports_of in_subnet same_key nf_postrouting_hook handle_v4
    count_packet cell_laws cell_reader run_node tick is_failure convert_to_pods
    filter_src_ip_on_current_host add_pods add_pod_ips to4 ip_to_uint32 add_parts split_dots
    ip_string decimal part_number atoi filter_from get Dict.put ntohl digits_from encode
    encode_entry encode_from Payload.put value_at
elsewhere_bodies = refl

abbrev body : List ℕ
body = sample_buf.items

abbrev quiet : Service (List (String × String × ℕ))
quiet = record { server = two_pods; requests = [] }

nodes-shown_example :
    (v' : Service (List (String × String × ℕ))) × (replies : List
      (HttpReply ℕ (List (String × String × ℕ))))
    × (metrics : List (Metric ℕ)) × (run_service lists test_net (writes [] (body ∷ body ∷ [])) quiet
        ≡ ok (v', replies))
    × ((serve lists (record { path = "/metrics"; method = "GET"; body = none }) v').1
        ≡ some (scraped metrics v'.requests))
    × Nodup (map (λ m. m.label_values) metrics)
    × Mem (metric_for (λ n. n) key_a 3000) metrics
unfolding packet_of key_of iphdr_of ports_of in_subnet same_key nf_postrouting_hook handle_v4
    count_packet resolve get ntohl same_pod cell_laws cell_reader
nodes-shown_example =
    nodes-shown lists test_net test_kernel cell_ops cell_laws cell_reader sample_constants [] quiet
      key_a events none ((elsewhere, none) ∷ []) ((body ∷ body ∷ []) ∷ [] ∷ []) (body ∷ body ∷ [])
      "GET" (omega arith) cell_reader-ReadsToEnd tt (λ flow. refl) (refl, (refl, tt)) refl
      (λ flow h. (pod_a-is_local flow h, (pod_a-is_local flow h, tt))) (omega arith)
      ((tt, (refl, tt), λ flow h. (refl, tt)), tt) two_pods-Reach
      (node_posts events none none (body ∷ body ∷ []) node_bodies
        (node_posts elsewhere none none [] elsewhere_bodies no_nodes))
      (one_more (one_more no_lists none_left) (from_first body (from_first body none_left)))
      (omega arith)
