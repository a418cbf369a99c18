-- ===== src/Server/Tests/Service.antt =====
-- A run of cmd/server/main.go: two nodes and two pods come, a request is aborted, and a batch is
-- counted.
use kubezonnet.Server.Service.{
  handle_input, watch_nodes, watch_pods, instrument_handler, serve_handler, Libraries, HttpReply,
  HttpRequest, scraped, Service, Input, pod_notified, node_notified, requested, added, serve,
  run_service, new_service, ClusterAccess, panicked, main_server,
}
use kubezonnet.Server.Pods.{
  on_pod_add, host_ip_of, pod_ips_of, parse_v4, handle_pod, index_ips, store_pod,
}
use kubezonnet.Net.{to4, split_dots, ip_string, decimal, atoi, digits_from}
use kubezonnet.Agent.Address.{add_parts, part_number}
use kubezonnet.Payload.{decode, decode_entry, decode_from, read_at}
use kubezonnet.ByteOrder.{ntohl}
use kubezonnet.Dict.{put, get, string_keys}
use kubezonnet.Server.Nodes.{on_node_add, zone_of}
use kubezonnet.Server.Resolve.{resolve}
use kubezonnet.Server.Traffic.{handle_decoded, handle_payload, handle_entries}
use kubezonnet.Server.{same_pod, PodKey}
use kubezonnet.Agent.Address
use kubezonnet.Server
use mathlib.Core.List.{Mem, Nodup}
use mathlib.Core.List.Perm
use kubezonnet.Prelude.{
  ℕ, ◌≡◌, ◌≢◌, refl, String, List, [], ◌∷◌, map, length, none, some, true, false, ok, u64, Slice,
}
use kubezonnet.Cluster.{pod_object, node_object}
use kubezonnet.Payload.Tests.{sample_buf, wrapped_buf}
use kubezonnet.Server.Collect.{Metric}
use kubezonnet.Server.History.Scraped.{metric_for}
use kubezonnet.Server.Service.Shown.{bytes_after, served-metrics, main_server-replies}
use kubezonnet.Server.Tests.{test_net, pod_a}
use kubezonnet.Server.Tests.Progress.{node_1, node_2, pod_b}

-- Requests are counted in a list.
abbrev pub lists : Libraries ℕ (List (String × String × ℕ))
lists = record {
  find_handler = λ table path. get table path;
  find_exactly = λ path. refl;
  range_of = λ s. s.statistics;
  range_of_lem = λ s. Perm.refl s.statistics;
  to_float = λ n. n;
  no_requests = [];
  count_request = λ handler method code counts. (handler, method, code) ∷ counts;
}

abbrev write_request : Slice ℕ → HttpRequest
write_request body = record {
  path = "/write-network-statistics";
  method = "POST";
  body = some body;
}

abbrev sample_inputs : List Input
sample_inputs =
    node_notified (added (node_object node_1))
    ∷ node_notified (added (node_object node_2))
    ∷ pod_notified (added (pod_object pod_a))
    ∷ requested (write_request wrapped_buf)
    ∷ pod_notified (added (pod_object pod_b))
    ∷ requested (write_request sample_buf)
    ∷ []

served-metrics_example :
    (v : Service (List (String × String × ℕ))) × (replies : List
      (HttpReply ℕ (List (String × String × ℕ))))
    × (metrics : List (Metric ℕ)) × (run_service lists test_net sample_inputs (new_service lists)
        ≡ ok (v, replies))
    × (serve lists (record { path = "/metrics"; method = "GET"; body = none }) v ≡ (
      record v { requests = ("metrics", "GET", 200) ∷ v.requests },
      some (scraped metrics v.requests),
    ))
    × Nodup (map (λ m. m.label_values) metrics)
    × ((m : Metric ℕ)
        → Mem m metrics
        → ∥ (
            (key : PodKey) × (m
              ≡ metric_for (λ n. n) key (bytes_after lists test_net sample_inputs key))) ∥₁)
    × ((key : PodKey)
        → u64 (bytes_after lists test_net sample_inputs key) ≢ 0
        → Mem (metric_for (λ n. n) key (bytes_after lists test_net sample_inputs key)) metrics)
served-metrics_example = served-metrics lists test_net sample_inputs "GET" none

abbrev outside : ClusterAccess
outside = record {
  in_cluster_config = false;
  build_config_from_flags = true;
  new_for_config = true;
}

main_server-replies_example :
    ((main_server lists test_net outside sample_inputs).0 ≢ panicked)
    × (length (main_server lists test_net outside sample_inputs).1 ≡ 1)
unfolding decode read_at decode_from decode_entry ntohl
main_server-replies_example = main_server-replies lists test_net outside sample_inputs

-- One pod has sent cross-zone bytes, and the aborted request has added none.
sample_inputs_total :
    bytes_after lists test_net sample_inputs (record { namespace = "default"; name = "a" }) ≡ 1500
unfolding handle_input watch_nodes watch_pods on_pod_add host_ip_of pod_ips_of parse_v4 to4
    Server.ip_to_uint32 Address.ip_to_uint32 add_parts split_dots ip_string decimal part_number atoi
    decode ntohl get put digits_from decode_entry decode_from read_at on_node_add zone_of handle_pod
    index_ips store_pod resolve instrument_handler serve serve_handler handle_decoded handle_payload
    same_pod handle_entries
sample_inputs_total = refl
