-- ===== src/Agent/Tests/Node.antt =====
-- A node with a map that has room for one flow.
use kubezonnet.Prelude.{ℕ, ◌+◌, ◌≡◌, refl, List, [], ◌∷◌, ◌++◌, none, true, ok, arith}
use kubezonnet.ByteOrder.{ntohl}
use kubezonnet.Net.{to4}
use kubezonnet.Agent.Packet.{iphdr_of, ports_of}
use kubezonnet.Agent.Subnet.{in_subnet}
use kubezonnet.Agent.Hook.{key_of, count_packet, handle_v4, nf_postrouting_hook}
use kubezonnet.Agent.Hook.Totals.{same_key, packet_of, total}
use kubezonnet.Agent.Node.{NodeEvent, packet, ticker, stop_signal, run_node}
use kubezonnet.Agent.Node.Shutdown.{run_node-append}
use kubezonnet.Agent.Node.Posted.{posted_for}
use kubezonnet.Agent.Node.Conserved.{run_node-conserved}
use kubezonnet.Agent.Tests.Cell.{Cell, cell_ops, cell_laws, cell_reader, cell_reader-ReadsToEnd}
use kubezonnet.Agent.Tests.{sample_skb, sample_key, sample_constants, test_kernel}
use kubezonnet.Server.Tests.{test_net, pod_a}

abbrev events : List (NodeEvent (List ℕ))
events = packet sample_skb ∷ ticker (pod_a ∷ []) ∷ packet sample_skb ∷ stop_signal ∷ []

-- 1500 bytes are posted, and as many are left.
run_node-conserved_example :
    (m' : Cell) × (bodies : List (List ℕ)) × (run_node test_net test_kernel cell_ops cell_reader
        sample_constants true events none
      ≡ ok (m', bodies))
    × (posted_for sample_key bodies + total cell_ops m' sample_key ≡ 0 + 3000)
unfolding packet_of key_of iphdr_of ports_of in_subnet same_key nf_postrouting_hook handle_v4
    cell_laws cell_reader count_packet to4 ntohl
run_node-conserved_example =
    run_node-conserved test_net test_kernel cell_ops cell_laws cell_reader sample_constants events
      none sample_key
      (record {
        src_ip_fits = omega arith;
        dst_ip_fits = omega arith;
        src_port_fits = omega arith;
        dst_port_fits = omega arith;
      })
      cell_reader-ReadsToEnd tt (refl, (refl, tt)) (refl, tt) (omega arith)

run_node-append_example :
    run_node test_net test_kernel cell_ops cell_reader sample_constants true
      ((packet sample_skb ∷ ticker (pod_a ∷ []) ∷ []) ++ (stop_signal ∷ packet sample_skb ∷ []))
      none
    ≡ run_node test_net test_kernel cell_ops cell_reader sample_constants true
        (packet sample_skb ∷ ticker (pod_a ∷ []) ∷ [])
        none
run_node-append_example =
    run_node-append test_net test_kernel cell_ops cell_reader sample_constants true
      (packet sample_skb ∷ ticker (pod_a ∷ []) ∷ []) stop_signal (packet sample_skb ∷ []) none refl
