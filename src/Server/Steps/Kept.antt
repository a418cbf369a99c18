-- ===== src/Server/Steps/Kept.antt =====
-- The writes of the handlers in cmd/server/main.go keep the maps of the server in order.
use kubezonnet.Cluster.{Pod}
use kubezonnet.Prelude.{
  ℕ, ◌<◌, ◌^◌, not, ◌&&◌, ◌||◌, ◌==◌, String, List, [], ◌∷◌, none, some, true, false, arith,
  if◌then◌else◌,
}
use kubezonnet.Dict.{
  Dict, get, put, delete, HasDistinctKeys, put-HasDistinctKeys, delete-HasDistinctKeys, number_keys,
  string_keys, get-delete,
}
use kubezonnet.Payload.{Entry}
use kubezonnet.Server.{Server, PodKey, PodInfo, key_of, pod_keys}
use kubezonnet.Server.Pods.{index_ips, unindex_ips, store_pod, drop_pod}
use kubezonnet.Server.Traffic.{count_at, handle_entries}
use kubezonnet.Server.Traffic.Credit.{
  cross_flows, count_entries_lem, count_at-credited, credited-HasDistinctKeys,
}
use kubezonnet.Server.Traffic.Handler.{HasCounters}

-- Every map has one entry for a key, and every counter fits 64 bits.
pub record IsConsistent (s : Server) : Type 0 where
  pub pod_ips_distinct : HasDistinctKeys s.pod_ip_index
  pub node_ips_distinct : HasDistinctKeys s.node_ip_index
  pub pods_distinct : HasDistinctKeys s.pod_index
  pub nodes_distinct : HasDistinctKeys s.node_index
  pub counters_distinct : HasDistinctKeys s.statistics
  pub counters_fit : HasCounters s

-- Each map may be exchanged for another one with distinct keys.
module _ {s : Server} (h : IsConsistent s) where
  pub with_pod_ip_index :
      (m : Dict ℕ PodKey) → HasDistinctKeys m → IsConsistent (record s { pod_ip_index = m })
  with_pod_ip_index m d = record {
    pod_ips_distinct = d;
    node_ips_distinct = h.node_ips_distinct;
    pods_distinct = h.pods_distinct;
    nodes_distinct = h.nodes_distinct;
    counters_distinct = h.counters_distinct;
    counters_fit = h.counters_fit;
  }

  pub with_node_ip_index :
      (m : Dict ℕ String) → HasDistinctKeys m → IsConsistent (record s { node_ip_index = m })
  with_node_ip_index m d = record {
    pod_ips_distinct = h.pod_ips_distinct;
    node_ips_distinct = d;
    pods_distinct = h.pods_distinct;
    nodes_distinct = h.nodes_distinct;
    counters_distinct = h.counters_distinct;
    counters_fit = h.counters_fit;
  }

  pub with_pod_index :
      (m : Dict PodKey PodInfo) → HasDistinctKeys m → IsConsistent (record s { pod_index = m })
  with_pod_index m d = record {
    pod_ips_distinct = h.pod_ips_distinct;
    node_ips_distinct = h.node_ips_distinct;
    pods_distinct = d;
    nodes_distinct = h.nodes_distinct;
    counters_distinct = h.counters_distinct;
    counters_fit = h.counters_fit;
  }

  pub with_node_index :
      (m : Dict String String) → HasDistinctKeys m → IsConsistent (record s { node_index = m })
  with_node_index m d = record {
    pod_ips_distinct = h.pod_ips_distinct;
    node_ips_distinct = h.node_ips_distinct;
    pods_distinct = h.pods_distinct;
    nodes_distinct = d;
    counters_distinct = h.counters_distinct;
    counters_fit = h.counters_fit;
  }

  pub with_statistics :
      (m : Dict PodKey ℕ)
      → HasDistinctKeys m
      → ((key : PodKey) → count_at m key < 2 ^ 64)
      → IsConsistent (record s { statistics = m })
  with_statistics m d fit = record {
    pod_ips_distinct = h.pod_ips_distinct;
    node_ips_distinct = h.node_ips_distinct;
    pods_distinct = h.pods_distinct;
    nodes_distinct = h.nodes_distinct;
    counters_distinct = d;
    counters_fit = fit;
  }

index_ips-IsConsistent :
    (host_ip : ℕ) (node_name : String) (key : PodKey) (ips : List ℕ) (s : Server)
    → IsConsistent s
    → IsConsistent (index_ips host_ip node_name key ips s)
unfolding index_ips
index_ips-IsConsistent host_ip node_name key [] s h = h
index_ips-IsConsistent host_ip node_name key (x ∷ ips) s h =
    elim (not (host_ip == 0) && x == host_ip)
      as (λ b. IsConsistent (
        index_ips host_ip node_name key ips (
          if b
          then record s { node_ip_index = put s.node_ip_index x node_name }
          else record s { pod_ip_index = put s.pod_ip_index x key }))) [
            | true ↦ index_ips-IsConsistent host_ip node_name key ips _ (
                with_node_ip_index h _
                  (put-HasDistinctKeys s.node_ip_index x node_name h.node_ips_distinct))
            | false ↦ index_ips-IsConsistent host_ip node_name key ips _ (
                with_pod_ip_index h _ (put-HasDistinctKeys s.pod_ip_index x key h.pod_ips_distinct))
          ]

unindex_ips-IsConsistent :
    (host_ip : ℕ) (ips : List ℕ) (s : Server)
    → IsConsistent s
    → IsConsistent (unindex_ips host_ip ips s)
unfolding unindex_ips
unindex_ips-IsConsistent host_ip [] s h = h
unindex_ips-IsConsistent host_ip (x ∷ ips) s h =
    elim (host_ip == 0 || not (x == host_ip))
      as (λ b. IsConsistent (
        unindex_ips host_ip ips
          (if b then record s { pod_ip_index = delete s.pod_ip_index x } else s))) [
            | true ↦
                unindex_ips-IsConsistent host_ip ips _ (
                  with_pod_ip_index h _
                    (delete-HasDistinctKeys s.pod_ip_index x h.pod_ips_distinct))
            | false ↦ unindex_ips-IsConsistent host_ip ips s h
          ]

pub store_pod-IsConsistent :
    (host_ip : ℕ) (ips : List ℕ) (pod : Pod) (s : Server)
    → IsConsistent s
    → IsConsistent (store_pod host_ip ips pod s)
unfolding store_pod
store_pod-IsConsistent host_ip ips pod s h =
    index_ips-IsConsistent host_ip pod.node_name (key_of pod) ips _
      (with_pod_index h _ (put-HasDistinctKeys s.pod_index (key_of pod) _ h.pods_distinct))

forget :
    {s : Server} (key : PodKey)
    → IsConsistent s
    → IsConsistent (record s { statistics = delete s.statistics key })
forget {s} key h =
    with_statistics h _ (delete-HasDistinctKeys s.statistics key h.counters_distinct)
      (λ k. ground (arith, get-delete s.statistics key k, h.counters_fit k))

pub drop_pod-IsConsistent :
    (host_ip : ℕ) (pod : Pod) (s : Server) → IsConsistent s → IsConsistent (drop_pod host_ip pod s)
unfolding drop_pod
drop_pod-IsConsistent host_ip pod s h =
    elim (get s.pod_index (key_of pod))
      as (λ found.
        let s' : Server = elim found [
          | none ↦ s
          | some info ↦
              let unindexed = unindex_ips host_ip info.ips s in
              record unindexed { pod_index = delete unindexed.pod_index (key_of pod) }
        ] in
        IsConsistent (record s' { statistics = delete s'.statistics (key_of pod) })) [
          | none ↦ forget (key_of pod) h
          | some info ↦
              let u = unindex_ips-IsConsistent host_ip info.ips s h in
              forget (key_of pod)
                (with_pod_index u _ (delete-HasDistinctKeys _ (key_of pod) u.pods_distinct))
        ]

pub entries-IsConsistent :
    (entries : List Entry) (s : Server) → IsConsistent s → IsConsistent (handle_entries entries s).0
unfolding handle_entries
entries-IsConsistent entries s h =
    let flows = cross_flows s entries in
    rw (count_entries_lem s entries s.statistics []) (
      with_statistics h _ (credited-HasDistinctKeys flows s.statistics h.counters_distinct)
        (λ key. omega (arith, count_at-credited flows s.statistics key (h.counters_fit key))))
