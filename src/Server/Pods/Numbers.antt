-- ===== src/Server/Pods/Numbers.antt =====
-- The addresses of a pod in cmd/server/main.go as numbers: the handlers compute them without a
-- panic.
use kubezonnet.Cluster.{Addresses, Pod, ip_numbers, pod_object, v4_number}
use kubezonnet.Prelude.{
  ℕ, ◌≡◌, refl, String, List, [], ◌∷◌, none, some, arith, if◌then◌else◌, ok, Option-cases, inl, inr,
}
use kubezonnet.Dict.{number_keys, string_keys, same}
use kubezonnet.Net.{to4}
use kubezonnet.Agent.Address.{ip_to_uint32-eq-word}
use kubezonnet.Server.{Server, pod_keys, ip_to_uint32}
use kubezonnet.Server.Pods.{
  parse_v4, host_ip_of, pod_ips_of, store_pod, drop_pod, handle_pod, on_pod_delete,
}

module _ (net : Addresses) where
  abbrev pub host_number : Pod → ℕ
  host_number pod =
      if same pod.host_ip "" then 0 else elim (v4_number net pod.host_ip) [ none ↦ 0 | some n ↦ n ]

  -- The conversion of an address never panics.
  parse_v4_lem : (s : String) → parse_v4 net s ≡ ok (v4_number net s)
  unfolding parse_v4 ip_to_uint32
  parse_v4_lem s = elim (Option-cases (net.parse_ip s)) [
    | inl no_ip ↦ ground arith
    | inr (ip, e) ↦ elim (Option-cases (to4 ip)) [
      | inl not_v4 ↦ ground arith
      | inr (q, f) ↦
          ground (arith, ip_to_uint32-eq-word net.v6_text ip q f (net.parse_ip_bytes s ip q e f))
    ]
  ]

  host_ip_of_lem : (pod : Pod) → host_ip_of net pod ≡ ok (host_number pod)
  unfolding host_ip_of
  host_ip_of_lem pod = ground (arith, parse_v4_lem pod.host_ip)

  pod_ips_of_lem : (texts : List String) → pod_ips_of net texts ≡ ok (ip_numbers net texts)
  unfolding pod_ips_of
  pod_ips_of_lem [] = refl
  pod_ips_of_lem (s ∷ texts) = ground (arith, parse_v4_lem s, pod_ips_of_lem texts)

  pub handle_pod_lem :
      (s : Server) (pod : Pod)
      → handle_pod net s (pod_object pod)
        ≡ ok (store_pod (host_number pod) (ip_numbers net pod.pod_ips) pod s)
  unfolding handle_pod
  handle_pod_lem s pod = rw (host_ip_of_lem pod, pod_ips_of_lem pod.pod_ips)

  pub on_pod_delete_lem :
      (s : Server) (pod : Pod)
      → on_pod_delete net s (pod_object pod) ≡ ok (drop_pod (host_number pod) pod s)
  unfolding on_pod_delete
  on_pod_delete_lem s pod = rw (host_ip_of_lem pod)
