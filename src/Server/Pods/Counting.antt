-- ===== src/Server/Pods/Counting.antt =====
-- Pod events of cmd/server/main.go against the resolution of addresses: who is counted for the
-- traffic of an address after a pod came, changed or went.
use kubezonnet.Cluster.{Addresses, Object, Pod, ip_numbers, pod_object}
use kubezonnet.Prelude.{
  contains, ℕ, ◌≡◌, ap, ◌∙◌, sym, subst, ok-injective, String, List, none, some, true, false, arith,
  ok, ◌⊎◌, inl, inr, Bool-cases, if◌then◌else◌,
}
use kubezonnet.Dict.{get, number_keys, string_keys}
use kubezonnet.Server.{Server, PodInfo, key_of, pod_keys, same_pod_iff}
use kubezonnet.Server.Resolve.{resolve, node_key}
use kubezonnet.Server.Pods.{on_pod_add, on_pod_update, on_pod_delete, store_pod, drop_pod}
use kubezonnet.Server.Pods.Effect.{
  is_host, IsStored, store_pod-IsStored, IsDropped, drop_pod-IsDropped,
}
use kubezonnet.Server.Pods.Numbers.{host_number, handle_pod_lem, on_pod_delete_lem}

-- Adding a pod and updating one do the same, whatever the old object was: without a panic, the pod
-- is stored with the IPv4 addresses of its texts.
pub on_pod_update-IsStored :
    (net : Addresses) (s : Server) (old_obj : Object) (pod : Pod)
    → (s' : Server) × (on_pod_add net s (pod_object pod) ≡ ok s')
      × (on_pod_update net s old_obj (pod_object pod) ≡ ok s')
      × IsStored (host_number net pod) (ip_numbers net pod.pod_ips) pod s s'
unfolding on_pod_add on_pod_update
on_pod_update-IsStored net s old_obj pod =
    let host_ip = host_number net pod in
    let ips = ip_numbers net pod.pod_ips in
    (
      store_pod host_ip ips pod s,
      handle_pod_lem net s pod,
      handle_pod_lem net s pod,
      store_pod-IsStored host_ip ips pod s,
    )

-- Deleting a pod drops it without a panic.
pub on_pod_delete-IsDropped :
    (net : Addresses) (s : Server) (pod : Pod)
    → (s' : Server) × (on_pod_delete net s (pod_object pod) ≡ ok s')
      × IsDropped (host_number net pod) pod s s'
on_pod_delete-IsDropped net s pod =
    let host_ip = host_number net pod in
    (drop_pod host_ip pod s, on_pod_delete_lem net s pod, drop_pod-IsDropped host_ip pod s)

-- The effect of a call that has returned.
pub IsStored-by_update :
    (net : Addresses) (s s' : Server) (old_obj : Object) (pod : Pod)
    → on_pod_update net s old_obj (pod_object pod) ≡ ok s'
    → IsStored (host_number net pod) (ip_numbers net pod.pod_ips) pod s s'
unfolding on_pod_update
IsStored-by_update net s s' old_obj pod e =
    let host_ip = host_number net pod in
    let ips = ip_numbers net pod.pod_ips in
    subst (IsStored host_ip ips pod s) (ok-injective (sym (handle_pod_lem net s pod) ∙ e))
      (store_pod-IsStored host_ip ips pod s)

pub IsDropped-by_delete :
    (net : Addresses) (s s' : Server) (pod : Pod)
    → on_pod_delete net s (pod_object pod) ≡ ok s'
    → IsDropped (host_number net pod) pod s s'
IsDropped-by_delete net s s' pod e =
    let host_ip = host_number net pod in
    subst (IsDropped host_ip pod s) (ok-injective (sym (on_pod_delete_lem net s pod) ∙ e))
      (drop_pod-IsDropped host_ip pod s)

module _ {host_ip : ℕ} {ips : List ℕ} {pod : Pod} {s s' : Server}
    (h : IsStored host_ip ips pod s s') (ip : ℕ) (zone : String)
    (located : get s.node_index pod.node_name ≡ some zone) (listed : contains ips ip ≡ true) where
  -- An address that is not the host's counts for the pod.
  resolve-IsStored :
      is_host host_ip ip ≡ false → resolve s' ip ≡ some (record { key = key_of pod; zone = zone })
  unfolding resolve
  resolve-IsStored no_host = ground (
    arith,
    h.pod_ips ip,
    h.pods (key_of pod),
    same_pod_iff (key_of pod) (key_of pod),
    ap (λ m. get m pod.node_name) h.zones_kept,
  )

  -- The address of the host counts for the node.
  resolve-IsStored_host :
      is_host host_ip ip ≡ true
      → get s.pod_ip_index ip ≡ none
      → resolve s' ip ≡ some (record { key = node_key pod.node_name; zone = zone })
  unfolding resolve
  resolve-IsStored_host host free =
      ground (arith, h.pod_ips ip, h.node_ips ip, ap (λ m. get m pod.node_name) h.zones_kept)

-- After a pod is updated without a panic, each IPv4 address of it counts for the pod in the zone of
-- its node, whatever was indexed before, if the node is known and the address is not its host's;
-- the address of its host counts for the node if no pod was indexed under it.
pub resolve-on_pod_update :
    (net : Addresses) (s s' : Server) (old_obj : Object) (pod : Pod) (ip : ℕ) (zone : String)
    → on_pod_update net s old_obj (pod_object pod) ≡ ok s'
    → get s.node_index pod.node_name ≡ some zone
    → contains (ip_numbers net pod.pod_ips) ip ≡ true
    → is_host (host_number net pod) ip ≡ false ⊎ get s.pod_ip_index ip ≡ none
    → resolve s' ip
      ≡ some (record {
        key = if is_host (host_number net pod) ip then node_key pod.node_name else key_of pod;
        zone = zone;
      })
resolve-on_pod_update net s s' old_obj pod ip zone e located listed free =
    let h = IsStored-by_update net s s' old_obj pod e in
    elim (Bool-cases (is_host (host_number net pod) ip)) [
      | inl host ↦ ground (arith, resolve-IsStored_host h ip zone located listed host, free)
      | inr no_host ↦ ground (arith, resolve-IsStored h ip zone located listed no_host)
    ]

-- Once an indexed pod is deleted, no address that it was indexed with, other than its host's,
-- counts for any pod, also one that another pod has been given since: unless a node has the
-- address, its traffic counts for nobody.
pub resolve-on_pod_delete :
    (net : Addresses) (s s' : Server) (pod : Pod) (info : PodInfo) (ip : ℕ)
    → on_pod_delete net s (pod_object pod) ≡ ok s'
    → get s.pod_index (key_of pod) ≡ some info
    → contains info.ips ip ≡ true
    → is_host (host_number net pod) ip ≡ false
    → get s.node_ip_index ip ≡ none
    → resolve s' ip ≡ none
unfolding resolve
resolve-on_pod_delete net s s' pod info ip e known listed no_host no_node =
    let h = IsDropped-by_delete net s s' pod e in
    ground (arith, h.pod_ips ip, ap (λ m. get m ip) h.node_ips_kept)
