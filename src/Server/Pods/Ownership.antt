-- ===== src/Server/Pods/Ownership.antt =====
-- When the two pod indexes of cmd/server/main.go agree: every address in the index belongs to a
-- pod that is indexed with it.
use kubezonnet.Cluster.{Addresses, Object, Pod, ip_numbers, pod_object}
use kubezonnet.Prelude.{
  contains, ℕ, not, ok, ◌≡◌, ap, List, some, true, false, arith, ◌&&◌, Bool-cases, inl, inr,
}
use kubezonnet.Dict.{get, number_keys}
use kubezonnet.Server.{Server, PodKey, PodInfo, key_of, pod_keys, same_pod, same_pod_iff}
use kubezonnet.Server.Pods.{on_pod_update, on_pod_delete}
use kubezonnet.Server.Pods.Numbers.{host_number}
use kubezonnet.Server.Pods.Counting.{IsStored-by_update, IsDropped-by_delete}
use kubezonnet.Server.Pods.Effect.{is_host, IsStored, IsDropped}

-- The pod that an address is indexed for is indexed itself, with that address.
abbrev pub IsOwned : Server → Type 0
IsOwned s =
    (ip : ℕ) (key : PodKey)
    → get s.pod_ip_index ip ≡ some key
    → (info : PodInfo) × (get s.pod_index key ≡ some info) × (contains info.ips ip ≡ true)

-- The owner of an address in the index after a pod is stored.
module _ {host_ip : ℕ} {ips : List ℕ} {pod : Pod} {s s' : Server}
    (h : IsStored host_ip ips pod s s') where
  stored : PodInfo
  stored = record { node = pod.node_name; ips = ips }

  stored_owner :
      (ip : ℕ) (key : PodKey)
      → contains ips ip ≡ true
      → key_of pod ≡ key
      → (info : PodInfo) × (get s'.pod_index key ≡ some info) × (contains info.ips ip ≡ true)
  unfolding stored
  stored_owner ip key listed e =
      (stored, ground (arith, h.pods key, same_pod_iff (key_of pod) key), listed)

  earlier_owner :
      (ip : ℕ) (key : PodKey)
      → ((ip : ℕ) → get s.pod_ip_index ip ≡ some (key_of pod) → contains ips ip ≡ true)
      → get s.pod_ip_index ip ≡ some key
      → (info : PodInfo) × (get s.pod_index key ≡ some info) × (contains info.ips ip ≡ true)
      → (info : PodInfo) × (get s'.pod_index key ≡ some info) × (contains info.ips ip ≡ true)
  earlier_owner ip key keeps e (info, p, m) = elim (Bool-cases (same_pod (key_of pod) key)) [
    | inl here ↦
        let is_key = (same_pod_iff (key_of pod) key).0 here in
        stored_owner ip key (keeps ip (cc)) is_key
    | inr there ↦ (info, ground (arith, h.pods key), m)
  ]

  IsStored-IsOwned :
      IsOwned s
      → ((ip : ℕ) → get s.pod_ip_index ip ≡ some (key_of pod) → contains ips ip ≡ true)
      → IsOwned s'
  IsStored-IsOwned owned keeps ip key e =
      elim (Bool-cases (contains ips ip && not (is_host host_ip ip))) [
        | inl here ↦ stored_owner ip key (ground arith) (ground (arith, h.pod_ips ip))
        | inr there ↦
            let before : get s.pod_ip_index ip ≡ some key = ground (arith, h.pod_ips ip) in
            earlier_owner ip key keeps before (owned ip key before)
      ]

IsDropped-IsOwned :
    {host_ip : ℕ} {pod : Pod} {s s' : Server}
    → IsDropped host_ip pod s s'
    → IsOwned s
    → ((ip : ℕ) → get s.pod_ip_index ip ≡ some (key_of pod) → is_host host_ip ip ≡ false)
    → IsOwned s'
IsDropped-IsOwned {host_ip} {pod} {s} {s'} h owned off_host ip key e =
    let before : get s.pod_ip_index ip ≡ some key = ground (arith, h.pod_ips ip) in
    let (info, p, m) = owned ip key before in
    elim (Bool-cases (same_pod (key_of pod) key)) [
      | inl here ↦
          let is_key = (same_pod_iff (key_of pod) key).0 here in
          let no_host = off_host ip (cc) in
          let bad : ⊥ = ground (arith, h.pod_ips ip, ap (get s.pod_index) is_key) in absurd bad
      | inr there ↦ (info, ground (arith, h.pods key), m)
    ]

pub on_pod_update-IsOwned :
    (net : Addresses) (s s' : Server) (old_obj : Object) (pod : Pod)
    → on_pod_update net s old_obj (pod_object pod) ≡ ok s'
    → IsOwned s
    → ((ip : ℕ)
        → get s.pod_ip_index ip ≡ some (key_of pod)
        → contains (ip_numbers net pod.pod_ips) ip ≡ true)
    → IsOwned s'
on_pod_update-IsOwned net s s' old_obj pod e =
    IsStored-IsOwned (IsStored-by_update net s s' old_obj pod e)

-- Deleting a pod keeps every indexed address owned, if the address of its host is not indexed for
-- the pod.
pub on_pod_delete-IsOwned :
    (net : Addresses) (s s' : Server) (pod : Pod)
    → on_pod_delete net s (pod_object pod) ≡ ok s'
    → IsOwned s
    → ((ip : ℕ)
        → get s.pod_ip_index ip ≡ some (key_of pod)
        → is_host (host_number net pod) ip ≡ false)
    → IsOwned s'
on_pod_delete-IsOwned net s s' pod e = IsDropped-IsOwned (IsDropped-by_delete net s s' pod e)
