-- ===== src/Agent/Node.antt =====
-- A node as a whole: the packets that the hook of agent/kubezonnet.c sees and the loop of `Run` in
-- agent/agent.go, which collects what they have counted, on the one map that both use.
pub mod Carried
pub mod Run
pub mod Posted
pub mod Conserved
pub mod Shutdown
use kubezonnet.Prelude.{
  ℕ, ◌+◌, ◌^◌, ◌<◌, ◌≡◌, ◌≤◌, List, [], ◌∷◌, Option, none, some, Bool, false, length, take, map,
  if◌then◌else◌, Outcome, ok, ◌>>=◌, All,
}
use kubezonnet.Cluster.{Pod, pod_object, Addresses}
use kubezonnet.Payload.{IpKey, IpValue}
use kubezonnet.Payload.RoundTrip.{IsKey, IsValue}
use kubezonnet.Agent.Subnet.{Constants}
use kubezonnet.Agent.Hook.{Kernel, MapOps, nf_postrouting_hook}
use kubezonnet.Agent.Hook.Totals.{total}
use kubezonnet.Agent.Sizes.{sizes_for, pairs}
use kubezonnet.Agent.Collection.{Batch, key_not_exist, tick}

-- `max_entries` of `ip_map`, and the length of the slices that the agent reads into.
abbrev pub max_entries : ℕ
max_entries = 1024

-- `BatchLookupAndDelete` with slices for all entries of the map. If it reaches the end of the map,
-- which it reports as `ErrKeyNotExist`, it has returned and removed all entries; nothing is said of
-- what another error leaves. `IsValid` says that what the map holds fits `struct ip_key` and
-- `struct ip_value`, which writes keep.
pub record BatchRead {M : Type 0} (ops : MapOps M) : Type 1 where
  pub IsValid : M → Type 0
  pub store_valid :
      (m : M) (key : IpKey) (v : ℕ)
      → IsKey key
      → v < 2 ^ 64
      → IsValid m
      → IsValid (ops.store m key v)
  pub update_valid :
      (m : M) (key : IpKey) (v : ℕ)
      → IsKey key
      → v < 2 ^ 64
      → IsValid m
      → IsValid (ops.update m key v).0
  pub read : M → Batch × M
  pub read_fits : (m : M) → (read m).0.n ≤ max_entries
  pub keys_written :
      (m : M) → IsValid m → (length (read m).0.keys ≡ max_entries) × All IsKey (read m).0.keys
  pub values_written :
      (m : M) → IsValid m → (length (read m).0.values ≡ max_entries) × All IsValue (read m).0.values
  pub read_all :
      (m : M) (key : IpKey)
      → (read m).0.error ≡ some key_not_exist
      → sizes_for key
          (pairs (take (read m).0.n (read m).0.keys) (take (read m).0.n (read m).0.values))
        ≡ total ops m key
  pub removed :
      (m : M) (key : IpKey) → (read m).0.error ≡ some key_not_exist → total ops (read m).1 key ≡ 0
  pub read_valid : (m : M) → IsValid m → IsValid (read m).1

-- Every read reaches the end of the map.
abbrev pub ReadsToEnd : {M : Type 0} {ops : MapOps M} → BatchRead ops → Type 0
ReadsToEnd {M} collector = (m : M) → (collector.read m).0.error ≡ some key_not_exist

-- What happens on a node: a packet, the ticker with the pods in the informer's store, a signal to
-- stop or the end of the context.
pub data NodeEvent (Skb : Type 0) : Type 0 where
  packet : Skb → NodeEvent Skb
  ticker : List Pod → NodeEvent Skb
  stop_signal context_done : NodeEvent Skb

-- The bodies that were posted, with that of one tick before them.
abbrev pub posts : Option (List ℕ) → List (List ℕ) → List (List ℕ)
posts none bodies = bodies
posts (some content) bodies = content ∷ bodies

module _ (net : Addresses) (kernel : Kernel) {M : Type 0} (ops : MapOps M)
    (collector : BatchRead ops) (constants : Constants) (send_data : Bool) where
  -- The map at the end, and the bodies that were posted. The loop returns at the first signal, and
  -- the hook is detached.
  unfoldable pub run_node : List (NodeEvent kernel.Skb) → M → Outcome ⊥ (M × List (List ℕ))
  run_node [] ip_map = ok (ip_map, [])
  run_node (packet skb ∷ events) ip_map =
      run_node events (nf_postrouting_hook kernel ops constants skb ip_map).0
  run_node (ticker pods ∷ events) ip_map = do
    posted ← tick net send_data (collector.read ip_map).0 (map pod_object pods)
    rest ← run_node events (collector.read ip_map).1
    ok (rest.0, posts posted rest.1)
  run_node (stop_signal ∷ events) ip_map = ok (ip_map, [])
  run_node (context_done ∷ events) ip_map = ok (ip_map, [])
