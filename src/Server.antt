-- ===== src/Server.antt =====
-- cmd/server/main.go: the state of the server, the objects that the cluster sends, and the
-- resolution of their addresses. The handlers are in the modules below.
pub mod Resolve
pub mod Pods
pub mod Nodes
pub mod Traffic
pub mod Collect
pub mod Steps
pub mod Quiet
pub mod History
pub mod Service
pub mod Progress
pub mod Tests
use kubezonnet.Cluster.{Pod}
use kubezonnet.Prelude.{
  ℕ, zero, ◌&&◌, ◌≡◌, ◌↔◌, refl, String, List, [], ◌∷◌, Option, none, some, Bool, true, arith,
  if◌then◌else◌, Outcome, ok, ◌>>=◌, leb, ◌==◌, ap, ap₂,
}
use kubezonnet.Dict.{Dict, IsKeyType, same, string_keys}
use kubezonnet.Net.{Ip, Quad, to4}
use kubezonnet.Net.Laws.{IsQuad}
use kubezonnet.Agent.Address

pub record PodKey : Type 0 where
  pub namespace : String
  pub name : String

pub record PodInfo : Type 0 where
  pub node : String
  pub ips : List ℕ

unfoldable pub same_pod : PodKey → PodKey → Bool
same_pod a b = same a.namespace b.namespace && same a.name b.name

pub same_pod_iff : (a b : PodKey) → (same_pod a b ≡ true) ↔ (a ≡ b)
unfolding same_pod
same_pod_iff a b =
    ground (arith, string_keys.same_iff a.namespace b.namespace, string_keys.same_iff a.name b.name)

instance abbrev pub pod_keys : IsKeyType PodKey
pod_keys = record { same = same_pod; same_iff = same_pod_iff }

-- The maps of `Server`; the mutex makes each handler below one step on them.
pub record Server : Type 0 where
  pub pod_ip_index : Dict ℕ PodKey
  pub node_ip_index : Dict ℕ String
  pub pod_index : Dict PodKey PodInfo
  pub node_index : Dict String String
  pub statistics : Dict PodKey ℕ

abbrev pub empty : Server
empty = record {
  pod_ip_index = [];
  node_ip_index = [];
  pod_index = [];
  node_index = [];
  statistics = [];
}

abbrev pub key_of : Pod → PodKey
key_of pod = record { namespace = pod.namespace; name = pod.name }

-- The server's `ipToUint32` is the agent's, word for word.
unfoldable pub ip_to_uint32 : (Ip → List ℕ) → Ip → Outcome ⊥ ℕ
ip_to_uint32 = Address.ip_to_uint32
