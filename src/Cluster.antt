-- ===== src/Cluster.antt =====
-- What agent/agent.go and cmd/server/main.go read of the cluster: pods, nodes, and the addresses
-- in their texts.
use kubezonnet.Prelude.{ℕ, ◌≡◌, String, List, [], ◌∷◌, Option, none, some, word}
use kubezonnet.Dict.{Dict}
use kubezonnet.Net.{Ip, Quad, to4}
use kubezonnet.Net.Laws.{IsQuad}

-- The fields of a pod and of a node that the handlers read.
pub record Pod : Type 0 where
  pub namespace : String
  pub name : String
  pub node_name : String
  pub host_ip : String
  pub pod_ips : List String

pub record Node : Type 0 where
  pub name : String
  pub labels : Dict String String

-- What the informer hands over: a pod, a node, or something else, such as the marker of a
-- deletion that was missed.
pub data Object : Type 0 where
  pod_object : Pod → Object
  node_object : Node → Object
  other_object : Object

-- `net.ParseIP` and `String` of an IPv6 address. An address is made of bytes.
pub record Addresses : Type 0 where
  pub parse_ip : String → Option Ip
  pub v6_text : Ip → List ℕ
  pub parse_ip_bytes :
      (s : String) (ip : Ip) (q : Quad) → parse_ip s ≡ some ip → to4 ip ≡ some q → IsQuad q

module _ (net : Addresses) where
  -- The number of a text that is an IPv4 address.
  abbrev pub v4_number : String → Option ℕ
  v4_number s = elim (net.parse_ip s) [
    | none ↦ none
    | some ip ↦ elim (to4 ip) [ none ↦ none | some q ↦ some (word q.a q.b q.c q.d) ]
  ]

  abbrev pub ip_numbers : List String → List ℕ
  ip_numbers [] = []
  ip_numbers (s ∷ texts) = elim (v4_number s) [
    | none ↦ ip_numbers texts
    | some n ↦ n ∷ ip_numbers texts
  ]
