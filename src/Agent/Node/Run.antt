-- ===== src/Agent/Node/Run.antt =====
-- A run of the hook of agent/kubezonnet.c and the loop of agent/agent.go: which flows the posted
-- bodies carry.
use kubezonnet.Prelude.{
  ℕ, ◌+◌, ◌^◌, ◌<◌, ◌≡◌, refl, sym, ◌∙◌, List, [], ◌∷◌, ◌++◌, Bool, length, none, some, true, false,
  ok, arith, inl, inr, u64, Option-cases,
}
use kubezonnet.ByteOrder.{ntohl}
use kubezonnet.Cluster.{Addresses}
use kubezonnet.Payload.{IpKey}
use kubezonnet.Agent.Subnet.{Constants}
use kubezonnet.Agent.Hook.{Kernel, MapOps, count_packet, nf_postrouting_hook}
use kubezonnet.Agent.Hook.Keys.{packet_of-IsKey}
use kubezonnet.Agent.Hook.Totals.{
  MapLaws, total, packet_of, packet_of-lt, bytes_for, hook_lem, total-hook,
}
use kubezonnet.Agent.Collection.Filter.{is_local}
use kubezonnet.Agent.Node.{
  BatchRead, ReadsToEnd, NodeEvent, packet, ticker, stop_signal, context_done, posts, run_node,
}
use kubezonnet.Agent.Node.Carried.{Carry, nothing, tick-Carries}
use kubezonnet.Agent.Sizes.{sizes_for, sizes_for-append}

-- The packets that the hook counts, until the loop ends.
abbrev pub packets_of :
    (kernel : Kernel) → Constants → List (NodeEvent kernel.Skb) → List (IpKey × ℕ)
packets_of kernel constants [] = []
packets_of kernel constants (packet skb ∷ events) =
    let rest = packets_of kernel constants events in
    elim (packet_of kernel constants skb) [ none ↦ rest | some p ↦ p ∷ rest ]
packets_of kernel constants (ticker pods ∷ events) = packets_of kernel constants events
packets_of kernel constants (stop_signal ∷ events) = []
packets_of kernel constants (context_done ∷ events) = []

-- At every tick the answer to whether an address is of a pod of the node is this one.
abbrev pub IsAlways : {Skb : Type 0} → Addresses → Bool → ℕ → List (NodeEvent Skb) → Type 0
IsAlways net here ip [] = Unit
IsAlways net here ip (packet skb ∷ events) = IsAlways net here ip events
IsAlways net here ip (ticker pods ∷ events) =
    (is_local net pods ip ≡ here) × IsAlways net here ip events
IsAlways net here ip (stop_signal ∷ events) = Unit
IsAlways net here ip (context_done ∷ events) = Unit

-- The map is empty at the end, given whether it is at the start: no packet follows the last tick.
abbrev pub is_drained : {Skb : Type 0} → Bool → List (NodeEvent Skb) → Bool
is_drained empty [] = empty
is_drained empty (packet skb ∷ events) = is_drained false events
is_drained empty (ticker pods ∷ events) = is_drained true events
is_drained empty (stop_signal ∷ events) = empty
is_drained empty (context_done ∷ events) = empty

sizes_for-packets_of :
    (kernel : Kernel) (constants : Constants) (key : IpKey) (skb : kernel.Skb)
    (events : List (NodeEvent kernel.Skb))
    → sizes_for key (packets_of kernel constants (packet skb ∷ events))
      ≡ bytes_for kernel constants key skb + sizes_for key (packets_of kernel constants events)
sizes_for-packets_of kernel constants key skb events = ground arith

module _ (net : Addresses) (kernel : Kernel) {M : Type 0} (ops : MapOps M) (laws : MapLaws ops)
    (collector : BatchRead ops) (constants : Constants) where
  -- No packet meets a full map.
  abbrev pub HasSpace : List (NodeEvent kernel.Skb) → M → Type 0
  HasSpace [] m = Unit
  HasSpace (packet skb ∷ events) m =
      (laws.full m ≡ false) × HasSpace events (nf_postrouting_hook kernel ops constants skb m).0
  HasSpace (ticker pods ∷ events) m = HasSpace events (collector.read m).1
  HasSpace (stop_signal ∷ events) m = Unit
  HasSpace (context_done ∷ events) m = Unit

  hook_valid :
      (skb : kernel.Skb) (m : M)
      → collector.IsValid m
      → collector.IsValid (nf_postrouting_hook kernel ops constants skb m).0
  unfolding count_packet
  hook_valid skb m valid = elim (Option-cases (packet_of kernel constants skb)) [
    | inl none_here ↦ rw (hook_lem kernel ops constants skb m, none_here) valid
    | inr ((key, size), e) ↦
        let h = packet_of-IsKey kernel constants skb key size e in
        let small = packet_of-lt kernel constants skb key size e in
        elim (Option-cases (ops.lookup m key)) [
          | inl new_key ↦
              rw (hook_lem kernel ops constants skb m, e, count_packet, new_key)
                (collector.update_valid m key size h (omega arith) valid)
          | inr (w, f) ↦
              rw (hook_lem kernel ops constants skb m, e, count_packet, f)
                (collector.store_valid m key (u64 (w + size)) h (omega arith) valid)
        ]
  ]

  -- The result of a run from a map.
  pub record Finishes (spare : List ℕ) (events : List (NodeEvent kernel.Skb)) (m : M) : Type 0 where
    pub ip_map : M
    pub bodies : List (List ℕ)
    pub carried : List (IpKey × ℕ)
    pub returns : run_node net kernel ops collector constants true events m ≡ ok (ip_map, bodies)
    pub readable : Carry spare bodies carried
    pub conserved :
        (key : IpKey)
        → IsAlways net true (ntohl key.src_ip) events
        → total ops m key + sizes_for key (packets_of kernel constants events) < 2 ^ 64
        → sizes_for key carried + total ops ip_map key
          ≡ total ops m key + sizes_for key (packets_of kernel constants events)
    pub foreign :
        (key : IpKey) → IsAlways net false (ntohl key.src_ip) events → sizes_for key carried ≡ 0
    pub drained :
        (empty : Bool)
        → (empty ≡ true → (key : IpKey) → total ops m key ≡ 0)
        → is_drained empty events ≡ true
        → (key : IpKey) → total ops ip_map key ≡ 0

  at_end :
      (spare : List ℕ) (events : List (NodeEvent kernel.Skb)) (m : M)
      → packets_of kernel constants events ≡ []
      → run_node net kernel ops collector constants true events m ≡ ok (m, [])
      → ((empty : Bool) → is_drained empty events ≡ empty)
      → Finishes spare events m
  at_end spare events m none_left e same = record {
    ip_map = m;
    bodies = [];
    carried = [];
    returns = e;
    readable = nothing;
    conserved = λ key local fits. ground (arith, none_left);
    foreign = λ key away. refl;
    drained = λ empty before after key. before (sym (same empty) ∙ after) key;
  }

  pub run_node-Finishes :
      (spare : List ℕ) (events : List (NodeEvent kernel.Skb)) (m : M)
      → 20504 + length spare < 2 ^ 32
      → ReadsToEnd collector
      → collector.IsValid m
      → HasSpace events m
      → Finishes spare events m
  unfolding run_node
  run_node-Finishes spare [] m small ends valid room = at_end spare [] m refl refl (λ empty. refl)
  run_node-Finishes spare (packet skb ∷ events) m small ends valid room =
      let m1 = (nf_postrouting_hook kernel ops constants skb m).0 in
      let rest = run_node-Finishes spare events m1 small ends (hook_valid skb m valid) room.1 in
      let step = λ (key : IpKey) (fits : total ops m key < 2 ^ 64).
        total-hook kernel ops laws constants skb m key room.0 fits in
      let here = λ (key : IpKey). sizes_for-packets_of kernel constants key skb events in
      record {
        ip_map = rest.ip_map;
        bodies = rest.bodies;
        carried = rest.carried;
        returns = rest.returns;
        readable = rest.readable;
        conserved = λ key local fits.
            let added = step key (omega arith) in
            omega
              (arith, added, here key, rest.conserved key local (omega (arith, added, here key)));
        foreign = λ key away. rest.foreign key away;
        drained = λ empty before after key. rest.drained false (λ h. cc) after key;
      }
  run_node-Finishes spare (ticker pods ∷ events) m small ends valid room =
      let m1 = (collector.read m).1 in
      let now = tick-Carries net ops collector spare pods m small ends valid in
      let rest = run_node-Finishes spare events m1 small ends (collector.read_valid m valid) room in
      record {
        ip_map = rest.ip_map;
        bodies = posts now.posted rest.bodies;
        carried = now.carried ++ rest.carried;
        returns = rw (now.returns, rest.returns) refl;
        readable = now.readable rest.bodies rest.carried rest.readable;
        conserved = λ key local fits.
            let empty = collector.removed m key (ends m) in
            let later = rest.conserved key local.1 (omega (arith, empty)) in
            ground (
              arith,
              empty,
              later,
              local.0,
              now.local_carried key,
              sizes_for-append key now.carried rest.carried,
            );
        foreign = λ key away. ground (
          arith,
          away.0,
          rest.foreign key away.1,
          now.local_carried key,
          sizes_for-append key now.carried rest.carried,
        );
        drained = λ empty before after key.
            rest.drained true (λ h k. collector.removed m k (ends m)) after key;
      }
  run_node-Finishes spare (stop_signal ∷ events) m small ends valid room =
      at_end spare (stop_signal ∷ events) m refl refl (λ empty. refl)
  run_node-Finishes spare (context_done ∷ events) m small ends valid room =
      at_end spare (context_done ∷ events) m refl refl (λ empty. refl)
