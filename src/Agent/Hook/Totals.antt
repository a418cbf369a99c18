-- ===== src/Agent/Hook/Totals.antt =====
-- The hook of agent/kubezonnet.c over a sequence of packets: what each flow's entry of the map has
-- grown by.
use kubezonnet.Prelude.{
  ℕ, ◌+◌, ◌<◌, ◌^◌, ◌≡◌, ◌≢◌, ◌↔◌, ap, Bool, true, false, not, ◌&&◌, Option, none, some, List, [],
  ◌∷◌, ◌==◌, if◌then◌else◌, u64, arith, Option-cases, inl, inr, All, IsByte,
}
use kubezonnet.Payload.{IpKey}
use kubezonnet.Agent.Subnet.{Constants, in_subnet}
use kubezonnet.Agent.Packet.{Iphdr, iphdr_of}
use kubezonnet.Agent.Hook.{
  nf_accept, eth_p_ip, Kernel, MapOps, key_of, count_packet, handle_v4, nf_postrouting_hook,
}

unfoldable pub same_key : IpKey → IpKey → Bool
same_key a b =
    a.src_ip == b.src_ip
    && a.dst_ip == b.dst_ip
    && a.src_port == b.src_port
    && a.dst_port == b.dst_port

pub same_key_iff : (a b : IpKey) → (same_key a b ≡ true) ↔ (a ≡ b)
unfolding same_key
same_key_iff a b = ground arith

-- What the kernel's hash map promises: a write to an entry and a new entry are seen by a lookup,
-- and a map that is full refuses a new key and is not changed.
pub record MapLaws {M : Type 0} (ops : MapOps M) : Type 0 where
  pub full : M → Bool
  pub lookup-store :
      (m : M) (k : IpKey) (w v : ℕ) (j : IpKey)
      → ops.lookup m k ≡ some w
      → ops.lookup (ops.store m k v) j ≡ (if same_key k j then some v else ops.lookup m j)
  pub lookup-update :
      (m : M) (k : IpKey) (v : ℕ) (j : IpKey)
      → ops.lookup m k ≡ none
      → full m ≡ false
      → ops.lookup (ops.update m k v).0 j ≡ (if same_key k j then some v else ops.lookup m j)
  pub update_full :
      (m : M) (k : IpKey) (v : ℕ)
      → ops.lookup m k ≡ none
      → full m ≡ true
      → ((ops.update m k v).0 ≡ m) × ((ops.update m k v).1 ≢ 0)

module _ {M : Type 0} (ops : MapOps M) where
  -- The bytes counted for a flow, 0 if it has no entry.
  abbrev pub total : M → IpKey → ℕ
  total m key = elim (ops.lookup m key) [ none ↦ 0 | some n ↦ n ]

module _ (kernel : Kernel) where
  open kernel use {Skb, protocol, dynptr_from_skb, dynptr_slice, ntohs}

  -- The flow and the size of a packet that counts: an IPv4 packet whose header can be read and
  -- whose addresses both lie in the subnet.
  unfoldable pub packet_of : Constants → Skb → Option (IpKey × ℕ)
  packet_of constants skb =
      if not (ntohs (protocol skb) == eth_p_ip && dynptr_from_skb skb == 0)
      then none
      else elim (dynptr_slice skb 0 20) [
        | none ↦ none
        | some bytes ↦ elim (iphdr_of bytes) [
          | none ↦ none
          | some ip ↦
              if in_subnet constants ip.saddr && in_subnet constants ip.daddr
              then some (key_of kernel skb ip, ntohs ip.tot_len)
              else none
        ]
      ]

  -- What a packet adds to a flow.
  abbrev pub bytes_for : Constants → IpKey → Skb → ℕ
  bytes_for constants key skb = elim (packet_of constants skb) [
    | none ↦ 0
    | some (k, size) ↦ if same_key k key then size else 0
  ]

  abbrev pub sum_for : Constants → IpKey → List Skb → ℕ
  sum_for constants key [] = 0
  sum_for constants key (skb ∷ skbs) = bytes_for constants key skb + sum_for constants key skbs

  module _ {M : Type 0} (ops : MapOps M) (constants : Constants) where
    -- The map after some packets, one after the other.
    unfoldable pub run : List Skb → M → M
    run [] m = m
    run (skb ∷ skbs) m = run skbs (nf_postrouting_hook kernel ops constants skb m).0

    pub hook_lem :
        (skb : Skb) (m : M)
        → nf_postrouting_hook kernel ops constants skb m ≡ (
          elim (packet_of constants skb) [
            | none ↦ m
            | some (key, size) ↦ count_packet ops key size m
          ],
          nf_accept,
        )
    unfolding nf_postrouting_hook handle_v4 packet_of
    hook_lem skb m = ground arith

    -- The hook accepts every packet: it never drops traffic.
    pub hook_accepts :
        (skb : Skb) (m : M) → (nf_postrouting_hook kernel ops constants skb m).1 ≡ nf_accept
    hook_accepts skb m = ap (λ r. r.1) (hook_lem skb m)

  tot_len-lt :
      (bytes : List ℕ) (ip : Iphdr)
      → All IsByte bytes
      → iphdr_of bytes ≡ some ip
      → ntohs ip.tot_len < 2 ^ 16
  unfolding iphdr_of
  tot_len-lt
        (b0 ∷ b1 ∷ l0 ∷ l1 ∷ b4 ∷ b5 ∷ b6 ∷ b7 ∷ b8 ∷ b9 ∷ c0 ∷ c1 ∷ s0 ∷ s1 ∷ s2 ∷ s3 ∷ d0 ∷ d1
          ∷ d2 ∷ d3 ∷ [])
        ip h e =
      ground (arith, kernel.ntohs_lem l0 l1 h.1.1.0 h.1.1.1.0)
  tot_len-lt _ ip h e = cc

  pub packet_of-lt :
      (constants : Constants) (skb : Skb) (key : IpKey) (size : ℕ)
      → packet_of constants skb ≡ some (key, size)
      → size < 2 ^ 16
  unfolding packet_of
  packet_of-lt constants skb key size h = elim (Option-cases (dynptr_slice skb 0 20)) [
    | inl none_here ↦ let bad : ⊥ = ground arith in absurd bad
    | inr (bytes, e) ↦ elim (Option-cases (iphdr_of bytes)) [
      | inl none_here ↦ let bad : ⊥ = ground arith in absurd bad
      | inr (ip, f) ↦ ground (arith, tot_len-lt bytes ip (kernel.slice_bytes skb 0 20 bytes e).1 f)
    ]
  ]

  module _ {M : Type 0} (ops : MapOps M) (laws : MapLaws ops) (constants : Constants) where
    -- No packet of the sequence meets a full map.
    abbrev pub HasRoom : List Skb → M → Type 0
    HasRoom [] m = Unit
    HasRoom (skb ∷ skbs) m =
        (laws.full m ≡ false) × HasRoom skbs (nf_postrouting_hook kernel ops constants skb m).0

    total-count_packet :
        (m : M) (k : IpKey) (size : ℕ) (key : IpKey)
        → laws.full m ≡ false
        → size < 2 ^ 16
        → total ops m key < 2 ^ 64
        → total ops (count_packet ops k size m) key
          ≡ u64 (total ops m key + (if same_key k key then size else 0))
    unfolding count_packet
    total-count_packet m k size key room small fits = elim (Option-cases (ops.lookup m k)) [
      | inl new_key ↦
          ground (arith, laws.lookup-update m k size key new_key room, same_key_iff k key)
      | inr (w, e) ↦
          ground (arith, laws.lookup-store m k w (u64 (w + size)) key e, same_key_iff k key)
    ]

    pub total-hook :
        (skb : Skb) (m : M) (key : IpKey)
        → laws.full m ≡ false
        → total ops m key < 2 ^ 64
        → total ops (nf_postrouting_hook kernel ops constants skb m).0 key
          ≡ u64 (total ops m key + bytes_for constants key skb)
    total-hook skb m key room fits = elim (Option-cases (packet_of constants skb)) [
      | inl none_here ↦ rw (hook_lem ops constants skb m, bytes_for, none_here) (omega arith)
      | inr ((k, size), e) ↦
          rw (hook_lem ops constants skb m, bytes_for, e)
            (total-count_packet m k size key room (packet_of-lt constants skb k size e) fits)
    ]

    -- After any packets, as long as the map has room for each, a flow's entry that was below 2 ^ 64
    -- has grown, modulo 2 ^ 64, by the total length of the packets of that flow that count; the
    -- other packets and flows have not touched it.
    pub total-run :
        (skbs : List Skb) (m : M) (key : IpKey)
        → HasRoom skbs m
        → total ops m key < 2 ^ 64
        → total ops (run ops constants skbs m) key
          ≡ u64 (total ops m key + sum_for constants key skbs)
    unfolding run
    total-run [] m key room fits = omega arith
    total-run (skb ∷ skbs) m key room fits =
        let m' = (nf_postrouting_hook kernel ops constants skb m).0 in
        let step = total-hook skb m key room.0 fits in
        omega (arith, step, total-run skbs m' key room.1 (omega (arith, step)))
