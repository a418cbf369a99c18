-- ===== src/Agent/Node/Carried.antt =====
-- What one tick of agent/agent.go carries from the map to a body.
use kubezonnet.Prelude.{
  ℕ, ◌+◌, ◌*◌, ◌^◌, ◌≤◌, ◌<◌, ◌≡◌, ◌⊎◌, zero, suc, refl, ap, sym, ◌∙◌, List, [], ◌∷◌, Option, none,
  some, true, false, ◌++◌, length, length-take, map, if◌then◌else◌, ok, ok-injective, All, All-take,
  arith, inl, inr,
}
use kubezonnet.ByteOrder.{ntohl}
use kubezonnet.Cluster.{Pod, pod_object, Addresses}
use kubezonnet.Payload.{IpKey, IpValue, encode, decode}
use kubezonnet.Payload.RoundTrip.{IsKey, IsValue, all_received, decode-encode}
use kubezonnet.Agent.Hook.{MapOps}
use kubezonnet.Agent.Hook.Totals.{same_key_iff, total}
use kubezonnet.Agent.Collection.{BatchError, key_not_exist, is_failure, tick}
use kubezonnet.Agent.Collection.Filter.{is_local, Kept, done, keep, skip}
use kubezonnet.Agent.Collection.Tick.{tick-Kept, length-Kept, All-Kept}
use kubezonnet.Agent.Node.{BatchRead, ReadsToEnd, posts}
use kubezonnet.Agent.Sizes.{sizes_for, pairs}

-- The flows that are read from some bodies, when each is in a slice with this spare capacity.
pub data Carry (spare : List ℕ) : List (List ℕ) → List (IpKey × ℕ) → Type 0 where
  nothing : Carry spare [] []
  carry :
      {bodies : List (List ℕ)} {rest : List (IpKey × ℕ)} (content : List ℕ) (keys : List IpKey)
      (values : List IpValue)
      → decode (record { items = content; spare = spare }) ≡ ok (all_received keys values)
      → All IsKey keys
      → Carry spare bodies rest
      → Carry spare (content ∷ bodies) (pairs keys values ++ rest)

-- The filter keeps the entries of a local flow, and none of a flow that is not.
sizes_for-Kept :
    {net : Addresses} {pods : List Pod} {keys ks : List IpKey} {values vs : List IpValue}
    (key : IpKey)
    → Kept net pods keys values ks vs
    → sizes_for key (pairs ks vs)
      ≡ (if is_local net pods (ntohl key.src_ip) then sizes_for key (pairs keys values) else 0)
sizes_for-Kept key (done values) = ground arith
sizes_for-Kept key (keep k value h kept) =
    ground (arith, sizes_for-Kept key kept, same_key_iff k key)
sizes_for-Kept key (skip k value h kept) =
    ground (arith, sizes_for-Kept key kept, same_key_iff k key)

zero_or_pos : (n : ℕ) → (n ≡ 0) ⊎ (0 < n)
zero_or_pos zero = inl refl
zero_or_pos (suc n) = inr (omega arith)

-- A body that was encoded is read as the flows it was made of.
decode-encoded :
    (keys : List IpKey) (values : List IpValue) (spare content : List ℕ)
    → All IsKey keys
    → All IsValue values
    → length keys ≤ length values
    → 24 + 20 * length keys + length spare < 2 ^ 32
    → encode keys values ≡ ok content
    → decode (record { items = content; spare = spare }) ≡ ok (all_received keys values)
decode-encoded keys values spare content hk hv paired small encoded =
    let (buf, e, d) = decode-encode keys values spare hk hv paired small in
    let whole : buf ≡ content = ok-injective (sym e ∙ encoded) in
    ap (λ items. decode (record { items = items; spare = spare })) (sym whole) ∙ d

-- What a tick posts, and the flows that it carries.
pub record Carries (net : Addresses) {M : Type 0} (ops : MapOps M) (collector : BatchRead ops)
    (spare : List ℕ) (pods : List Pod) (m : M) : Type 0 where
  pub posted : Option (List ℕ)
  pub carried : List (IpKey × ℕ)
  pub returns : tick net true (collector.read m).0 (map pod_object pods) ≡ ok posted
  pub readable :
      (bodies : List (List ℕ)) (rest : List (IpKey × ℕ))
      → Carry spare bodies rest
      → Carry spare (posts posted bodies) (carried ++ rest)
  pub local_carried :
      (key : IpKey)
      → sizes_for key carried
        ≡ (if is_local net pods (ntohl key.src_ip) then total ops m key else 0)

-- The end of the map is no failure.
at_end-succeeds : (e : Option BatchError) → e ≡ some key_not_exist → is_failure e ≡ false
unfolding is_failure
at_end-succeeds e at_end = ap is_failure at_end

module _ (net : Addresses) {M : Type 0} (ops : MapOps M) (collector : BatchRead ops)
    (spare : List ℕ) where
  -- A tick carries all that the map has counted for a local flow, and nothing of the others.
  pub tick-Carries :
      (pods : List Pod) (m : M)
      → 20504 + length spare < 2 ^ 32
      → ReadsToEnd collector
      → collector.IsValid m
      → Carries net ops collector spare pods m
  unfolding tick
  tick-Carries pods m small ends valid =
      let batch = (collector.read m).0 in
      let few = collector.read_fits m in
      let written_keys = collector.keys_written m valid in
      let written_values = collector.values_written m valid in
      elim (zero_or_pos batch.n) [
        | inl empty ↦ record {
          posted = none;
          carried = [];
          returns = ground (arith, empty);
          readable = λ bodies rest c. c;
          local_carried = λ key. ground (arith, empty, collector.read_all m key (ends m));
        }
        | inr some_entries ↦
            let (ks, vs, kept, outcome) =
              tick-Kept net batch pods some_entries (at_end-succeeds batch.error (ends m))
                (omega arith) (omega arith) in
            let sizes = length-Kept kept in
            let fit =
              All-Kept IsKey IsValue kept (All-take IsKey batch.n batch.keys written_keys.1)
                (All-take IsValue batch.n batch.values written_values.1) in
            let taken = length-take batch.n batch.keys (omega arith) in
            let all_local = λ (key : IpKey).
              sizes_for-Kept key kept
              ∙ ap (λ n. if is_local net pods (ntohl key.src_ip) then n else 0)
                  (collector.read_all m key (ends m)) in
            elim outcome [
              | inl (none_left, e) ↦ record {
                posted = none;
                carried = [];
                returns = e;
                readable = λ bodies rest c. c;
                local_carried = λ key. ground (arith, none_left, all_local key);
              }
              | inr (some_left, content, encoded, e) ↦ record {
                posted = some content;
                carried = pairs ks vs;
                returns = e;
                readable = λ bodies rest c.
                    carry content ks vs
                      (decode-encoded ks vs spare content fit.0 fit.1 (omega (arith, sizes))
                        (omega (arith, sizes, taken)) encoded)
                      fit.0 c;
                local_carried = all_local;
              }
            ]
      ]
