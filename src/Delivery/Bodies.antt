-- ===== src/Delivery/Bodies.antt =====
-- The bodies of an agent, one after the other, in the handler of cmd/server/main.go.
use kubezonnet.Prelude.{
  ℕ, ◌+◌, ◌≡◌, refl, ap, ◌∙◌, List, [], ◌∷◌, Bool, Outcome, ok, ◌>>=◌, arith, u64,
}
use kubezonnet.ByteOrder.{ntohl}
use kubezonnet.Dict.{string_keys}
use kubezonnet.Payload.{IpKey, IpValue}
use kubezonnet.Payload.RoundTrip.{all_received}
use kubezonnet.Agent.Sizes.{sizes_where, pairs, sizes_where-append}
use kubezonnet.Agent.Node.Carried.{Carry, nothing, carry}
use kubezonnet.Server.{Server, PodKey}
use kubezonnet.Server.Resolve.{resolve}
use kubezonnet.Server.Traffic.{count_at, handle_payload}
use kubezonnet.Server.Traffic.Crossing.{counts_for, entries_from, bytes_from-Flows}
use kubezonnet.Server.Traffic.Credit.{bytes_from}
use kubezonnet.Server.Traffic.Handler.{post, HasCounters, handle_payload-IsCounted}

-- The server after all bodies.
unfoldable pub deliver : List ℕ → Server → List (List ℕ) → Outcome ⊥ Server
deliver spare s [] = ok s
deliver spare s (body ∷ bodies) = do
  result ← handle_payload s (post (record { items = body; spare = spare }))
  deliver spare result.0 bodies

-- The flow is cross-zone traffic of the pod.
abbrev pub sends_from : Server → PodKey → IpKey → Bool
sends_from s key flow = counts_for s key (ntohl flow.src_ip) (ntohl flow.dst_ip)

entries_from-all_received :
    (s : Server) (key : PodKey) (keys : List IpKey) (values : List IpValue)
    → entries_from s key (all_received keys values)
      ≡ sizes_where (sends_from s key) (pairs keys values)
entries_from-all_received s key [] values = refl
entries_from-all_received s key (k ∷ keys) [] = refl
entries_from-all_received s key (k ∷ keys) (value ∷ values) =
    omega (arith, entries_from-all_received s key keys values)

-- What the server has after bodies that carry some flows.
pub record Charged (spare : List ℕ) (s : Server) (bodies : List (List ℕ))
    (carried : List (IpKey × ℕ)) : Type 0 where
  pub after : Server
  pub returns : deliver spare s bodies ≡ ok after
  pub counted :
      (key : PodKey)
      → count_at after.statistics key
        ≡ u64 (count_at s.statistics key + sizes_where (sends_from s key) carried)

pub deliver-Charged :
    {spare : List ℕ} {bodies : List (List ℕ)} {carried : List (IpKey × ℕ)} (s : Server)
    → HasCounters s
    → Carry spare bodies carried
    → Charged spare s bodies carried
unfolding deliver resolve
deliver-Charged s h nothing = record {
  after = s;
  returns = refl;
  counted = λ key. omega (arith, h key);
}
deliver-Charged {spare} s h (carry {bodies} {rest} content keys values decoded fit more) =
    let entries = all_received keys values in
    let c =
      handle_payload-IsCounted s (record { items = content; spare = spare }) entries h decoded in
    let later = deliver-Charged c.after (λ key. omega (arith, c.counted key)) more in
    record {
      after = later.after;
      returns = rw (c.replies) later.returns;
      counted = λ key.
          let here : bytes_from key c.flows ≡ sizes_where (sends_from s key) (pairs keys values) =
            bytes_from-Flows key c.cross_zone ∙ entries_from-all_received s key keys values in
          let same_places : sizes_where (sends_from c.after key) rest
              ≡ sizes_where (sends_from s key) rest =
            ap (λ t. sizes_where (sends_from t key) rest) c.indexes_kept in
          omega (
            arith,
            here,
            same_places,
            c.counted key,
            later.counted key,
            sizes_where-append (sends_from s key) (pairs keys values) rest,
          );
    }
