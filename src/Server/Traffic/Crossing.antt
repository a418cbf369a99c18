-- ===== src/Server/Traffic/Crossing.antt =====
-- The cross-zone traffic of a pod in a batch, computed from the batch: what cmd/server/main.go adds
-- to its counter.
use kubezonnet.Prelude.{
  ℕ, ◌+◌, ◌≡◌, refl, List, [], ◌∷◌, none, some, Bool, false, not, ◌&&◌, if◌then◌else◌, arith,
  Option-cases, Bool-cases, inl, inr,
}
use kubezonnet.Dict.{same, string_keys}
use kubezonnet.Payload.{Entry}
use kubezonnet.Server.{Server, PodKey, same_pod}
use kubezonnet.Server.Resolve.{resolve, resolve_iff}
use kubezonnet.Server.Traffic.Credit.{Flow, IsCrossZone, Flows, nil, cross, other, bytes_from}

-- Traffic between two addresses counts for a pod: it is at the first one, and the second one is in
-- another zone.
abbrev pub counts_for : Server → PodKey → ℕ → ℕ → Bool
counts_for s key src_ip dst_ip = elim (resolve s src_ip) [
  | none ↦ false
  | some src ↦ elim (resolve s dst_ip) [
    | none ↦ false
    | some dst ↦ same_pod src.key key && not (same src.zone dst.zone)
  ]
]

abbrev pub entries_from : Server → PodKey → List Entry → ℕ
entries_from s key [] = 0
entries_from s key (e ∷ es) =
    (if counts_for s key e.src_ip e.dst_ip then e.traffic else 0) + entries_from s key es

not_crossing :
    (s : Server) (key : PodKey) (e : Entry)
    → ((f : Flow) → f.entry ≡ e → ¬ IsCrossZone s f)
    → counts_for s key e.src_ip e.dst_ip ≡ false
not_crossing s key e h = elim (Option-cases (resolve s e.src_ip)) [
  | inl unknown ↦ ground (arith, unknown)
  | inr (src, p) ↦ elim (Option-cases (resolve s e.dst_ip)) [
    | inl unknown ↦ ground (arith, p, unknown)
    | inr (dst, q) ↦ elim (Bool-cases (same src.zone dst.zone)) [
      | inl near ↦ ground (arith, p, q, near)
      | inr far ↦ absurd (
          h (record { entry = e; src = src; dst = dst }) refl
            (record {
              src_located = (resolve_iff s e.src_ip src).0 p;
              dst_located = (resolve_iff s e.dst_ip dst).0 q;
              zones_differ =
                  λ same_zone. cc (far, (string_keys.same_iff src.zone dst.zone).1 same_zone);
            }))
    ]
  ]
]

-- The bytes that a batch adds to a key.
pub bytes_from-Flows :
    {s : Server} {entries : List Entry} {flows : List Flow} (key : PodKey)
    → Flows s entries flows
    → bytes_from key flows ≡ entries_from s key entries
bytes_from-Flows key nil = refl
bytes_from-Flows {s} key (cross f c rest) = ground (
  arith,
  bytes_from-Flows key rest,
  (resolve_iff s f.entry.src_ip f.src).1 c.src_located,
  (resolve_iff s f.entry.dst_ip f.dst).1 c.dst_located,
  string_keys.same_iff f.src.zone f.dst.zone,
  c.zones_differ,
)
bytes_from-Flows {s} key (other e h rest) =
    ground (arith, bytes_from-Flows key rest, not_crossing s key e h)
