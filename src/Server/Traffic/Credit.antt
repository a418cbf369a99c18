-- ===== src/Server/Traffic/Credit.antt =====
-- What a batch does to the counters and the log of cmd/server/main.go, against a relation that
-- says which entries are cross-zone flows.
use kubezonnet.Prelude.{
  ℕ, ◌+◌, ◌<◌, ◌^◌, ◌≡◌, ◌≢◌, inl, inr, refl, ap, ◌∙◌, List, [], ◌∷◌, ◌++◌, map, append-nil,
  append_assoc, Option, none, some, false, arith, if◌then◌else◌, u64, pos, int64, Option-cases,
}
use kubezonnet.Dict.{Dict, put, same, string_keys, get-put, HasDistinctKeys, put-HasDistinctKeys}
use kubezonnet.Payload.{Entry}
use kubezonnet.Server.{Server, PodKey, pod_keys, same_pod, same_pod_iff}
use kubezonnet.Server.Resolve.{Place, resolve, Located, resolve_iff}
use kubezonnet.Server.Traffic.{FlowLog, count_at, add_traffic, count_entry, count_entries}

-- An entry with the places of its two ends.
pub record Flow : Type 0 where
  pub entry : Entry
  pub src : Place
  pub dst : Place

-- Both ends are known, and their zones differ.
pub record IsCrossZone (s : Server) (f : Flow) : Type 0 where
  pub src_located : Located s f.entry.src_ip f.src
  pub dst_located : Located s f.entry.dst_ip f.dst
  pub zones_differ : f.src.zone ≢ f.dst.zone

-- The cross-zone flows of a batch, in order; the other entries are dropped.
pub data Flows (s : Server) : List Entry → List Flow → Type 0 where
  nil : Flows s [] []
  cross :
      {entries : List Entry} {flows : List Flow} (f : Flow)
      → IsCrossZone s f
      → Flows s entries flows
      → Flows s (f.entry ∷ entries) (f ∷ flows)
  other :
      {entries : List Entry} {flows : List Flow} (entry : Entry)
      → ((f : Flow) → f.entry ≡ entry → ¬ IsCrossZone s f)
      → Flows s entries flows
      → Flows s (entry ∷ entries) flows

-- The bytes that some flows add to a key: those of the flows that it is the source of.
abbrev pub bytes_from : PodKey → List Flow → ℕ
bytes_from key [] = 0
bytes_from key (f ∷ flows) =
    (if same_pod f.src.key key then f.entry.traffic else 0) + bytes_from key flows

abbrev pub line_of : Flow → FlowLog
line_of f = record {
  src = f.src.key;
  src_port = pos f.entry.src_port;
  dst = f.dst.key;
  dst_port = pos f.entry.dst_port;
  bytes = int64 f.entry.traffic;
}

-- The flow of an entry, computed.
flow_of : Server → Entry → Option Flow
flow_of s entry = elim (resolve s entry.src_ip) [
  | none ↦ none
  | some src ↦ elim (resolve s entry.dst_ip) [
    | none ↦ none
    | some dst ↦
        if same src.zone dst.zone
        then none
        else some (record { entry = entry; src = src; dst = dst })
  ]
]

flow_of-IsCrossZone :
    (s : Server) (entry : Entry) (f : Flow)
    → flow_of s entry ≡ some f
    → (f.entry ≡ entry)
      × (resolve s f.entry.src_ip ≡ some f.src)
      × (resolve s f.entry.dst_ip ≡ some f.dst)
      × (same f.src.zone f.dst.zone ≡ false)
unfolding flow_of
flow_of-IsCrossZone s entry f h = ground arith

IsCrossZone-of_flow :
    (s : Server) (entry : Entry) (f : Flow) → flow_of s entry ≡ some f → IsCrossZone s f
IsCrossZone-of_flow s entry f h =
    let e = flow_of-IsCrossZone s entry f h in
    record {
      src_located = (resolve_iff s f.entry.src_ip f.src).0 e.1;
      dst_located = (resolve_iff s f.entry.dst_ip f.dst).0 e.2;
      zones_differ =
          λ same_zone. cc (e.3, (string_keys.same_iff f.src.zone f.dst.zone).1 same_zone);
    }

flow_of-cross : (s : Server) (f : Flow) → IsCrossZone s f → flow_of s f.entry ≡ some f
unfolding flow_of
flow_of-cross s f c = ground (
  arith,
  (resolve_iff s f.entry.src_ip f.src).1 c.src_located,
  (resolve_iff s f.entry.dst_ip f.dst).1 c.dst_located,
  string_keys.same_iff f.src.zone f.dst.zone,
  c.zones_differ,
)

not_cross :
    (s : Server) (entry : Entry)
    → flow_of s entry ≡ none
    → (f : Flow) → f.entry ≡ entry
    → ¬ IsCrossZone s f
not_cross s entry h f e c = cc (flow_of-cross s f c, ap (flow_of s) e, h)

pub cross_flows : Server → List Entry → List Flow
cross_flows s [] = []
cross_flows s (entry ∷ entries) =
    let rest = cross_flows s entries in elim (flow_of s entry) [ none ↦ rest | some f ↦ f ∷ rest ]

pub cross_flows-Flows :
    (s : Server) (entries : List Entry) → Flows s entries (cross_flows s entries)
unfolding cross_flows
cross_flows-Flows s [] = nil
cross_flows-Flows s (entry ∷ entries) = elim (Option-cases (flow_of s entry)) [
  | inl none_here ↦
      rw (cross_flows, none_here)
        (other entry (not_cross s entry none_here) (cross_flows-Flows s entries))
  | inr (f, e) ↦
      rw (cross_flows, e, ← (flow_of-IsCrossZone s entry f e).0)
        (cross f (IsCrossZone-of_flow s entry f e) (cross_flows-Flows s entries))
]

-- The counters after some flows.
pub credited : List Flow → Dict PodKey ℕ → Dict PodKey ℕ
credited [] m = m
credited (f ∷ flows) m =
    credited flows (put m f.src.key (u64 (count_at m f.src.key + f.entry.traffic)))

count_at-put :
    (m : Dict PodKey ℕ) (k : PodKey) (v : ℕ) (j : PodKey)
    → count_at (put m k v) j ≡ (if same_pod k j then v else count_at m j)
count_at-put m k v j = ground (arith, get-put m k v j)

pub count_at-credited :
    (flows : List Flow) (m : Dict PodKey ℕ) (key : PodKey)
    → count_at m key < 2 ^ 64
    → count_at (credited flows m) key ≡ u64 (count_at m key + bytes_from key flows)
unfolding credited
count_at-credited [] m key h = omega arith
count_at-credited (f ∷ flows) m key h =
    let v = u64 (count_at m f.src.key + f.entry.traffic) in
    let here = count_at-put m f.src.key v key in
    count_at-credited flows (put m f.src.key v) key (ground (arith, here))
    ∙ ground (arith, here, same_pod_iff f.src.key key)

pub resolve-statistics :
    (s : Server) (m : Dict PodKey ℕ) (ip : ℕ)
    → resolve (record s { statistics = m }) ip ≡ resolve s ip
unfolding resolve
resolve-statistics s m ip = refl

count_entry_lem :
    (s : Server) (entry : Entry) (m : Dict PodKey ℕ) (logs : List FlowLog)
    → count_entry entry (record { server = record s { statistics = m }; flow_logs = logs })
      ≡ (elim (flow_of s entry) [
        | none ↦ record { server = record s { statistics = m }; flow_logs = logs }
        | some f ↦ record {
          server = record s {
            statistics = put m f.src.key (u64 (count_at m f.src.key + f.entry.traffic));
          };
          flow_logs = logs ++ (line_of f ∷ []);
        }
      ])
unfolding count_entry flow_of add_traffic
count_entry_lem s entry m logs =
    ground (arith, resolve-statistics s m entry.src_ip, resolve-statistics s m entry.dst_ip)

-- The loop, from counters `m` over the indexes of `s`.
pub count_entries_lem :
    (s : Server) (entries : List Entry) (m : Dict PodKey ℕ) (logs : List FlowLog)
    → count_entries entries (record { server = record s { statistics = m }; flow_logs = logs })
      ≡ record {
        server = record s { statistics = credited (cross_flows s entries) m };
        flow_logs = logs ++ map line_of (cross_flows s entries);
      }
unfolding count_entries cross_flows credited
count_entries_lem s [] m logs = rw append-nil
count_entries_lem s (entry ∷ entries) m logs = elim (Option-cases (flow_of s entry)) [
  | inl none_here ↦
      rw (count_entry_lem s entry m logs, cross_flows, none_here)
        (count_entries_lem s entries m logs)
  | inr (f, e) ↦
      let m' = put m f.src.key (u64 (count_at m f.src.key + f.entry.traffic)) in
      rw (count_entry_lem s entry m logs, cross_flows, e)
        (count_entries_lem s entries m' (logs ++ (line_of f ∷ []))
          ∙ ap
              (λ l. record {
                server = record s { statistics = credited (cross_flows s entries) m' };
                flow_logs = l;
              })
              (append_assoc logs (line_of f ∷ []) (map line_of (cross_flows s entries))))
]

pub credited-HasDistinctKeys :
    (flows : List Flow) (m : Dict PodKey ℕ) → HasDistinctKeys m → HasDistinctKeys (credited flows m)
unfolding credited
credited-HasDistinctKeys [] m h = h
credited-HasDistinctKeys (f ∷ flows) m h =
    credited-HasDistinctKeys flows _ (put-HasDistinctKeys m f.src.key _ h)
