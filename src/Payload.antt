-- ===== src/Payload.antt =====
-- payload/payload.go: the batch of flow statistics on the wire, between agent and server.
pub mod BigEndian
pub mod Encode
pub mod Decode
pub mod RoundTrip
pub mod Canonical
pub mod Tests
use kubezonnet.Prelude.{
  ℕ, zero, suc, ◌+◌, ◌*◌, ◌-◌, ◌^◌, ◌<◌, List, [], ◌∷◌, ◌++◌, Option, none, some, leb, ltb, ◌==◌,
  not, ◌&&◌, if◌then◌else◌, length, get_elem?, take, drop, replicate, Outcome, ok, err, panic,
  ◌>>=◌, Slice, len, slice, u32,
}
use kubezonnet.Payload.BigEndian.{be_bytes, read}
use kubezonnet.ByteOrder.{ntohl}

-- Key of the eBPF map, and of an entry on the wire: the addresses are in network byte order.
pub record IpKey : Type 0 where
  pub src_ip : ℕ
  pub dst_ip : ℕ
  pub src_port : ℕ
  pub dst_port : ℕ

pub record IpValue : Type 0 where
  pub packet_size : ℕ

-- A decoded entry: the addresses are in host byte order.
pub record Entry : Type 0 where
  pub src_ip : ℕ
  pub dst_ip : ℕ
  pub src_port : ℕ
  pub dst_port : ℕ
  pub traffic : ℕ

-- `PutUintN(buf[lo:hi], v)`, the bytes of `v` given: both the slice and the write check bounds.
unfoldable pub put : List ℕ → ℕ → ℕ → List ℕ → Outcome ⊥ (List ℕ)
put buf lo hi xs =
    if leb lo hi && leb hi (length buf) && leb (length xs) (hi - lo)
    then ok (take lo buf ++ (xs ++ drop (lo + length xs) buf))
    else panic

-- `values[i]`
unfoldable pub value_at : List IpValue → ℕ → Outcome ⊥ IpValue
value_at values i = elim (get_elem? values i) [ none ↦ panic | some v ↦ ok v ]

-- The body of the loop of `Encode`, at index `i`.
unfoldable pub encode_entry : IpKey → List IpValue → ℕ → ℕ → List ℕ → Outcome ⊥ (List ℕ)
encode_entry src_dst values i offset buf = do
  buf ← put buf offset (offset + 4) (be_bytes 4 src_dst.src_ip)
  buf ← put buf (offset + 4) (offset + 8) (be_bytes 4 src_dst.dst_ip)
  buf ← put buf (offset + 8) (offset + 10) (be_bytes 2 src_dst.src_port)
  buf ← put buf (offset + 10) (offset + 12) (be_bytes 2 src_dst.dst_port)
  value ← value_at values i
  put buf (offset + 12) (offset + 20) (be_bytes 8 value.packet_size)

unfoldable pub encode_from : List IpKey → List IpValue → ℕ → ℕ → List ℕ → Outcome ⊥ (List ℕ)
encode_from [] values i offset buf = ok buf
encode_from (src_dst ∷ keys) values i offset buf = do
  buf ← encode_entry src_dst values i offset buf
  encode_from keys values (i + 1) (offset + 20) buf

unfoldable pub encode : List IpKey → List IpValue → Outcome ⊥ (List ℕ)
encode keys values = do
  buf ← put (replicate (4 + 20 * length keys) 0) 0 4 (be_bytes 4 (u32 (length keys)))
  encode_from keys values 0 4 buf

-- "unexpected length of buffer", "unexpected length of buffer for number of entries"
pub data DecodeError : Type 0 where
  unexpected_length unexpected_length_for_entries : DecodeError

-- `binary.BigEndian.UintN(buf[lo:hi])`, for `k` bytes.
unfoldable pub read_at : {E : Type 0} → ℕ → Slice ℕ → ℕ → ℕ → Outcome E ℕ
read_at k buf lo hi = do b ← slice buf lo hi; read k b

-- The body of the loop of `Decode`; the offsets are uint32.
unfoldable pub decode_entry : Slice ℕ → ℕ → Outcome DecodeError Entry
decode_entry buf i = do
  let offset = u32 (4 + u32 (i * 20))
  src_ip ← read_at 4 buf offset (u32 (offset + 4))
  dst_ip ← read_at 4 buf (u32 (offset + 4)) (u32 (offset + 8))
  src_port ← read_at 2 buf (u32 (offset + 8)) (u32 (offset + 10))
  dst_port ← read_at 2 buf (u32 (offset + 10)) (u32 (offset + 12))
  traffic ← read_at 8 buf (u32 (offset + 12)) (u32 (offset + 20))
  ok (record {
    src_ip = ntohl src_ip;
    dst_ip = ntohl dst_ip;
    src_port = src_port;
    dst_port = dst_port;
    traffic = traffic;
  })

-- The loop from index `i`, with `numEntries - i` rounds left.
unfoldable pub decode_from : Slice ℕ → ℕ → ℕ → Outcome DecodeError (List Entry)
decode_from buf zero i = ok []
decode_from buf (suc left) i = do
  entry ← decode_entry buf i
  entries ← decode_from buf left (u32 (i + 1))
  ok (entry ∷ entries)

-- The size is computed in uint32, and so is the length that it is compared with.
unfoldable pub decode : Slice ℕ → Outcome DecodeError (List Entry)
decode buf = if ltb (len buf) 4 then err unexpected_length else do
  num_entries ← read_at 4 buf 0 4
  let size = u32 (4 + u32 (20 * num_entries))
  if not (u32 (len buf) == size)
      then err unexpected_length_for_entries
      else decode_from buf num_entries 0
