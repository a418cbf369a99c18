-- ===== src/Agent/Packet/Context.antt =====
-- How agent/kubezonnet.c reads `ctx->skb->protocol` through the types of agent/vmlinux.h.
use kubezonnet.Prelude.{ℕ, ◌+◌, ◌^◌, ◌<◌, ◌≡◌, ap, some, arith}
use kubezonnet.Agent.Layout.{size_of, member_of}
use kubezonnet.Agent.Layout.Reads.{Memory, load_le, read_member}
use kubezonnet.Agent.Vmlinux.Buffers.{sk_buff}
use kubezonnet.Agent.Vmlinux.Hooks.{bpf_nf_ctx}

pub protocol-read_member :
    (memory : Memory) (ctx skb : ℕ)
    → ((a : ℕ) → memory a < 2 ^ 8)
    → (read_member memory ctx bpf_nf_ctx "skb" ≡ some (load_le memory 8 (ctx + 8)))
      × (read_member memory skb sk_buff "protocol" ≡ some (load_le memory 2 (skb + 180)))
unfolding read_member member_of size_of
protocol-read_member memory ctx skb bytes =
    (ap some (omega (arith, bytes)), ap some (omega (arith, bytes)))
