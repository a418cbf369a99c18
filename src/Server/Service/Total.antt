-- ===== src/Server/Service/Total.antt =====
-- Any inputs of cmd/server/main.go, one after the other.
use kubezonnet.Prelude.{
  ℕ, ◌+◌, ◌≡◌, refl, List, [], ◌∷◌, ◌++◌, length, length-append, ok, err, panic, arith,
}
use kubezonnet.Cluster.{Addresses}
use kubezonnet.Server.{PodKey}
use kubezonnet.Server.Steps.{Reach}
use kubezonnet.Server.History.{balance}
use kubezonnet.Server.Service.{Libraries, HttpReply, Service, Input, handle_input, run_service}
use kubezonnet.Server.Service.Moves.{input_tally, replies_to, handle_input-Moved}

abbrev pub replies_in : List Input → ℕ
replies_in [] = 0
replies_in (input ∷ inputs) = replies_to input + replies_in inputs

module _ {F C : Type 0} (lib : Libraries F C) (net : Addresses) where
  -- The balance of a pod after inputs: each of them changes it by what the server knows then.
  abbrev pub inputs_tally : List Input → Service C → PodKey → ℕ → ℕ
  inputs_tally [] v key n = n
  inputs_tally (input ∷ inputs) v key n = elim (handle_input lib net input v) [
    | ok done ↦ inputs_tally inputs done.0 key (input_tally v.server input key n)
    | err e ↦ n
    | panic ↦ n
  ]

  -- Whatever the inputs and their order, and from any state that was reached, the service handles
  -- all of them, no handler of a notification panics, each request has one reply unless its body
  -- makes `Decode` panic, and the new state is reached by handlers that change the balance of each
  -- pod as the inputs say.
  pub run_service-Reach :
      (inputs : List Input) (v : Service C) (r : Reach net v.server)
      → (v' : Service C) × (replies : List (HttpReply F C)) × (run_service lib net inputs v
          ≡ ok (v', replies))
        × (length replies ≡ replies_in inputs)
        × ((r' : Reach net v'.server) × ((key : PodKey)
              → balance r' key ≡ inputs_tally inputs v key (balance r key)))
  unfolding run_service
  run_service-Reach [] v r = (v, [], refl, refl, (r, λ key. refl))
  run_service-Reach (input ∷ inputs) v r =
      let (v1, first, e, moves, n) = handle_input-Moved net lib input v in
      let (r1, h) = moves r in
      let (v2, rest, f, k, (r2, g)) = run_service-Reach inputs v1 r1 in
      (
        v2,
        first ++ rest,
        ground (arith, e, f),
        omega (arith, length-append first rest, n, k),
        (r2, λ key. ground (arith, e, h key, g key)),
      )
