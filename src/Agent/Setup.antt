-- ===== src/Agent/Setup.antt =====
-- The start of the agent: the checks of its flags in cmd/agent/main.go, and `Run` of agent/agent.go
-- around its loop, with what it opens and what it defers.
pub mod Tidy
pub mod Exit
use kubezonnet.Prelude.{
  ℕ, String, List, [], ◌∷◌, ◌++◌, Option, none, some, Bool, true, false, ◌||◌, not, if◌then◌else◌,
  Outcome, ok, err, panic, leb, ℤ, pos, negsuc,
}
use kubezonnet.Dict.{same, string_keys}
use kubezonnet.Net.{Ip}
use kubezonnet.Agent.Subnet.{Constants, configure}

-- What the calls outside of the program do: whether each one succeeds, `net.ParseCIDR` and the text
-- of an IPv6 address. The loop of `Run` returns unless it panics.
pub record Host : Type 0 where
  pub in_cluster_config : Bool
  pub build_config_from_flags : Bool
  pub new_for_config : Bool
  pub v6_text : Ip → List ℕ
  pub parse_cidr : String → Option (Ip × List ℕ)
  pub remove_memlock : Bool
  pub load_kubezonnet : Bool
  pub rewrite_constants : Bool
  pub load_and_assign : Bool
  pub attach_netfilter : Bool
  pub loop_returns : Bool

-- What `Run` does to its surroundings, in order: the informer for the pods of a node, the eBPF
-- objects with their constants, and the hook with its protocol family and number.
pub data Effect : Type 0 where
  informer_started : String → Effect
  memlock_removed : Effect
  objects_loaded : Constants → Effect
  hook_attached : ℕ → ℕ → Effect
  loop_run : Effect
  link_closed objects_closed context_cancelled : Effect

pub data RunError : Type 0 where
  removing_memlock load_program configure_program load_objects attach_failed : RunError

-- A return, with an error or with nil, an exit of the process with a message, or a panic.
pub data Ending : Type 0 where
  returned : Option RunError → Ending
  exited : String → Ending
  panicked : Ending

pub data Result (A : Type 0) : Type 0 where
  goes_on : A → Result A
  ends : Ending → Result A

-- What was done, and what is deferred, the last one first.
pub record Frame : Type 0 where
  pub trace : List Effect
  pub deferred : List Effect

abbrev pub Action : Type 0 → Type 0
Action A = Frame → Result A × Frame

infixl 5 ◌>>=◌ ◌>>◌
abbrev pub ◌>>=◌ : {A B : Type 0} → Action A → (A → Action B) → Action B
◌>>=◌ m f frame =
    let (r, frame') = m frame in elim r [ goes_on a ↦ f a frame' | ends e ↦ (ends e, frame') ]

abbrev pub ◌>>◌ : {A B : Type 0} → Action A → Action B → Action B
m >> k = m >>= λ _. k

abbrev pub act : Effect → Action (Unit {0})
act e frame = (goes_on tt, record frame { trace = frame.trace ++ (e ∷ []) })

abbrev pub defer : Effect → Action (Unit {0})
defer e frame = (goes_on tt, record frame { deferred = e ∷ frame.deferred })

-- A call, and how the function ends if it fails.
abbrev pub try_or : Bool → Ending → Action (Unit {0})
try_or true e frame = (goes_on tt, frame)
try_or false e frame = (ends e, frame)

-- The constants of the subnet, an exit, or a panic in `ipToUint32`.
abbrev pub constants_or : Outcome ⊥ (Option Constants) → Action Constants
constants_or (ok (some c)) frame = (goes_on c, frame)
constants_or (ok none) frame = (ends (exited "Error: Invalid subnet CIDR"), frame)
constants_or (err e) frame = absurd e
constants_or panic frame = (ends panicked, frame)

unfoldable pub run_body : Host → String → String → Action (Unit {0})
run_body host node subnet_cidr = do
  defer context_cancelled
  try_or (host.in_cluster_config || host.build_config_from_flags)
      (exited "Error creating kubernetes config")
  try_or host.new_for_config (exited "Error creating kubernetes client")
  act (informer_started node)
  constants ← constants_or (configure host.v6_text host.parse_cidr subnet_cidr)
  try_or host.remove_memlock (returned (some removing_memlock))
  act memlock_removed
  try_or host.load_kubezonnet (returned (some load_program))
  try_or host.rewrite_constants (returned (some configure_program))
  try_or host.load_and_assign (returned (some load_objects))
  act (objects_loaded constants)
  defer objects_closed
  try_or host.attach_netfilter (returned (some attach_failed))
  act (hook_attached 2 4)
  defer link_closed
  act loop_run
  try_or host.loop_returns panicked

-- What is deferred runs at a return and at a panic, but not at an exit.
abbrev pub leave : Ending → Frame → Ending × List Effect
leave (returned e) frame = (returned e, frame.trace ++ frame.deferred)
leave panicked frame = (panicked, frame.trace ++ frame.deferred)
leave (exited message) frame = (exited message, frame.trace)

abbrev pub finish : Result (Unit {0}) → Frame → Ending × List Effect
finish (goes_on done) frame = leave (returned none) frame
finish (ends e) frame = leave e frame

unfoldable pub run_agent : Host → String → String → Ending × List Effect
run_agent host node subnet_cidr =
    let (result, frame) = run_body host node subnet_cidr (record { trace = []; deferred = [] }) in
    finish result frame

-- The flags that are checked. The interval is a number of nanoseconds.
pub record Flags : Type 0 where
  pub subnet_cidr : String
  pub flush_interval : ℤ
  pub server : String
  pub node : String

abbrev pub is_positive : ℤ → Bool
is_positive (pos n) = leb 1 n
is_positive (negsuc n) = false

-- `main` of cmd/agent/main.go. The error that `Run` returns ends in `log.Fatal`.
unfoldable pub main_agent : Host → Flags → Ending × List Effect
main_agent host flags =
    if same flags.subnet_cidr ""
    then (exited "Error: subnet CIDR cannot be empty", [])
    else if not (is_positive flags.flush_interval)
    then (exited "Error: flush interval must be greater than zero", [])
    else if same flags.server ""
    then (exited "Error: server must not be empty", [])
    else if same flags.node ""
    then (exited "Error: node name must not be empty", [])
    else run_agent host flags.node flags.subnet_cidr

-- The status of the process.
abbrev pub exit_status : Ending → ℕ
exit_status (returned none) = 0
exit_status (returned (some e)) = 1
exit_status (exited message) = 1
exit_status panicked = 2
