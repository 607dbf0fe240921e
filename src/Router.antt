-- ===== src/Router.antt =====
-- domain/router_lifecycle.py: the states of the llama-server router, and the arguments it is started
-- with. The file system and the parser of addresses are the parameter `System`.
pub mod Laws
mod Tests
pub mod Supervisor
use llama_web_ui.Prelude.{
  ℕ, String, Bool, true, false, Option, none, some, List, [], ◌∷◌, ◌++◌, ◌&&◌, not, leb, is_some,
  if◌then◌else◌,
}

pub data RouterState : Type 0 where
  stopped starting ready degraded stopping crashed : RouterState

-- `target in _TRANSITIONS[current]`.
unfoldable pub may_enter : RouterState → RouterState → Bool
may_enter stopped starting = true
may_enter starting ready = true
may_enter starting stopping = true
may_enter starting crashed = true
may_enter ready degraded = true
may_enter ready stopping = true
may_enter ready crashed = true
may_enter degraded ready = true
may_enter degraded stopping = true
may_enter degraded crashed = true
may_enter stopping stopped = true
may_enter stopping crashed = true
may_enter crashed starting = true
may_enter crashed stopped = true
may_enter _ _ = false

pub record RouterLaunch : Type 0 where
  pub executable : String
  pub preset_path : String
  pub host : String
  pub port : ℕ
  pub api_key_file : Option String

pub record System : Type 0 where
  pub resolve : String → String  -- `path.expanduser().resolve()`
  pub is_file : String → Bool  -- `path.is_file()`
  pub is_loopback : String → Option Bool  -- `ip_address(host).is_loopback`, if it is an address
  pub show : ℕ → String  -- `str(port)`

pub data LaunchError : Type 0 where
  no_executable no_preset port_out_of_range host_not_an_address no_key_file : LaunchError
  key_file_required : LaunchError

pub data Arguments : Type 0 where
  accepted : List String → Arguments
  rejected : LaunchError → List LaunchError → Arguments

abbrev pub error_if : Bool → LaunchError → List LaunchError
error_if true e = e ∷ []
error_if false e = []

-- The error of a host that is no address.
abbrev pub host_errors : Option Bool → List LaunchError
host_errors none = host_not_an_address ∷ []
host_errors (some b) = []

abbrev pub key_file_errors : System → Option String → List LaunchError
key_file_errors sys none = []
key_file_errors sys (some f) = error_if (not (sys.is_file (sys.resolve f))) no_key_file

abbrev pub exposed : Option Bool → Option String → Bool
exposed (some false) none = true
exposed _ _ = false

-- The errors of each check, in the order of the checks.
abbrev pub checks : System → RouterLaunch → List (List LaunchError)
checks sys l =
    error_if (not (sys.is_file (sys.resolve l.executable))) no_executable
    ∷ error_if (not (sys.is_file (sys.resolve l.preset_path))) no_preset
    ∷ error_if (not (leb 1 l.port && leb l.port 65_535)) port_out_of_range
    ∷ host_errors (sys.is_loopback l.host)
    ∷ key_file_errors sys l.api_key_file
    ∷ error_if (exposed (sys.is_loopback l.host) l.api_key_file) key_file_required
    ∷ []

unfoldable pub collect : List (List LaunchError) → List LaunchError
collect [] = []
collect (es ∷ rest) = es ++ collect rest

unfoldable pub launch_errors : System → RouterLaunch → List LaunchError
launch_errors sys l = collect (checks sys l)

abbrev pub key_arguments : System → Option String → List String
key_arguments sys none = []
key_arguments sys (some f) = "--api-key-file" ∷ sys.resolve f ∷ []

unfoldable pub command : System → RouterLaunch → List String
command sys l =
    (sys.resolve l.executable
      ∷ "--models-preset"
      ∷ sys.resolve l.preset_path
      ∷ "--host"
      ∷ l.host
      ∷ "--port"
      ∷ sys.show l.port
      ∷ [])
    ++ key_arguments sys l.api_key_file

-- `if errors: raise`.
abbrev pub unless_errors : List LaunchError → List String → Arguments
unless_errors [] args = accepted args
unless_errors (e ∷ es) args = rejected e es

-- `RouterLaunch.arguments`.
unfoldable pub arguments : System → RouterLaunch → Arguments
arguments sys l = unless_errors (launch_errors sys l) (command sys l)
