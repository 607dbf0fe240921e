-- ===== src/Router/Laws.antt =====
-- When the router is started, and how its states connect.
use llama_web_ui.Prelude.{
  ◌≤◌, ◌≡◌, ◌⊎◌, ◌↔◌, refl, ap, ◌∙◌, inl, inr, String, Bool, true, false, none, some, List, [], ◌∷◌,
  ◌++◌, not, leb, ◌&&◌, All, arith, Bool-cases, Option-cases,
}
use llama_web_ui.Router.{
  RouterState, stopped, starting, ready, degraded, stopping, crashed, may_enter, RouterLaunch,
  System, LaunchError, no_executable, no_preset, port_out_of_range, key_file_required, no_key_file,
  checks, collect, accepted, launch_errors, error_if, host_errors, key_file_errors, exposed,
  command, unless_errors, arguments,
}

-- The host is a loopback address, or it is an address and there is a key file.
abbrev pub IsGuarded : System → RouterLaunch → Type 0
IsGuarded sys l =
    ((sys.is_loopback l.host ≡ some true) × (l.api_key_file ≡ none))
    ⊎ ((b : Bool) × (f : String) × (sys.is_loopback l.host ≡ some b)
        × (l.api_key_file ≡ some f)
        × (sys.is_file (sys.resolve f) ≡ true))

-- A launch that is safe: its files are there, its port is one, and it listens on a guarded address.
pub record IsSafe (sys : System) (l : RouterLaunch) : Type 0 where
  pub executable : sys.is_file (sys.resolve l.executable) ≡ true
  pub preset : sys.is_file (sys.resolve l.preset_path) ≡ true
  pub port_from : 1 ≤ l.port
  pub port_to : l.port ≤ 65_535
  pub guarded : IsGuarded sys l

append-nil : (xs ys : List LaunchError) → xs ++ ys ≡ [] → (xs ≡ []) × (ys ≡ [])
append-nil [] ys h = (refl, h)
append-nil (x ∷ xs) ys h = cc

error_if-nil : (b : Bool) (e : LaunchError) → error_if b e ≡ [] → b ≡ false
error_if-nil true e h = cc
error_if-nil false e h = refl

launch-IsGuarded :
    (sys : System) (l : RouterLaunch)
    → host_errors (sys.is_loopback l.host) ≡ []
    → key_file_errors sys l.api_key_file ≡ []
    → exposed (sys.is_loopback l.host) l.api_key_file ≡ false
    → IsGuarded sys l
launch-IsGuarded sys l host key closed = elim (Option-cases (sys.is_loopback l.host)) [
  | inl not_an_address ↦ cc (rw not_an_address at host)
  | inr (b, address) ↦ elim (Option-cases l.api_key_file) [
    | inl no_key ↦ elim (Bool-cases b) [
      | inl loopback ↦ inl (address ∙ ap some loopback, no_key)
      | inr public_address ↦ absurd (ground (arith, address, no_key, public_address))
    ]
    | inr (f, given) ↦ inr (
      b,
      f,
      address,
      given,
      ground
          (arith, error_if-nil (not (sys.is_file (sys.resolve f))) no_key_file (rw given at key)),
    )
  ]
]

collect-nil : (ess : List (List LaunchError)) → collect ess ≡ [] → All (λ es. es ≡ []) ess
unfolding collect
collect-nil [] h = tt
collect-nil (es ∷ rest) h = let (e, h') = append-nil es (collect rest) h in (e, collect-nil rest h')

no_errors-IsSafe : (sys : System) (l : RouterLaunch) → launch_errors sys l ≡ [] → IsSafe sys l
unfolding launch_errors
no_errors-IsSafe sys l h =
    let none_of = collect-nil (checks sys l) h in
    let found =
      error_if-nil (not (sys.is_file (sys.resolve l.executable))) no_executable none_of.0 in
    let named =
      error_if-nil (not (sys.is_file (sys.resolve l.preset_path))) no_preset none_of.1.0 in
    let in_range =
      error_if-nil (not (leb 1 l.port && leb l.port 65_535)) port_out_of_range none_of.1.1.0 in
    let guarded =
      error_if-nil (exposed (sys.is_loopback l.host) l.api_key_file) key_file_required
        none_of.1.1.1.1.1.0 in
    record {
      executable = ground (arith, found);
      preset = ground (arith, named);
      port_from = ground (arith, in_range);
      port_to = ground (arith, in_range);
      guarded = launch-IsGuarded sys l none_of.1.1.1.0 none_of.1.1.1.1.0 guarded;
    }

IsSafe-no_errors : (sys : System) (l : RouterLaunch) → IsSafe sys l → launch_errors sys l ≡ []
unfolding launch_errors collect
IsSafe-no_errors sys l s = elim s.guarded [
  | inl (loopback, no_key) ↦ ground (arith, s.executable, s.preset, s.port_from, s.port_to)
  | inr (b, f, address, key, there) ↦ ground (arith, s.executable, s.preset, s.port_from, s.port_to)
]

unless_errors-cases :
    (es : List LaunchError) (xs args : List String)
    → unless_errors es xs ≡ accepted args
    → (es ≡ []) × (args ≡ xs)
unless_errors-cases [] xs args h = ground arith
unless_errors-cases (e ∷ es) xs args h = cc

-- The arguments of a launch are accepted exactly when its files are there, its port is between 1 and
-- 65535, and it listens on a loopback address or has a key file; they are then the command for it.
pub arguments_iff :
    (sys : System) (l : RouterLaunch) (args : List String)
    → (arguments sys l ≡ accepted args) ↔ (IsSafe sys l × (args ≡ command sys l))
unfolding arguments
arguments_iff sys l args = (
  λ h.
      let (none_found, same) = unless_errors-cases (launch_errors sys l) (command sys l) args h in
      (no_errors-IsSafe sys l none_found, same),
  λ safe. rw (safe.1, IsSafe-no_errors sys l safe.0) refl,
)

-- A run through the states.
pub data Moves : RouterState → RouterState → Type 0 where
  rest : {a : RouterState} → Moves a a
  move : {a b c : RouterState} → may_enter a b ≡ true → Moves b c → Moves a c

Moves-then : {a b c : RouterState} → Moves a b → Moves b c → Moves a c
Moves-then rest n = n
Moves-then (move e m) n = move e (Moves-then m n)

abbrev via : (b : RouterState) {a c : RouterState} → may_enter a b ≡ true → Moves b c → Moves a c
via b e m = move e m

to_stopped : (a : RouterState) → Moves a stopped
unfolding may_enter
to_stopped stopped = rest
to_stopped starting = via stopping refl (via stopped refl rest)
to_stopped ready = via stopping refl (via stopped refl rest)
to_stopped degraded = via stopping refl (via stopped refl rest)
to_stopped stopping = via stopped refl rest
to_stopped crashed = via stopped refl rest

from_stopped : (b : RouterState) → Moves stopped b
unfolding may_enter
from_stopped stopped = rest
from_stopped starting = via starting refl rest
from_stopped ready = via starting refl (via ready refl rest)
from_stopped degraded = via starting refl (via ready refl (via degraded refl rest))
from_stopped stopping = via starting refl (via stopping refl rest)
from_stopped crashed = via starting refl (via crashed refl rest)

-- Every state of the router can be reached from every other: none is a dead end.
pub all_reachable : (a b : RouterState) → Moves a b
all_reachable a b = Moves-then (to_stopped a) (from_stopped b)
