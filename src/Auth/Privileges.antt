-- ===== src/Auth/Privileges.antt =====
-- authorization.py: the privilege keys, and the privilege that a request needs.
use Prim.Native.String.{◌++◌ as ◌<>◌}
use text.Mathlib.Text.{starts_with}
use llama_web_ui.Prelude.{
  contains, ◌≡◌, String, Bool, true, false, ◌||◌, Option, none, some, ◌⊎◌, inl, inr, Bool-cases,
  Option-cases, All, arith, List, sym, ◌∙◌, [], ◌∷◌, if◌then◌else◌, string_discrete, refl,
}

abbrev pub resources : List String
resources =
    "auth" ∷ "server" ∷ "tokens" ∷ "runtimes" ∷ "profiles" ∷ "huggingface" ∷ "downloads" ∷ "library"
    ∷ "diagnostics" ∷ "integrations" ∷ "settings" ∷ "secrets" ∷ "assistant" ∷ []

pub data Access : Type 0 where
  read write : Access

-- `f"{resource}.{access}"`.
unfoldable pub privilege_key : String → Access → String
privilege_key resource read = ◌<>◌ resource ".read"
privilege_key resource write = ◌<>◌ resource ".write"

abbrev both_accesses : List String → List String
both_accesses [] = []
both_accesses (r ∷ rs) = privilege_key r read ∷ privilege_key r write ∷ both_accesses rs

-- `PRIVILEGE_KEYS`.
unfoldable pub privilege_keys : List String
privilege_keys = "server.lifecycle.write" ∷ both_accesses resources

abbrev pub public_paths : List String
public_paths =
    "/api/health" ∷ "/api/auth/login" ∷ "/api/auth/logout" ∷ "/api/auth/me" ∷ "/api/auth/password"
    ∷ []

abbrev pub is_reading : String → Bool
is_reading method = contains ("GET" ∷ "HEAD" ∷ "OPTIONS" ∷ []) method

resource_of_rest : String → Option String
resource_of_rest path =
    if starts_with path "/api/diagnostics/"
    then some "diagnostics"
    else if starts_with path "/api/integrations/"
    then some "integrations"
    else if starts_with path "/api/settings"
    then some "settings"
    else if starts_with path "/api/secrets"
    then some "secrets"
    else if starts_with path "/api/assistant"
    then some "assistant"
    else if starts_with path "/api/events"
    then some "server"
    else none

-- The chain of `elif path.startswith(…)`; `none` is its `else`.
pub resource_of : String → Option String
resource_of path =
    if starts_with path "/api/auth/"
    then some "auth"
    else if starts_with path "/api/server/"
    then some "server"
    else if starts_with path "/api/tokens"
    then some "tokens"
    else if starts_with path "/api/runtimes"
    then some "runtimes"
    else if starts_with path "/api/profiles" || starts_with path "/api/argument-catalog"
    then some "profiles"
    else if starts_with path "/api/huggingface/"
    then some "huggingface"
    else if starts_with path "/api/downloads"
    then some "downloads"
    else if starts_with path "/api/library"
    then some "library"
    else resource_of_rest path

abbrev pub unclassified : String
unclassified = "__unclassified__"

abbrev pub lifecycle : String
lifecycle = "server.lifecycle.write"

abbrev access_of : String → Access
access_of method = if is_reading method then read else write

abbrev pub starts_or_stops : String → Bool
starts_or_stops path = contains ("/api/server/start" ∷ "/api/server/stop" ∷ []) path

abbrev benchmark_key : String → String
benchmark_key method = if is_reading method then "server.read" else lifecycle

-- `none` is a request that needs no privilege.
pub privilege_for_request : String → String → Option String
privilege_for_request path method =
    if contains public_paths path
    then none
    else if starts_or_stops path
    then some lifecycle
    else if starts_with path "/api/benchmarks"
    then some (benchmark_key method)
    else elim (resource_of path) [
      | none ↦ some unclassified
      | some resource ↦ some (privilege_key resource (access_of method))
    ]

-- Keys with the given access.
abbrev keys_with : Access → List String → List String
keys_with a [] = []
keys_with a (r ∷ rs) = privilege_key r a ∷ keys_with a rs

-- The resources by name, each known.
resources_known : All (λ r. contains resources r ≡ true) resources
unfolding contains string_discrete
resources_known = (
  refl,
  (
    refl,
    (refl, (refl, (refl, (refl, (refl, (refl, (refl, (refl, (refl, (refl, (refl, tt))))))))))),
  ),
)

resource_of_rest-known :
    (path r : String) → resource_of_rest path ≡ some r → contains resources r ≡ true
unfolding resource_of_rest
resource_of_rest-known path r h = ground (arith, resources_known)

resource_of-known : (path r : String) → resource_of path ≡ some r → contains resources r ≡ true
unfolding resource_of
resource_of-known path r h = ground (arith, resources_known, resource_of_rest-known path r)

keys_with-contains :
    (a : Access) (rs : List String) (r : String)
    → contains rs r ≡ true
    → contains (keys_with a rs) (privilege_key r a) ≡ true
unfolding contains
keys_with-contains a [] r h = cc
keys_with-contains a (q ∷ rs) r h = ground (arith, keys_with-contains a rs r)

-- The prefixes of classified paths, each with its resource.
abbrev pub prefixes : List (String × String)
prefixes =
    ("/api/auth/", "auth")
    ∷ ("/api/server/", "server")
    ∷ ("/api/tokens", "tokens")
    ∷ ("/api/runtimes", "runtimes")
    ∷ ("/api/profiles", "profiles")
    ∷ ("/api/argument-catalog", "profiles")
    ∷ ("/api/huggingface/", "huggingface")
    ∷ ("/api/downloads", "downloads")
    ∷ ("/api/library", "library")
    ∷ ("/api/diagnostics/", "diagnostics")
    ∷ ("/api/integrations/", "integrations")
    ∷ ("/api/settings", "settings")
    ∷ ("/api/secrets", "secrets")
    ∷ ("/api/assistant", "assistant")
    ∷ ("/api/events", "server")
    ∷ []

-- The resource of the first prefix that the path has.
unfoldable pub first_match : String → List (String × String) → Option String
first_match path [] = none
first_match path ((prefix, resource) ∷ rest) =
    if starts_with path prefix then some resource else first_match path rest

resource_of-first_match : (path : String) → resource_of path ≡ first_match path prefixes
unfolding resource_of resource_of_rest first_match
resource_of-first_match path = ground arith

abbrev pub matched_key : Option String → String → String
matched_key none method = unclassified
matched_key (some resource) method = privilege_key resource (access_of method)

-- The key of a path outside the public ones: the lifecycle key for the two paths that start and stop
-- the router, which the benchmarks share with "server.read", and the key of the resource otherwise.
abbrev pub key_of : Bool → Bool → String → String → String
key_of true benchmark path method = lifecycle
key_of false true path method = if is_reading method then "server.read" else lifecycle
key_of false false path method = matched_key (first_match path prefixes) method

-- A key that is required for a method: with "read" for a reading method, and a "write" key or the
-- lifecycle key otherwise.
abbrev pub Fits : String → String → String → Type 0
Fits path method k =
    (k ≡ unclassified)
    ⊎ (k ≡ lifecycle)
    ⊎ ((is_reading method ≡ true) × (contains (keys_with read resources) k ≡ true))
    ⊎ ((is_reading method ≡ false) × (contains (keys_with write resources) k ≡ true))

access_of-Fits :
    (path method r : String)
    → contains resources r ≡ true
    → Fits path method (privilege_key r (access_of method))
access_of-Fits path method r h = elim (Bool-cases (is_reading method)) [
  | inl reads ↦ rw reads (inr (inr (inl (refl, keys_with-contains read resources r h))))
  | inr writes ↦ rw writes (inr (inr (inr (refl, keys_with-contains write resources r h))))
]

server_read_known : contains (keys_with read resources) "server.read" ≡ true
unfolding contains privilege_key string_discrete
server_read_known = refl

benchmark_key-Fits : (path method : String) → Fits path method (benchmark_key method)
benchmark_key-Fits path method = elim (Bool-cases (is_reading method)) [
  | inl reads ↦ rw reads (inr (inr (inl (refl, server_read_known))))
  | inr writes ↦ rw writes (inr (inl refl))
]

-- Every request outside the five public paths needs a privilege. It is the lifecycle key for the two
-- paths that start and stop the router. For the other paths under "/api/benchmarks" it is
-- "server.read" for a reading method, and the lifecycle key otherwise. For all others it is the key,
-- with the access that the method calls for, of the resource that a table gives for the first of its
-- prefixes that the path has, and the closed key of unclassified requests if it has none. Never is it
-- a "read" key for a method that writes.
pub privilege_for_request-Fits :
    (path method : String)
    → contains public_paths path ≡ false
    → let k = key_of (starts_or_stops path) (starts_with path "/api/benchmarks") path method in
      (privilege_for_request path method ≡ some k) × Fits path method k
unfolding privilege_for_request
privilege_for_request-Fits path method h = elim (Bool-cases (starts_or_stops path)) [
  | inl starts ↦ (rw (h, starts), rw starts (inr (inl refl)))
  | inr rest ↦ elim (Bool-cases (starts_with path "/api/benchmarks")) [
    | inl benchmarks ↦
        (rw (h, rest, benchmarks), rw (rest, benchmarks) (benchmark_key-Fits path method))
    | inr other ↦ elim (Option-cases (resource_of path)) [
      | inl missing ↦
          let nothing = sym (resource_of-first_match path) ∙ missing in
          (rw (h, rest, other, missing, nothing), rw (rest, other, nothing) (inl refl))
      | inr (r, found) ↦
          let first = sym (resource_of-first_match path) ∙ found in
          (
            rw (h, rest, other, found, first),
            rw (rest, other, first) (access_of-Fits path method r (resource_of-known path r found)),
          )
    ]
  ]
]

-- No role can hold the key of unclassified requests.
unclassified_is_no_key : contains privilege_keys unclassified ≡ false
unfolding contains privilege_keys privilege_key string_discrete
unclassified_is_no_key = refl
