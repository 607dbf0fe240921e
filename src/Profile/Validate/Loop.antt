-- ===== src/Profile/Validate/Loop.antt =====
-- When the validation of a profile's arguments finds no error.
use llama_web_ui.Prelude.{
  distinct, String, Bool, true, false, List, [], ◌∷◌, ◌++◌, ◌≡◌, refl, sym, ◌∙◌, inl, inr, ◌&&◌,
  ◌||◌, not, map, all, contains, same_text, is_some, if◌then◌else◌, arith, Bool-cases,
  string_discrete, if-cases,
}
use mathlib.Core.Logic.{if_neg}
use llama_web_ui.Profile.Value.{Python}
use llama_web_ui.Profile.Catalog.{ArgumentCatalog, ArgumentDefinition, find_id}
use llama_web_ui.Profile.Emit.{ProfileArgument}
use llama_web_ui.Profile.Validate.{
  Host, ArgumentIssue, error, warn, repeated_flag, conflict, argument_identity,
  validated_definition, Validation, argument_issues, validate_argument, validate_loop,
  conflict_issues, missing_issues, validate_relationships, validate_arguments, is_reported,
}
use llama_web_ui.Profile.Validate.Accepts.{argument_issues-is_acceptable_as}
use llama_web_ui.Profile.Validate.Reports.{
  has_errors, has_errors-append, Reports, Reports-ahead, Reports-none, Reports-warn, is_acceptable,
}

-- No text twice or among those seen.
unfoldable fresh : List String → List String → Bool
fresh seen [] = true
fresh seen (i ∷ is) = not (contains seen i) && fresh (seen ++ (i ∷ [])) is

contains-append :
    (is js : List String) (i : String) → contains (is ++ js) i ≡ (contains is i || contains js i)
unfolding contains
contains-append [] js i = refl
contains-append (x ∷ is) js i = ground (arith, contains-append is js i)

same_text-sym : (s t : String) → same_text s t ≡ same_text t s
same_text-sym s t = elim (string_discrete s t) [
  | yes p ↦ rw p refl
  | no n ↦ if_neg _ n true false ∙ sym (if_neg _ (λ q. n (sym q)) true false)
]

-- None of the texts is among those seen.
unfoldable none_of : List String → List String → Bool
none_of seen [] = true
none_of seen (i ∷ is) = not (contains seen i) && none_of seen is

none_of-append :
    (seen : List String) (i : String) (is : List String)
    → none_of (seen ++ (i ∷ [])) is ≡ (none_of seen is && not (contains is i))
unfolding none_of contains
none_of-append seen i [] = refl
none_of-append seen i (j ∷ is) =
    ground (arith, none_of-append seen i is, contains-append seen (i ∷ []) j, same_text-sym i j)

fresh-distinct : (seen is : List String) → fresh seen is ≡ (none_of seen is && distinct is)
unfolding fresh distinct none_of
fresh-distinct seen [] = refl
fresh-distinct seen (i ∷ is) =
    ground (arith, fresh-distinct (seen ++ (i ∷ [])) is, none_of-append seen i is)

none_of-nil : (is : List String) → none_of [] is ≡ true
unfolding none_of contains
none_of-nil [] = refl
none_of-nil (i ∷ is) = none_of-nil is

conflict_issues-warns :
    (present : List ArgumentDefinition) (i : String) (others : List String)
    (reported : List (String × String))
    → Reports (conflict_issues present i others reported).0 false
unfolding conflict_issues
conflict_issues-warns present i [] reported = Reports-none
conflict_issues-warns present i (other ∷ others) reported =
    if-cases (λ (r : List ArgumentIssue × List (String × String)). Reports r.0 false)
      (is_some (find_id other present) && not (is_reported reported i other))
      (λ _.
        Reports-ahead (warn conflict i) _ (Reports-warn conflict i)
          (conflict_issues-warns present i others (reported ++ ((i, other) ∷ []))))
      (λ _. conflict_issues-warns present i others reported)

missing_issues-warns :
    (present : List ArgumentDefinition) (d : ArgumentDefinition)
    → Reports (missing_issues present d) false
unfolding has_errors
missing_issues-warns present d = record { reports = ground arith }

validate_relationships-warns :
    (present ds : List ArgumentDefinition) (reported : List (String × String))
    → Reports (validate_relationships present ds reported) false
unfolding validate_relationships
validate_relationships-warns present [] reported = Reports-none
validate_relationships-warns present (d ∷ ds) reported =
    Reports-ahead _ _ (conflict_issues-warns present d.id d.conflicts reported) (
      Reports-ahead _ _ (missing_issues-warns present d)
        (validate_relationships-warns present ds _))

module _ (py : Python) (host : Host) (catalog : ArgumentCatalog) (acknowledged : List String) where
  -- One turn of the loop.
  validate_argument-errors :
      (state : Validation) (a : ProfileArgument)
      → has_errors (validate_argument py host catalog acknowledged state a).issues ≡ (
          has_errors state.issues
          || (contains state.seen (argument_identity catalog a)
              || not (is_acceptable py host catalog acknowledged a)))
  unfolding validate_argument has_errors
  validate_argument-errors state a =
      let own =
        argument_issues-is_acceptable_as py host catalog acknowledged a a.catalog_id
          (validated_definition catalog a) in
      ground (
        arith,
        has_errors-append state.issues (
            (if contains state.seen (argument_identity catalog a)
              then error repeated_flag (argument_identity catalog a)
              else [])
            ++ argument_issues py host catalog acknowledged a a.catalog_id
                (validated_definition catalog a)),
        has_errors-append
            (if contains state.seen (argument_identity catalog a)
              then error repeated_flag (argument_identity catalog a)
              else [])
            (argument_issues py host catalog acknowledged a a.catalog_id
              (validated_definition catalog a)),
        own.reports,
      )

  validate_argument-seen :
      (state : Validation) (a : ProfileArgument)
      → contains state.seen (argument_identity catalog a) ≡ false
      → (validate_argument py host catalog acknowledged state a).seen
        ≡ state.seen ++ (argument_identity catalog a ∷ [])
  unfolding validate_argument
  validate_argument-seen state a new = rw new refl

  validate_loop-errors :
      (state : Validation) (arguments : List ProfileArgument)
      → has_errors (validate_loop py host catalog acknowledged state arguments).issues ≡ (
          has_errors state.issues
          || not (
              fresh state.seen (map (argument_identity catalog) arguments)
              && all (is_acceptable py host catalog acknowledged) arguments))
  unfolding validate_loop fresh
  validate_loop-errors state [] = ground arith
  validate_loop-errors state (a ∷ rest) =
      elim (Bool-cases (contains state.seen (argument_identity catalog a))) [
        | inl repeated ↦ ground (
          arith,
          validate_loop-errors (validate_argument py host catalog acknowledged state a) rest,
          validate_argument-errors state a,
        )
        | inr new ↦ ground (
          arith,
          validate_loop-errors (validate_argument py host catalog acknowledged state a) rest,
          validate_argument-errors state a,
          validate_argument-seen state a new,
        )
      ]

-- Validation finds an error exactly unless no two arguments have the same identity, raw arguments
-- are safe, catalogued ones are defined and have values that are coerced, no definition is managed,
-- and what needs an acknowledgement has one.
pub validate_arguments-is_acceptable :
    (py : Python) (host : Host) (catalog : ArgumentCatalog) (acknowledged : List String)
    (arguments : List ProfileArgument)
    → has_errors (validate_arguments py host catalog acknowledged arguments)
      ≡ not (
          distinct (map (argument_identity catalog) arguments)
          && all (is_acceptable py host catalog acknowledged) arguments)
unfolding validate_arguments has_errors
validate_arguments-is_acceptable py host catalog acknowledged arguments =
    let start : Validation = record { issues = []; present = []; seen = [] } in
    let state = validate_loop py host catalog acknowledged start arguments in
    let ids = map (argument_identity catalog) arguments in
    let related = validate_relationships-warns state.present state.present [] in
    has_errors-append state.issues (validate_relationships state.present state.present [])
    ∙ ground (
      arith,
      related.reports,
      validate_loop-errors py host catalog acknowledged start arguments,
      fresh-distinct [] ids,
      none_of-nil ids,
    )
