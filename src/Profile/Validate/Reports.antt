-- ===== src/Profile/Validate/Reports.antt =====
-- Which arguments validation accepts, and the issues that report an error
-- (domain/profile_arguments.py).
use llama_web_ui.Prelude.{
  String, Bool, true, false, Option, none, some, List, [], ◌∷◌, ◌++◌, ◌≡◌, refl, ◌&&◌, ◌||◌, not,
  contains, if◌then◌else◌, arith, if-cases,
}
use llama_web_ui.Profile.Value.{ArgumentValue, raw_of, ok, err, Python}
use llama_web_ui.Profile.Catalog.{ArgumentCatalog, ArgumentDefinition}
use llama_web_ui.Profile.Coerce.{coerce_catalog_value}
use llama_web_ui.Profile.Emit.{ProfileArgument}
use llama_web_ui.Profile.Validate.{
  Host, error_issue, warning_issue, Code, ArgumentIssue, error, warn, show_argument, is_switched_on,
  is_managed, validated_definition,
}

-- `errors_of(issues) != ()`.
unfoldable pub has_errors : List ArgumentIssue → Bool
has_errors [] = false
has_errors (i ∷ is) = elim i.level [ error_issue ↦ true | warning_issue ↦ has_errors is ]

-- A raw argument has a safe flag and no value or a safe one.
unfoldable pub is_safe : Python → Host → ProfileArgument → Bool
is_safe py host argument =
    host.is_raw_flag argument.flag
    && (is_switched_on argument.value
        || (not (py.has_control (show_argument py argument.value))
            && not (host.has_shell_syntax (show_argument py argument.value))))

-- A definition is left to profiles, and what it needs to be acknowledged is.
unfoldable pub is_permitted : List String → ArgumentDefinition → Bool
is_permitted acknowledged d = not (is_managed d.control) && elim d.safety [
  | none ↦ true
  | some safety ↦ not safety.requires_confirmation || contains acknowledged d.id
]

unfoldable pub is_coercible : Python → ArgumentDefinition → ArgumentValue → Bool
is_coercible py d value = elim (coerce_catalog_value py d.value (raw_of value)) [
  | err e ↦ false
  | ok v ↦ true
]

-- What an argument must be, by its catalog id and definition: a raw one safe, a catalogued one
-- defined and of a value that is coerced, and its definition permitted.
unfoldable pub is_acceptable_as :
    Python → Host → List String → ProfileArgument → Option String → Option ArgumentDefinition → Bool
is_acceptable_as py host acknowledged a none none = is_safe py host a
is_acceptable_as py host acknowledged a none (some d) =
    is_safe py host a && is_permitted acknowledged d
is_acceptable_as py host acknowledged a (some i) none = false
is_acceptable_as py host acknowledged a (some i) (some d) =
    is_coercible py d a.value && is_permitted acknowledged d

abbrev pub is_acceptable : Python → Host → ArgumentCatalog → List String → ProfileArgument → Bool
is_acceptable py host catalog acknowledged a =
    is_acceptable_as py host acknowledged a a.catalog_id (validated_definition catalog a)

pub has_errors-append :
    (is js : List ArgumentIssue) → has_errors (is ++ js) ≡ (has_errors is || has_errors js)
unfolding has_errors
has_errors-append [] js = refl
has_errors-append (i ∷ is) js = ground (arith, has_errors-append is js)

-- Whether a list of issues has an error.
pub record Reports (is : List ArgumentIssue) (b : Bool) : Type 0 where
  pub reports : has_errors is ≡ b

pub Reports-append :
    (is js : List ArgumentIssue) {b c : Bool}
    → Reports is b
    → Reports js c
    → Reports (is ++ js) (b || c)
Reports-append is js h k = record {
  reports = ground (arith, has_errors-append is js, h.reports, k.reports);
}

-- Warnings before and behind other issues.
pub Reports-ahead :
    (is js : List ArgumentIssue) {b : Bool} → Reports is false → Reports js b → Reports (is ++ js) b
Reports-ahead is js h k = Reports-append is js h k

pub Reports-behind :
    (is js : List ArgumentIssue) {b : Bool} → Reports is b → Reports js false → Reports (is ++ js) b
Reports-behind is js h k = record {
  reports = ground (arith, has_errors-append is js, h.reports, k.reports);
}

pub Reports-if :
    (c : Bool) {is js : List ArgumentIssue} {b : Bool}
    → Reports is b
    → Reports js b
    → Reports (if c then is else js) b
Reports-if c {b = b} h k = if-cases (λ is. Reports is b) c (λ _. h) (λ _. k)

pub Reports-none : Reports [] false
unfolding has_errors
Reports-none = record { reports = refl }

pub Reports-warn : (code : Code) (argument : String) → Reports (warn code argument) false
unfolding has_errors
Reports-warn code argument = record { reports = refl }

pub Reports-error : (code : Code) (argument : String) → Reports (error code argument) true
unfolding has_errors
Reports-error code argument = record { reports = refl }

-- A warning that is given or not.
pub Reports-maybe :
    (c : Bool) (code : Code) (argument : String)
    → Reports (if c then warn code argument else []) false
Reports-maybe c code argument = Reports-if c (Reports-warn code argument) Reports-none
