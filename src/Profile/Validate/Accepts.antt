-- ===== src/Profile/Validate/Accepts.antt =====
-- Which arguments the validation accepts.
use llama_web_ui.Prelude.{
  String, Bool, true, false, Option, none, some, List, [], ◌∷◌, ◌++◌, ◌≡◌, subst, ◌&&◌, not,
  same_text, if◌then◌else◌, arith, if-cases,
}
use llama_web_ui.Profile.Value.{raw_of, ok, err, Python}
use llama_web_ui.Profile.Catalog.{ArgumentCatalog, ArgumentDefinition}
use llama_web_ui.Profile.Coerce.{coerce_catalog_value}
use llama_web_ui.Profile.Emit.{ProfileArgument}
use llama_web_ui.Profile.Validate.{
  Host, ArgumentIssue, error, warn, raw_errors, raw_warnings, notices, invalid_value, open_cors,
  is_path, value_texts, opens_cors, validate_raw, validate_path, validate_paths, validate_typed,
  is_managed, safety_issues, validate_control, validate_runtime, argument_issues,
}
use llama_web_ui.Profile.Validate.Reports.{
  Reports, Reports-ahead, Reports-append, Reports-behind, Reports-error, Reports-if, Reports-maybe,
  Reports-none, has_errors, is_acceptable_as, is_coercible, is_permitted, is_safe,
}

raw_errors-is_safe :
    (py : Python) (host : Host) (a : ProfileArgument)
    → Reports (raw_errors py host a) (not (is_safe py host a))
unfolding raw_errors has_errors is_safe
raw_errors-is_safe py host a = record { reports = ground arith }

raw_warnings-warns :
    (a : ProfileArgument) (definition : Option ArgumentDefinition)
    → Reports (raw_warnings a definition) false
unfolding raw_warnings has_errors
raw_warnings-warns a definition = record { reports = ground arith }

notices-warns : (a : ProfileArgument) (d : ArgumentDefinition) → Reports (notices a d) false
unfolding notices has_errors
notices-warns a d = record { reports = ground arith }

validate_raw-is_safe :
    (py : Python) (host : Host) (a : ProfileArgument) (definition : Option ArgumentDefinition)
    → Reports (validate_raw py host a definition) (not (is_safe py host a))
unfolding validate_raw
validate_raw-is_safe py host a definition =
    Reports-behind _ _ (raw_errors-is_safe py host a) (raw_warnings-warns a definition)

validate_path-warns :
    (host : Host) (d : ArgumentDefinition) (value : String)
    → Reports (validate_path host d value) false
unfolding validate_path has_errors
validate_path-warns host d value = record { reports = ground arith }

validate_paths-warns :
    (host : Host) (d : ArgumentDefinition) (values : List String)
    → Reports (validate_paths host d values) false
unfolding validate_paths
validate_paths-warns host d [] = Reports-none
validate_paths-warns host d (value ∷ values) =
    Reports-ahead _ _ (validate_path-warns host d value) (validate_paths-warns host d values)

validate_typed-is_coercible :
    (py : Python) (host : Host) (a : ProfileArgument) (d : ArgumentDefinition)
    → Reports (validate_typed py host a d) (not (is_coercible py d a.value))
unfolding validate_typed is_coercible
validate_typed-is_coercible py host a d =
    elim (coerce_catalog_value py d.value (raw_of a.value))
      as (λ r.
        Reports
          (elim r [
            | err e ↦ error invalid_value d.id
            | ok value ↦
                (if is_path d.value.type d.value.item_type
                  then validate_paths host d (value_texts py a.value)
                  else [])
                ++ (if same_text d.id "cors-origins" && opens_cors py a.value
                    then warn open_cors d.id
                    else [])
          ])
          (not (elim r [ err e ↦ false | ok v ↦ true ]))) [
            | err e ↦ Reports-error _ _
            | ok v ↦
                Reports-ahead _ _
                  (Reports-if _ (validate_paths-warns host d (value_texts py a.value)) Reports-none)
                  (Reports-maybe _ _ _)
          ]

safety_issues-is_permitted :
    (acknowledged : List String) (d : ArgumentDefinition)
    → is_managed d.control ≡ false
    → Reports (safety_issues acknowledged d) (not (is_permitted acknowledged d))
unfolding safety_issues is_permitted has_errors
safety_issues-is_permitted acknowledged d left = record { reports = ground arith }

managed-is_permitted :
    (acknowledged : List String) (d : ArgumentDefinition)
    → is_managed d.control ≡ true
    → true ≡ not (is_permitted acknowledged d)
unfolding is_permitted
managed-is_permitted acknowledged d taken = ground arith

validate_control-is_permitted :
    (a : ProfileArgument) (d : ArgumentDefinition) (acknowledged : List String)
    → Reports (validate_control a d acknowledged) (not (is_permitted acknowledged d))
unfolding validate_control
validate_control-is_permitted a d acknowledged =
    if-cases (λ is. Reports is (not (is_permitted acknowledged d))) (is_managed d.control)
      (λ taken. subst (Reports _) (managed-is_permitted acknowledged d taken) (Reports-error _ _))
      (λ left.
        Reports-ahead _ _ (notices-warns a d) (safety_issues-is_permitted acknowledged d left))

validate_runtime-warns :
    (py : Python) (host : Host) (catalog : ArgumentCatalog) (a : ProfileArgument)
    (definition : Option ArgumentDefinition)
    → Reports (validate_runtime py host catalog a definition) false
unfolding validate_runtime
validate_runtime-warns py host catalog a definition =
    Reports-if _ Reports-none (Reports-maybe _ _ _)

module _ (py : Python) (host : Host) (catalog : ArgumentCatalog) (acknowledged : List String) where
  -- Two checks behind one another, and warnings behind them.
  Reports-both :
      (is js ks : List ArgumentIssue) (b c : Bool)
      → Reports is (not b)
      → Reports js (not c)
      → Reports ks false
      → Reports (is ++ (js ++ ks)) (not (b && c))
  Reports-both is js ks b c h k w =
      subst (Reports (is ++ (js ++ ks))) (ground arith)
        (Reports-append is (js ++ ks) h (Reports-behind js ks k w))

  -- The errors of an argument on its own.
  pub argument_issues-is_acceptable_as :
      (a : ProfileArgument) (i : Option String) (definition : Option ArgumentDefinition)
      → Reports
          (argument_issues py host catalog acknowledged a i definition)
          (not (is_acceptable_as py host acknowledged a i definition))
  unfolding argument_issues is_acceptable_as
  argument_issues-is_acceptable_as a none none =
      Reports-behind _ _ (validate_raw-is_safe py host a none)
        (validate_runtime-warns py host catalog a none)
  argument_issues-is_acceptable_as a none (some d) =
      Reports-both _ _ _ _ _ (validate_raw-is_safe py host a (some d))
        (validate_control-is_permitted a d acknowledged)
        (validate_runtime-warns py host catalog a (some d))
  argument_issues-is_acceptable_as a (some i) none = Reports-error _ _
  argument_issues-is_acceptable_as a (some i) (some d) =
      Reports-both _ _ _ _ _ (validate_typed-is_coercible py host a d)
        (validate_control-is_permitted a d acknowledged)
        (validate_runtime-warns py host catalog a (some d))
