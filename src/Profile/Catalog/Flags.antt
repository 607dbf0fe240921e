-- ===== src/Profile/Catalog/Flags.antt =====
-- The flags of an argument catalog: what is found after more entries (domain/argument_catalog.py).
use llama_web_ui.Prelude.{
  String, true, false, some, List, [], ◌∷◌, ◌++◌, ◌≡◌, ◌⊎◌, inl, inr, refl, ap, same_text, is_some,
  arith, string_discrete, All,
}
use mathlib.Core.Logic.{if_pos}
use llama_web_ui.Profile.Catalog.{
  ArgumentDefinition, FlagMatch, FlagEntry, find_flag, flags, is_negation, Loaded, loaded, refused,
  CatalogError,
}

pub Loaded-cases {ℓ} :
    {A : Type ℓ} (r : Loaded A)
    → ((e : CatalogError) × (r ≡ refused e)) ⊎ ((a : A) × (r ≡ loaded a))
Loaded-cases (loaded a) = inr (a, refl)
Loaded-cases (refused e) = inl (e, refl)

loaded_or {ℓ} : {A : Type ℓ} → A → Loaded A → A
loaded_or a (loaded b) = b
loaded_or a (refused e) = a

pub loaded-injective {ℓ} : {A : Type ℓ} {a b : A} → loaded a ≡ loaded b → a ≡ b
unfolding loaded_or
loaded-injective {a = a} h = ap (loaded_or a) h

pub All-map {ℓ κ μ} :
    {A : Type ℓ} (P : A → Type κ) (Q : A → Type μ) (xs : List A)
    → ((x : A) → P x → Q x)
    → All P xs
    → All Q xs
All-map P Q [] f h = tt
All-map P Q (x ∷ xs) f (h, hs) = (f x h, All-map P Q xs f hs)

-- What an index has for a flag of a definition.
abbrev pub match_of : ArgumentDefinition → String → FlagMatch
match_of d f = record { definition = d; negated = is_negation d f }

abbrev pub entry_of : ArgumentDefinition → String → FlagEntry
entry_of d f = record { flag = f; found = match_of d f }

abbrev pub HasFlags : List FlagEntry → ArgumentDefinition → Type 0
HasFlags index d = All (λ f. find_flag f index ≡ some (match_of d f)) (flags d)

-- Every entry of one index is in another.
abbrev pub Extends : List FlagEntry → List FlagEntry → Type 0
Extends index index' =
    (f : String) (m : FlagMatch) → find_flag f index ≡ some m → find_flag f index' ≡ some m

pub find_flag-append :
    (f : String) (index tail : List FlagEntry) {m : FlagMatch}
    → find_flag f index ≡ some m
    → find_flag f (index ++ tail) ≡ some m
unfolding find_flag
find_flag-append f [] tail h = cc
find_flag-append f (e ∷ es) tail {m = m} h = ground (arith, find_flag-append f es tail {m = m})

pub same_text_refl : (s : String) → same_text s s ≡ true
same_text_refl s = if_pos (string_discrete s s) refl true false

pub find_flag-new :
    (d : ArgumentDefinition) (f : String) (index : List FlagEntry)
    → is_some (find_flag f index) ≡ false
    → find_flag f (index ++ (entry_of d f ∷ [])) ≡ some (match_of d f)
unfolding find_flag
find_flag-new d f [] h = rw (same_text_refl f) refl
find_flag-new d f (e ∷ es) h = ground (arith, find_flag-new d f es)
