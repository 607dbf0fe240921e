-- ===== src/Prelude/Text.antt =====
-- Equality of texts as a decision, and as a test.
use Prim.Native.String
use Prim.Native.String.{String}
use mathlib.Core.Path.{◌≡◌, refl, sym, ◌∙◌}
use mathlib.Core.Bool.{Bool, true, false, false≢true, not, ◌&&◌, ◌||◌}
use mathlib.Core.List.{List, [], ◌∷◌}
use mathlib.Core.Logic.{ite}
use text.Mathlib.Text.{◌==◌}
use text.Mathlib.TextEquality.{eq_iff}

decide_text : (s t : String) (b : Bool) → (s == t) ≡ b → Dec (s ≡ t)
decide_text s t true e = yes ((eq_iff s t).0 e)
decide_text s t false e = no (λ p. false≢true (sym e ∙ (eq_iff s t).1 p))

unfoldable pub string_discrete : Discrete String
unfolding decide_text
string_discrete s t = decide_text s t (s == t) refl

abbrev pub same_text : String → String → Bool
same_text s t = ite (string_discrete s t) true false

-- `x in xs`.
unfoldable pub contains : List String → String → Bool
contains [] x = false
contains (y ∷ ys) x = same_text y x || contains ys x

-- `s + t`.
abbrev pub append_text : String → String → String
append_text s t = String.◌++◌ s t

-- No text is in the list twice.
unfoldable pub distinct : List String → Bool
distinct [] = true
distinct (x ∷ xs) = not (contains xs x) && distinct xs
