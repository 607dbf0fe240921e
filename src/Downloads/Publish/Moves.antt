-- ===== src/Downloads/Publish/Moves.antt =====
-- The planned moves of a publication: lemmas on what is at a path (services/download_worker.py).
use llama_web_ui.Prelude.{
  ℕ, ◌≢◌, Bool, Bool-cases, true, false, if◌then◌else◌, map, ◌++◌, inl, inr, String, none, some,
  List, [], ◌∷◌, ◌≡◌, refl, sym, ap, ◌∙◌, ◌⊎◌, All, arith, contains, string_discrete, same_text,
}
use mathlib.Core.Logic.{if_pos, if_neg}
use llama_web_ui.Prelude.Table.{find}
use llama_web_ui.Downloads.Publish.{
  carry_out, replace_cached, all_move, Publication, published, refused, broken_off, file, Stored,
  Staged, stored, PublishError, Result, ok, err, is_published,
}

pub Result-cases {ℓ} :
    {A : Type ℓ} (r : Result A) → ((e : PublishError) × (r ≡ err e)) ⊎ ((a : A) × (r ≡ ok a))
Result-cases (ok a) = inr (a, refl)
Result-cases (err e) = inl (e, refl)

value_or {ℓ} : {A : Type ℓ} → A → Result A → A
value_or a (ok b) = b
value_or a (err e) = a

pub ok-injective {ℓ} : {A : Type ℓ} {a b : A} → ok a ≡ ok b → a ≡ b
unfolding value_or
ok-injective {a = a} h = ap (value_or a) h

after_or : List Stored → Publication → List Stored
after_or d (published after) = after
after_or d (refused e) = d
after_or d (broken_off destination moved) = d

pub published-injective : {a b : List Stored} → published a ≡ published b → a ≡ b
unfolding after_or
published-injective {a = a} h = ap (after_or a) h

-- A branch that does not publish.
pub published-if :
    (c : Bool) {a b : List Stored} {x : Publication}
    → ((y : List Stored) → x ≢ published y)
    → (if c then published a else x) ≡ published b
    → a ≡ b
published-if true other h = published-injective h
published-if false {b = b} other h = absurd (other b h)

pub carry_out-published :
    (moves_on : ℕ → Bool) (folder : List Stored) (has_cache : Bool) (moves : List Staged)
    {after : List Stored}
    → carry_out moves_on folder has_cache moves ≡ published after
    → folder ++ map stored moves ≡ after
unfolding carry_out
carry_out-published moves_on folder has_cache moves h =
    published-if (all_move moves_on 0 moves) (λ y e. cc e) h

pub replace_cached-published :
    (moves_on : ℕ → Bool) (staged : List Staged) {after : List Stored}
    → replace_cached moves_on staged ≡ published after
    → map stored staged ≡ after
unfolding replace_cached
replace_cached-published moves_on staged h = elim (Bool-cases (moves_on 0)) [
  | inl moves ↦ published-if (moves_on 1) (λ y e. cc e) (rw moves at h)
  | inr fails ↦ cc (rw fails at h)
]

-- At the path of the staged file stands a file of its size.
abbrev pub IsThere : List Stored → Staged → Type 0
IsThere folder s =
    (content : String) × (find (λ q. q.path) s.path folder
      ≡ some (record { path = s.path; entry = file s.size content }))

-- Every entry of one folder is in another.
abbrev pub Keeps : List Stored → List Stored → Type 0
Keeps before after =
    (path : String) (q : Stored)
    → find (λ q. q.path) path before ≡ some q
    → find (λ q. q.path) path after ≡ some q

pub find-append_none :
    (path : String) (qs rs : List Stored)
    → find (λ q. q.path) path qs ≡ none
    → find (λ q. q.path) path (qs ++ rs) ≡ find (λ q. q.path) path rs
unfolding find
find-append_none path [] rs h = refl
find-append_none path (q ∷ qs) rs h = elim (string_discrete q.path path) [
  | yes p ↦ cc (rw (if_pos _ p) at h)
  | no n ↦ rw (if_neg _ n) (find-append_none path qs rs (rw (if_neg _ n) at h))
]

-- What the plan says of a staged file: it is there already, or its target is free and it is moved.
abbrev pub IsPlanned : List Stored → List Staged → Staged → Type 0
IsPlanned folder moves s =
    ((q : Stored) × ((find (λ q. q.path) s.path folder ≡ some q)
        × (is_published q.entry s.size ≡ true)))
    ⊎ ((find (λ q. q.path) s.path folder ≡ none)
        × (find (λ q. q.path) s.path (map stored moves) ≡ some (stored s)))

pub same_text-ne : (s t : String) → same_text s t ≡ false → s ≢ t
same_text-ne s t h p = cc (rw (if_pos _ p) at h)

pub find-cons_self :
    (s : Staged) (qs : List Stored) → find (λ q. q.path) s.path (stored s ∷ qs) ≡ some (stored s)
unfolding find
find-cons_self s qs =
    if_pos (string_discrete s.path s.path) refl (some (stored s)) (find (λ q. q.path) s.path qs)

find-cons_ne :
    (s : Staged) (path : String) (qs : List Stored)
    → s.path ≢ path
    → find (λ q. q.path) path (stored s ∷ qs) ≡ find (λ q. q.path) path qs
unfolding find
find-cons_ne s path qs n =
    if_neg (string_discrete s.path path) n (some (stored s)) (find (λ q. q.path) path qs)

-- A file with a path of its own ahead of the moves.
pub IsPlanned-cons :
    (folder : List Stored) (moves : List Staged) (s : Staged) (rest : List Staged)
    → contains (map (λ r. r.path) rest) s.path ≡ false
    → All (IsPlanned folder moves) rest
    → All (IsPlanned folder (s ∷ moves)) rest
unfolding contains
IsPlanned-cons folder moves s [] apart h = tt
IsPlanned-cons folder moves s (r ∷ rest) apart (h, hs) = (
  elim h [
    | inl there ↦ inl there
    | inr (free, moved) ↦ inr (
      free,
      find-cons_ne s r.path (map stored moves)
            (λ p. same_text-ne r.path s.path (ground arith) (sym p))
          ∙ moved,
    )
  ],
  IsPlanned-cons folder moves s rest (ground arith) hs,
)
