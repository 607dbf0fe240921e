-- ===== src/Router/Supervisor/Log.antt =====
-- The bounded log of services/router_supervisor.py, and reading it from a mark on.
use llama_web_ui.Prelude.{
  ℕ, zero, suc, ◌+◌, ◌-◌, ◌≤◌, min, String, List, [], ◌∷◌, ◌++◌, ◌≡◌, refl, subst, sym, ap, ◌∙◌,
  ltb, length, length-append, drop, if◌then◌else◌, arith, if-cases,
}
use mathlib.Core.List.{append_assoc, append-nil}

-- `_logs`, a deque of bounded length, oldest line first, and `_log_total`.
pub record Log : Type 0 where
  pub lines : List String
  pub total : ℕ

abbrev pub empty_log : Log
empty_log = record { lines = []; total = 0 }

-- A deque's `append` with `maxlen`.
unfoldable pub push : ℕ → List String → String → List String
push capacity lines line =
    let longer = lines ++ (line ∷ []) in
    if ltb capacity (length longer) then drop 1 longer else longer

-- `_append_log`, on the redacted text.
abbrev pub append_log : ℕ → String → Log → Log
append_log capacity line log = record {
  lines = push capacity log.lines line;
  total = log.total + 1;
}

unfoldable pub append_all : ℕ → List String → Log → Log
append_all capacity [] log = log
append_all capacity (line ∷ rest) log = append_all capacity rest (append_log capacity line log)

-- `logs_since`, with `log_mark` for a mark.
abbrev pub logs_since : ℕ → Log → List String
logs_since mark log =
    let count = min (log.total - mark) (length log.lines) in
    if ltb 0 count then drop (length log.lines - count) log.lines else []

-- The last lines, up to a number of them.
abbrev pub last_of : ℕ → List String → List String
last_of n lines = drop (length lines - n) lines

drop_at : (n m : ℕ) (xs : List String) → n ≡ m → drop n xs ≡ drop m xs
drop_at n m xs e = ap (λ k. drop k xs) e

drop_all : (n : ℕ) (xs : List String) → length xs ≤ n → drop n xs ≡ []
drop_all zero [] h = refl
drop_all (suc n) [] h = refl
drop_all zero (x ∷ xs) h = elim (too_long (length xs) h) [ ]
  where
    too_long : (n : ℕ) → suc n ≤ 0 → ⊥
    too_long n h = omega arith
drop_all (suc n) (x ∷ xs) h = drop_all n xs (omega arith)

drop-drop : (n m : ℕ) (xs : List String) → drop m (drop n xs) ≡ drop (n + m) xs
drop-drop zero m xs = drop_at m (0 + m) xs (omega arith)
drop-drop (suc n) zero [] = drop_at (suc n) (suc n + 0) [] (omega arith)
drop-drop (suc n) (suc m) [] = sym (drop_all (suc n + suc m) [] (omega arith))
drop-drop (suc n) m (x ∷ xs) =
    drop-drop n m xs ∙ drop_at (suc (n + m)) (suc n + m) (x ∷ xs) (omega arith)

length-drop : (n : ℕ) (xs : List String) → length (drop n xs) ≡ length xs - n
length-drop zero xs = omega arith
length-drop (suc n) [] = omega arith
length-drop (suc n) (x ∷ xs) = omega (arith, length-drop n xs)

drop-append_ahead :
    (n : ℕ) (xs ys : List String) → n ≤ length xs → drop n (xs ++ ys) ≡ drop n xs ++ ys
drop-append_ahead zero xs ys h = refl
drop-append_ahead (suc n) [] ys h = elim (no_less n h) [ ]
  where
    no_less : (n : ℕ) → suc n ≤ 0 → ⊥
    no_less n h = omega arith
drop-append_ahead (suc n) (x ∷ xs) ys h = drop-append_ahead n xs ys (omega arith)

drop-append_behind : (n : ℕ) (xs ys : List String) → drop (length xs + n) (xs ++ ys) ≡ drop n ys
drop-append_behind n [] ys = drop_at (0 + n) n ys (omega arith)
drop-append_behind n (x ∷ xs) ys =
    drop_at (suc (length xs) + n) (suc (length xs + n)) (x ∷ (xs ++ ys)) (omega arith)
    ∙ drop-append_behind n xs ys

push-last_of :
    (capacity : ℕ) (xs : List String) (x : String)
    → push capacity (last_of capacity xs) x ≡ last_of capacity (xs ++ (x ∷ []))
unfolding push
push-last_of capacity xs x =
    let all = xs ++ (x ∷ []) in
    let d = length xs - capacity in
    let size = length-append xs (x ∷ []) in
    subst (λ ys. (if ltb capacity (length ys) then drop 1 ys else ys) ≡ last_of capacity all)
      (drop-append_ahead d xs (x ∷ []) (omega arith))
      (if-cases (λ r. r ≡ last_of capacity all) (ltb capacity (length (drop d all)))
        (λ more.
          drop-drop d 1 all
          ∙ drop_at (d + 1) (length all - capacity) all (ground (arith, size, length-drop d all)))
        (λ fits. drop_at d (length all - capacity) all (ground (arith, size, length-drop d all))))

append_all-lem :
    (capacity : ℕ) (before after : List String) (log : Log)
    → log.lines ≡ last_of capacity before
    → log.total ≡ length before
    → ((append_all capacity after log).lines ≡ last_of capacity (before ++ after))
      × ((append_all capacity after log).total ≡ length (before ++ after))
unfolding append_all
append_all-lem capacity before [] log h k = (
  h ∙ ap (last_of capacity) (sym (append-nil before)),
  k ∙ ap (λ xs. length xs) (sym (append-nil before)),
)
append_all-lem capacity before (x ∷ after) log h k =
    subst
      (λ all.
        ((append_all capacity after (append_log capacity x log)).lines ≡ last_of capacity all)
        × ((append_all capacity after (append_log capacity x log)).total ≡ length all))
      (append_assoc before (x ∷ []) after)
      (append_all-lem capacity (before ++ (x ∷ [])) after (append_log capacity x log)
        (ap (λ ls. push capacity ls x) h ∙ push-last_of capacity before x)
        (omega (arith, length-append before (x ∷ []))))

-- Reading the last lines of a list from the end of its first part on.
read_last_of :
    (capacity : ℕ) (before after : List String)
    → logs_since
        (length before)
        (record { lines = last_of capacity (before ++ after); total = length (before ++ after) })
      ≡ last_of capacity after
read_last_of capacity before after =
    let all = before ++ after in
    let size = length-append before after in
    let kept = length-drop (length all - capacity) all in
    let count = min (length all - length before) (length (last_of capacity all)) in
    if-cases (λ r. r ≡ last_of capacity after) (ltb 0 count)
      (λ some_lines.
        drop-drop (length all - capacity) (length (last_of capacity all) - count) all
        ∙ drop_at _ (length before + (length after - capacity)) all (ground (arith, size, kept))
        ∙ drop-append_behind (length after - capacity) before after)
      (λ no_lines. sym (drop_all (length after - capacity) after (ground (arith, size, kept))))

-- What is read from a mark on: the lines logged since, the last of them where the log holds fewer.
pub logs_since-append_all :
    (capacity : ℕ) (before after : List String)
    → logs_since
        (append_all capacity before empty_log).total
        (append_all capacity after (append_all capacity before empty_log))
      ≡ last_of capacity after
unfolding append_all
logs_since-append_all capacity before after =
    let first = append_all capacity before empty_log in
    let (lines, total) =
      append_all-lem capacity [] before empty_log (sym (drop_all (0 - capacity) [] (omega arith)))
        refl in
    let (lines', total') = append_all-lem capacity before after first lines total in
    rw (total, total', lines') (read_last_of capacity before after)
