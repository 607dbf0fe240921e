-- ===== src/TextEdit/Replace.antt =====
-- An edit where the search is found as it is.
use llama_web_ui.Prelude.{
  sym, subst, ℕ, zero, suc, ◌+◌, ◌<◌, ◌≡◌, ◌≢◌, refl, ap, ◌∙◌, Bool, true, false, Option, List, [],
  ◌∷◌, ◌++◌, arith, Bool-cases, Option-cases, inl, inr, ◌⊎◌, length, drop, length-append,
  if◌then◌else◌,
}
use mathlib.Core.List.{append_assoc}
use llama_web_ui.TextEdit.{
  MatchKind, find_matches, normal_newlines, replace_text, Text, is_prefix, find_in, find_from,
  replace_skip, replace_every, Match, occurrences_from, occurrences, replace_at, replace_matches,
  exact, unchanged, Result, edited, refused, view_of, restore, first_found, apply_edit, edit_first,
  edit_found, same_codes, newline, windows_newline,
}
use llama_web_ui.TextEdit.Occurrences.{
  replace_skip-here, replace_skip-later, drop_at, find_in-IsFound, find_in-none, replace_at-between,
}

module _ (x : ℕ) (xs new : Text) where
  abbrev search : Text
  search = x ∷ xs

  -- The matches from an offset on are replaced as `replace` replaces what follows the offset.
  replace_matches-from :
      (fuel : ℕ) (content before rest : Text) (offset : ℕ)
      → content ≡ before ++ rest
      → offset ≡ length before
      → length rest < fuel
      → replace_matches new
          (occurrences_from fuel content search (find_in search rest offset))
          content
        ≡ before ++ replace_skip search new zero rest
  unfolding occurrences_from replace_matches find_from
  replace_matches-from zero content before rest offset e o bound = absurd (negative bound)
    where
      negative : length rest < zero → ⊥
      negative h = omega arith
  replace_matches-from (suc fuel) content before rest offset e o bound =
      elim (Option-cases (find_in search rest offset)) [
        | inl absent ↦
            rw absent (e ∙ ap (λ t. before ++ t) (sym (find_in-none x xs new rest offset absent)))
        | inr (p, found) ↦
            let f = find_in-IsFound x xs rest offset p found in
            let behind : Text = (before ++ f.before) ++ search in
            let m : Match = record { start = p; stop = p + length search } in
            let start_of : p ≡ length (before ++ f.before) =
              omega (arith, f.position, o, length-append before f.before) in
            let stop_of : p + length search ≡ length behind =
              omega (arith, start_of, length-append (before ++ f.before) search) in
            let whole : content ≡ behind ++ f.rest =
              e
              ∙ ap (λ t. before ++ t) f.splits
              ∙ sym (append_assoc before f.before (search ++ f.rest))
              ∙ sym (append_assoc (before ++ f.before) search f.rest) in
            let others =
              replace_matches-from fuel content behind f.rest (p + length search) whole stop_of (
                omega (
                  arith,
                  bound,
                  ap length f.splits,
                  length-append f.before (search ++ f.rest),
                  length-append search f.rest,
                )) in
            rw found (
              ap
                (λ t. replace_at new m (
                  replace_matches new
                    (occurrences_from fuel content search (find_in search t (p + length search)))
                    content))
                (ap (drop (p + length search)) whole
                  ∙ drop_at (p + length search) behind f.rest stop_of)
              ∙ ap (replace_at new m) (others ∙ append_assoc (before ++ f.before) search _)
              ∙ replace_at-between x xs new (before ++ f.before) _ m start_of
                  (ap (λ n. n + length search) start_of)
              ∙ append_assoc before f.before _
              ∙ ap (λ t. before ++ t) (sym (f.replaces new)))
      ]

  -- Replacing all occurrences, the last one first, is `replace`.
  replace_matches-every :
      (content : Text)
      → replace_matches new (occurrences content search) content ≡ replace_every search new content
  unfolding occurrences find_from replace_every
  replace_matches-every content =
      replace_matches-from (suc (length content)) content [] content zero refl refl (omega arith)

normal_newlines-cons :
    (c : ℕ) (cs : Text) → (x : ℕ) × (xs : Text) × (normal_newlines (c ∷ cs) ≡ x ∷ xs)
unfolding normal_newlines replace_every
normal_newlines-cons c cs = elim (Bool-cases (is_prefix windows_newline (c ∷ cs))) [
  | inl here ↦ (
    newline,
    replace_skip windows_newline (newline ∷ []) 1 cs,
    replace_skip-here 13 (10 ∷ []) (newline ∷ []) c cs here,
  )
  | inr later ↦ (
    c,
    replace_skip windows_newline (newline ∷ []) zero cs,
    replace_skip-later 13 (10 ∷ []) (newline ∷ []) c cs later,
  )
]

-- What `replace_text` gives when the text is replaced as `replace` does it.
abbrev pub replaced_text : Text → Text → Text → ℕ → Result
replaced_text source search replacement count =
    let text = restore source (replace_every search replacement (view_of source)) in
    if same_codes text source
    then refused unchanged
    else edited (record { text = text; replacements = count; matched = exact })

same_codes-nothing : (c : ℕ) (cs : Text) → same_codes (c ∷ cs) [] ≡ false
unfolding same_codes
same_codes-nothing c cs = refl

-- All matches are to be replaced, or there is one.
abbrev pub TakesAll : Bool → List Match → Type 0
TakesAll replace_all ms = ((replace_all ≡ true) × (ms ≢ [])) ⊎ (length ms ≡ 1)

edit_found-all :
    (source replacement : Text) (replace_all : Bool) (line : Option ℕ) (ms : List Match)
    (others : Option (MatchKind × List Match))
    → TakesAll replace_all ms
    → edit_found source replacement replace_all line (first_found ms others exact)
      ≡ apply_edit source replacement exact ms (length ms)
unfolding edit_found first_found edit_first
edit_found-all source replacement true line [] others (inl (all, n)) = absurd (n refl)
edit_found-all source replacement false line [] others (inl (all, n)) = absurd (n refl)
edit_found-all source replacement b line [] others (inr one) = cc
edit_found-all source replacement true line (m ∷ ms) others h = refl
edit_found-all source replacement false line (m ∷ ms) others (inl (all, n)) = cc
edit_found-all source replacement false line (m ∷ []) others (inr one) = refl
edit_found-all source replacement false line (m ∷ k ∷ ms) others (inr one) = absurd (too_many one)
  where
    too_many : suc (suc (length ms)) ≡ 1 → ⊥
    too_many h = omega arith

-- With the matches at hand: the search is what the occurrences are of.
edit_found-replaced :
    (source replacement search : Text) (replace_all : Bool) (line : Option ℕ) {x : ℕ} {xs : Text}
    → search ≡ x ∷ xs
    → TakesAll replace_all (occurrences (view_of source) search)
    → edit_found source replacement replace_all line (find_matches (view_of source) search)
      ≡ replaced_text source search replacement (length (occurrences (view_of source) search))
edit_found-replaced source replacement search replace_all line {x = x} {xs = xs} e all =
    unfold find_matches in
    edit_found-all source replacement replace_all line (occurrences (view_of source) search) _ all
    ∙ unfold apply_edit in
      ap
        (λ t.
          let text = restore source t in
          if same_codes text source
          then refused unchanged
          else edited (record {
            text = text;
            replacements = length (occurrences (view_of source) search);
            matched = exact;
          }))
        (subst
          (λ s.
            replace_matches replacement (occurrences (view_of source) s) (view_of source)
            ≡ replace_every s replacement (view_of source))
          (sym e) (replace_matches-every x xs replacement (view_of source)))

-- An edit whose search stands in the file as it is, and either once or with all occurrences wanted,
-- gives what replacing every occurrence from the left gives, with the file's line breaks, and
-- counts the occurrences; only an edit that leaves the file as it was is refused.
pub replace_text-replaced :
    (source : Text) (c : ℕ) (cs new : Text) (replace_all : Bool) (line : Option ℕ)
    → same_codes (c ∷ cs) new ≡ false
    → TakesAll replace_all (occurrences (view_of source) (normal_newlines (c ∷ cs)))
    → replace_text source (c ∷ cs) new replace_all line
      ≡ replaced_text source
          (normal_newlines (c ∷ cs))
          (normal_newlines new)
          (length (occurrences (view_of source) (normal_newlines (c ∷ cs))))
unfolding replace_text
replace_text-replaced source c cs new replace_all line differs all =
    let (x, xs, e) = normal_newlines-cons c cs in
    rw (same_codes-nothing c cs, differs)
      (edit_found-replaced source (normal_newlines new) (normal_newlines (c ∷ cs)) replace_all line
        e all)
