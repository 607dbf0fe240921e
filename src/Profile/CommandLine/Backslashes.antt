-- ===== src/Profile/CommandLine/Backslashes.antt =====
-- The backslashes at the head of the rest of a command line (domain/model_profile.py).
use llama_web_ui.Prelude.{
  ℕ, suc, ◌<◌, ◌≤◌, ◌≡◌, refl, ap, subst, ◌∙◌, false, [], ◌∷◌, ◌==◌, length, arith, Bool-cases, inl,
  inr, ◌⊎◌,
}
use llama_web_ui.Profile.CommandLine.{Text, backslash, is_blank, count_backslashes}
use llama_web_ui.Profile.CommandLine.Reference.{read_arguments}
use llama_web_ui.Profile.CommandLine.Reads.{
  IsCounted, advance-backslash, and_not, backslash_blank, read_inside,
}

unfoldable pub head_or : ℕ → Text → ℕ
head_or d [] = d
head_or d (c ∷ cs) = c

pub count_backslashes-IsCounted : (j : ℕ) (s : Text) → IsCounted j s
unfolding count_backslashes head_or
count_backslashes-IsCounted j [] = record {
  number = j;
  rest = [];
  counted = refl;
  reads = λ q v. refl;
  moved = inl (refl, refl);
  other_head = λ c cs h. cc;
}
count_backslashes-IsCounted j (c ∷ cs) = elim (Bool-cases (c == backslash)) [
  | inl same ↦
      let more = count_backslashes-IsCounted (suc j) cs in
      record {
        number = more.number;
        rest = more.rest;
        counted = rw same more.counted;
        reads = λ q v.
            read_inside q v j c cs (and_not q (is_blank c) (backslash_blank c same))
            ∙ ap (λ m. read_arguments m cs) (advance-backslash q v j c same)
            ∙ more.reads q v;
        moved =
            inr (
              shorter (length more.rest) (length cs) (lengths cs more.number more.rest more.moved));
        other_head = more.other_head;
      }
  | inr differs ↦ record {
    number = j;
    rest = c ∷ cs;
    counted = rw differs refl;
    reads = λ q v. refl;
    moved = inl (refl, refl);
    other_head = λ d ds h. subst (λ x. (x == backslash) ≡ false) (ap (head_or 0) h) differs;
  }
]
  where
    shorter : (m n : ℕ) → m ≤ n → m < suc n
    shorter m n h = omega arith

    lengths :
        (ds : Text) (n : ℕ) (r : Text)
        → ((n ≡ suc j) × (r ≡ ds)) ⊎ (length r < length ds)
        → length r ≤ length ds
    lengths ds n r (inl (e, same)) = omega (arith, ap length same)
    lengths ds n r (inr less) = omega arith
