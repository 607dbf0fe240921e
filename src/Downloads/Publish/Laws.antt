-- ===== src/Downloads/Publish/Laws.antt =====
-- What a publication keeps and adds.
use llama_web_ui.Prelude.{
  ℕ, String, Bool, true, false, some, List, [], ◌∷◌, ◌++◌, map, ◌≡◌, refl, subst, ◌∙◌, inl, inr,
  All, arith, distinct, Bool-cases, Option-cases, ==_iff,
}
use llama_web_ui.Prelude.Table.{find, find-append, find-key}
use llama_web_ui.Downloads.Publish.{
  published, FolderEntry, file, other, Stored, Staged, stored, ok, is_published, plan_moves, merge,
  Destination, missing, not_a_folder, folder_of, entries, publish,
}
use llama_web_ui.Downloads.Publish.Moves.{
  published-if, carry_out-published, replace_cached-published, IsPlanned, IsPlanned-cons, IsThere,
  Keeps, Result-cases, find-append_none, find-cons_self, ok-injective,
}

pub plan_moves-IsPlanned :
    (inside : String → Bool) (folder : List Stored) (staged : List Staged) {moves : List Staged}
    → distinct (map (λ s. s.path) staged) ≡ true
    → plan_moves inside folder staged ≡ ok moves
    → All (IsPlanned folder moves) staged
unfolding plan_moves distinct
plan_moves-IsPlanned inside folder [] apart h = tt
plan_moves-IsPlanned inside folder (s ∷ rest) {moves = moves} apart h =
    elim (Bool-cases (inside s.path)) [
      | inr out ↦ cc (rw (out, plan_moves) at h)
      | inl within ↦
          let h1 = rw (within, plan_moves) at h in
          elim (Option-cases (find (λ q. q.path) s.path folder)) [
            | inl free ↦
                let h2 = rw free at h1 in
                elim (Result-cases (plan_moves inside folder rest)) [
                  | inl (e, failed) ↦ cc (rw failed at h2)
                  | inr (others, planned) ↦
                      let e = ok-injective (rw planned at h2) in
                      subst (λ ms. All (IsPlanned folder ms) (s ∷ rest)) e
                        (
                          inr (free, find-cons_self s (map stored others)),
                          IsPlanned-cons folder others s rest (ground arith)
                              (plan_moves-IsPlanned inside folder rest (ground arith) planned),
                        )
                ]
            | inr (q, found) ↦
                let h2 = rw found at h1 in
                elim (Bool-cases (is_published q.entry s.size)) [
                  | inr differs ↦ cc (rw differs at h2)
                  | inl same ↦ (
                    inl (q, (found, same)),
                    plan_moves-IsPlanned inside folder rest (ground arith) (rw same at h2),
                  )
                ]
          ]
    ]

pub find-path :
    (path : String) (qs : List Stored) {q : Stored}
    → find (λ r. r.path) path qs ≡ some q
    → q.path ≡ path
find-path path qs h = find-key (λ r. r.path) path qs h

-- A file that counts as published is a file of that size at its path.
is_published-IsThere :
    (folder : List Stored) (s : Staged) (entry : FolderEntry)
    → find (λ q. q.path) s.path folder ≡ some (record { path = s.path; entry = entry })
    → is_published entry s.size ≡ true
    → IsThere folder s
is_published-IsThere folder s (file n content) found same = (
  content,
  subst
      (λ m.
        find (λ q. q.path) s.path folder ≡ some (record { path = s.path; entry = file m content }))
      ((==_iff n s.size).0 same) found,
)
is_published-IsThere folder s other found same = cc

IsPlanned-IsThere :
    (folder : List Stored) (moves : List Staged) (s : Staged)
    → IsPlanned folder moves s
    → IsThere (folder ++ map stored moves) s
IsPlanned-IsThere folder moves s (inl (q, (found, same))) =
    is_published-IsThere (folder ++ map stored moves) s q.entry
      (find-append (λ r. r.path) s.path folder (map stored moves)
        (subst (λ p. find (λ r. r.path) s.path folder ≡ some (record { path = p; entry = q.entry }))
          (find-path s.path folder found) found))
      same
IsPlanned-IsThere folder moves s (inr (free, moved)) =
    (s.content, find-append_none s.path folder (map stored moves) free ∙ moved)

IsPlanned-IsThere-All :
    (folder : List Stored) (moves staged : List Staged)
    → All (IsPlanned folder moves) staged
    → All (IsThere (folder ++ map stored moves)) staged
IsPlanned-IsThere-All folder moves [] h = tt
IsPlanned-IsThere-All folder moves (s ∷ staged) (h, hs) =
    (IsPlanned-IsThere folder moves s h, IsPlanned-IsThere-All folder moves staged hs)

-- The staged files on their own.
pub IsPlanned-alone :
    (staged : List Staged)
    → distinct (map (λ s. s.path) staged) ≡ true
    → All (IsPlanned [] staged) staged
unfolding distinct find
IsPlanned-alone [] apart = tt
IsPlanned-alone (s ∷ rest) apart = (
  inr (refl, find-cons_self s (map stored rest)),
  IsPlanned-cons [] rest s rest (ground arith) (IsPlanned-alone rest (ground arith)),
)

stored-IsThere :
    (staged : List Staged)
    → distinct (map (λ s. s.path) staged) ≡ true
    → All (IsThere (map stored staged)) staged
stored-IsThere staged apart = IsPlanned-IsThere-All [] staged staged (IsPlanned-alone staged apart)

merge-Keeps :
    (inside : String → Bool) (moves_on : ℕ → Bool) (folder : List Stored) (has_cache : Bool)
    (staged : List Staged) {after : List Stored}
    → distinct (map (λ s. s.path) staged) ≡ true
    → merge inside moves_on folder has_cache staged ≡ published after
    → Keeps folder after × All (IsThere after) staged
unfolding merge
merge-Keeps inside moves_on folder has_cache staged apart h =
    elim (Result-cases (plan_moves inside folder staged)) [
      | inl (e, failed) ↦ cc (rw (failed, merge) at h)
      | inr (moves, planned) ↦
          subst (λ after. Keeps folder after × All (IsThere after) staged)
            (carry_out-published moves_on folder has_cache moves (rw (planned, merge) at h))
            (
              (λ path q found. find-append (λ r. r.path) path folder (map stored moves) found),
              IsPlanned-IsThere-All folder moves staged
                  (plan_moves-IsPlanned inside folder staged apart planned),
            )
    ]

nothing-Keeps : (after : List Stored) → Keeps [] after
unfolding find
nothing-Keeps after path q h = cc

-- A publication that succeeds keeps every entry that the destination had, and each staged file
-- stands there at its path with its size, if no two staged files have the same path.
pub publish-Keeps :
    (inside : String → Bool) (moves_on : ℕ → Bool) (tombstone : Bool) (destination : Destination)
    (staged : List Staged) {after : List Stored}
    → distinct (map (λ s. s.path) staged) ≡ true
    → publish inside moves_on tombstone destination staged ≡ published after
    → Keeps (entries destination) after × All (IsThere after) staged
unfolding publish
publish-Keeps inside moves_on tombstone missing staged apart h =
    subst (λ after. Keeps [] after × All (IsThere after) staged)
      (published-if (moves_on 0) (λ y e. cc e) h)
      (nothing-Keeps (map stored staged), stored-IsThere staged apart)
publish-Keeps inside moves_on tombstone not_a_folder staged apart h = cc
publish-Keeps inside moves_on tombstone (folder_of [] false) staged apart h = cc
publish-Keeps inside moves_on true (folder_of [] true) staged apart h = cc
publish-Keeps inside moves_on false (folder_of [] true) staged apart h =
    subst (λ after. Keeps [] after × All (IsThere after) staged)
      (replace_cached-published moves_on staged h)
      (nothing-Keeps (map stored staged), stored-IsThere staged apart)
publish-Keeps inside moves_on tombstone (folder_of (q ∷ qs) has_cache) staged apart h =
    merge-Keeps inside moves_on (q ∷ qs) has_cache staged apart h
