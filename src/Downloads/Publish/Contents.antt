-- ===== src/Downloads/Publish/Contents.antt =====
-- What stands at the path of a staged file after a publication.
use llama_web_ui.Prelude.{
  ℕ, String, Bool, true, false, some, List, [], ◌∷◌, ◌++◌, map, ◌≡◌, subst, ◌∙◌, ◌⊎◌, inl, inr, All,
  distinct,
}
use llama_web_ui.Prelude.Table.{find, find-append}
use llama_web_ui.Downloads.Publish.{
  published, Stored, Staged, stored, is_published, plan_moves, merge, Destination, missing,
  not_a_folder, folder_of, entries, publish,
}
use llama_web_ui.Downloads.Publish.Laws.{plan_moves-IsPlanned, IsPlanned-alone}
use llama_web_ui.Downloads.Publish.Moves.{
  published-if, carry_out-published, replace_cached-published, Result-cases, find-append_none,
  IsPlanned,
}

-- The staged file, or an entry of its size that the destination had.
abbrev pub IsPublished : List Stored → List Stored → Staged → Type 0
IsPublished before after s =
    (find (λ q. q.path) s.path after ≡ some (stored s))
    ⊎ ((q : Stored) × (find (λ r. r.path) s.path before ≡ some q)
        × (is_published q.entry s.size ≡ true)
        × (find (λ r. r.path) s.path after ≡ some q))

IsPlanned-IsPublished :
    (folder : List Stored) (moves : List Staged) (staged : List Staged)
    → All (IsPlanned folder moves) staged
    → All (IsPublished folder (folder ++ map stored moves)) staged
IsPlanned-IsPublished folder moves [] h = tt
IsPlanned-IsPublished folder moves (s ∷ staged) (inl (q, (found, same)), hs) = (
  inr (q, found, same, find-append (λ r. r.path) s.path folder (map stored moves) found),
  IsPlanned-IsPublished folder moves staged hs,
)
IsPlanned-IsPublished folder moves (s ∷ staged) (inr (free, moved), hs) = (
  inl (find-append_none s.path folder (map stored moves) free ∙ moved),
  IsPlanned-IsPublished folder moves staged hs,
)

merge-IsPublished :
    (inside : String → Bool) (moves_on : ℕ → Bool) (folder : List Stored) (has_cache : Bool)
    (staged : List Staged) {after : List Stored}
    → distinct (map (λ s. s.path) staged) ≡ true
    → merge inside moves_on folder has_cache staged ≡ published after
    → All (IsPublished folder after) staged
unfolding merge
merge-IsPublished inside moves_on folder has_cache staged apart h =
    elim (Result-cases (plan_moves inside folder staged)) [
      | inl (e, failed) ↦ cc (rw (failed, merge) at h)
      | inr (moves, planned) ↦
          subst (λ after. All (IsPublished folder after) staged)
            (carry_out-published moves_on folder has_cache moves (rw (planned, merge) at h))
            (IsPlanned-IsPublished folder moves staged
              (plan_moves-IsPlanned inside folder staged apart planned))
    ]

alone-IsPublished :
    (staged : List Staged) {after : List Stored}
    → distinct (map (λ s. s.path) staged) ≡ true
    → map stored staged ≡ after
    → All (IsPublished [] after) staged
alone-IsPublished staged apart h =
    subst (λ after. All (IsPublished [] after) staged) h
      (IsPlanned-IsPublished [] staged staged (IsPlanned-alone staged apart))

-- Each staged file stands in the folder after a publication, unless an entry of its size stood there.
pub publish-IsPublished :
    (inside : String → Bool) (moves_on : ℕ → Bool) (tombstone : Bool) (destination : Destination)
    (staged : List Staged) {after : List Stored}
    → distinct (map (λ s. s.path) staged) ≡ true
    → publish inside moves_on tombstone destination staged ≡ published after
    → All (IsPublished (entries destination) after) staged
unfolding publish
publish-IsPublished inside moves_on tombstone missing staged apart h =
    alone-IsPublished staged apart (published-if (moves_on 0) (λ y e. cc e) h)
publish-IsPublished inside moves_on tombstone not_a_folder staged apart h = cc
publish-IsPublished inside moves_on tombstone (folder_of [] false) staged apart h = cc
publish-IsPublished inside moves_on true (folder_of [] true) staged apart h = cc
publish-IsPublished inside moves_on false (folder_of [] true) staged apart h =
    alone-IsPublished staged apart (replace_cached-published moves_on staged h)
publish-IsPublished inside moves_on tombstone (folder_of (q ∷ qs) has_cache) staged apart h =
    merge-IsPublished inside moves_on (q ∷ qs) has_cache staged apart h
