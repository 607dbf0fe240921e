-- ===== src/Downloads/Registry/Laws.antt =====
-- One call on the table of downloads: what it may do to each row.
use llama_web_ui.Prelude.{
  ℕ, ◌≤◌, ◌≡◌, sym, ◌∙◌, ap, subst, ◌⊎◌, inl, inr, String, true, false, none, some, List, [], ◌∷◌,
  arith, Option-cases, Bool-cases, ltb, ◌||◌, not, string_discrete,
}
use mathlib.Core.Logic.{if_pos, if_neg}
use mathlib.Core.Option.{some-injective}
use llama_web_ui.Downloads.Job.{
  DownloadState, queued, downloading, completed, failed, same_state, may_become, DownloadJob,
}
use llama_web_ui.Downloads.Registry.{
  Outcome, find, store, with_job, clear_row, clear_terminal, reconcile_row, reconcile_interrupted,
  transition, transition_row, update_progress_row, fail_row, reset_row, update_progress, fail,
  reset_for_redownload, Call, clear, reconcile, move, progress, fail_with, reset, table_after,
  apply,
}

-- A change of state is an edge of the transition table, or the reset of a completed download.
abbrev pub IsLegal : DownloadJob → DownloadJob → Type 0
IsLegal r r' =
    (r'.state ≡ r.state)
    ⊎ (may_become r.state r'.state ≡ true)
    ⊎ ((r.state ≡ completed) × (r'.state ≡ queued) × (r'.completed_bytes ≡ 0))

pub record Evolves (r r' : DownloadJob) : Type 0 where
  pub same_id : r'.id ≡ r.id
  pub same_total : r'.total_bytes ≡ r.total_bytes
  pub same_files : r'.files ≡ r.files
  pub same_destination : r'.destination ≡ r.destination
  pub same_revision : r'.revision ≡ r.revision
  pub legal : IsLegal r r'
  pub monotone :
      (r.completed_bytes ≤ r'.completed_bytes) ⊎ ((r.state ≡ completed) × (r'.state ≡ queued))
  pub bounded : r.completed_bytes ≤ r.total_bytes → r'.completed_bytes ≤ r'.total_bytes

-- The same rows in the same order, each evolved.
pub data Rows : List DownloadJob → List DownloadJob → Type 0 where
  no_rows : Rows [] []
  row :
      {rs rs' : List DownloadJob} {r r' : DownloadJob}
      → Evolves r r'
      → Rows rs rs'
      → Rows (r ∷ rs) (r' ∷ rs')

pub Evolves-refl : (r : DownloadJob) → Evolves r r
Evolves-refl r = ground arith

pub Rows-refl : (rs : List DownloadJob) → Rows rs rs
Rows-refl [] = no_rows
Rows-refl (r ∷ rs) = row (Evolves-refl r) (Rows-refl rs)

clear_row-Evolves : (r : DownloadJob) → Evolves r (clear_row r)
unfolding clear_row
clear_row-Evolves r = ground arith

reconcile_row-Evolves : (r : DownloadJob) → Evolves r (reconcile_row r)
unfolding reconcile_row same_state may_become
reconcile_row-Evolves r = ground arith

clear-Rows : (rs : List DownloadJob) → Rows rs (clear_terminal rs)
unfolding clear_terminal
clear-Rows [] = no_rows
clear-Rows (r ∷ rs) = row (clear_row-Evolves r) (clear-Rows rs)

reconcile-Rows : (rs : List DownloadJob) → Rows rs (reconcile_interrupted rs)
unfolding reconcile_interrupted
reconcile-Rows [] = no_rows
reconcile-Rows (r ∷ rs) = row (reconcile_row-Evolves r) (reconcile-Rows rs)

pub find-id : (i : String) (rs : List DownloadJob) {r : DownloadJob} → find i rs ≡ some r → r.id ≡ i
unfolding find
find-id i [] h = cc
find-id i (q ∷ qs) h = elim (string_discrete q.id i) [
  | yes p ↦ ap (λ x. x.id) (some-injective _ _ (sym (rw (if_pos _ p) at h))) ∙ p
  | no n ↦ find-id i qs (rw (if_neg _ n) at h)
]

store-Rows :
    (i : String) (rs : List DownloadJob) {r r' : DownloadJob}
    → find i rs ≡ some r
    → r'.id ≡ i
    → Evolves r r'
    → Rows rs (store r' rs)
unfolding find store
store-Rows i [] f e v = no_rows
store-Rows i (q ∷ qs) {r = r} {r' = r'} f e v = elim (string_discrete q.id i) [
  | yes p ↦ rw (if_pos _ (p ∙ sym e)) (
      row (subst (λ x. Evolves x r') (sym (some-injective _ _ (rw (if_pos _ p) at f))) v)
        (Rows-refl qs))
  | no n ↦
      rw (if_neg _ (λ x. n (x ∙ e)))
        (row (Evolves-refl q) (store-Rows i qs (rw (if_neg _ n) at f) e v))
]

-- A method that looks a row up, and then changes that row at most.
with_job-Rows :
    (i : String) (rs : List DownloadJob) (body : DownloadJob → Outcome)
    → ((r : DownloadJob) → find i rs ≡ some r → Rows rs (table_after (body r) rs))
    → Rows rs (table_after (with_job i rs body) rs)
unfolding with_job
with_job-Rows i rs body k = elim (Option-cases (find i rs)) [
  | inl missing ↦ rw (missing, table_after) (Rows-refl rs)
  | inr (r, found) ↦ rw (found, table_after) (k r found)
]

-- What a method does with the row that it found.
abbrev KeepsRow : DownloadJob → List DownloadJob → Outcome → Type 0
KeepsRow r rs o =
    (table_after o rs ≡ rs) ⊎ ((r' : DownloadJob) × (table_after o rs ≡ store r' rs) × Evolves r r')

KeepsRow-Rows :
    (i : String) (rs : List DownloadJob) (r : DownloadJob) (o : Outcome)
    → find i rs ≡ some r
    → KeepsRow r rs o
    → Rows rs (table_after o rs)
KeepsRow-Rows i rs r o f (inl e) = rw e (Rows-refl rs)
KeepsRow-Rows i rs r o f (inr (r', e, v)) = rw e (store-Rows i rs f (v.same_id ∙ find-id i rs f) v)

found-Rows :
    (i : String) (rs : List DownloadJob) (body : DownloadJob → Outcome)
    → ((r : DownloadJob) → KeepsRow r rs (body r))
    → Rows rs (table_after (with_job i rs body) rs)
found-Rows i rs body k = with_job-Rows i rs body (λ r f. KeepsRow-Rows i rs r (body r) f (k r))

module _ (rs : List DownloadJob) (r : DownloadJob) where
  transition_row-KeepsRow : (target : DownloadState) → KeepsRow r rs (transition_row target rs r)
  unfolding transition_row
  transition_row-KeepsRow target = elim (Bool-cases (may_become r.state target)) [
    | inl legal ↦ inr (record r { state = target }, rw legal, ground arith)
    | inr refused ↦ inl (rw refused)
  ]

  update_progress_row-KeepsRow : (bytes : ℕ) → KeepsRow r rs (update_progress_row bytes rs r)
  unfolding update_progress_row
  update_progress_row-KeepsRow bytes = elim (Bool-cases (not (same_state r.state downloading))) [
    | inl idle ↦ inl (rw idle)
    | inr busy ↦ elim (Bool-cases (ltb bytes r.completed_bytes || ltb r.total_bytes bytes)) [
      | inl out ↦ inl (rw (busy, out))
      | inr within ↦ inr (record r { completed_bytes = bytes }, rw (busy, within), ground arith)
    ]
  ]

  fail_row-KeepsRow : (message : String) → KeepsRow r rs (fail_row message rs r)
  unfolding fail_row may_become
  fail_row-KeepsRow message = elim (Bool-cases (not (same_state r.state downloading))) [
    | inl idle ↦ inl (rw idle)
    | inr busy ↦ inr (
      record r { state = failed; error = some message },
      rw busy,
      unfold same_state in ground arith,
    )
  ]

  reset_row-KeepsRow : KeepsRow r rs (reset_row rs r)
  unfolding reset_row
  reset_row-KeepsRow = elim (Bool-cases (not (same_state r.state completed))) [
    | inl other ↦ inl (rw other)
    | inr done ↦ inr (
      record r { completed_bytes = 0; state = queued; error = none; hidden = false },
      rw done,
      unfold same_state in ground arith,
    )
  ]

-- Every call leaves the rows in place and with their identity, size and files, changes no state but
-- along the transition table or by the reset of a completed download, lowers no progress except that
-- of a completed row that it queues again, and keeps the progress within the size.
pub apply-Rows : (c : Call) (rs : List DownloadJob) → Rows rs (apply c rs)
unfolding apply transition update_progress fail reset_for_redownload
apply-Rows clear rs = clear-Rows rs
apply-Rows reconcile rs = reconcile-Rows rs
apply-Rows (move i target) rs = found-Rows i rs _ (λ r. transition_row-KeepsRow rs r target)
apply-Rows (progress i bytes) rs = found-Rows i rs _ (λ r. update_progress_row-KeepsRow rs r bytes)
apply-Rows (fail_with i message) rs = found-Rows i rs _ (λ r. fail_row-KeepsRow rs r message)
apply-Rows (reset i) rs = found-Rows i rs _ (reset_row-KeepsRow rs)
