-- ===== src/Downloads/Registry/Runs.antt =====
-- Any sequence of calls on the table of downloads.
use mathlib.Core.Logic.{if_pos, if_neg}
use mathlib.Core.Option.{some-injective}
use llama_web_ui.Prelude.{
  ◌≤◌, ◌≡◌, ◌≢◌, refl, sym, ◌∙◌, subst, String, true, false, some, List, [], ◌∷◌, arith, All,
  string_discrete,
}
use llama_web_ui.Downloads.Job.{DownloadState, cancelled, may_become, DownloadJob}
use llama_web_ui.Downloads.Registry.{
  Outcome, ok, err, find, store, with_job, transition, transition_row, Call, apply, run,
  invalid_transition,
}
use llama_web_ui.Downloads.Registry.Laws.{Evolves, Rows, no_rows, row, apply-Rows, find-id}

-- The row of a job after a change of the table.
Rows-find :
    (i : String) {rs rs' : List DownloadJob} {r : DownloadJob}
    → Rows rs rs'
    → find i rs ≡ some r
    → (r' : DownloadJob) × (find i rs' ≡ some r') × Evolves r r'
unfolding find
Rows-find i no_rows f = cc
Rows-find i {r = r} (row {r = q} {r' = q'} v vs) f = elim (string_discrete q.id i) [
  | yes p ↦
      let e = some-injective _ _ (rw (if_pos _ p) at f) in
      (q', rw (if_pos _ (v.same_id ∙ p)), subst (λ x. Evolves x q') e v)
  | no n ↦
      let (r', g, w) = Rows-find i vs (rw (if_neg _ n) at f) in
      (r', rw (if_neg _ (λ x. n (sym v.same_id ∙ x))) g, w)
]

-- `cancelled` has no edge to leave by.
Evolves-cancelled : {r r' : DownloadJob} → Evolves r r' → r.state ≡ cancelled → r'.state ≡ cancelled
unfolding may_become
Evolves-cancelled v c = ground arith

-- A cancelled download stays in the table and stays cancelled, whatever calls follow.
pub cancelled_forever :
    (cs : List Call) (i : String) (rs : List DownloadJob) {r : DownloadJob}
    → find i rs ≡ some r
    → r.state ≡ cancelled
    → (r' : DownloadJob) × (find i (run cs rs) ≡ some r') × (r'.state ≡ cancelled)
unfolding run
cancelled_forever [] i rs {r = r} f c = (r, f, c)
cancelled_forever (call ∷ cs) i rs f c =
    let (q, g, v) = Rows-find i (apply-Rows call rs) f in
    cancelled_forever cs i (apply call rs) g (Evolves-cancelled v c)

-- No recorded progress exceeds the size of its download.
abbrev pub IsBounded : List DownloadJob → Type 0
IsBounded = All (λ r. r.completed_bytes ≤ r.total_bytes)

Rows-IsBounded : {rs rs' : List DownloadJob} → Rows rs rs' → IsBounded rs → IsBounded rs'
Rows-IsBounded no_rows b = b
Rows-IsBounded (row v vs) b = (v.bounded b.0, Rows-IsBounded vs b.1)

-- Every sequence of calls keeps each download's recorded progress within its size.
pub run-IsBounded : (cs : List Call) (rs : List DownloadJob) → IsBounded rs → IsBounded (run cs rs)
unfolding run
run-IsBounded [] rs b = b
run-IsBounded (c ∷ cs) rs b = run-IsBounded cs (apply c rs) (Rows-IsBounded (apply-Rows c rs) b)

pub find-store_self :
    (i : String) (rs : List DownloadJob) {r : DownloadJob} (r' : DownloadJob)
    → find i rs ≡ some r
    → r'.id ≡ i
    → find i (store r' rs) ≡ some r'
unfolding find store
find-store_self i [] r' f e = cc
find-store_self i (q ∷ qs) r' f e = elim (string_discrete q.id i) [
  | yes p ↦ rw (if_pos _ (p ∙ sym e)) (rw (if_pos _ e))
  | no n ↦
      rw (if_neg _ (λ x. n (x ∙ e)))
        (rw (if_neg _ n) (find-store_self i qs r' (rw (if_neg _ n) at f) e))
]

find-store_ne :
    (j : String) (rs : List DownloadJob) (r' : DownloadJob)
    → j ≢ r'.id
    → find j (store r' rs) ≡ find j rs
unfolding find store
find-store_ne j [] r' n = refl
find-store_ne j (q ∷ qs) r' n = ground (arith, find-store_ne j qs r' n)

pub with_job-found :
    (i : String) (rs : List DownloadJob) (body : DownloadJob → Outcome) {r : DownloadJob}
    → find i rs ≡ some r
    → with_job i rs body ≡ body r
unfolding with_job
with_job-found i rs body f = rw (f, with_job)

-- `transition` on a job in the table: along an edge of the transition table it sets the state of
-- that job and changes no other; any other target is refused.
pub transition_lem :
    (i : String) (target : DownloadState) (rs : List DownloadJob) {r : DownloadJob}
    → find i rs ≡ some r
    → let r' = record r { state = target } in
      (may_become r.state target ≡ true
        → (transition i target rs ≡ ok r' (store r' rs))
          × (find i (store r' rs) ≡ some r')
          × ((j : String) → j ≢ i → find j (store r' rs) ≡ find j rs))
      × (may_become r.state target ≡ false
          → transition i target rs ≡ err (invalid_transition r.state target))
unfolding transition transition_row
transition_lem i target rs {r = r} f =
    let same = find-id i rs f in
    let r' = record r { state = target } in
    (
      λ h. (
        with_job-found i rs (transition_row target rs) f ∙ rw h,
        find-store_self i rs r' f same,
        λ j n. find-store_ne j rs r' (λ e. n (e ∙ same)),
      ),
      λ h. with_job-found i rs (transition_row target rs) f ∙ rw h,
    )
