-- ===== src/Downloads/Registry.antt =====
-- services/download_registry.py, but `create` (Plan.antt). The table is the list of its rows in
-- creation order. A method that raises commits nothing, so an error comes without a table.
pub mod Laws
pub mod Runs
mod Tests
use llama_web_ui.Prelude.{
  ℕ, ◌≡◌, String, Bool, true, false, ◌||◌, ◌&&◌, not, Option, none, some, List, [], ◌∷◌, ite, ltb,
  if◌then◌else◌, string_discrete,
}
use llama_web_ui.Downloads.Job.{
  DownloadState, queued, downloading, paused, completed, failed, cancelled, same_state, may_become,
  DownloadJob,
}

pub data RegistryError : Type 0 where
  job_not_found : String → RegistryError
  invalid_transition : DownloadState → DownloadState → RegistryError
  progress_out_of_range not_completed : RegistryError

pub data Outcome : Type 0 where
  ok : DownloadJob → List DownloadJob → Outcome
  err : RegistryError → Outcome

-- `session.get(DownloadJobRecord, job_id)`.
unfoldable pub find : String → List DownloadJob → Option DownloadJob
find i [] = none
find i (r ∷ rs) = ite (string_discrete r.id i) (some r) (find i rs)

-- The row with the identifier of `r` becomes `r`.
unfoldable pub store : DownloadJob → List DownloadJob → List DownloadJob
store r [] = []
store r (q ∷ qs) = ite (string_discrete q.id r.id) (r ∷ qs) (q ∷ store r qs)

-- `with … as session: record = self._get(session, job_id)`, and then the rest of the method.
unfoldable pub with_job : String → List DownloadJob → (DownloadJob → Outcome) → Outcome
with_job i rs body = elim (find i rs) [ none ↦ err (job_not_found i) | some r ↦ body r ]

abbrev pub commit : DownloadJob → List DownloadJob → Outcome
commit r rs = ok r (store r rs)

-- `list`.
unfoldable pub visible : Bool → List DownloadJob → List DownloadJob
visible include_hidden [] = []
visible include_hidden (r ∷ rs) =
    let rest = visible include_hidden rs in
    if include_hidden || not r.hidden then r ∷ rest else rest

abbrev pub is_terminal : DownloadState → Bool
is_terminal completed = true
is_terminal cancelled = true
is_terminal failed = true
is_terminal _ = false

unfoldable pub clear_row : DownloadJob → DownloadJob
clear_row r = if not r.hidden && is_terminal r.state then record r { hidden = true } else r

-- `clear_terminal`: the table after it.
unfoldable pub clear_terminal : List DownloadJob → List DownloadJob
clear_terminal [] = []
clear_terminal (r ∷ rs) = clear_row r ∷ clear_terminal rs

-- What `clear_terminal` returns: the rows that it hid.
unfoldable pub cleared : List DownloadJob → List DownloadJob
cleared [] = []
cleared (r ∷ rs) =
    let rest = cleared rs in
    if not r.hidden && is_terminal r.state then clear_row r ∷ rest else rest

unfoldable pub reconcile_row : DownloadJob → DownloadJob
reconcile_row r = if same_state r.state downloading then record r { state = paused } else r

-- `reconcile_interrupted`, at startup.
unfoldable pub reconcile_interrupted : List DownloadJob → List DownloadJob
reconcile_interrupted [] = []
reconcile_interrupted (r ∷ rs) = reconcile_row r ∷ reconcile_interrupted rs

-- Each method below looks its row up and does the rest in the function above it.
unfoldable pub transition_row : DownloadState → List DownloadJob → DownloadJob → Outcome
transition_row target rs r =
    if may_become r.state target
    then commit (record r { state = target }) rs
    else err (invalid_transition r.state target)

unfoldable pub transition : String → DownloadState → List DownloadJob → Outcome
transition i target rs = with_job i rs (transition_row target rs)

unfoldable pub update_progress_row : ℕ → List DownloadJob → DownloadJob → Outcome
update_progress_row bytes rs r =
    if not (same_state r.state downloading)
    then ok r rs
    else if ltb bytes r.completed_bytes || ltb r.total_bytes bytes
    then err progress_out_of_range
    else commit (record r { completed_bytes = bytes }) rs

unfoldable pub update_progress : String → ℕ → List DownloadJob → Outcome
update_progress i bytes rs = with_job i rs (update_progress_row bytes rs)

unfoldable pub fail_row : String → List DownloadJob → DownloadJob → Outcome
fail_row message rs r =
    if not (same_state r.state downloading)
    then ok r rs
    else if may_become downloading failed
    then commit (record r { state = failed; error = some message }) rs
    else err (invalid_transition downloading failed)

unfoldable pub fail : String → String → List DownloadJob → Outcome
fail i message rs = with_job i rs (fail_row message rs)

unfoldable pub reset_row : List DownloadJob → DownloadJob → Outcome
reset_row rs r =
    if not (same_state r.state completed)
    then err not_completed
    else commit (record r { completed_bytes = 0; state = queued; error = none; hidden = false }) rs

unfoldable pub reset_for_redownload : String → List DownloadJob → Outcome
reset_for_redownload i rs = with_job i rs (reset_row rs)

-- The calls that other parts make of a registry, `create` aside.
pub data Call : Type 0 where
  clear reconcile : Call
  move : String → DownloadState → Call
  progress : String → ℕ → Call
  fail_with : String → String → Call
  reset : String → Call

abbrev pub table_after : Outcome → List DownloadJob → List DownloadJob
table_after (ok r rs') rs = rs'
table_after (err e) rs = rs

unfoldable pub apply : Call → List DownloadJob → List DownloadJob
apply clear rs = clear_terminal rs
apply reconcile rs = reconcile_interrupted rs
apply (move i target) rs = table_after (transition i target rs) rs
apply (progress i bytes) rs = table_after (update_progress i bytes rs) rs
apply (fail_with i message) rs = table_after (fail i message rs) rs
apply (reset i) rs = table_after (reset_for_redownload i rs) rs

unfoldable pub run : List Call → List DownloadJob → List DownloadJob
run [] rs = rs
run (c ∷ cs) rs = run cs (apply c rs)
