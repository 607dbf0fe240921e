-- ===== src/Downloads/Worker/Watch.antt =====
-- `_download_with_progress` of services/download_worker.py: the loop that reports the progress of a
-- transfer, and its end.
use llama_web_ui.Prelude.{
  ℕ, ◌+◌, ◌-◌, min, max, String, Option, none, some, List, [], ◌∷◌, ltb, leb, if◌then◌else◌,
}
use llama_web_ui.Downloads.Publish.{FolderEntry}
use llama_web_ui.Downloads.Retry
use llama_web_ui.Downloads.Worker.{
  Machine, World, Poll, Visit, WorkerStep, next, raised, interrupted, and_then, meanwhile, report,
  get_job, stalled, out_of_space, transfer_failed, no_attempt,
}
use llama_web_ui.Downloads.Worker.Check.{write_entry}

-- The arguments of one transfer.
pub record Transfer : Type 0 where
  pub job_id : String
  pub filename : String
  pub completed_bytes : ℕ
  pub expected_size : ℕ

-- The variables of the loop.
pub record Watched : Type 0 where
  pub elapsed : ℕ
  pub last_progress_bytes : ℕ
  pub last_progress_at : ℕ
  pub reported_bytes : ℕ

-- `_PROGRESS_INTERVAL_SECONDS` and `_DISK_CHECK_INTERVAL_SECONDS`, in milliseconds.
abbrev pub progress_interval : ℕ
progress_interval = 250

abbrev pub disk_check_interval : ℕ
disk_check_interval = 5000

-- `max(sizes, default=0)`.
unfoldable pub highest : List ℕ → ℕ
highest [] = 0
highest (n ∷ ns) = max n (highest ns)

unfoldable pub current_file_bytes : Poll → ℕ
current_file_bytes p = max p.target_size (highest p.incomplete_sizes)

unfoldable pub next_bytes : Transfer → Poll → ℕ
next_bytes t p = t.completed_bytes + min (current_file_bytes p) t.expected_size

-- The progress since the last turn; `none` is the time-out.
unfoldable pub mark_progress : ℕ → ℕ → ℕ → Watched → Option Watched
mark_progress timeout bytes now s =
    if ltb s.last_progress_bytes bytes
    then some (record s { last_progress_bytes = bytes; last_progress_at = now })
    else if leb timeout (now - s.last_progress_at)
    then none
    else some s

unfoldable pub report_bytes : Transfer → ℕ → Watched → World → WorkerStep Watched
report_bytes t bytes s w =
    if ltb s.reported_bytes bytes
    then and_then (report t.job_id bytes w)
        (λ r w'. next (record s { reported_bytes = r.completed_bytes }) w')
    else next s w

-- The check of the disk, every five seconds, and the report.
unfoldable pub check_disk : Transfer → Poll → Option Watched → World → WorkerStep Watched
check_disk t p none w = raised (stalled t.filename) w
check_disk t p (some s) w =
    let remaining = t.expected_size - current_file_bytes p in
    if leb disk_check_interval s.elapsed
    then (if ltb p.free remaining
        then raised (out_of_space remaining) w
        else report_bytes t (next_bytes t p) (record s { elapsed = 0 }) w)
    else report_bytes t (next_bytes t p) s w

unfoldable pub poll_once : Machine → Transfer → Poll → Watched → World → WorkerStep Watched
poll_once m t p s w =
    if p.cancelled
    then interrupted (meanwhile p.calls w)
    else check_disk t p
        (mark_progress m.stall_timeout (next_bytes t p) p.now
          (record s { elapsed = s.elapsed + progress_interval }))
        (meanwhile p.calls w)

-- `while not transfer.done()`.
unfoldable pub watch : Machine → Transfer → List Poll → Watched → World → WorkerStep Watched
watch m t [] s w = next s w
watch m t (p ∷ ps) s w = and_then (poll_once m t p s w) (watch m t ps)

-- `return await transfer`.
unfoldable pub settle : Option Retry.Outcome → World → WorkerStep String
settle none w = raised no_attempt w
settle (some (Retry.returned path)) w = next path w
settle (some (Retry.failed e)) w = raised (transfer_failed e) w
settle (some (Retry.broken e)) w = raised (transfer_failed e) w
settle (some Retry.cancelled_transfer) w = interrupted w

unfoldable pub left_by : Transfer → Option FolderEntry → World → World
left_by t none w = w
left_by t (some entry) w = record w {
  staging = write_entry (record { path = t.filename; entry = entry }) w.staging;
}

-- `_download_with_progress`.
unfoldable pub download_with_progress : Machine → Transfer → Visit → World → WorkerStep String
download_with_progress m t v w = and_then (get_job t.job_id (left_by t v.leaves w)) (λ r w1.
    and_then
      (watch m t v.polls
        (record {
          elapsed = 0;
          last_progress_bytes = r.completed_bytes;
          last_progress_at = v.started;
          reported_bytes = r.completed_bytes;
        })
        w1)
      (λ s w2. settle (Retry.download_with_retries v.attempts) w2))
