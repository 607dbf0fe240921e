-- ===== src/Downloads/Worker/Keeps.antt =====
-- The worker's calls of the registry and its watch of a transfer, under a property of its world that
-- outlives the calls of other parts to the registry.
pub mod Files
pub mod Turn
use llama_web_ui.Prelude.{
  ◌+◌, ◌-◌, ◌==◌, leb, ltb, ℕ, String, ◌≡◌, refl, sym, subst, Option, none, some, List, [], ◌∷◌,
  if-cases,
}
use llama_web_ui.Downloads.Job.{
  same_state, downloading, cancelled, DownloadState, DownloadJob, DownloadFile,
}
use llama_web_ui.Downloads.Registry.{
  Outcome, ok, err, find, Call, move, progress, fail_with, apply, table_after,
}
use llama_web_ui.Downloads.Registry
use llama_web_ui.Downloads.Retry
use llama_web_ui.Downloads.Publish.{FolderEntry, file, other}
use llama_web_ui.Downloads.Worker.{
  Machine, World, Poll, Visit, WorkerStep, WorkerError, next, left, raised, interrupted, and_then,
  meanwhile, of_outcome, report, move_to, get_job, row_of, discard,
}
use llama_web_ui.Downloads.Worker.Check.{matches_sha256, entry_at, is_reusable, write_entry}
use llama_web_ui.Downloads.Worker.Watch.{
  disk_check_interval, current_file_bytes, Transfer, Watched, poll_once, check_disk, report_bytes,
  watch, settle, left_by, download_with_progress,
}
use llama_web_ui.Downloads.Worker.Run.{
  Tally, obtain, go_on, check_content, check_entry, check_file, count,
}

-- `P` of the result and the world if the step goes on, and `R` of the world if it does not.
pub data Post {ℓ} {A : Type ℓ} (P : A → World → Type 0) (R : World → Type 0)
    : WorkerStep A → Type ℓ where
  at_next : {a : A} {w : World} → P a w → Post P R (next a w)
  at_left : {w : World} → R w → Post P R (left w)
  at_raised : {e : WorkerError} {w : World} → R w → Post P R (raised e w)
  at_interrupted : {w : World} → R w → Post P R (interrupted w)

pub and_then-Post {ℓ κ} :
    {A : Type ℓ} {B : Type κ} {P : A → World → Type 0} {Q : B → World → Type 0} {R : World → Type 0}
    {s : WorkerStep A} (k : A → World → WorkerStep B)
    → Post P R s
    → ((a : A) (w : World) → P a w → Post Q R (k a w))
    → Post Q R (and_then s k)
unfolding and_then
and_then-Post k (at_next h) on = on _ _ h
and_then-Post k (at_left h) on = at_left h
and_then-Post k (at_raised h) on = at_raised h
and_then-Post k (at_interrupted h) on = at_interrupted h

module _ (I R : World → Type 0) (calls : (cs : List Call) (w : World) → I w → I (meanwhile cs w))
    (leave : (w : World) → I w → R w) where
  -- The property holds where the step goes on, and what it implies where it does not.
  abbrev pub Keeps {ℓ} : {A : Type ℓ} → WorkerStep A → Type ℓ
  Keeps = Post (λ a w. I w) R

  of_outcome-Keeps :
      (o : Outcome) (c : Call) (w : World)
      → apply c w.jobs ≡ table_after o w.jobs
      → I w
      → Keeps (of_outcome o w)
  unfolding of_outcome
  of_outcome-Keeps (ok r rs) c w e i =
      subst (λ js. Keeps (next r (record w { jobs = js }))) e
        (unfold meanwhile Registry.run in at_next (calls (c ∷ []) w i))
  of_outcome-Keeps (err e) c w h i = at_raised (leave w i)

  pub report-Keeps : (i : String) (bytes : ℕ) (w : World) → I w → Keeps (report i bytes w)
  unfolding report apply
  report-Keeps i bytes w h = of_outcome-Keeps _ (progress i bytes) w refl h

  pub move_to-Keeps :
      (i : String) (target : DownloadState) (w : World) → I w → Keeps (move_to i target w)
  unfolding move_to apply
  move_to-Keeps i target w h = of_outcome-Keeps _ (move i target) w refl h

  row_of-Keeps : (o : Option DownloadJob) (i : String) (w : World) → I w → Keeps (row_of o i w)
  unfolding row_of
  row_of-Keeps none i w h = at_raised (leave w h)
  row_of-Keeps (some r) i w h = at_next h

  pub get_job-Keeps : (i : String) (w : World) → I w → Keeps (get_job i w)
  unfolding get_job
  get_job-Keeps i w h = row_of-Keeps _ i w h

  report_bytes-Keeps :
      (t : Transfer) (bytes : ℕ) (s : Watched) (w : World) → I w → Keeps (report_bytes t bytes s w)
  unfolding report_bytes
  report_bytes-Keeps t bytes s w h =
      if-cases Keeps (ltb s.reported_bytes bytes)
        (λ _. and_then-Post _ (report-Keeps t.job_id bytes w h) (λ r w' h'. at_next h'))
        (λ _. at_next h)

  check_disk-Keeps :
      (t : Transfer) (p : Poll) (o : Option Watched) (w : World) → I w → Keeps (check_disk t p o w)
  unfolding check_disk
  check_disk-Keeps t p none w h = at_raised (leave w h)
  check_disk-Keeps t p (some s) w h =
      if-cases Keeps (leb disk_check_interval s.elapsed)
        (λ _.
          if-cases Keeps (ltb p.free (t.expected_size - current_file_bytes p))
            (λ _. at_raised (leave w h)) (λ _. report_bytes-Keeps t _ _ w h))
        (λ _. report_bytes-Keeps t _ s w h)

  poll_once-Keeps :
      (m : Machine) (t : Transfer) (p : Poll) (s : Watched) (w : World)
      → I w
      → Keeps (poll_once m t p s w)
  unfolding poll_once
  poll_once-Keeps m t p s w h =
      if-cases Keeps (p.cancelled) (λ _. at_interrupted (leave _ (calls p.calls w h)))
        (λ _. check_disk-Keeps t p _ _ (calls p.calls w h))

  pub watch-Keeps :
      (m : Machine) (t : Transfer) (ps : List Poll) (s : Watched) (w : World)
      → I w
      → Keeps (watch m t ps s w)
  unfolding watch
  watch-Keeps m t [] s w h = at_next h
  watch-Keeps m t (p ∷ ps) s w h =
      and_then-Post _ (poll_once-Keeps m t p s w h) (λ s' w' h'. watch-Keeps m t ps s' w' h')
