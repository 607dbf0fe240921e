-- ===== src/Downloads/Worker/Live.antt =====
-- The watch of a transfer that nothing disturbs (services/download_worker.py).
use llama_web_ui.Prelude.{
  ◌⊎◌, inl, inr, ◌+◌, ◌-◌, ◌≤◌, ◌<◌, ℕ, String, ◌≡◌, refl, ◌∙◌, false, Option, some, List, [], ◌∷◌,
  All, arith, ltb, leb, if-cases,
}
use llama_web_ui.Downloads.Job.{DownloadJob, downloading, same_state}
use llama_web_ui.Downloads.Registry.{find, store, Call, update_progress, update_progress_row, ok}
use llama_web_ui.Downloads.Registry
use llama_web_ui.Downloads.Registry.Laws.{find-id}
use llama_web_ui.Downloads.Registry.Runs.{find-store_self, with_job-found}
use llama_web_ui.Downloads.Publish.{Stored, Destination}
use llama_web_ui.Downloads.Worker.{Machine, World, Poll, meanwhile, of_outcome, report}
use llama_web_ui.Downloads.Worker.Watch.{
  Transfer, Watched, progress_interval, disk_check_interval, current_file_bytes, next_bytes,
  mark_progress, report_bytes, check_disk, poll_once, watch,
}
use llama_web_ui.Downloads.Worker.Keeps.{Post, at_next, and_then-Post}

-- The job is downloading, its progress is within a bound, and the folders are the given ones.
pub record IsLive (i : String) (total bound : ℕ) (staging : List Stored) (d : Destination)
    (row : DownloadJob) (w : World) : Type 0 where
  pub found : find i w.jobs ≡ some row
  pub is_downloading : row.state ≡ downloading
  pub same_total : row.total_bytes ≡ total
  pub within : row.completed_bytes ≤ bound
  pub same_staging : w.staging ≡ staging
  pub same_destination : w.destination ≡ d

pub IsLive-within :
    {i : String} {total b c : ℕ} {staging : List Stored} {d : Destination} {r : DownloadJob}
    {w : World}
    → IsLive i total b staging d r w
    → r.completed_bytes ≤ c
    → IsLive i total c staging d r w
IsLive-within l le = record {
  found = l.found;
  is_downloading = l.is_downloading;
  same_total = l.same_total;
  within = le;
  same_staging = l.same_staging;
  same_destination = l.same_destination;
}

-- Where a step ends early.
abbrev pub Never : World → Type 0
Never w = ⊥

-- Other parts leave the row of the job.
abbrev pub Spares : String → List Call → Type 0
Spares i cs = (js : List DownloadJob) → find i (Registry.run cs js) ≡ find i js

-- A turn that disturbs no transfer of a file of `size` bytes: it is not cancelled, and the disk has
-- room for the rest.
pub record IsQuiet (i : String) (size : ℕ) (p : Poll) : Type 0 where
  pub spares : Spares i p.calls
  pub not_cancelled : p.cancelled ≡ false
  pub has_room : size - current_file_bytes p ≤ p.free

-- The turns of a transfer that does not stall: each shows more bytes than had been loaded or recorded
-- at the time `at` of the last progress, or comes within the time limit of it.
abbrev pub IsSteady : ℕ → Transfer → ℕ → ℕ → List Poll → Type 0
IsSteady limit t last at [] = Unit
IsSteady limit t last at (p ∷ ps) =
    ((last < next_bytes t p) × IsSteady limit t (next_bytes t p) p.now ps)
    ⊎ (((next_bytes t p ≤ last) × (p.now - at < limit)) × IsSteady limit t last at ps)

abbrev pub with_progress : ℕ → DownloadJob → DownloadJob
with_progress bytes r = record r { completed_bytes = bytes }

module _ (i : String) (total bound : ℕ) (staging : List Stored) (d : Destination) where
  abbrev pub Live : DownloadJob → World → Type 0
  Live = IsLive i total bound staging d

  pub IsLive-meanwhile :
      (cs : List Call) (r : DownloadJob) (w : World)
      → Live r w
      → Spares i cs
      → Live r (meanwhile cs w)
  unfolding meanwhile
  IsLive-meanwhile cs r w l s = record {
    found = s w.jobs ∙ l.found;
    is_downloading = l.is_downloading;
    same_total = l.same_total;
    within = l.within;
    same_staging = l.same_staging;
    same_destination = l.same_destination;
  }

  -- The registry takes a progress that is no smaller than the last and within the total.
  update_progress-taken :
      (bytes : ℕ) (r : DownloadJob) (w : World)
      → Live r w
      → r.completed_bytes ≤ bytes
      → bytes ≤ total
      → update_progress i bytes w.jobs
        ≡ ok (with_progress bytes r) (store (with_progress bytes r) w.jobs)
  unfolding update_progress
  update_progress-taken bytes r w l grows fits =
      with_job-found i w.jobs (update_progress_row bytes w.jobs) l.found
      ∙ rw l.is_downloading (unfold update_progress_row same_state in ground (arith, l.same_total))

  pub report-IsLive :
      (j : String) (bytes : ℕ) (r : DownloadJob) (w : World)
      → j ≡ i
      → Live r w
      → r.completed_bytes ≤ bytes
      → bytes ≤ total
      → bytes ≤ bound
      → Post (λ r' w'. Live r' w' × (r'.completed_bytes ≡ bytes)) Never (report j bytes w)
  unfolding report of_outcome
  report-IsLive j bytes r w same l grows fits below =
      rw (same, update_progress-taken bytes r w l grows fits)
        (at_next (
          record {
            found =
                find-store_self i w.jobs (with_progress bytes r) l.found (find-id i w.jobs l.found);
            is_downloading = l.is_downloading;
            same_total = l.same_total;
            within = below;
            same_staging = l.same_staging;
            same_destination = l.same_destination;
          },
          refl,
        ))

  module _ (m : Machine) (t : Transfer) (low : ℕ) (same_job : t.job_id ≡ i)
      (fits : t.completed_bytes + t.expected_size ≤ total)
      (below : t.completed_bytes + t.expected_size ≤ bound) where
    -- What the loop keeps: it has reported what the table has, and the turns to come are steady.
    pub record Watches (ps : List Poll) (s : Watched) (w : World) : Type 0 where
      pub row : DownloadJob
      pub live : Live row w
      pub reported : s.reported_bytes ≡ row.completed_bytes
      pub kept : low ≤ row.completed_bytes
      pub steady : IsSteady m.stall_timeout t s.last_progress_bytes s.last_progress_at ps

    report_bytes-Watches :
        (ps : List Poll) (p : Poll) (s : Watched) (w : World)
        → Watches ps s w
        → Post (Watches ps) Never (report_bytes t (next_bytes t p) s w)
    unfolding report_bytes
    report_bytes-Watches ps p s w h =
        if-cases (Post (Watches ps) Never) (ltb s.reported_bytes (next_bytes t p))
          (λ more.
            and_then-Post _
              (report-IsLive t.job_id (next_bytes t p) h.row w same_job h.live
                (ground (arith, h.reported)) (unfold next_bytes in omega arith)
                (unfold next_bytes in omega arith))
              (λ r w' h'. at_next (record {
                row = r;
                live = h'.0;
                reported = refl;
                kept = ground (arith, h.reported, h.kept, h'.1);
                steady = h.steady;
              })))
          (λ _. at_next h)

    -- The loop has not timed out.
    mark_progress-some :
        (p : Poll) (ps : List Poll) (s : Watched)
        → IsSteady m.stall_timeout t s.last_progress_bytes s.last_progress_at (p ∷ ps)
        → (s' : Watched) × (mark_progress m.stall_timeout (next_bytes t p) p.now s ≡ some s')
          × (s'.reported_bytes ≡ s.reported_bytes)
          × IsSteady m.stall_timeout t s'.last_progress_bytes s'.last_progress_at ps
    unfolding mark_progress
    mark_progress-some p ps s (inl (more, steady)) = (
      record s { last_progress_bytes = next_bytes t p; last_progress_at = p.now },
      ground arith,
      refl,
      steady,
    )
    mark_progress-some p ps s (inr ((no_more, in_time), steady)) = (s, ground arith, refl, steady)

    check_disk-Watches :
        (ps : List Poll) (p : Poll) (o : Option Watched) (s : Watched) (w : World)
        → o ≡ some s
        → Watches ps s w
        → t.expected_size - current_file_bytes p ≤ p.free
        → Post (Watches ps) Never (check_disk t p o w)
    unfolding check_disk
    check_disk-Watches ps p o s w e h room = rw e (
        if-cases (Post (Watches ps) Never) (leb disk_check_interval s.elapsed)
          (λ _.
            if-cases (Post (Watches ps) Never) (ltb p.free (t.expected_size - current_file_bytes p))
              (λ full. absurd (ground arith))
              (λ _. report_bytes-Watches ps p _ w (record {
                row = h.row;
                live = h.live;
                reported = h.reported;
                kept = h.kept;
                steady = h.steady;
              })))
          (λ _. report_bytes-Watches ps p s w h))

    poll_once-Watches :
        (p : Poll) (ps : List Poll) (s : Watched) (w : World)
        → IsQuiet i t.expected_size p
        → Watches (p ∷ ps) s w
        → Post (Watches ps) Never (poll_once m t p s w)
    unfolding poll_once
    poll_once-Watches p ps s w q h =
        let (s', marked, same, steady) =
          mark_progress-some p ps (record s { elapsed = s.elapsed + progress_interval }) h.steady in
        if-cases (Post (Watches ps) Never) p.cancelled (λ gone. let kept = q.not_cancelled in cc)
          (λ _.
            check_disk-Watches ps p _ s' _ marked
              (record {
                row = h.row;
                live = IsLive-meanwhile p.calls h.row w h.live q.spares;
                reported = same ∙ h.reported;
                kept = h.kept;
                steady = steady;
              })
              q.has_room)

    -- The loop ends without an error when no turn disturbs it.
    pub watch-Watches :
        (ps : List Poll) (s : Watched) (w : World)
        → All (IsQuiet i t.expected_size) ps
        → Watches ps s w
        → Post (Watches []) Never (watch m t ps s w)
    unfolding watch
    watch-Watches [] s w qs h = at_next h
    watch-Watches (p ∷ ps) s w (q, qs) h =
        and_then-Post _ (poll_once-Watches p ps s w q h) (λ s' w' h'. watch-Watches ps s' w' qs h')
