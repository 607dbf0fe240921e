-- ===== src/Downloads/Worker/Succeeds.antt =====
-- A file of a download whose transfer succeeds (services/download_worker.py).
use llama_web_ui.Prelude.{
  ◌+◌, ==_iff, ◌≤◌, max, ℕ, String, ◌≡◌, ◌≢◌, refl, subst, sym, ap, ◌∙◌, true, false, Option, none,
  some, List, All, arith, if-cases,
}
use llama_web_ui.Downloads.Job.{DownloadJob, DownloadFile, downloading, same_state}
use llama_web_ui.Downloads.Registry.{find, Call}
use llama_web_ui.Downloads.Retry
use llama_web_ui.Downloads.Retry.{download_with_retries}
use llama_web_ui.Downloads.Publish.{FolderEntry, file, other, Stored, Destination}
use llama_web_ui.Downloads.Worker.{
  Machine, World, Visit, WorkerStep, next, meanwhile, get_job, row_of,
}
use llama_web_ui.Downloads.Worker.Check.{
  entry_at, write_entry, is_reusable, matches_etag, matches_sha256,
}
use llama_web_ui.Downloads.Worker.Watch.{Transfer, settle, left_by, download_with_progress}
use llama_web_ui.Downloads.Worker.Run.{Tally, obtain, go_on}
use llama_web_ui.Downloads.Worker.Keeps.{Post, at_next, and_then-Post}
use llama_web_ui.Downloads.Worker.Folder.{entry_at-write_entry_ne, entry_at-write_entry_self}
use llama_web_ui.Downloads.Worker.Live.{
  IsLive, Never, Spares, IsQuiet, IsSteady, IsLive-meanwhile, watch-Watches,
}

abbrev pub transfer_of : String → DownloadFile → ℕ → ℕ → Transfer
transfer_of i f done size = record {
  job_id = i;
  filename = f.path;
  completed_bytes = done;
  expected_size = size;
}

-- The transfer of the file brings what the job expects, and nothing disturbs it or the check after
-- it; `recorded` bytes of the job are in the table when it starts, `done` of other files.
pub record Succeeds (m : Machine) (i : String) (recorded done : ℕ) (f : DownloadFile) (v : Visit)
    : Type 0 where
  pub size : ℕ
  pub size_of : f.size ≡ some size
  pub content : String
  pub brings : v.leaves ≡ some (file size content)
  pub matches : matches_sha256 m f.sha256 content ≡ true
  pub inside : m.in_staging f.path ≡ true
  pub returns : download_with_retries v.attempts ≡ some (Retry.returned f.path)
  pub quiet : All (IsQuiet i size) v.polls
  pub steady : IsSteady m.stall_timeout (transfer_of i f done size) recorded v.started v.polls
  pub hash_spares : Spares i v.hash_calls
  pub hash_goes_on : v.hash_cancelled ≡ false

-- A file that stands in the staging folder and would be kept matches the checksum.
abbrev pub IsSound : Machine → List Stored → DownloadFile → Type 0
IsSound m staging f =
    (n : ℕ) (content : String)
    → f.size ≡ some n
    → entry_at f.path staging ≡ some (file n content)
    → matches_etag m f.etag content ≡ true
    → matches_sha256 m f.sha256 content ≡ true

is_reusable-file :
    (m : Machine) (f : DownloadFile) (n : ℕ) (o : Option FolderEntry)
    → is_reusable m f n o ≡ true
    → (content : String) × (o ≡ some (file n content)) × (matches_etag m f.etag content ≡ true)
unfolding is_reusable
is_reusable-file m f n none h = cc
is_reusable-file m f n (some other) h = cc
is_reusable-file m f n (some (file k content)) h =
    (content, ap (λ x. some (file x content)) ((==_iff k n).0 (ground arith)), ground arith)

pub get_job-found :
    (i : String) (w : World) {r : DownloadJob} → find i w.jobs ≡ some r → get_job i w ≡ next r w
unfolding get_job row_of
get_job-found i w e = rw (e, row_of)

pub go_on-downloading : (r : DownloadJob) (w : World) → r.state ≡ downloading → go_on r w ≡ next r w
unfolding go_on same_state
go_on-downloading r w e = rw e refl

settle-returned :
    (o : Option Retry.Outcome) (p : String) (w : World)
    → o ≡ some (Retry.returned p)
    → settle o w ≡ next p w
unfolding settle
settle-returned o p w e = rw e refl

-- Between two files: the job is downloading, and the worker knows its progress.
pub record IsReady (i : String) (total : ℕ) (d : Destination) (t : Tally) (w : World) : Type 0 where
  pub row : DownloadJob
  pub live : IsLive i total (max t.recorded t.done) w.staging d row w
  pub same_bytes : row.completed_bytes ≡ t.recorded

module _ (m : Machine) (i : String) (total : ℕ) (d : Destination) where
  module _ (recorded done : ℕ) (f : DownloadFile) (v : Visit) (s : Succeeds m i recorded done f v)
      (w : World) (sound : IsSound m w.staging f) where
    -- The file stands in the staging folder, checked.
    pub record Obtained (bound : ℕ) (w1 : World) : Type 0 where
      pub row : DownloadJob
      pub live : IsLive i total bound w1.staging d row w1
      pub kept : recorded ≤ row.completed_bytes
      pub content : String
      pub stands : entry_at f.path w1.staging ≡ some (file s.size content)
      pub matches : matches_sha256 m f.sha256 content ≡ true
      pub same_entry : (q : String) → q ≢ f.path → entry_at q w1.staging ≡ entry_at q w.staging

    pub Obtained-meanwhile :
        (bound : ℕ) (cs : List Call) (w1 : World)
        → Spares i cs
        → Obtained bound w1
        → Obtained bound (meanwhile cs w1)
    Obtained-meanwhile bound cs w1 spares o = record {
      row = o.row;
      live =
          unfold meanwhile in IsLive-meanwhile i total bound w1.staging d cs o.row w1 o.live spares;
      kept = o.kept;
      content = o.content;
      stands = unfold meanwhile in o.stands;
      matches = o.matches;
      same_entry = unfold meanwhile in o.same_entry;
    }

    module _ (bound : ℕ) (fits : done + s.size ≤ total) (below : done + s.size ≤ bound) where
      abbrev Goes : WorkerStep String → Type 0
      Goes = Post (λ p w1. (p ≡ f.path) × Obtained bound w1) Never

      watched-Obtained :
          (r : DownloadJob) (w1 : World) (staging : List Stored)
          → staging
            ≡ write_entry (record { path = f.path; entry = file s.size s.content }) w.staging
          → IsLive i total bound staging d r w1
          → recorded ≤ r.completed_bytes
          → Obtained bound w1
      watched-Obtained r w1 staging e l more = record {
        row = r;
        live = record {
          found = l.found;
          is_downloading = l.is_downloading;
          same_total = l.same_total;
          within = l.within;
          same_staging = refl;
          same_destination = l.same_destination;
        };
        kept = more;
        content = s.content;
        stands =
            ap (entry_at f.path) (l.same_staging ∙ e)
            ∙ entry_at-write_entry_self (record { path = f.path; entry = file s.size s.content })
                w.staging;
        matches = s.matches;
        same_entry = λ q n.
            ap (entry_at q) (l.same_staging ∙ e)
            ∙ entry_at-write_entry_ne (record { path = f.path; entry = file s.size s.content })
                w.staging q n;
      }

      transfer-Obtained :
          (r : DownloadJob)
          → IsLive i total bound w.staging d r w
          → r.completed_bytes ≡ recorded
          → Goes (download_with_progress m (transfer_of i f done s.size) v w)
      unfolding download_with_progress left_by
      transfer-Obtained r l e =
          let staging =
            write_entry (record { path = f.path; entry = file s.size s.content }) w.staging in
          rw s.brings (
            and_then-Post _
              (rw (get_job-found i (record w { staging = staging }) l.found) (
                at_next (record {
                  row = r;
                  live = record {
                    found = l.found;
                    is_downloading = l.is_downloading;
                    same_total = l.same_total;
                    within = l.within;
                    same_staging = refl;
                    same_destination = l.same_destination;
                  };
                  reported = refl;
                  kept = omega (arith, e);
                  steady =
                      subst
                        (λ n.
                          IsSteady m.stall_timeout (transfer_of i f done s.size) n v.started
                            v.polls)
                        (sym e) s.steady;
                })))
              (λ r' w1 h1.
                and_then-Post _
                  (watch-Watches i total bound staging d m (transfer_of i f done s.size) recorded
                    refl fits below v.polls _ w1 s.quiet h1)
                  (λ s' w2 h2.
                    rw (settle-returned (download_with_retries v.attempts) f.path w2 s.returns)
                      (at_next (refl, watched-Obtained h2.row w2 staging refl h2.live h2.kept)))))

      pub obtain-Obtained :
          (r : DownloadJob)
          → IsLive i total bound w.staging d r w
          → r.completed_bytes ≡ recorded
          → Goes (obtain m (transfer_of i f done s.size) f v w)
      unfolding obtain
      obtain-Obtained r l e =
          if-cases Goes (is_reusable m f s.size (entry_at f.path w.staging))
            (λ kept.
              let (content, stands, etag) = is_reusable-file m f s.size _ kept in
              at_next (
                refl,
                record {
                  row = r;
                  live = l;
                  kept = omega (arith, e);
                  content = content;
                  stands = stands;
                  matches = sound s.size content s.size_of stands etag;
                  same_entry = λ q n. refl;
                },
              ))
            (λ _. transfer-Obtained r l e)
