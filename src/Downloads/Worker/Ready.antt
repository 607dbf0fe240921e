-- ===== src/Downloads/Worker/Ready.antt =====
-- The worker's loop over files whose transfers all succeed (services/download_worker.py).
use llama_web_ui.Prelude.{
  subst, max, ◌+◌, ◌≤◌, ℕ, String, ◌≡◌, ◌≢◌, sym, ap, ◌∙◌, true, false, Option, none, some, List,
  [], ◌∷◌, All, arith, map, distinct, contains,
}
use llama_web_ui.Downloads.Job.{DownloadFile}
use llama_web_ui.Downloads.Publish.{Stored, Destination}
use llama_web_ui.Downloads.Publish.Moves.{same_text-ne}
use llama_web_ui.Downloads.Worker.{Machine, World, Visit}
use llama_web_ui.Downloads.Worker.Check.{entry_at}
use llama_web_ui.Downloads.Worker.Run.{Tally, visit_files}
use llama_web_ui.Downloads.Worker.Keeps.{Post, at_next, and_then-Post}
use llama_web_ui.Downloads.Worker.Live.{Never}
use llama_web_ui.Downloads.Worker.Succeeds.{Succeeds, IsSound, IsReady}
use llama_web_ui.Downloads.Worker.Counted.{visit_file-Counted}

-- The transfers of the files from the turn `k` on succeed, when so many bytes are recorded and done.
abbrev pub AllSucceed : Machine → String → List DownloadFile → (ℕ → Visit) → ℕ → ℕ → ℕ → Type 0
AllSucceed m i [] visits k recorded done = Unit
AllSucceed m i (f ∷ fs) visits k recorded done =
    (s : Succeeds m i recorded done f (visits k)) × AllSucceed m i fs visits (k + 1)
      (max recorded (done + s.size)) (done + s.size)

known : Option ℕ → ℕ
known none = 0
known (some n) = n

-- The bytes of the files, as the job gives them.
unfoldable pub bytes_of : List DownloadFile → ℕ
unfolding known
bytes_of [] = 0
bytes_of (f ∷ fs) = known f.size + bytes_of fs

bytes_of-cons :
    (f : DownloadFile) (fs : List DownloadFile) (n : ℕ)
    → f.size ≡ some n
    → bytes_of (f ∷ fs) ≡ n + bytes_of fs
unfolding bytes_of known
bytes_of-cons f fs n e = ap (λ o. known o + bytes_of fs) e

-- A change at another path leaves the staged files sound.
All-IsSound :
    (m : Machine) (staging staging' : List Stored) (p : String) (fs : List DownloadFile)
    → contains (map (λ f. f.path) fs) p ≡ false
    → ((q : String) → q ≢ p → entry_at q staging' ≡ entry_at q staging)
    → All (IsSound m staging) fs
    → All (IsSound m staging') fs
unfolding contains
All-IsSound m staging staging' p [] apart same h = tt
All-IsSound m staging staging' p (f ∷ fs) apart same (h, hs) = (
  λ n content size_of stands etag.
      h n content size_of (sym (same f.path (same_text-ne f.path p (ground arith))) ∙ stands) etag,
  All-IsSound m staging staging' p fs (ground arith) same hs,
)

module _ (m : Machine) (i : String) (total : ℕ) (d : Destination) where
  pub visit_files-IsReady :
      (fs : List DownloadFile) (visits : ℕ → Visit) (k : ℕ) (t : Tally) (w : World)
      → AllSucceed m i fs visits k t.recorded t.done
      → All (IsSound m w.staging) fs
      → distinct (map (λ f. f.path) fs) ≡ true
      → t.done + bytes_of fs ≤ total
      → IsReady i total d t w
      → Post (IsReady i total d) Never (visit_files m i fs visits k t w)
  unfolding visit_files distinct
  visit_files-IsReady [] visits k t w ss sound apart fits h = at_next h
  visit_files-IsReady (f ∷ fs) visits k t w (s, ss) (sound, sounds) apart fits h =
      let sum = bytes_of-cons f fs s.size s.size_of in
      and_then-Post _
        (visit_file-Counted m i total d f (visits k) t s w sound (omega (arith, sum, fits)) h)
        (λ t1 w1 c.
          visit_files-IsReady fs visits (k + 1) t1 w1
            (subst (AllSucceed m i fs visits (k + 1) t1.recorded) (sym c.counts) (
              subst (λ n. AllSucceed m i fs visits (k + 1) n (t.done + s.size)) (sym c.records) ss))
            (All-IsSound m w.staging w1.staging f.path fs (ground arith) c.same_entry sounds)
            (ground arith) (omega (arith, c.counts, sum, fits)) c.ready)
