-- ===== src/Downloads/Worker/Keeps/Files.antt =====
-- The checks of one file by the worker, and the count of its bytes, under a property of its world.
use llama_web_ui.Prelude.{◌+◌, ◌==◌, ltb, ℕ, String, Option, none, some, List, if-cases}
use llama_web_ui.Downloads.Job.{same_state, downloading, cancelled, DownloadJob, DownloadFile}
use llama_web_ui.Downloads.Registry.{Call}
use llama_web_ui.Downloads.Publish.{FolderEntry, file, other}
use llama_web_ui.Downloads.Worker.{Machine, World, Visit, meanwhile, discard}
use llama_web_ui.Downloads.Worker.Check.{matches_sha256}
use llama_web_ui.Downloads.Worker.Run.{Tally, go_on, check_content, check_entry, check_file, count}
use llama_web_ui.Downloads.Worker.Keeps.{
  at_next, at_left, at_raised, at_interrupted, and_then-Post, Keeps, report-Keeps,
}

module _ (I R : World → Type 0) (calls : (cs : List Call) (w : World) → I w → I (meanwhile cs w))
    (leave : (w : World) → I w → R w) where
  check_content-Keeps :
      (m : Machine) (f : DownloadFile) (sha : Option String) (v : Visit) (size : ℕ)
      (content : String) (w : World)
      → I w
      → Keeps I R calls leave (check_content m f sha v size content w)
  unfolding check_content
  check_content-Keeps m f none v size content w h = at_next h
  check_content-Keeps m f (some sha) v size content w h =
      let h' = calls v.hash_calls w h in
      if-cases (Keeps I R calls leave) (v.hash_cancelled) (λ _. at_interrupted (leave _ h'))
        (λ _.
          if-cases (Keeps I R calls leave) (matches_sha256 m (some sha) content) (λ _. at_next h')
            (λ _. at_raised (leave _ h')))

  check_entry-Keeps :
      (m : Machine) (f : DownloadFile) (expected : ℕ) (v : Visit) (o : Option FolderEntry)
      (w : World)
      → I w
      → Keeps I R calls leave (check_entry m f expected v o w)
  unfolding check_entry
  check_entry-Keeps m f expected v none w h = at_raised (leave w h)
  check_entry-Keeps m f expected v (some other) w h = at_raised (leave w h)
  check_entry-Keeps m f expected v (some (file n content)) w h =
      if-cases (Keeps I R calls leave) (n == expected)
        (λ _. check_content-Keeps m f f.sha256 v n content w h) (λ _. at_raised (leave w h))

  pub check_file-Keeps :
      (m : Machine) (f : DownloadFile) (expected : ℕ) (v : Visit) (path : String) (w : World)
      → I w
      → Keeps I R calls leave (check_file m f expected v path w)
  unfolding check_file
  check_file-Keeps m f expected v path w h =
      if-cases (Keeps I R calls leave) (m.in_staging path)
        (λ _. check_entry-Keeps m f expected v _ w h) (λ _. at_raised (leave w h))

  pub count-Keeps :
      (i : String) (t : Tally) (size : ℕ) (w : World)
      → I w
      → Keeps I R calls leave (count i t size w)
  unfolding count
  count-Keeps i t size w h =
      if-cases (Keeps I R calls leave) (ltb t.recorded (t.done + size))
        (λ _. and_then-Post _ (report-Keeps I R calls leave i _ w h) (λ r w' h'. at_next h'))
        (λ _. at_next h)

  module _ (discards : (w : World) → I w → R (discard w)) where
    pub go_on-Keeps : (r : DownloadJob) (w : World) → I w → Keeps I R calls leave (go_on r w)
    unfolding go_on
    go_on-Keeps r w h =
        if-cases (Keeps I R calls leave) (same_state r.state downloading) (λ _. at_next h)
          (λ _.
            if-cases (Keeps I R calls leave) (same_state r.state cancelled)
              (λ _. at_left (discards w h)) (λ _. at_left (leave w h)))
