-- ===== src/Downloads/Worker/Verified.antt =====
-- What the worker has checked of a file when it goes on to the next.
use llama_web_ui.Prelude.{
  ℕ, String, ◌≡◌, ◌≢◌, refl, sym, ap, ◌∙◌, true, Option, none, some, List, if-cases, ==_iff, ◌==◌,
}
use llama_web_ui.Downloads.Job.{DownloadFile}
use llama_web_ui.Downloads.Registry.{Call}
use llama_web_ui.Downloads.Retry
use llama_web_ui.Downloads.Publish.{FolderEntry, file, other, Stored}
use llama_web_ui.Downloads.Worker.{Machine, World, Visit, meanwhile}
use llama_web_ui.Downloads.Worker.Check.{entry_at, write_entry, matches_sha256}
use llama_web_ui.Downloads.Worker.Run.{Tally, check_content, check_entry, check_file, visit_file}
use llama_web_ui.Downloads.Worker.Keeps.{Post, at_next, at_raised, at_interrupted}
use llama_web_ui.Downloads.Worker.Keeps.Turn.{visit_file-Post}
use llama_web_ui.Downloads.Worker.Folder.{IsFolder, entry_at-write_entry_ne, write_entry-IsFolder}

-- In the folder stands a file as the job describes it.
pub record IsVerified (m : Machine) (folder : List Stored) (f : DownloadFile) : Type 0 where
  pub size : ℕ
  pub content : String
  pub size_of : f.size ≡ some size
  pub stands : entry_at f.path folder ≡ some (file size content)
  pub checked : matches_sha256 m f.sha256 content ≡ true

-- A world that differs at one path of the staging folder and in the table of jobs.
pub record Elsewhere (p : String) (w w' : World) : Type 0 where
  pub is_folder : IsFolder w'.staging
  pub same_destination : w'.destination ≡ w.destination
  pub same_entry : (q : String) → q ≢ p → entry_at q w'.staging ≡ entry_at q w.staging

-- Nothing is asked of a run that ends early.
abbrev pub Any : World → Type 0
Any w = Unit

module _ (p : String) (w : World) where
  Elsewhere-meanwhile :
      (cs : List Call) (w' : World) → Elsewhere p w w' → Elsewhere p w (meanwhile cs w')
  unfolding meanwhile
  Elsewhere-meanwhile cs w' h = record {
    is_folder = h.is_folder;
    same_destination = h.same_destination;
    same_entry = h.same_entry;
  }

  Elsewhere-write_entry :
      (entry : FolderEntry) (w' : World)
      → Elsewhere p w w'
      → Elsewhere p w
          (record w' { staging = write_entry (record { path = p; entry = entry }) w'.staging })
  Elsewhere-write_entry entry w' h = record {
    is_folder = write_entry-IsFolder _ w'.staging h.is_folder;
    same_destination = h.same_destination;
    same_entry = λ q n. entry_at-write_entry_ne _ w'.staging q n ∙ h.same_entry q n;
  }

-- The transfer answers with the path of the file that it was asked for.
abbrev pub AnswersFor : DownloadFile → Visit → Type 0
AnswersFor f v = (a : ℕ) (q : String) → v.attempts a ≡ Retry.returned q → q ≡ f.path

module _ (m : Machine) (f : DownloadFile) (v : Visit) (w : World) where
  abbrev pub Visited : World → Type 0
  Visited w' = Elsewhere f.path w w' × IsVerified m w'.staging f

  Visited-meanwhile : (cs : List Call) (w' : World) → Visited w' → Visited (meanwhile cs w')
  Visited-meanwhile cs w' (h, verified) =
      (Elsewhere-meanwhile f.path w cs w' h, unfold meanwhile in verified)

  check_content-Visited :
      (sha : Option String) (n : ℕ) (content : String) (w' : World)
      → f.size ≡ some n
      → f.sha256 ≡ sha
      → entry_at f.path w'.staging ≡ some (file n content)
      → Elsewhere f.path w w'
      → Post (λ size w2. Visited w2) Any (check_content m f sha v n content w')
  unfolding check_content
  check_content-Visited none n content w' s c e h = at_next (
    h,
    record {
      size = n;
      content = content;
      size_of = s;
      stands = e;
      checked = rw c (unfold matches_sha256 in refl);
    },
  )
  check_content-Visited (some sha) n content w' s c e h =
      if-cases (Post (λ size w2. Visited w2) Any) v.hash_cancelled (λ _. at_interrupted tt)
        (λ _.
          if-cases (Post (λ size w2. Visited w2) Any) (matches_sha256 m (some sha) content)
            (λ good. at_next (
              Visited-meanwhile v.hash_calls w' (
                h,
                record {
                  size = n;
                  content = content;
                  size_of = s;
                  stands = e;
                  checked = ap (λ x. matches_sha256 m x content) c ∙ good;
                },
              )))
            (λ _. at_raised tt))

  check_entry-Visited :
      (expected : ℕ) (o : Option FolderEntry) (w' : World)
      → f.size ≡ some expected
      → entry_at f.path w'.staging ≡ o
      → Elsewhere f.path w w'
      → Post (λ size w2. Visited w2) Any (check_entry m f expected v o w')
  unfolding check_entry
  check_entry-Visited expected none w' s e h = at_raised tt
  check_entry-Visited expected (some other) w' s e h = at_raised tt
  check_entry-Visited expected (some (file n content)) w' s e h =
      if-cases (Post (λ size w2. Visited w2) Any) (n == expected)
        (λ same.
          check_content-Visited f.sha256 n content w'
            (s ∙ ap some (sym ((==_iff n expected).0 same))) refl e h)
        (λ _. at_raised tt)

  check_file-Visited :
      (expected : ℕ) (q : String) (w' : World)
      → f.size ≡ some expected
      → q ≡ f.path
      → Elsewhere f.path w w'
      → Post (λ size w2. Visited w2) Any (check_file m f expected v q w')
  unfolding check_file
  check_file-Visited expected q w' s p h =
      if-cases (Post (λ size w2. Visited w2) Any) (m.in_staging q)
        (λ _. check_entry-Visited expected _ w' s (ap (λ x. entry_at x w'.staging) (sym p)) h)
        (λ _. at_raised tt)

  pub visit_file-Visited :
      (i : String) (t : Tally)
      → AnswersFor f v
      → IsFolder w.staging
      → Post (λ t' w2. Visited w2) Any (visit_file m i f v t w)
  visit_file-Visited i t answers folder =
      visit_file-Post (Elsewhere f.path w) Any (Elsewhere-meanwhile f.path w) (λ w' h. tt)
        (λ w' h. tt) f v (Elsewhere-write_entry f.path w) (λ q. q ≡ f.path) refl answers Visited
        Visited-meanwhile (λ w' h. tt) m check_file-Visited i t w
        (record { is_folder = folder; same_destination = refl; same_entry = λ q n. refl })
