-- ===== src/Downloads/Worker/Counted.antt =====
-- The checks of a file whose transfer succeeded, and the count of its bytes
-- (services/download_worker.py).
use llama_web_ui.Prelude.{
  ◌+◌, ◌==◌, ==_iff, ◌≤◌, max, ℕ, String, ◌≡◌, ◌≢◌, refl, sym, ap, ◌∙◌, true, false, Option, none,
  some, List, arith, ltb, if-cases,
}
use llama_web_ui.Downloads.Job.{
  DownloadJob, DownloadFile, DownloadState, downloading, cancelled, same_state,
}
use llama_web_ui.Downloads.Publish.{FolderEntry, file, Stored, Destination}
use llama_web_ui.Downloads.Worker.{Machine, World, Visit, WorkerStep, and_then}
use llama_web_ui.Downloads.Worker.Check.{entry_at, matches_sha256}
use llama_web_ui.Downloads.Worker.Run.{
  Tally, check_content, check_entry, check_file, count, visit_sized, visit_file,
}
use llama_web_ui.Downloads.Worker.Keeps.{Post, at_next, and_then-Post}
use llama_web_ui.Downloads.Worker.Live.{IsLive, Never, report-IsLive, IsLive-within}
use llama_web_ui.Downloads.Worker.Succeeds.{
  Succeeds, IsSound, IsReady, Obtained, Obtained-meanwhile, get_job-found, go_on-downloading,
  obtain-Obtained,
}

module _ (m : Machine) (i : String) (total : ℕ) (d : Destination) (f : DownloadFile) (v : Visit)
    (recorded done : ℕ) (s : Succeeds m i recorded done f v) (w : World)
    (sound : IsSound m w.staging f) (bound : ℕ) (fits : done + s.size ≤ total)
    (below : done + s.size ≤ bound) where
  abbrev Held : World → Type 0
  Held = Obtained m i total d recorded done f v s w sound bound

  check_content-Obtained :
      (sha : Option String) (content : String) (w1 : World)
      → f.sha256 ≡ sha
      → matches_sha256 m f.sha256 content ≡ true
      → Held w1
      → Post (λ n w2. (n ≡ s.size) × Held w2) Never (check_content m f sha v s.size content w1)
  unfolding check_content
  check_content-Obtained none content w1 e good o = at_next (refl, o)
  check_content-Obtained (some sha) content w1 e good o =
      if-cases (Post (λ n w2. (n ≡ s.size) × Held w2) Never) v.hash_cancelled
        (λ gone. let kept = s.hash_goes_on in cc)
        (λ _.
          if-cases (Post (λ n w2. (n ≡ s.size) × Held w2) Never)
            (matches_sha256 m (some sha) content)
            (λ _. at_next (
              refl,
              Obtained-meanwhile m i total d recorded done f v s w sound bound v.hash_calls w1
                  s.hash_spares o,
            ))
            (λ bad. let good' = ap (λ x. matches_sha256 m x content) (sym e) ∙ good in cc))

  check_entry-Obtained :
      (entry : Option FolderEntry) (content : String) (w1 : World)
      → entry ≡ some (file s.size content)
      → matches_sha256 m f.sha256 content ≡ true
      → Held w1
      → Post (λ n w2. (n ≡ s.size) × Held w2) Never (check_entry m f s.size v entry w1)
  unfolding check_entry
  check_entry-Obtained entry content w1 e good o = rw e (
      if-cases (Post (λ n w2. (n ≡ s.size) × Held w2) Never) (s.size == s.size)
        (λ _. check_content-Obtained f.sha256 content w1 refl good o)
        (λ bad. let same = (==_iff s.size s.size).1 refl in cc))

  check_file-Obtained :
      (p : String) (w1 : World)
      → p ≡ f.path
      → Held w1
      → Post (λ n w2. (n ≡ s.size) × Held w2) Never (check_file m f s.size v p w1)
  unfolding check_file
  check_file-Obtained p w1 e o =
      if-cases (Post (λ n w2. (n ≡ s.size) × Held w2) Never) (m.in_staging p)
        (λ _.
          check_entry-Obtained (entry_at p w1.staging) o.content w1
            (ap (λ q. entry_at q w1.staging) e ∙ o.stands) o.matches o)
        (λ out. let inside = ap m.in_staging e ∙ s.inside in cc)

downloading-not_cancelled : (x : DownloadState) → x ≡ downloading → same_state x cancelled ≡ false
unfolding same_state
downloading-not_cancelled x e = rw e refl

-- After a file: the job is downloading, its bytes are counted, and no other file is touched.
pub record Counted (i : String) (total : ℕ) (d : Destination) (p : String) (recorded done : ℕ)
    (w : World) (t : Tally) (w' : World) : Type 0 where
  pub ready : IsReady i total d t w'
  pub counts : t.done ≡ done
  pub records : t.recorded ≡ recorded
  pub same_entry : (q : String) → q ≢ p → entry_at q w'.staging ≡ entry_at q w.staging

module _ (m : Machine) (i : String) (total : ℕ) (d : Destination) (f : DownloadFile) (v : Visit)
    (t : Tally) (s : Succeeds m i t.recorded t.done f v) (w : World) (sound : IsSound m w.staging f)
    (fits : t.done + s.size ≤ total) where
  abbrev bound : ℕ
  bound = max t.recorded (t.done + s.size)

  IsReady-within :
      {b : ℕ} {r : DownloadJob} {w1 : World} {staging : List Stored} (t' : Tally)
      → IsLive i total b staging d r w1
      → r.completed_bytes ≤ max t'.recorded t'.done
      → r.completed_bytes ≡ t'.recorded
      → IsReady i total d t' w1
  IsReady-within {r = r} t' l le same = record {
    row = r;
    live = record {
      found = l.found;
      is_downloading = l.is_downloading;
      same_total = l.same_total;
      within = le;
      same_staging = refl;
      same_destination = l.same_destination;
    };
    same_bytes = same;
  }

  abbrev Counts : WorkerStep Tally → Type 0
  Counts = Post (Counted i total d f.path bound (t.done + s.size) w) Never

  count-Counted :
      (n : ℕ) (w1 : World)
      → n ≡ s.size
      → Obtained m i total d t.recorded t.done f v s w sound bound w1
      → Counts (count i t n w1)
  unfolding count
  count-Counted n w1 e o = rw e (
      if-cases Counts (ltb t.recorded (t.done + s.size))
        (λ more.
          and_then-Post _
            (report-IsLive i total bound w1.staging d i (t.done + s.size) o.row w1 refl o.live
              (ground (arith, o.live.within)) fits (omega arith))
            (λ r w2 h. at_next (record {
              ready = IsReady-within _ h.0 (omega (arith, h.1)) refl;
              counts = refl;
              records = ground (arith, h.1);
              same_entry = λ q n. ap (entry_at q) h.0.same_staging ∙ o.same_entry q n;
            })))
        (λ less. at_next (record {
          ready =
              IsReady-within _ o.live (ground (arith, o.live.within))
                (ground (arith, o.live.within, o.kept));
          counts = refl;
          records = ground arith;
          same_entry = o.same_entry;
        })))

  visit_sized-Counted :
      (o : Option ℕ) → o ≡ some s.size → IsReady i total d t w → Counts (visit_sized m i f o v t w)
  unfolding visit_sized and_then
  visit_sized-Counted o e h = rw e (
      and_then-Post _
        (obtain-Obtained m i total d t.recorded t.done f v s w sound bound fits (omega arith) h.row
          (IsLive-within h.live (omega (arith, h.live.within))) h.same_bytes)
        (λ p w1 (same, o1).
          rw (get_job-found i w1 o1.live.found, go_on-downloading o1.row w1 o1.live.is_downloading)
            (and_then-Post _
              (check_file-Obtained m i total d f v t.recorded t.done s w sound bound fits
                (omega arith) p w1 same o1)
              (λ n w2 (e2, o2). count-Counted n w2 e2 o2))))

  pub visit_file-Counted : IsReady i total d t w → Counts (visit_file m i f v t w)
  unfolding visit_file and_then
  visit_file-Counted h = rw (get_job-found i w h.live.found) (
      if-cases Counts (same_state h.row.state cancelled)
        (λ gone. let idle = downloading-not_cancelled h.row.state h.live.is_downloading in cc)
        (λ _. visit_sized-Counted f.size s.size_of h))
