-- ===== src/Downloads/Worker/Loaded.antt =====
-- The staging folder after the worker's loop over the files, and the destination after the
-- publication.
use llama_web_ui.Prelude.{
  ℕ, ◌+◌, String, ◌≡◌, refl, sym, ap, ◌∙◌, ◌⊎◌, inl, inr, Bool, true, false, some, List, [], ◌∷◌,
  map, All, distinct, contains, arith, ==_iff,
}
use llama_web_ui.Downloads.Job.{DownloadFile}
use llama_web_ui.Downloads.Publish.{
  FolderEntry, file, other, Stored, Destination, entries, is_published, missing, not_a_folder,
  folder_of,
}
use llama_web_ui.Downloads.Publish.Moves.{same_text-ne}
use llama_web_ui.Downloads.Publish.Contents.{IsPublished}
use llama_web_ui.Downloads.Worker.{Machine, World, Visit, WorkerStep}
use llama_web_ui.Downloads.Worker.Check.{entry_of, entry_at, matches_sha256}
use llama_web_ui.Downloads.Worker.Run.{Tally, visit_files, published_to, files_in}
use llama_web_ui.Downloads.Worker.Keeps.{
  Post, at_next, at_left, at_raised, at_interrupted, and_then-Post,
}
use llama_web_ui.Downloads.Worker.Folder.{IsFolder, files_in-at}
use llama_web_ui.Downloads.Worker.Verified.{
  IsVerified, Elsewhere, Any, AnswersFor, visit_file-Visited,
}

-- The transfers of the files from the turn `k` on.
abbrev pub AllAnswer : List DownloadFile → (ℕ → Visit) → ℕ → Type 0
AllAnswer [] visits k = Unit
AllAnswer (f ∷ fs) visits k = AnswersFor f (visits k) × AllAnswer fs visits (k + 1)

Post-map {ℓ} :
    {A : Type ℓ} {P Q : A → World → Type 0} {R : World → Type 0} {s : WorkerStep A}
    → Post P R s
    → ((a : A) (w : World) → P a w → Q a w)
    → Post Q R s
Post-map (at_next h) f = at_next (f _ _ h)
Post-map (at_left h) f = at_left h
Post-map (at_raised h) f = at_raised h
Post-map (at_interrupted h) f = at_interrupted h

-- The staging folder after the loop over the files.
pub record IsLoaded (m : Machine) (fs : List DownloadFile) (w w' : World) : Type 0 where
  pub is_folder : IsFolder w'.staging
  pub same_destination : w'.destination ≡ w.destination
  pub verified : All (IsVerified m w'.staging) fs
  pub same_entry :
      (q : String)
      → contains (map (λ f. f.path) fs) q ≡ false
      → entry_at q w'.staging ≡ entry_at q w.staging

module _ (m : Machine) (i : String) where
  IsLoaded-cons :
      (f : DownloadFile) (fs : List DownloadFile) (w w1 w2 : World)
      → contains (map (λ g. g.path) fs) f.path ≡ false
      → Elsewhere f.path w w1
      → IsVerified m w1.staging f
      → IsLoaded m fs w1 w2
      → IsLoaded m (f ∷ fs) w w2
  unfolding contains
  IsLoaded-cons f fs w w1 w2 apart h v l = record {
    is_folder = l.is_folder;
    same_destination = l.same_destination ∙ h.same_destination;
    verified = (
      record {
        size = v.size;
        content = v.content;
        size_of = v.size_of;
        stands = l.same_entry f.path apart ∙ v.stands;
        checked = v.checked;
      },
      l.verified,
    );
    same_entry = λ q n.
        l.same_entry q (ground arith)
        ∙ h.same_entry q (λ e. same_text-ne f.path q (ground arith) (sym e));
  }

  pub visit_files-IsLoaded :
      (fs : List DownloadFile) (visits : ℕ → Visit) (k : ℕ) (t : Tally) (w : World)
      → distinct (map (λ f. f.path) fs) ≡ true
      → AllAnswer fs visits k
      → IsFolder w.staging
      → Post (λ t' w'. IsLoaded m fs w w') Any (visit_files m i fs visits k t w)
  unfolding visit_files distinct
  visit_files-IsLoaded [] visits k t w apart answers folder = at_next (record {
    is_folder = folder;
    same_destination = refl;
    verified = tt;
    same_entry = λ q n. refl;
  })
  visit_files-IsLoaded (f ∷ fs) visits k t w apart (answers, rest) folder =
      and_then-Post _ (visit_file-Visited m f (visits k) w i t answers folder) (λ t1 w1 h.
        Post-map (visit_files-IsLoaded fs visits (k + 1) t1 w1 (ground arith) rest h.0.is_folder)
          (λ t2 w2 l. IsLoaded-cons f fs w w1 w2 (ground arith) h.0 h.1 l))

-- At the path of the file stands one of its size, and either its content matched the checksum or it
-- stood there before.
pub record IsDelivered (m : Machine) (before after : List Stored) (f : DownloadFile) : Type 0 where
  pub size : ℕ
  pub content : String
  pub size_of : f.size ≡ some size
  pub stands : entry_at f.path after ≡ some (file size content)
  pub checked :
      (matches_sha256 m f.sha256 content ≡ true)
      ⊎ (entry_at f.path before ≡ some (file size content))

is_published-file :
    (e : FolderEntry) (n : ℕ) → is_published e n ≡ true → (content : String) × (e ≡ file n content)
is_published-file (file k content) n h = (content, ap (λ x. file x content) ((==_iff k n).0 h))
is_published-file other n h = cc

IsPublished-IsDelivered :
    (m : Machine) (before after staging : List Stored) (f : DownloadFile)
    (v : IsVerified m staging f)
    → IsPublished before after (record { path = f.path; size = v.size; content = v.content })
    → IsDelivered m before after f
unfolding entry_at entry_of
IsPublished-IsDelivered m before after staging f v (inl found) = record {
  size = v.size;
  content = v.content;
  size_of = v.size_of;
  stands = ap entry_of found;
  checked = inl v.checked;
}
IsPublished-IsDelivered m before after staging f v (inr (q, found, same, found')) =
    let (content, e) = is_published-file q.entry v.size same in
    record {
      size = v.size;
      content = content;
      size_of = v.size_of;
      stands = ap entry_of found' ∙ ap some e;
      checked = inr (ap entry_of found ∙ ap some e);
    }

pub All-IsDelivered :
    (m : Machine) (before after staging : List Stored) (fs : List DownloadFile)
    → All (IsVerified m staging) fs
    → All (IsPublished before after) (files_in staging)
    → All (IsDelivered m before after) fs
All-IsDelivered m before after staging [] v h = tt
All-IsDelivered m before after staging (f ∷ fs) (v, vs) h = (
  IsPublished-IsDelivered m before after staging f v
      (files_in-at (IsPublished before after) staging f.path v.stands h),
  All-IsDelivered m before after staging fs vs h,
)

pub entries-published_to :
    (d : Destination) (cache : Bool) (after : List Stored)
    → entries (published_to d cache after) ≡ after
unfolding published_to
entries-published_to missing cache after = refl
entries-published_to not_a_folder cache after = refl
entries-published_to (folder_of [] has_cache) cache after = refl
entries-published_to (folder_of (q ∷ qs) has_cache) cache after = refl
