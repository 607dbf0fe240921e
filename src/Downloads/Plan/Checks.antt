-- ===== src/Downloads/Plan/Checks.antt =====
-- What a job that `create` accepts satisfies.
use llama_web_ui.Prelude.{
  map, refl, sym, ap, ◌∙◌, ◌+◌, ℕ, ◌≤◌, ◌≡◌, ◌≢◌, inl, inr, String, Bool, true, false, not, some,
  List, [], ◌∷◌, ◌++◌, arith, All, any, is_some, Bool-cases, Option-cases,
}
use llama_web_ui.Downloads.Job.{queued, DownloadFile, DownloadJob}
use llama_web_ui.Downloads.Plan.{
  planned_file, size_or_zero, Host, GgufGroup, RepositoryManifest, planned, create, plan_group,
  find_group, selected, sum_sizes, is_safe_repository, is_full_revision, is_unsafe_path,
  is_dot_part,
}

-- A file with a known size, whose path is relative and has no part "." or "..".
abbrev pub IsSafeFile : Host → DownloadFile → Type 0
IsSafeFile h f =
    ((n : ℕ) × (f.size ≡ some n))
    × (h.is_absolute f.path ≡ false)
    × All (λ part. (part ≢ ".") × (part ≢ "..")) (h.parts f.path)

pub record IsPlanned (h : Host) (m : RepositoryManifest) (k : String) (p : Bool) (r : DownloadJob)
    : Type 0 where
  pub same_repository : r.repo_id ≡ m.repo_id
  pub same_revision : r.revision ≡ h.lower m.revision
  pub same_destination : r.destination ≡ h.destination m.repo_id m.revision
  pub safe_repository : is_safe_repository m.repo_id ≡ true
  pub pinned : is_full_revision m.revision ≡ true
  pub group :
      (g : GgufGroup) × (find_group k m.groups ≡ some g)
      × (g.complete ≡ true)
      × (r.group_key ≡ g.key)
      × (r.files ≡ map planned_file (selected g p))
  pub safe_files : All (IsSafeFile h) r.files
  pub inside : h.is_inside r.destination ≡ true
  pub total : r.total_bytes ≡ sum_sizes r.files
  pub fits : r.total_bytes ≤ h.free_space r.destination
  pub fresh : (r.completed_bytes ≡ 0) × (r.state ≡ queued)

size_known : (f : DownloadFile) → is_some f.size ≡ true → (n : ℕ) × (f.size ≡ some n)
size_known f h = ground arith

not_dot_part : (p : String) → is_dot_part p ≡ false → (p ≢ ".") × (p ≢ "..")
not_dot_part p h = (λ e. ground arith, λ e. ground arith)

parts_safe :
    (ps : List String) → any is_dot_part ps ≡ false → All (λ part. (part ≢ ".") × (part ≢ "..")) ps
parts_safe [] h = tt
parts_safe (p ∷ ps) h = (not_dot_part p (ground arith), parts_safe ps (ground arith))

path_safe :
    (h : Host) (f : DownloadFile)
    → is_unsafe_path h f ≡ false
    → (h.is_absolute f.path ≡ false) × All (λ part. (part ≢ ".") × (part ≢ "..")) (h.parts f.path)
unfolding is_unsafe_path
path_safe h f e = elim (Bool-cases (h.is_absolute f.path)) [
  | inl absolute ↦ absurd (ground arith)
  | inr relative ↦ (relative, parts_safe (h.parts f.path) (ground arith))
]

files_safe :
    (h : Host) (fs : List DownloadFile)
    → any (λ f. not (is_some f.size)) fs ≡ false
    → any (is_unsafe_path h) fs ≡ false
    → All (IsSafeFile h) fs
files_safe h [] a b = tt
files_safe h (f ∷ fs) a b =
    let (relative, parts) = path_safe h f (ground arith) in
    ((size_known f (ground arith), relative, parts), files_safe h fs (ground arith) (ground arith))

planned-safe :
    (h : Host) (fs : List DownloadFile)
    → All (IsSafeFile h) fs
    → All (IsSafeFile h) (map planned_file fs)
planned-safe h [] a = tt
planned-safe h (f ∷ fs) (safe, rest_safe) = (safe, planned-safe h fs rest_safe)

sum_sizes-planned : (fs : List DownloadFile) → sum_sizes (map planned_file fs) ≡ sum_sizes fs
unfolding sum_sizes
sum_sizes-planned [] = refl
sum_sizes-planned (f ∷ fs) = ap (λ n. size_or_zero f + n) (sum_sizes-planned fs)

-- The refusals of `plan_group`, passed one after the other.
plan_group-planned :
    (h : Host) (m : RepositoryManifest) (p : Bool) (i : String) (rs : List DownloadJob)
    (g : GgufGroup) {r : DownloadJob} {rs' : List DownloadJob}
    → plan_group h m p i rs g ≡ planned r rs'
    → (r.repo_id ≡ m.repo_id)
      × (r.revision ≡ h.lower m.revision)
      × (r.group_key ≡ g.key)
      × (g.complete ≡ true)
      × (any (λ f. not (is_some f.size)) (selected g p) ≡ false)
      × (any (is_unsafe_path h) (selected g p) ≡ false)
      × (h.is_inside (h.destination m.repo_id m.revision) ≡ true)
      × (sum_sizes (selected g p) ≤ h.free_space (h.destination m.repo_id m.revision))
      × (r.files ≡ map planned_file (selected g p))
      × (r.destination ≡ h.destination m.repo_id m.revision)
      × (r.total_bytes ≡ sum_sizes (selected g p))
      × (r.completed_bytes ≡ 0)
      × (r.state ≡ queued)
      × (r.id ≡ i)
      × (rs' ≡ rs ++ (r ∷ []))
unfolding plan_group
plan_group-planned h m p i rs g e = ground arith

planned_group :
    (h : Host) (m : RepositoryManifest) (k : String) (p : Bool) (i : String) (rs : List DownloadJob)
    (g : GgufGroup) {r : DownloadJob} {rs' : List DownloadJob}
    → is_safe_repository m.repo_id ≡ true
    → is_full_revision m.revision ≡ true
    → find_group k m.groups ≡ some g
    → plan_group h m p i rs g ≡ planned r rs'
    → IsPlanned h m k p r × (rs' ≡ rs ++ (r ∷ []))
planned_group h m k p i rs g {r = r} safe full found e =
    let (
      repository, revision, key, complete, sized, paths, inside, fits, fs, dest, total, done, state,
      _, table,
    ) =
      plan_group-planned h m p i rs g e in
    (
      record {
        same_repository = repository;
        same_revision = revision;
        same_destination = dest;
        safe_repository = safe;
        pinned = full;
        group = (g, found, complete, key, fs);
        safe_files =
            rw fs (planned-safe h (selected g p) (files_safe h (selected g p) sized paths));
        inside = rw dest inside;
        total = total ∙ sym (ap sum_sizes fs ∙ sum_sizes-planned (selected g p));
        fits = rw (total, dest) fits;
        fresh = (done, state);
      },
      table,
    )

-- Every job that `create` accepts has the manifest's repository, whose name is a safe two-part one,
-- and its revision, a full commit, in lower case; it goes to the folder of these two, takes the key
-- and the files of a complete group that the manifest lists under the key, without empty checksums
-- and etags, each of known size and with a relative path that has no "." or ".." part, stays inside
-- the model folder, has the sum of the sizes as its size, no more than the free space, and starts
-- queued with nothing done.
pub create-IsPlanned :
    (h : Host) (m : RepositoryManifest) (k : String) (p : Bool) (i : String) (rs : List DownloadJob)
    {r : DownloadJob} {rs' : List DownloadJob}
    → create h m k p i rs ≡ planned r rs'
    → IsPlanned h m k p r × (rs' ≡ rs ++ (r ∷ []))
unfolding create
create-IsPlanned h m k p i rs {r = r} e = elim (Bool-cases (is_safe_repository m.repo_id)) [
  | inr unsafe ↦ cc (rw unsafe at e)
  | inl safe ↦ elim (Bool-cases (is_full_revision m.revision)) [
    | inr short ↦ cc (rw (safe, short) at e)
    | inl full ↦ elim (Option-cases (find_group k m.groups)) [
      | inl missing ↦ cc (rw (safe, full, missing) at e)
      | inr (g, found) ↦ planned_group h m k p i rs g safe full found (rw (safe, full, found) at e)
    ]
  ]
]
