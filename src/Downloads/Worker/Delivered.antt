-- ===== src/Downloads/Worker/Delivered.antt =====
-- What a run of the worker that delivers has checked and put in place.
use llama_web_ui.Prelude.{
  ℕ, String, ◌≡◌, ◌≢◌, refl, sym, ap, subst, ◌∙◌, inl, inr, true, Option, none, some, List, map,
  if-cases, All, distinct, Bool-cases, Option-cases,
}
use llama_web_ui.Downloads.Job.{
  DownloadState, DownloadJob, DownloadFile, completed, downloading, cancelled, same_state,
  may_become,
}
use llama_web_ui.Downloads.Registry.{Outcome, ok, err, transition, Call, fail}
use llama_web_ui.Downloads.Registry
use llama_web_ui.Downloads.Registry.Runs.{find-store_self, transition_lem}
use llama_web_ui.Downloads.Registry.Laws.{find-id}
use llama_web_ui.Downloads.Publish
use llama_web_ui.Downloads.Publish.{
  FolderEntry, file, other, Stored, Staged, stored, Destination, entries, is_published, Publication,
  publish, missing, not_a_folder, folder_of,
}
use llama_web_ui.Downloads.Publish.Contents.{IsPublished, publish-IsPublished}
use llama_web_ui.Downloads.Worker.{
  Machine, World, Visit, WorkerError, WorkerStep, next, left, raised, interrupted, and_then,
  get_job, row_of,
}
use llama_web_ui.Downloads.Worker.Check.{destination_is_complete}
use llama_web_ui.Downloads.Worker.Run.{
  Tally, End, delivered, visit_files, publish_result, finish, files_in, transfer_job,
  record_failure, after_cancellation, close, begin_transfer, run,
}
use llama_web_ui.Downloads.Worker.Keeps.{
  Post, at_next, at_left, at_raised, at_interrupted, and_then-Post,
}
use llama_web_ui.Downloads.Worker.Folder.{IsFolder, files_in-distinct}
use llama_web_ui.Downloads.Worker.Traced.{
  completed_row, complete_in, delivered_to, publish_result-delivered,
}
use llama_web_ui.Downloads.Worker.Verified.{IsVerified, Any}
use llama_web_ui.Downloads.Worker.Loaded.{
  AllAnswer, IsLoaded, visit_files-IsLoaded, IsDelivered, All-IsDelivered, entries-published_to,
}

-- The job is completed and its files stand in the destination.
pub record WasDelivered (m : Machine) (i : String) (before : List Stored)
    (files : List DownloadFile) (w : World) : Type 0 where
  pub in_place : All (IsDelivered m before (entries w.destination)) files
  pub row : DownloadJob
  pub found : Registry.find i w.jobs ≡ some row
  pub is_completed : row.state ≡ completed

module _ (m : Machine) (i : String) (files : List DownloadFile) (before : List Stored) where
  abbrev Delivers : End → World → Type 0
  Delivers e w = e ≡ delivered → WasDelivered m i before files w

  delivered_to-WasDelivered :
      (w : World) (after : List Stored) (r : DownloadJob)
      → Registry.find i w.jobs ≡ some r
      → All (IsDelivered m before after) files
      → WasDelivered m i before files (complete_in r (delivered_to w after))
  delivered_to-WasDelivered w after r found h = record {
    in_place =
        subst (λ e. All (IsDelivered m before e) files)
          (sym (entries-published_to w.destination w.staging_cache after)) h;
    row = completed_row r;
    found = find-store_self i w.jobs (completed_row r) found (find-id i w.jobs found);
    is_completed = refl;
  }

  publish_result-Delivers :
      (o : Publication) (w : World) (r : DownloadJob)
      → Registry.find i w.jobs ≡ some r
      → same_state r.state downloading ≡ true
      → publish m.in_destination m.moves_on m.tombstone w.destination (files_in w.staging) ≡ o
      → IsFolder w.staging
      → entries w.destination ≡ before
      → All (IsVerified m w.staging) files
      → Post Delivers Any (publish_result i o w)
  publish_result-Delivers (Publish.refused e) w r found busy q folder b h =
      unfold publish_result in at_raised tt
  publish_result-Delivers (Publish.broken_off d moved) w r found busy q folder b h =
      unfold publish_result in at_raised tt
  publish_result-Delivers (Publish.published after) w r found busy q folder b h =
      rw (publish_result-delivered i after w r found busy) (
        at_next (λ e. delivered_to-WasDelivered w after r found (
          All-IsDelivered m before after w.staging files h (
            subst (λ x. All (IsPublished x after) (files_in w.staging)) b
              (publish-IsPublished m.in_destination m.moves_on m.tombstone w.destination
                (files_in w.staging) (files_in-distinct w.staging folder) q)))))

  finish-Delivers :
      (w : World)
      → IsFolder w.staging
      → entries w.destination ≡ before
      → All (IsVerified m w.staging) files
      → Post Delivers Any (finish m i w)
  unfolding finish get_job row_of and_then
  finish-Delivers w folder b h = elim (Option-cases (Registry.find i w.jobs)) [
    | inl absent ↦ rw absent (at_raised tt)
    | inr (r, found) ↦ rw found (elim (Bool-cases (same_state r.state downloading)) [
      | inl busy ↦ rw busy (publish_result-Delivers _ w r found busy refl folder b h)
      | inr idle ↦ rw idle (at_left tt)
    ])
  ]

  Post-Any {ℓ} : {A : Type ℓ} (s : WorkerStep A) → Post (λ a w. Unit) Any s
  Post-Any (next a w) = at_next tt
  Post-Any (left w) = at_left tt
  Post-Any (raised e w) = at_raised tt
  Post-Any (interrupted w) = at_interrupted tt

  transfer_job-Delivers :
      (job : DownloadJob) (visits : ℕ → Visit) (w : World)
      → job.files ≡ files
      → distinct (map (λ f. f.path) files) ≡ true
      → AllAnswer files visits 0
      → IsFolder w.staging
      → entries w.destination ≡ before
      → Post Delivers Any (transfer_job m i job visits w)
  unfolding transfer_job
  transfer_job-Delivers job visits w e apart answers folder b =
      let start : Tally = record { done = 0; recorded = job.completed_bytes } in
      if-cases (Post Delivers Any) (destination_is_complete m job.files w.destination)
        (λ _.
          and_then-Post _ (Post-Any _)
            (λ r w1 h. and_then-Post _ (Post-Any _) (λ r' w2 h2. at_next (λ x. cc))))
        (λ _.
          and_then-Post _
            (subst
              (λ fs. Post (λ t w'. IsLoaded m files w w') Any (visit_files m i fs visits 0 start w))
              (sym e) (visit_files-IsLoaded m i files visits 0 _ w apart answers folder))
            (λ t w1 l.
              finish-Delivers w1 l.is_folder (ap entries l.same_destination ∙ b) l.verified))

  record_failure-undelivered :
      (e : WorkerError) (o : Outcome) (w : World) → (record_failure e o w).0 ≢ delivered
  unfolding record_failure
  record_failure-undelivered e (ok r rs) w x = cc
  record_failure-undelivered e (err y) w x = cc

  after_cancellation-undelivered :
      (o : Option DownloadJob) (w : World) → (after_cancellation o i w).0 ≢ delivered
  unfolding after_cancellation
  after_cancellation-undelivered none w = λ x. cc
  after_cancellation-undelivered (some r) w =
      if-cases (λ (p : End × World). p.0 ≢ delivered) (same_state r.state cancelled) (λ _ x. cc)
        (λ _ x. cc)

  close-Delivers :
      {s : WorkerStep End}
      → Post Delivers Any s
      → (close m i s).0 ≡ delivered
      → WasDelivered m i before files (close m i s).1
  unfolding close
  close-Delivers (at_next h) x = h x
  close-Delivers (at_left h) x = cc
  close-Delivers (at_raised h) x = absurd (record_failure-undelivered _ _ _ x)
  close-Delivers (at_interrupted h) x = absurd (after_cancellation-undelivered _ _ x)

  begin_transfer-WasDelivered :
      (visits : ℕ → Visit) (o : Outcome) (w : World)
      → ((job : DownloadJob) (rs : List DownloadJob) → o ≡ ok job rs → job.files ≡ files)
      → distinct (map (λ f. f.path) files) ≡ true
      → AllAnswer files visits 0
      → IsFolder w.staging
      → entries w.destination ≡ before
      → (begin_transfer m i visits o w).0 ≡ delivered
      → WasDelivered m i before files (begin_transfer m i visits o w).1
  unfolding begin_transfer
  begin_transfer-WasDelivered visits (err e) w q apart answers folder b x = cc
  begin_transfer-WasDelivered visits (ok job rs) w q apart answers folder b x =
      close-Delivers
        (transfer_job-Delivers job visits (record w { jobs = rs }) (q job rs refl) apart answers
          folder b)
        x

files_of : Outcome → List DownloadFile → List DownloadFile
files_of (ok r rs) fs = r.files
files_of (err e) fs = fs

-- A transition leaves the files of the job.
transition-files :
    (i : String) (target : DownloadState) (rs : List DownloadJob) {r job : DownloadJob}
    {rs' : List DownloadJob}
    → Registry.find i rs ≡ some r
    → transition i target rs ≡ ok job rs'
    → job.files ≡ r.files
unfolding files_of
transition-files i target rs {r = r} found e = elim (Bool-cases (may_become r.state target)) [
  | inl legal ↦
      ap (λ o. files_of o r.files) (sym e ∙ ((transition_lem i target rs found).0 legal).0)
  | inr refused ↦
      ap (λ o. files_of o r.files) (sym e ∙ (transition_lem i target rs found).1 refused)
]

-- When a run ends by delivering, the job is completed in the table and every file of it stands in
-- the destination with the size that the job gives, and either with a content that matched the
-- job's checksum, if it gives one, or as it stood there before; if no two files of the job have the
-- same path, nor two entries of the staging folder, and each transfer answers with the path of the
-- file it was asked for.
pub run-WasDelivered :
    (m : Machine) (i : String) (visits : ℕ → Visit) (w : World) {r : DownloadJob}
    → Registry.find i w.jobs ≡ some r
    → distinct (map (λ f. f.path) r.files) ≡ true
    → IsFolder w.staging
    → AllAnswer r.files visits 0
    → (run m i visits w).0 ≡ delivered
    → WasDelivered m i (entries w.destination) r.files (run m i visits w).1
unfolding run
run-WasDelivered m i visits w {r = r} found apart folder answers e =
    begin_transfer-WasDelivered m i r.files (entries w.destination) visits _ w
      (λ job rs q. transition-files i downloading w.jobs found q) apart answers folder refl e
