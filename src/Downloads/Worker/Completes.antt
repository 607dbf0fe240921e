-- ===== src/Downloads/Worker/Completes.antt =====
-- A run of the worker whose transfers all succeed (services/download_worker.py).
use llama_web_ui.Prelude.{ℕ, String, ◌≡◌, if◌then◌else◌, true, false, some, [], ◌⊎◌}
use llama_web_ui.Downloads.Job.{DownloadJob, completed}
use llama_web_ui.Downloads.Registry.{find, Call}
use llama_web_ui.Downloads.Registry
use llama_web_ui.Downloads.Publish
use llama_web_ui.Downloads.Publish.{FolderEntry, file, other, Destination, missing, folder_of}
use llama_web_ui.Downloads.Worker.{Machine, World}
use llama_web_ui.Downloads.Worker.Check.{destination_is_complete}
use llama_web_ui.Downloads.Worker.Run.{End, delivered, already_complete}

-- A destination that a publication finds free, where its moves succeed.
abbrev pub IsFree : Machine → Destination → Type 0
IsFree m d =
    ((n : ℕ) → m.moves_on n ≡ true)
    × ((d ≡ missing) ⊎ ((d ≡ folder_of [] true) × (m.tombstone ≡ false)))

-- The job is completed in the table.
abbrev pub IsCompleted : String → World → Type 0
IsCompleted i w = (r : DownloadJob) × (find i w.jobs ≡ some r) × (r.state ≡ completed)

-- The run ends in the given way, and the job is completed.
abbrev pub EndsIn : String → End → End → World → Type 0
EndsIn i end e w = (e ≡ end) × IsCompleted i w

module _ (m : Machine) (i : String) (total : ℕ) (d : Destination) where
  abbrev ending : DownloadJob → World → End
  ending job w =
      if destination_is_complete m job.files w.destination then already_complete else delivered
