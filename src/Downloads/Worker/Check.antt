-- ===== src/Downloads/Worker/Check.antt =====
-- The files of a download against what the job expects of them (services/download_worker.py).
use llama_web_ui.Prelude.{
  ℕ, String, Bool, true, false, Option, none, some, List, [], ◌∷◌, ◌&&◌, ◌==◌, if◌then◌else◌, all,
  ite, string_discrete, length, same_text,
}
use llama_web_ui.Prelude.Table.{find}
use llama_web_ui.Downloads.Job.{DownloadFile}
use llama_web_ui.Downloads.Publish.{FolderEntry, file, Stored, Destination, folder_of}
use llama_web_ui.Downloads.Plan.{codes}
use llama_web_ui.Downloads.Worker.{Machine}

unfoldable pub entry_of : Option Stored → Option FolderEntry
entry_of none = none
entry_of (some q) = some q.entry

-- What stands at a path of a folder.
unfoldable pub entry_at : String → List Stored → Option FolderEntry
entry_at p folder = entry_of (find (λ q. q.path) p folder)

-- The transfer leaves an entry at a path of the folder.
unfoldable pub write_entry : Stored → List Stored → List Stored
write_entry s [] = s ∷ []
write_entry s (q ∷ qs) = ite (string_discrete q.path s.path) (s ∷ qs) (q ∷ write_entry s qs)

-- `digest == expected_sha256.lower()`, where a checksum is expected.
unfoldable pub matches_sha256 : Machine → Option String → String → Bool
matches_sha256 m none content = true
matches_sha256 m (some expected) content = same_text (m.sha256 content) (m.lower expected)

matches_digest : Machine → String → String → Bool
matches_digest m normalized content =
    if length (codes normalized) == 0
    then true
    else if length (codes normalized) == 32
    then same_text (m.md5 content) normalized
    else if length (codes normalized) == 64
    then same_text (m.sha256 content) normalized
    else true

-- `_matches_etag`.
unfoldable pub matches_etag : Machine → Option String → String → Bool
unfolding matches_digest
matches_etag m none content = true
matches_etag m (some etag) content = matches_digest m (m.lower (m.strip_etag etag)) content

-- Whether the staged file can be kept: a file with the size and the etag.
unfoldable pub is_reusable : Machine → DownloadFile → ℕ → Option FolderEntry → Bool
is_reusable m f size (some (file n content)) = n == size && matches_etag m f.etag content
is_reusable m f size _ = false

unfoldable pub has_size : Option ℕ → ℕ → Bool
has_size none n = false
has_size (some expected) n = n == expected

-- A file with the size and, where one is expected, the checksum.
unfoldable pub is_expected : Machine → DownloadFile → Option FolderEntry → Bool
is_expected m f (some (file n content)) = has_size f.size n && matches_sha256 m f.sha256 content
is_expected m f _ = false

-- The body of the loop of `_destination_is_complete`.
unfoldable pub is_in_place : Machine → List Stored → DownloadFile → Bool
is_in_place m folder f = m.in_destination f.path && is_expected m f (entry_at f.path folder)

-- `_destination_is_complete`.
unfoldable pub destination_is_complete : Machine → List DownloadFile → Destination → Bool
destination_is_complete m files (folder_of folder has_cache) = all (is_in_place m folder) files
destination_is_complete m files _ = false
