-- ===== src/Downloads/Manifest/Counts.antt =====
-- Where the files of a repository go.
use llama_web_ui.Prelude.{
  ℕ, ◌+◌, String, ◌≡◌, refl, ap, ◌∙◌, Bool, Option, none, some, List, [], ◌∷◌, ◌++◌, map, sum_of,
  arith, if◌then◌else◌, Bool-cases, inl, inr, string_discrete, leb, length, ◌==◌,
}
use mathlib.Core.Logic.{if_pos, if_neg}
use llama_web_ui.Downloads.Job.{DownloadFile}
use llama_web_ui.Downloads.Manifest.{
  Names, ShardFile, KeyedFiles, is_gguf, add_entry, add_shard, group_entries, insert_bucket,
  sort_buckets, insert_entry, sort_entries, files_of, group_of, group_gguf_files,
}

-- How many of the files pass a test.
abbrev pub count_of : (DownloadFile → Bool) → List DownloadFile → ℕ
count_of p = sum_of (λ f. if p f then 1 else 0)

-- The `.gguf` files among them.
unfoldable pub gguf_only : Names → List DownloadFile → List DownloadFile
gguf_only n [] = []
gguf_only n (f ∷ fs) = let rest = gguf_only n fs in if is_gguf n f then f ∷ rest else rest

module _ (p : DownloadFile → Bool) where
  abbrev one : DownloadFile → ℕ
  one f = if p f then 1 else 0

  abbrev in_entries : List ShardFile → ℕ
  in_entries es = sum_of (λ e. one e.file) es

  abbrev in_buckets : List KeyedFiles → ℕ
  in_buckets bs = sum_of (λ b. in_entries b.entries) bs

  in_entries-append :
      (es : List ShardFile) (e : ShardFile)
      → in_entries (es ++ (e ∷ [])) ≡ in_entries es + one e.file
  in_entries-append [] e = omega arith
  in_entries-append (d ∷ es) e = omega (arith, in_entries-append es e)

  in_buckets-add_entry :
      (k : String) (e : ShardFile) (bs : List KeyedFiles)
      → in_buckets (add_entry k e bs) ≡ in_buckets bs + one e.file
  unfolding add_entry
  in_buckets-add_entry k e [] = omega arith
  in_buckets-add_entry k e (b ∷ bs) = elim (string_discrete b.key k) [
    | yes q ↦ rw (if_pos _ q) (omega (arith, in_entries-append b.entries e))
    | no m ↦ rw (if_neg _ m) (omega (arith, in_buckets-add_entry k e bs))
  ]

  in_buckets-add_shard :
      (n : Names) (o : Option _) (f : DownloadFile) (bs : List KeyedFiles)
      → in_buckets (add_shard n o f bs) ≡ in_buckets bs + one f
  unfolding add_shard
  in_buckets-add_shard n none f bs = in_buckets-add_entry _ _ bs
  in_buckets-add_shard n (some s) f bs = in_buckets-add_entry _ _ bs

  in_buckets-group_entries :
      (n : Names) (fs : List DownloadFile) (bs : List KeyedFiles)
      → in_buckets (group_entries n fs bs) ≡ in_buckets bs + count_of p (gguf_only n fs)
  unfolding group_entries gguf_only
  in_buckets-group_entries n [] bs = omega arith
  in_buckets-group_entries n (f ∷ fs) bs = elim (Bool-cases (is_gguf n f)) [
    | inl yes_gguf ↦ rw yes_gguf (
        omega (
          arith,
          in_buckets-group_entries n fs (add_shard n (n.shard_of f.path) f bs),
          in_buckets-add_shard n (n.shard_of f.path) f bs,
        ))
    | inr no_gguf ↦ rw no_gguf (in_buckets-group_entries n fs bs)
  ]

  in_entries-insert :
      (e : ShardFile) (es : List ShardFile)
      → in_entries (insert_entry e es) ≡ one e.file + in_entries es
  unfolding insert_entry
  in_entries-insert e [] = refl
  in_entries-insert e (d ∷ ds) = elim (Bool-cases (leb e.index d.index)) [
    | inl le ↦ rw le refl
    | inr gt ↦ rw gt (omega (arith, in_entries-insert e ds))
  ]

  in_entries-sort : (es : List ShardFile) → in_entries (sort_entries es) ≡ in_entries es
  unfolding sort_entries
  in_entries-sort [] = refl
  in_entries-sort (e ∷ es) =
      omega (arith, in_entries-insert e (sort_entries es), in_entries-sort es)

  in_buckets-insert :
      (n : Names) (b : KeyedFiles) (bs : List KeyedFiles)
      → in_buckets (insert_bucket n b bs) ≡ in_entries b.entries + in_buckets bs
  unfolding insert_bucket
  in_buckets-insert n b [] = refl
  in_buckets-insert n b (c ∷ cs) = elim (Bool-cases (n.at_most b.key c.key)) [
    | inl le ↦ rw le refl
    | inr gt ↦ rw gt (omega (arith, in_buckets-insert n b cs))
  ]

  in_buckets-sort :
      (n : Names) (bs : List KeyedFiles) → in_buckets (sort_buckets n bs) ≡ in_buckets bs
  unfolding sort_buckets
  in_buckets-sort n [] = refl
  in_buckets-sort n (b ∷ bs) =
      omega (arith, in_buckets-insert n b (sort_buckets n bs), in_buckets-sort n bs)

  count_of-files : (es : List ShardFile) → count_of p (files_of es) ≡ in_entries es
  unfolding files_of
  count_of-files [] = refl
  count_of-files (e ∷ es) = ap (λ k. one e.file + k) (count_of-files es)

  count_of-groups :
      (n : Names) (only : Bool) (files : List DownloadFile) (bs : List KeyedFiles)
      → sum_of (λ g. count_of p g.files) (map (group_of n only files) bs) ≡ in_buckets bs
  count_of-groups n only files [] = refl
  count_of-groups n only files (b ∷ bs) =
      omega (arith, group_count n only files b, count_of-groups n only files bs)
    where
      group_count :
          (n : Names) (only : Bool) (files : List DownloadFile) (b : KeyedFiles)
          → count_of p (group_of n only files b).files ≡ in_entries b.entries
      group_count n only files b =
          unfold group_of in count_of-files (sort_entries b.entries) ∙ in_entries-sort b.entries

none_before : (k : ℕ) → 0 + k ≡ k
none_before k = omega arith

-- Whatever is counted among the files, the groups hold together as many as the `.gguf` files: each
-- of these is in one group, and no other file is.
pub group_gguf_files-counts :
    (n : Names) (files : List DownloadFile) (p : DownloadFile → Bool)
    → sum_of (λ g. count_of p g.files) (group_gguf_files n files) ≡ count_of p (gguf_only n files)
unfolding group_gguf_files
group_gguf_files-counts n files p =
    count_of-groups p n (length (group_entries n files []) == 1) files
      (sort_buckets n (group_entries n files []))
    ∙ in_buckets-sort p n (group_entries n files [])
    ∙ in_buckets-group_entries p n files []
    ∙ none_before (count_of p (gguf_only n files))
