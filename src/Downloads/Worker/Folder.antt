-- ===== src/Downloads/Worker/Folder.antt =====
-- Folders as lists of entries: each path once, and what a write changes.
use llama_web_ui.Prelude.{
  ℕ, String, true, false, some, List, [], ◌∷◌, map, ◌≡◌, refl, sym, ap, subst, ◌∙◌, ◌≢◌, All, arith,
  contains, distinct, string_discrete, same_text, not, ◌&&◌,
}
use mathlib.Core.Logic.{if_pos, if_neg}
use mathlib.Core.Option.{some-injective}
use llama_web_ui.Prelude.Table.{find}
use llama_web_ui.Downloads.Publish.{FolderEntry, file, other, Stored, Staged}
use llama_web_ui.Downloads.Worker.Check.{entry_of, entry_at, write_entry}
use llama_web_ui.Downloads.Worker.Run.{add_staged, files_in}

-- No path is in the folder twice.
abbrev pub IsFolder : List Stored → Type 0
IsFolder qs = distinct (map (λ q. q.path) qs) ≡ true

entry_at-cons_self :
    (q : Stored) (qs : List Stored) (p : String) → q.path ≡ p → entry_at p (q ∷ qs) ≡ some q.entry
unfolding entry_at find entry_of
entry_at-cons_self q qs p e =
    ap entry_of (if_pos (string_discrete q.path p) e (some q) (find (λ r. r.path) p qs))

entry_at-cons_ne :
    (q : Stored) (qs : List Stored) (p : String) → q.path ≢ p → entry_at p (q ∷ qs) ≡ entry_at p qs
unfolding entry_at find
entry_at-cons_ne q qs p n =
    ap entry_of (if_neg (string_discrete q.path p) n (some q) (find (λ r. r.path) p qs))

write_entry-cons_self :
    (s q : Stored) (qs : List Stored) → q.path ≡ s.path → write_entry s (q ∷ qs) ≡ s ∷ qs
unfolding write_entry
write_entry-cons_self s q qs e =
    if_pos (string_discrete q.path s.path) e (s ∷ qs) (q ∷ write_entry s qs)

write_entry-cons_ne :
    (s q : Stored) (qs : List Stored)
    → q.path ≢ s.path
    → write_entry s (q ∷ qs) ≡ q ∷ write_entry s qs
unfolding write_entry
write_entry-cons_ne s q qs n =
    if_neg (string_discrete q.path s.path) n (s ∷ qs) (q ∷ write_entry s qs)

-- A write changes no other path.
pub entry_at-write_entry_ne :
    (s : Stored) (qs : List Stored) (p : String)
    → p ≢ s.path
    → entry_at p (write_entry s qs) ≡ entry_at p qs
entry_at-write_entry_ne s [] p n = unfold write_entry in entry_at-cons_ne s [] p (λ e. n (sym e))
entry_at-write_entry_ne s (q ∷ qs) p n = elim (string_discrete q.path s.path) [
  | yes e ↦
      ap (entry_at p) (write_entry-cons_self s q qs e)
      ∙ entry_at-cons_ne s qs p (λ x. n (sym x))
      ∙ sym (entry_at-cons_ne q qs p (λ x. n (sym x ∙ e)))
  | no m ↦ ap (entry_at p) (write_entry-cons_ne s q qs m) ∙ elim (string_discrete q.path p) [
    | yes x ↦ entry_at-cons_self q (write_entry s qs) p x ∙ sym (entry_at-cons_self q qs p x)
    | no x ↦
        entry_at-cons_ne q (write_entry s qs) p x
        ∙ entry_at-write_entry_ne s qs p n
        ∙ sym (entry_at-cons_ne q qs p x)
  ]
]

-- A write puts its entry at its path.
pub entry_at-write_entry_self :
    (s : Stored) (qs : List Stored) → entry_at s.path (write_entry s qs) ≡ some s.entry
entry_at-write_entry_self s [] = unfold write_entry in entry_at-cons_self s [] s.path refl
entry_at-write_entry_self s (q ∷ qs) = elim (string_discrete q.path s.path) [
  | yes e ↦
      ap (entry_at s.path) (write_entry-cons_self s q qs e) ∙ entry_at-cons_self s qs s.path refl
  | no n ↦
      ap (entry_at s.path) (write_entry-cons_ne s q qs n)
      ∙ entry_at-cons_ne q (write_entry s qs) s.path n
      ∙ entry_at-write_entry_self s qs
]

same_text-ne : (s t : String) → s ≢ t → same_text s t ≡ false
same_text-ne s t n = if_neg (string_discrete s t) n true false

contains-write_entry :
    (s : Stored) (qs : List Stored) (x : String)
    → s.path ≢ x
    → contains (map (λ q. q.path) (write_entry s qs)) x ≡ contains (map (λ q. q.path) qs) x
unfolding contains
contains-write_entry s [] x n = unfold write_entry in rw (same_text-ne s.path x n) refl
contains-write_entry s (q ∷ qs) x n = elim (string_discrete q.path s.path) [
  | yes e ↦
      rw
        (
          write_entry-cons_self s q qs e,
          same_text-ne s.path x n,
          same_text-ne q.path x (λ y. n (sym e ∙ y)),
        )
        refl
  | no m ↦ rw (write_entry-cons_ne s q qs m, contains-write_entry s qs x n) refl
]

pub write_entry-IsFolder :
    (s : Stored) (qs : List Stored) → IsFolder qs → IsFolder (write_entry s qs)
unfolding distinct
write_entry-IsFolder s [] h = unfold write_entry contains in refl
write_entry-IsFolder s (q ∷ qs) h = elim (string_discrete q.path s.path) [
  | yes e ↦ rw (write_entry-cons_self s q qs e) (
      subst
        (λ p. (not (contains (map (λ r. r.path) qs) p) && distinct (map (λ r. r.path) qs)) ≡ true) e
        h)
  | no m ↦
      let rest = write_entry-IsFolder s qs (ground arith) in
      rw (write_entry-cons_ne s q qs m)
        (ground (arith, contains-write_entry s qs q.path (λ x. m (sym x)), rest))
]

-- The files of a folder, as a publication takes them.
entry-All :
    (P : Staged → Type 0) (q : Stored) (rest : List Staged) {n : ℕ} {content : String}
    → q.entry ≡ file n content
    → All P (add_staged q.path q.entry rest)
    → P (record { path = q.path; size = n; content = content }) × All P rest
unfolding add_staged
entry-All P q rest e h = subst (λ x. All P (add_staged q.path x rest)) e h

rest-All :
    (P : Staged → Type 0) (p : String) (e : FolderEntry) (rest : List Staged)
    → All P (add_staged p e rest)
    → All P rest
unfolding add_staged
rest-All P p (file n content) rest h = h.1
rest-All P p other rest h = h

-- What holds of all files of a folder holds of the file at a path.
pub files_in-at :
    (P : Staged → Type 0) (qs : List Stored) (p : String) {n : ℕ} {content : String}
    → entry_at p qs ≡ some (file n content)
    → All P (files_in qs)
    → P (record { path = p; size = n; content = content })
unfolding files_in
files_in-at P [] p e h = unfold entry_at entry_of find in cc
files_in-at P (q ∷ qs) p {n = n} {content = content} e h = elim (string_discrete q.path p) [
  | yes x ↦
      subst (λ y. P (record { path = y; size = n; content = content })) x
        (entry-All P q (files_in qs) (some-injective _ _ (sym (entry_at-cons_self q qs p x) ∙ e))
          h).0
  | no x ↦
      files_in-at P qs p (sym (entry_at-cons_ne q qs p x) ∙ e)
        (rest-All P q.path q.entry (files_in qs) h)
]

contains-add_staged :
    (p : String) (e : FolderEntry) (rest : List Staged) (x : String)
    → same_text p x ≡ false
    → contains (map (λ s. s.path) rest) x ≡ false
    → contains (map (λ s. s.path) (add_staged p e rest)) x ≡ false
unfolding contains add_staged
contains-add_staged p (file n content) rest x n1 h = rw (n1, h) refl
contains-add_staged p other rest x n1 h = h

contains-files_in :
    (qs : List Stored) (x : String)
    → contains (map (λ q. q.path) qs) x ≡ false
    → contains (map (λ s. s.path) (files_in qs)) x ≡ false
unfolding contains files_in
contains-files_in [] x h = refl
contains-files_in (q ∷ qs) x h =
    contains-add_staged q.path q.entry (files_in qs) x (ground arith)
      (contains-files_in qs x (ground arith))

add_staged-distinct :
    (p : String) (e : FolderEntry) (rest : List Staged)
    → contains (map (λ s. s.path) rest) p ≡ false
    → distinct (map (λ s. s.path) rest) ≡ true
    → distinct (map (λ s. s.path) (add_staged p e rest)) ≡ true
unfolding distinct add_staged
add_staged-distinct p (file n content) rest c h = rw (c, h) refl
add_staged-distinct p other rest c h = h

pub files_in-distinct :
    (qs : List Stored) → IsFolder qs → distinct (map (λ s. s.path) (files_in qs)) ≡ true
unfolding distinct files_in
files_in-distinct [] h = refl
files_in-distinct (q ∷ qs) h =
    add_staged-distinct q.path q.entry (files_in qs) (contains-files_in qs q.path (ground arith))
      (files_in-distinct qs (ground arith))
