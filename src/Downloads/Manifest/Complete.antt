-- ===== src/Downloads/Manifest/Complete.antt =====
-- When a group of shards counts as complete.
use llama_web_ui.Prelude.{
  ℕ, zero, suc, ◌+◌, ◌≡◌, ◌≢◌, ◌↔◌, refl, sym, ap, ◌∙◌, Bool, true, false, ◌&&◌, some, List, [],
  ◌∷◌, arith, all, length, get_elem?, leb, ◌==◌, ==_iff,
}
use mathlib.Core.Option.{some-injective}
use llama_web_ui.Downloads.Manifest.{ShardFile, counts_up, is_complete}

-- The entries are numbered from `k` to `last`.
record IsNumbered (k last : ℕ) (es : List ShardFile) : Type 0 where
  size : k + length es ≡ suc last
  index_at : (i : ℕ) (e : ShardFile) → get_elem? es i ≡ some e → e.index ≡ k + i

and-true : (a b : Bool) → (a && b) ≡ true → (a ≡ true) × (b ≡ true)
and-true true b h = (refl, h)
and-true false b h = cc

counts_up-IsNumbered :
    (k last : ℕ) (es : List ShardFile) → counts_up k last es ≡ true → IsNumbered k last es
unfolding counts_up
counts_up-IsNumbered k last [] h = record {
  size = omega (arith, (==_iff k (suc last)).0 h);
  index_at = λ i e q. cc;
}
counts_up-IsNumbered k last (d ∷ ds) h =
    let (le, both) = and-true (leb k last) _ h in
    let (same, up) = and-true (d.index == k) _ both in
    let rest = counts_up-IsNumbered (suc k) last ds up in
    let here = (==_iff d.index k).0 same in
    record { size = omega (arith, rest.size); index_at = λ i e q. index_of d ds here rest i e q }
  where
    index_of :
        (d : ShardFile) (ds : List ShardFile)
        → d.index ≡ k
        → IsNumbered (suc k) last ds
        → (i : ℕ) (e : ShardFile) → get_elem? (d ∷ ds) i ≡ some e
        → e.index ≡ k + i
    index_of d ds here rest zero e q = omega (arith, here, ap (λ x. x.index) (some-injective _ _ q))
    index_of d ds here rest (suc i) e q = omega (arith, rest.index_at i e q)

IsNumbered-counts_up :
    (k last : ℕ) (es : List ShardFile) → IsNumbered k last es → counts_up k last es ≡ true
unfolding counts_up
IsNumbered-counts_up k last [] n = (==_iff k (suc last)).1 (omega (arith, n.size))
IsNumbered-counts_up k last (d ∷ ds) n =
    let below : leb k last ≡ true = le_of k (length ds) n.size in
    let here : (d.index == k) ≡ true = (==_iff d.index k).1 (omega (arith, n.index_at 0 d refl)) in
    rw (below, here)
      (IsNumbered-counts_up (suc k) last ds (record {
        size = omega (arith, n.size);
        index_at = λ i e q. omega (arith, n.index_at (suc i) e q);
      }))
  where
    le_of : (k m : ℕ) → k + suc m ≡ suc last → leb k last ≡ true
    le_of k m h = ground arith

all-at :
    (p : ShardFile → Bool) (es : List ShardFile) (i : ℕ) (e : ShardFile)
    → all p es ≡ true
    → get_elem? es i ≡ some e
    → p e ≡ true
all-at p [] i e h q = cc
all-at p (d ∷ ds) zero e h q = ap p (sym (some-injective _ _ q)) ∙ (and-true (p d) (all p ds) h).0
all-at p (d ∷ ds) (suc i) e h q = all-at p ds i e (and-true (p d) (all p ds) h).1 q

at-all :
    (p : ShardFile → Bool) (es : List ShardFile)
    → ((i : ℕ) (e : ShardFile) → get_elem? es i ≡ some e → p e ≡ true)
    → all p es ≡ true
at-all p [] h = refl
at-all p (d ∷ ds) h = rw (h 0 d refl, at-all p ds (λ i e q. h (suc i) e q)) refl

-- The entries, in their order, are numbered from 1 to their number, and each states that number.
pub record IsComplete (es : List ShardFile) : Type 0 where
  pub nonempty : es ≢ []
  pub shard_at :
      (i : ℕ) (e : ShardFile) → get_elem? es i ≡ some e → (e.index ≡ suc i) × (e.count ≡ length es)

-- A group counts as complete exactly if its entries are numbered from 1 to their number, in this
-- order, and each states that number.
pub is_complete_iff : (es : List ShardFile) → (is_complete es ≡ true) ↔ IsComplete es
unfolding is_complete
is_complete_iff [] = ((λ h. cc), λ c. absurd (c.nonempty refl))
is_complete_iff (e ∷ es) = (
  (λ h.
      let (same, up) = and-true (all (λ d. d.count == e.count) (e ∷ es)) _ h in
      let n = counts_up-IsNumbered 1 e.count (e ∷ es) up in
      record {
        nonempty = λ q. cc;
        shard_at = λ i d q. (
          omega (arith, n.index_at i d q),
          omega (
            arith,
            n.size,
            (==_iff d.count e.count).0 (all-at (λ x. x.count == e.count) (e ∷ es) i d same q),
          ),
        );
      }),
  λ c.
      let first = (c.shard_at 0 e refl).1 in
      rw
        (
          at-all (λ d. d.count == e.count) (e ∷ es)
              (λ i d q. (==_iff d.count e.count).1 ((c.shard_at i d q).1 ∙ sym first)),
          IsNumbered-counts_up 1 e.count (e ∷ es) (record {
            size = omega (arith, first);
            index_at = λ i d q. omega (arith, (c.shard_at i d q).0);
          }),
        )
        refl,
)
