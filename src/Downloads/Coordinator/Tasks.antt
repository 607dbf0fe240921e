-- ===== src/Downloads/Coordinator/Tasks.antt =====
-- The tasks that run when one starts or ends.
use llama_web_ui.Prelude.{
  ℕ, ◌<◌, String, ◌≡◌, ◌≢◌, refl, sym, ap, subst, ◌∙◌, true, false, Option, none, some, List, [],
  ◌∷◌, ◌==◌, map, All, distinct, contains, string_discrete, arith, Bool-cases, inl, inr,
}
use mathlib.Core.Logic.{if_neg, if_pos}
use mathlib.Core.Option.{some-injective}
use llama_web_ui.Downloads.Publish.Moves.{same_text-ne}
use mathlib.Core.Logic.{if_pos, if_neg}
use llama_web_ui.Downloads.Coordinator.{is_active_task, is_active, add_task}
use llama_web_ui.Prelude.{Option, none}
use llama_web_ui.Prelude.Table
use llama_web_ui.Prelude.Table.{delete, find-delete_ne, find-key}
use llama_web_ui.Downloads.Coordinator.{
  Task, Coordinator, is_running, is_active_task, is_active, add_task, drop_task, pop_task,
}
use llama_web_ui.Downloads.Coordinator.Turns.{IsTracked}

module _ {P Q : Task → Type 0} where
  All-map : (ts : List Task) → ((t : Task) → P t → Q t) → All P ts → All Q ts
  All-map [] f h = tt
  All-map (t ∷ ts) f (h, hs) = (f t h, All-map ts f hs)

  drop_task-All :
      (n : ℕ) (ts : List Task)
      → ((t : Task) → (t.number == n) ≡ false → P t → Q t)
      → All P ts
      → All Q (drop_task n ts)
  unfolding drop_task
  drop_task-All n [] f h = tt
  drop_task-All n (t ∷ ts) f (h, hs) = elim (Bool-cases (t.number == n)) [
    | inl same ↦ rw same (drop_task-All n ts f hs)
    | inr other ↦ rw other (f t other h, drop_task-All n ts f hs)
  ]

drop_task-contains :
    (n : ℕ) (ts : List Task) (i : String)
    → contains (map (λ t. t.job_id) ts) i ≡ false
    → contains (map (λ t. t.job_id) (drop_task n ts)) i ≡ false
unfolding drop_task contains
drop_task-contains n [] i h = refl
drop_task-contains n (t ∷ ts) i h = ground (arith, drop_task-contains n ts i)

drop_task-distinct :
    (n : ℕ) (ts : List Task)
    → distinct (map (λ t. t.job_id) ts) ≡ true
    → distinct (map (λ t. t.job_id) (drop_task n ts)) ≡ true
unfolding drop_task distinct
drop_task-distinct n [] h = refl
drop_task-distinct n (t ∷ ts) h =
    ground (arith, drop_task-contains n ts t.job_id, drop_task-distinct n ts)

-- A task that has ended, the current one of its job.
pub pop_task-IsTracked :
    (t : Task) (s : Coordinator)
    → Table.find (λ x. x.job_id) t.job_id s.current ≡ some t
    → IsTracked s
    → IsTracked (pop_task t s)
unfolding pop_task
pop_task-IsTracked t s found h = record {
  entries =
      drop_task-All t.number s.tasks
        (λ x differs p. (
          find-delete_ne (λ y. y.job_id) x.job_id t.job_id s.current
                (λ same.
                  elim (ne_number x differs (
                    some-injective _ _ (
                      sym p.0
                      ∙ ap (λ j. Table.find (λ y. y.job_id) j s.current) same
                      ∙ found))) [ ])
              ∙ p.0,
          p.1,
        ))
        h.entries;
  apart = drop_task-distinct t.number s.tasks h.apart;
}
  where
    ne_number : (x : Task) → (x.number == t.number) ≡ false → x ≡ t → ⊥
    ne_number x differs e = absurd_number (subst (λ y. (y.number == t.number) ≡ false) e differs)
      where
        absurd_number : (t.number == t.number) ≡ false → ⊥
        absurd_number d = ground arith

pub is_running-not :
    (n : ℕ) (ts : List Task) → is_running n ts ≡ false → All (λ t. (t.number == n) ≡ false) ts
unfolding is_running
is_running-not n [] h = tt
is_running-not n (t ∷ ts) h = (ground arith, is_running-not n ts (ground arith))

pub contains-none :
    (i : String) (ts : List Task)
    → All (λ t. t.job_id ≢ i) ts
    → contains (map (λ t. t.job_id) ts) i ≡ false
unfolding contains
contains-none i [] h = refl
contains-none i (t ∷ ts) (h, hs) =
    rw (if_neg (string_discrete t.job_id i) h true false, contains-none i ts hs) refl

All-both : (P Q : Task → Type 0) (ts : List Task) → All P ts → All Q ts → All (λ t. P t × Q t) ts
All-both P Q [] h k = tt
All-both P Q (t ∷ ts) (h, hs) (k, ks) = ((h, k), All-both P Q ts hs ks)

number_self : (n : ℕ) → (n == n) ≢ false
number_self n d = ground arith

-- A task of a job is the current one of it.
abbrev IsCurrent : List Task → ℕ → Task → Type 0
IsCurrent current n t = (Table.find (λ x. x.job_id) t.job_id current ≡ some t) × (t.number < n)

idle_tasks :
    (i : String) (current : List Task) (n : ℕ) (ts : List Task) (o : Option Task)
    → Table.find (λ x. x.job_id) i current ≡ o
    → is_active_task o ts ≡ false
    → All (IsCurrent current n) ts
    → All (λ t. t.job_id ≢ i) ts
unfolding is_active_task
idle_tasks i current n ts none q a h =
    All-map {P = IsCurrent current n} ts
      (λ t p e. cc (sym p.0 ∙ ap (λ j. Table.find (λ x. x.job_id) j current) e ∙ q)) h
idle_tasks i current n ts (some t) q a h =
    All-map {P = λ x. IsCurrent current n x × ((x.number == t.number) ≡ false)} ts
      (λ x p e. number_self t.number (
        subst (λ y. (y.number == t.number) ≡ false)
          (some-injective _ _ (sym p.0.0 ∙ ap (λ j. Table.find (λ y. y.job_id) j current) e ∙ q))
          p.1))
      (All-both (IsCurrent current n) (λ x. (x.number == t.number) ≡ false) ts h
        (is_running-not t.number ts a))

find-cons_self : (t : Task) (ts : List Task) → Table.find (λ x. x.job_id) t.job_id (t ∷ ts) ≡ some t
unfolding Table.find
find-cons_self t ts = if_pos (string_discrete t.job_id t.job_id) refl _ _

find-cons_ne :
    (t : Task) (ts : List Task) (i : String)
    → t.job_id ≢ i
    → Table.find (λ x. x.job_id) i (t ∷ ts) ≡ Table.find (λ x. x.job_id) i ts
unfolding Table.find
find-cons_ne t ts i n = if_neg (string_discrete t.job_id i) n _ _

-- A job that is not active runs in no task.
pub idle-contains :
    (i : String) (s : Coordinator)
    → IsTracked s
    → is_active i s ≡ false
    → contains (map (λ t. t.job_id) s.tasks) i ≡ false
unfolding is_active
idle-contains i s h idle =
    contains-none i s.tasks (idle_tasks i s.current s.next_number s.tasks _ refl idle h.entries)

contains-ne :
    (i : String) (ts : List Task)
    → contains (map (λ t. t.job_id) ts) i ≡ false
    → All (λ t. t.job_id ≢ i) ts
unfolding contains
contains-ne i [] h = tt
contains-ne i (t ∷ ts) h = (same_text-ne t.job_id i (ground arith), contains-ne i ts (ground arith))

-- A task added for an idle job.
pub add_task-IsTracked :
    (i : String) (s : Coordinator) → IsTracked s → is_active i s ≡ false → IsTracked (add_task i s)
unfolding add_task distinct
add_task-IsTracked i s h idle =
    let apart = idle-contains i s h idle in
    let t : Task = record { job_id = i; number = s.next_number } in
    record {
      entries = (
        (find-cons_self t (delete (λ x. x.job_id) i s.current), omega arith),
        All-map {P = λ x. IsCurrent s.current s.next_number x × (x.job_id ≢ i)} s.tasks
            (λ x p. (
              find-cons_ne t (delete (λ y. y.job_id) i s.current) x.job_id (λ e. p.1 (sym e))
                  ∙ find-delete_ne (λ y. y.job_id) x.job_id i s.current p.1
                  ∙ p.0.0,
              omega (arith, p.0.1),
            ))
            (All-both (IsCurrent s.current s.next_number) (λ x. x.job_id ≢ i) s.tasks h.entries
              (contains-ne i s.tasks apart)),
      );
      apart = rw (apart, h.apart) refl;
    }

-- The tasks that run after the current one of a job has ended are of other jobs.
pub drop_task-others :
    (t : Task) (s : Coordinator)
    → Table.find (λ x. x.job_id) t.job_id s.current ≡ some t
    → IsTracked s
    → contains (map (λ x. x.job_id) (drop_task t.number s.tasks)) t.job_id ≡ false
drop_task-others t s found h = contains-none t.job_id (drop_task t.number s.tasks) (
    drop_task-All t.number s.tasks
      (λ x differs p same. number_self t.number (
        subst (λ y. (y.number == t.number) ≡ false)
          (some-injective _ _
            (sym p.0 ∙ ap (λ j. Table.find (λ y. y.job_id) j s.current) same ∙ found))
          differs))
      h.entries)
