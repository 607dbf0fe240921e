-- ===== src/Downloads/Worker/Keeps/Turn.antt =====
-- One turn of the worker's loop over the files, under a property of its world that a transfer to the
-- path of the file keeps.
use llama_web_ui.Prelude.{◌∙◌, ℕ, String, ◌≡◌, refl, sym, subst, Option, none, some, List, if-cases}
use llama_web_ui.Downloads.Job.{same_state, cancelled, DownloadFile}
use llama_web_ui.Downloads.Registry.{Call}
use llama_web_ui.Downloads.Retry
use llama_web_ui.Downloads.Retry.{download_with_retries, download_with_retries-IsSettled}
use mathlib.Core.Option.{some-injective}
use llama_web_ui.Downloads.Publish.{FolderEntry}
use llama_web_ui.Downloads.Worker.{Machine, World, Visit, WorkerStep, meanwhile, discard}
use llama_web_ui.Downloads.Worker.Check.{entry_at, is_reusable, write_entry}
use llama_web_ui.Downloads.Worker.Watch.{Transfer, settle, left_by, download_with_progress}
use llama_web_ui.Downloads.Worker.Run.{visit_sized, visit_file, Tally, obtain, check_file}
use llama_web_ui.Downloads.Worker.Keeps.{
  at_interrupted, Post, at_next, at_left, at_raised, and_then-Post, get_job-Keeps, watch-Keeps,
}
use llama_web_ui.Downloads.Worker.Keeps.Files.{go_on-Keeps, count-Keeps}

module _ (I R : World → Type 0) (calls : (cs : List Call) (w : World) → I w → I (meanwhile cs w))
    (leave : (w : World) → I w → R w) where
  module _ (discards : (w : World) → I w → R (discard w)) (f : DownloadFile) (v : Visit)
      (puts : (entry : FolderEntry) (w : World)
        → I w
        → I (record w {
          staging = write_entry (record { path = f.path; entry = entry }) w.staging;
        }))
      (IsPath : String → Type 0) (own : IsPath f.path)
      (answers : (a : ℕ) (q : String) → v.attempts a ≡ Retry.returned q → IsPath q) where
    abbrev Obtains : WorkerStep String → Type 0
    Obtains = Post (λ q w. I w × IsPath q) R

    settle-Obtains :
        (o : Option Retry.Outcome) (w : World)
        → ((q : String) → o ≡ some (Retry.returned q) → IsPath q)
        → I w
        → Obtains (settle o w)
    unfolding settle
    settle-Obtains none w on h = at_raised (leave w h)
    settle-Obtains (some (Retry.returned q)) w on h = at_next (h, on q refl)
    settle-Obtains (some (Retry.failed e)) w on h = at_raised (leave w h)
    settle-Obtains (some (Retry.broken e)) w on h = at_raised (leave w h)
    settle-Obtains (some Retry.cancelled_transfer) w on h = at_interrupted (leave w h)

    answer-IsPath :
        (q : String) → download_with_retries v.attempts ≡ some (Retry.returned q) → IsPath q
    answer-IsPath q e =
        let settled = download_with_retries-IsSettled v.attempts in
        answers settled.last q (some-injective _ _ (sym settled.result_of ∙ e))

    left_by-Keeps :
        (t : Transfer) (o : Option FolderEntry) (w : World)
        → t.filename ≡ f.path
        → I w
        → I (left_by t o w)
    unfolding left_by
    left_by-Keeps t none w e h = h
    left_by-Keeps t (some entry) w e h =
        subst
          (λ q.
            I (record w { staging = write_entry (record { path = q; entry = entry }) w.staging }))
          (sym e) (puts entry w h)

    download_with_progress-Obtains :
        (m : Machine) (t : Transfer) (w : World)
        → t.filename ≡ f.path
        → I w
        → Obtains (download_with_progress m t v w)
    unfolding download_with_progress
    download_with_progress-Obtains m t w e h =
        and_then-Post _ (get_job-Keeps I R calls leave t.job_id _ (left_by-Keeps t v.leaves w e h))
          (λ r w1 h1.
            and_then-Post _ (watch-Keeps I R calls leave m t v.polls _ w1 h1)
              (λ s w2 h2. settle-Obtains _ w2 answer-IsPath h2))

    obtain-Obtains :
        (m : Machine) (t : Transfer) (w : World)
        → t.filename ≡ f.path
        → I w
        → Obtains (obtain m t f v w)
    unfolding obtain
    obtain-Obtains m t w e h =
        if-cases Obtains (is_reusable m f t.expected_size (entry_at f.path w.staging))
          (λ _. at_next (h, own)) (λ _. download_with_progress-Obtains m t w e h)

    -- What the checks of the file establish holds after the turn.
    module _ (J : World → Type 0)
        (J-calls : (cs : List Call) (w : World) → J w → J (meanwhile cs w))
        (J-leave : (w : World) → J w → R w) (m : Machine)
        (checks : (expected : ℕ) (q : String) (w : World)
          → f.size ≡ some expected
          → IsPath q
          → I w
          → Post (λ n w'. J w') R (check_file m f expected v q w)) where
      visit_sized-Post :
          (i : String) (o : Option ℕ) (t : Tally) (w : World)
          → f.size ≡ o
          → I w
          → Post (λ t' w'. J w') R (visit_sized m i f o v t w)
      unfolding visit_sized
      visit_sized-Post i none t w e h = at_raised (leave w h)
      visit_sized-Post i (some expected) t w e h =
          and_then-Post _ (obtain-Obtains m _ w refl h) (λ q w1 h1.
            and_then-Post _ (get_job-Keeps I R calls leave i w1 h1.0) (λ r w2 h2.
              and_then-Post _ (go_on-Keeps I R calls leave discards r w2 h2) (λ r' w3 h3.
                and_then-Post _ (checks expected q w3 e h1.1 h3)
                  (λ n w4 h4. count-Keeps J R J-calls J-leave i t n w4 h4))))

      pub visit_file-Post :
          (i : String) (t : Tally) (w : World)
          → I w
          → Post (λ t' w'. J w') R (visit_file m i f v t w)
      unfolding visit_file
      visit_file-Post i t w h = and_then-Post _ (get_job-Keeps I R calls leave i w h) (λ r w1 h1.
          if-cases (Post (λ t' w'. J w') R) (same_state r.state cancelled)
            (λ _. at_left (leave w1 h1)) (λ _. visit_sized-Post i f.size t w1 refl h1))
