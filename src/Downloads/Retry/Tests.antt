-- ===== src/Downloads/Retry/Tests.antt =====
-- A transfer that fails once.
use llama_web_ui.Prelude.{ℕ, zero, suc, some, ◌≡◌, refl}
use llama_web_ui.Downloads.Retry.{
  Outcome, returned, failed, retry_from, download_with_retries, IsSettled,
  download_with_retries-IsSettled,
}

abbrev flaky : ℕ → Outcome
flaky zero = failed "reset"
flaky (suc n) = returned "model.gguf"

download_with_retries-IsSettled_example : IsSettled flaky 0 (download_with_retries flaky)
download_with_retries-IsSettled_example = download_with_retries-IsSettled flaky

second_attempt : download_with_retries flaky ≡ some (returned "model.gguf")
unfolding retry_from
second_attempt = refl
