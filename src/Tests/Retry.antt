-- ===== src/Tests/Retry.antt =====
-- internal/fantasy/retry.go with a function that counts its calls.
use dragonscale.Prelude.{
  ℕ, suc, ◌≡◌, ◌⊎◌, inl, inr, refl, true, false, List, [], ◌∷◌, Option, none, some, ltb,
  if◌then◌else◌,
}
use Prim.Native.String.{String}
use dragonscale.Prelude.Text.{lookup}
use dragonscale.Prelude.Int.{ℤ, pos, ◌*ℤ◌}
use dragonscale.Fantasy.Retry.{
  RequestError, Readers, RetryOptions, Outcome, value, plain, retry_error, cancelled, header_says,
  should_retry_header, is_retryable, wrap_int64, after_ms, after_seconds, header_delay,
  get_retry_delay, retryable_provider, retry_on, retry,
}
use dragonscale.Fantasy.Retry.Outcomes.{Explains, retry-Explains}

program : Unit {0}
unfolding lookup ◌*ℤ◌ header_says should_retry_header is_retryable wrap_int64 after_ms after_seconds
    header_delay get_retry_delay retryable_provider retry_on retry
program = tt

-- Every number reads as 90, and keys are never equal without case.
abbrev readers : Readers
readers = record {
  equal_fold = λ a b. false;
  parse_bool = λ v. false;
  parse_number = λ v. some (pos 90);
  time_until = λ v. none;
}

abbrev status : ℕ → List (String × String) → RequestError
status code headers = record {
  aborted = false;
  provider =
      some (record {
        unexpected_eof = false;
        status_code = pos code;
        response_headers = some headers;
      });
  message = [];
}

abbrev no_context : RequestError
no_context = record { aborted = true; provider = none; message = [] }

-- A function that fails in its first calls, with a status, and then gives the number of its calls.
abbrev fails : ℕ → ℕ → ℕ → (ℕ ⊎ RequestError) × ℕ
fails times code n = (if ltb n times then inr (status code []) else inl n, suc n)

abbrev no_wait : ℤ → ℕ → Option RequestError × ℕ
no_wait delay n = (none, n)

abbrev options : RetryOptions ℕ
options = record {
  max_retries = pos 2;
  initial_delay = pos 2000000000;
  scale = λ d. d *ℤ pos 2;
  on_retry = λ p d n. n;
}

third_call : retry readers (fails 2 503) no_wait options 0 ≡ some (value 2, 3)
unfolding program
third_call = refl

too_many :
    retry readers (fails 3 429) no_wait options 0
    ≡ some (retry_error (status 429 [] ∷ status 429 [] ∷ status 429 [] ∷ []), 3)
unfolding program
too_many = refl

bad_request : retry readers (fails 3 400) no_wait options 0 ≡ some (plain (status 400 []), 1)
unfolding program
bad_request = refl

context_over :
    retry readers (fails 3 503) (λ d n. (some no_context, n)) options 0
    ≡ some (cancelled no_context, 1)
unfolding program
context_over = refl

-- Ninety milliseconds are taken; ninety seconds are too long, unless the delay would be longer.
short_header :
    get_retry_delay readers
      (record {
        unexpected_eof = false;
        status_code = pos 429;
        response_headers = some (("retry-after-ms", "90") ∷ []);
      })
      (pos 2000000000)
    ≡ pos 90000000
unfolding program
short_header = refl

long_header :
    get_retry_delay readers
      (record {
        unexpected_eof = false;
        status_code = pos 429;
        response_headers = some (("retry-after", "90") ∷ []);
      })
      (pos 2000000000)
    ≡ pos 2000000000
unfolding program
long_header = refl

retry-Explains_example :
    (o : Outcome ℕ) × (t : ℕ) × (retry readers (fails 3 429) no_wait options 0 ≡ some (o, t))
    × Explains readers (fails 3 429) no_wait options 0 o t
retry-Explains_example = retry-Explains readers (fails 3 429) no_wait options 0
