-- ===== src/Fantasy/Retry.antt =====
-- internal/fantasy/retry.go, and `IsRetryable` of errors.go. The called function, the wait for a delay
-- or the end of the context, and the callback act on a state of the outside; what the strconv and time
-- packages read of a header is a parameter, and so is the product of a delay and the factor. A delay
-- is in nanoseconds.
pub mod Outcomes
use dragonscale.Prelude.{
  ℕ, zero, suc, ◌+◌, ◌-◌, ◌*◌, ◌%◌, ◌^◌, ◌⊎◌, inl, inr, Bool, true, false, ◌&&◌, ◌||◌, List, [],
  ◌∷◌, ◌++◌, Option, none, some, length, ltb, leb, ◌==◌, if◌then◌else◌,
}
use Prim.Native.String.{String}
use dragonscale.Prelude.Text.{lookup}
use dragonscale.Prelude.Int.{ℤ, pos, negsuc, pos_part, ltb_ℤ, ◌*ℤ◌}

-- What is read of a `ProviderError`; `unexpected_eof` is `errors.Is` of its cause. No headers are a
-- nil map.
pub record ProviderError : Type 0 where
  pub unexpected_eof : Bool
  pub status_code : ℤ
  pub response_headers : Option (List (String × String))

-- An error: whether it is of an aborted context, and the provider's error in its chain.
pub record RequestError : Type 0 where
  pub aborted : Bool
  pub provider : Option ProviderError
  pub message : List ℕ

-- What is used of strings, strconv and time: equality without case, booleans, numbers cut off to an
-- int64, and the time until an HTTP date.
pub record Readers : Type 0 where
  pub equal_fold : String → String → Bool
  pub parse_bool : String → Bool
  pub parse_number : String → Option ℤ
  pub time_until : String → Option ℤ

unfoldable pub header_says : Readers → List (String × String) → Bool
header_says readers [] = false
header_says readers ((k, v) ∷ rest) =
    let later = header_says readers rest in
    if readers.equal_fold k "x-should-retry" then readers.parse_bool v else later

-- `shouldRetryHeader`, with the headers in the order in which the map is read.
unfoldable pub should_retry_header : Readers → ProviderError → Bool
should_retry_header readers p = elim p.response_headers [
  | none ↦ false
  | some headers ↦ header_says readers headers
]

abbrev pub same_ℤ : ℤ → ℤ → Bool
same_ℤ (pos a) (pos b) = a == b
same_ℤ (negsuc a) (negsuc b) = a == b
same_ℤ (pos a) (negsuc b) = false
same_ℤ (negsuc a) (pos b) = false

-- `IsRetryable`.
unfoldable pub is_retryable : Readers → ProviderError → Bool
is_retryable readers p =
    p.unexpected_eof
    || should_retry_header readers p
    || same_ℤ p.status_code (pos 408)
    || same_ℤ p.status_code (pos 409)
    || same_ℤ p.status_code (pos 429)
    || ltb_ℤ (pos 499) p.status_code

-- The wrap-around of an int64.
unfoldable pub wrap_int64 : ℤ → ℤ
wrap_int64 (pos n) = let r = n % 2 ^ 64 in if ltb r (2 ^ 63) then pos r else negsuc (2 ^ 64 - r - 1)
wrap_int64 (negsuc n) =
    let r = n % 2 ^ 64 in if ltb r (2 ^ 63) then negsuc r else pos (2 ^ 64 - r - 1)

abbrev pub millisecond : ℤ
millisecond = pos 1000000

abbrev pub second : ℤ
second = pos 1000000000

-- The delay of `retry-after-ms`, 0 if there is none.
unfoldable pub after_ms : Readers → List (String × String) → ℤ
after_ms readers headers = elim (lookup "retry-after-ms" headers) [
  | none ↦ pos 0
  | some text ↦ elim (readers.parse_number text) [
    | none ↦ pos 0
    | some n ↦ wrap_int64 (n *ℤ millisecond)
  ]
]

-- The delay of `retry-after`, where the other gave none.
unfoldable pub after_seconds : Readers → List (String × String) → ℤ
after_seconds readers headers = elim (lookup "retry-after" headers) [
  | none ↦ pos 0
  | some text ↦ elim (readers.parse_number text) [
    | some n ↦ wrap_int64 (n *ℤ second)
    | none ↦ elim (readers.time_until text) [ none ↦ pos 0 | some d ↦ d ]
  ]
]

unfoldable pub header_delay : Readers → List (String × String) → ℤ
header_delay readers headers =
    let ms = after_ms readers headers in
    if same_ℤ ms (pos 0) then after_seconds readers headers else ms

-- `getRetryDelayInMs`, of the provider's error in the chain.
unfoldable pub get_retry_delay : Readers → ProviderError → ℤ → ℤ
get_retry_delay readers p backoff = elim p.response_headers [
  | none ↦ backoff
  | some headers ↦
      let ms = header_delay readers headers in
      if ltb_ℤ (pos 0) ms && (ltb_ℤ ms (pos 60000000000) || ltb_ℤ ms backoff) then ms else backoff
]

pub record RetryOptions (S : Type 0) : Type 0 where
  pub max_retries : ℤ
  pub initial_delay : ℤ
  pub scale : ℤ → ℤ
  pub on_retry : ProviderError → ℤ → S → S

-- The results: a value, an error as it is, a `RetryError`, or the context's error.
pub data Outcome (A : Type 0) : Type 0 where
  value : A → Outcome A
  plain : RequestError → Outcome A
  retry_error : List RequestError → Outcome A
  cancelled : RequestError → Outcome A

-- A provider's error that may be retried.
unfoldable pub retryable_provider : Readers → RequestError → Option ProviderError
retryable_provider readers e = elim e.provider [
  | none ↦ none
  | some p ↦ if is_retryable readers p then some p else none
]

module _ {A S : Type 0} (readers : Readers) (fn : S → (A ⊎ RequestError) × S)
    (wait : ℤ → S → Option RequestError × S) where
  -- `retryWithExponentialBackoff` on fuel; none is a recursion that did not end.
  unfoldable pub retry_on : ℕ → RetryOptions S → List RequestError → S → Option (Outcome A × S)
  retry_on zero options errors s = none
  retry_on (suc fuel) options errors s =
      let (result, t) = fn s in
      elim result [
        | inl a ↦ some (value a, t)
        | inr e ↦
            let collected = errors ++ (e ∷ []) in
            if e.aborted || same_ℤ options.max_retries (pos 0)
            then some (plain e, t)
            else if ltb_ℤ options.max_retries (pos (length collected))
            then some (retry_error collected, t)
            else elim (retryable_provider readers e) [
              | none ↦ some (if length collected == 1 then plain e else retry_error collected, t)
              | some p ↦
                  let delay = get_retry_delay readers p options.initial_delay in
                  let (ended, u) = wait delay (options.on_retry p delay t) in
                  elim ended [
                    | some why ↦ some (cancelled why, u)
                    | none ↦
                        retry_on fuel
                          (record options { initial_delay = options.scale options.initial_delay })
                          collected u
                  ]
            ]
      ]

  -- One call more than there are retries.
  abbrev pub enough_calls : RetryOptions S → ℕ
  enough_calls options = suc (pos_part options.max_retries)

  unfoldable pub retry : RetryOptions S → S → Option (Outcome A × S)
  retry options s = retry_on (enough_calls options) options [] s
