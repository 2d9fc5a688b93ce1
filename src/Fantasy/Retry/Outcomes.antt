-- ===== src/Fantasy/Retry/Outcomes.antt =====
-- How the calls of internal/fantasy/retry.go end.
use dragonscale.Prelude.{
  ℕ, zero, suc, ◌+◌, ◌≤◌, ◌<◌, ◌≡◌, ◌≢◌, ◌⊎◌, inl, inr, refl, ap, subst, true, false, ◌||◌, List,
  [], ◌∷◌, ◌++◌, Option, none, some, length, length-append, ◌==◌, arith, Bool-cases, Option-cases,
}
use dragonscale.Prelude.Int.{ℤ, pos, pos_part, ltb_ℤ}
use dragonscale.Fantasy.Retry.{
  ProviderError, RequestError, Readers, RetryOptions, Outcome, value, plain, retry_error, cancelled,
  same_ℤ, retryable_provider, get_retry_delay, retry_on, enough_calls, retry,
}

module _ {A S : Type 0} (readers : Readers) (fn : S → (A ⊎ RequestError) × S)
    (wait : ℤ → S → Option RequestError × S) where
  -- The error of a call that is made again.
  abbrev pub Retried : RequestError → Type 0
  Retried e = (e.aborted ≡ false) × (retryable_provider readers e ≢ none)

  -- The delay before the next call.
  abbrev pub delay_of : ProviderError → RetryOptions S → ℤ
  delay_of p options = get_retry_delay readers p options.initial_delay

  abbrev pub next_options : RetryOptions S → RetryOptions S
  next_options options = record options { initial_delay = options.scale options.initial_delay }

  length-collected :
      (es : List RequestError) (e : RequestError) → length (es ++ (e ∷ [])) ≡ suc (length es)
  length-collected es e = omega (arith, length-append es (e ∷ []))

  nil_of : (es : List RequestError) → length es ≡ 0 → es ≡ []
  nil_of [] h = refl
  nil_of (e ∷ es) h = absurd (omega (arith, h))

  module _ (options : RetryOptions S) (start : S) where
    -- From the start calls were made that failed with these errors, in order; each error is of a
    -- kind that is retried, and after each came the callback and a wait to its end. They lead to
    -- these options and this state.
    pub data Failed : List RequestError → RetryOptions S → S → Type 0 where
      no_call : Failed [] options start
      call :
          {errors : List RequestError} {now : RetryOptions S} {s : S}
          → Failed errors now s
          → (e : RequestError) (t : S) → fn s ≡ (inr e, t)
          → Retried e
          → (p : ProviderError) → retryable_provider readers e ≡ some p
          → (u : S) → wait (delay_of p now) (now.on_retry p (delay_of p now) t) ≡ (none, u)
          → Failed (errors ++ (e ∷ [])) (next_options now) u

    -- The calls that failed before a last one, which returned this and led to this state.
    abbrev pub Last : List RequestError → A ⊎ RequestError → S → Type 0
    Last before r t = (now : RetryOptions S) × (s : S) × Failed before now s × (fn s ≡ (r, t))

    -- What an outcome and the state it is reached in say of the calls.
    abbrev pub Explains : Outcome A → S → Type 0
    Explains (value a) t = (before : List RequestError) × Last before (inl a) t
    Explains (plain e) t =
        (before : List RequestError) × Last before (inr e) t
        × ((e.aborted ≡ true)
            ⊎ (same_ℤ options.max_retries (pos 0) ≡ true)
            ⊎ ((before ≡ []) × (retryable_provider readers e ≡ none)))
    Explains (retry_error errors) t =
        (before : List RequestError) × (last : RequestError) × (errors ≡ before ++ (last ∷ []))
        × Last before (inr last) t
        × (last.aborted ≡ false)
        × (length errors ≤ suc (pos_part options.max_retries))
        × ((pos_part options.max_retries < length errors)
            ⊎ (retryable_provider readers last ≡ none))
    Explains (cancelled why) t =
        (before : List RequestError) × (now : RetryOptions S) × (s : S) × Failed before now s
        × (e : RequestError) × (u : S) × (fn s ≡ (inr e, u))
        × (p : ProviderError) × (retryable_provider readers e ≡ some p)
        × (wait (delay_of p now) (now.on_retry p (delay_of p now) u) ≡ (some why, t))

    -- The calls end with so much fuel.
    abbrev pub Ends : ℕ → Type 0
    Ends fuel =
        (now : RetryOptions S) (errors : List RequestError) (s : S)
        → Failed errors now s
        → now.max_retries ≡ options.max_retries
        → length errors ≤ pos_part options.max_retries
        → length errors + fuel ≡ suc (pos_part options.max_retries)
        → (o : Outcome A) × (t : S) × (retry_on readers fn wait fuel now errors s ≡ some (o, t))
          × Explains o t

    retry_on-Ends : (fuel : ℕ) → Ends fuel
    unfolding retry_on
    retry_on-Ends zero now errors s past same few enough = absurd (omega (arith, few, enough))
    retry_on-Ends (suc fuel) now errors s past same few enough =
        go (retry_on-Ends fuel) (fn s).0 refl
      where
        go :
            Ends fuel
            → (r : A ⊎ RequestError) → (fn s).0 ≡ r
            → (o : Outcome A) × (t : S) × (retry_on readers fn wait (suc fuel) now errors s
                ≡ some (o, t))
              × Explains o t
        go later (inl a) h = (
          value a,
          (fn s).1,
          rw (h, retry_on) refl,
          (errors, (now, s, past, ap (λ x. (x, (fn s).1)) h)),
        )
        go later (inr e) h =
            let t = (fn s).1 in
            let last : Last errors (inr e) t = (now, s, past, ap (λ x. (x, t)) h) in
            let part : pos_part now.max_retries ≡ pos_part options.max_retries = ap pos_part same in
            elim (Bool-cases (e.aborted || same_ℤ now.max_retries (pos 0))) [
              | inl stop ↦ (
                plain e,
                t,
                rw (h, stop, retry_on) refl,
                (
                  errors,
                  last,
                  elim (Bool-cases e.aborted) [
                    | inl a ↦ inl a
                    | inr n ↦
                        let none_left : same_ℤ now.max_retries (pos 0) ≡ true =
                          ground (arith, stop, n) in
                        inr (inl (subst (λ m. same_ℤ m (pos 0) ≡ true) same none_left))
                  ],
                ),
              )
              | inr on ↦
                  let collected = errors ++ (e ∷ []) in
                  let count = length-collected errors e in
                  let running : e.aborted ≡ false = ground (arith, on) in
                  elim (Bool-cases (ltb_ℤ now.max_retries (pos (length collected)))) [
                    | inl over ↦
                        let past_all : pos_part now.max_retries < length collected =
                          ground (arith, over, count) in
                        (
                          retry_error collected,
                          t,
                          rw (h, on, over, retry_on) refl,
                          (
                            errors,
                            e,
                            refl,
                            last,
                            running,
                            omega (arith, count, few),
                            inl (omega (arith, past_all, part)),
                          ),
                        )
                    | inr left ↦ elim (Option-cases (retryable_provider readers e)) [
                      | inl never ↦ elim (Bool-cases (length collected == 1)) [
                        | inl one ↦
                            let first : errors ≡ [] = nil_of errors (ground (arith, one, count)) in
                            (
                              plain e,
                              t,
                              rw (h, on, left, never, one, retry_on) refl,
                              (errors, last, inr (inr (first, never))),
                            )
                        | inr more ↦ (
                          retry_error collected,
                          t,
                          rw (h, on, left, never, more, retry_on) refl,
                          (errors, e, refl, last, running, omega (arith, count, few), inr never),
                        )
                      ]
                      | inr (p, again) ↦
                          let w = wait (delay_of p now) (now.on_retry p (delay_of p now) t) in
                          elim (Option-cases w.0) [
                            | inr (why, ended) ↦ (
                              cancelled why,
                              w.1,
                              rw (h, on, left, again, ended, retry_on) refl,
                              (
                                errors,
                                now,
                                s,
                                past,
                                e,
                                t,
                                ap (λ x. (x, t)) h,
                                p,
                                again,
                                ap (λ x. (x, w.1)) ended,
                              ),
                            )
                            | inl over ↦
                                let room : length collected ≤ pos_part now.max_retries =
                                  ground (arith, left, count) in
                                let further : Failed collected (next_options now) w.1 =
                                  call past e t (ap (λ x. (x, t)) h)
                                    (running, λ z. absurd (ground (arith, again, z))) p again w.1
                                    (ap (λ x. (x, w.1)) over) in
                                let (o, u, runs, explains) =
                                  later (next_options now) collected w.1 further same
                                    (omega (arith, room, part)) (omega (arith, count, enough)) in
                                (o, u, rw (h, on, left, again, over, retry_on) runs, explains)
                          ]
                    ]
                  ]
            ]

  -- The calls end, within one more than there are retries, and the outcome tells of them. The last
  -- call came after calls that failed, each with an error of a kind that is retried and followed by
  -- a wait to its end. A value is what the last call returned. An error as it is was returned by
  -- the last call, and is of an aborted context, or retries are disabled, or it is not of a kind
  -- that is retried and no call came before. A `RetryError` holds the errors of all the calls in
  -- order, and no call was left or the last error is not of that kind. The context's error ended
  -- the wait after the last call.
  pub retry-Explains :
      (options : RetryOptions S) (s : S)
      → (o : Outcome A) × (t : S) × (retry readers fn wait options s ≡ some (o, t))
        × Explains options s o t
  unfolding retry
  retry-Explains options s =
      retry_on-Ends options s (enough_calls readers fn wait options) options [] s no_call refl
        (omega arith) (omega arith)
