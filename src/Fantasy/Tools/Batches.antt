-- ===== src/Fantasy/Tools/Batches.antt =====
-- tool_runtime_parallel.go against running the calls one at a time: the batches change neither what
-- is returned nor what the callback is given.
use dragonscale.Prelude.{
  ℕ, zero, suc, ◌≤◌, ◌≡◌, refl, sym, ap, ◌∙◌, subst, Bool, true, false, List, [], ◌∷◌, ◌++◌, Option,
  none, some, length, arith, Bool-cases, Option-cases, inl, inr,
}
use mathlib.Core.List.{append_assoc}
use dragonscale.Fantasy.Tools.{
  ToolCallContent, ToolResponse, tool_answer, ends_with, Toolbox, SingleRun, is_parallel_safe,
  execute_single_tool, run_tool, notified,
}
use dragonscale.Fantasy.Tools.Parallel.{
  Collected, Answer, returned, failed, Execution, span_safe, outcomes_of, collect, collect_one,
  with_results, run_barrier, run_batch, execute_from, execute_parallel,
}

abbrev answer_of : Collected → Answer
answer_of c = elim c.failure [ some e ↦ failed e | none ↦ returned c.results ]

-- The calls one at a time, in order, up to a critical result.
abbrev pub one_at_a_time : Toolbox → Bool → List ToolCallContent → Collected
one_at_a_time box callback calls = collect callback (outcomes_of box calls)

abbrev AllSafe : Toolbox → List ToolCallContent → Type 0
AllSafe box [] = Unit
AllSafe box (c ∷ cs) = (is_parallel_safe box c ≡ true) × AllSafe box cs

-- The calls of a round: one call, or calls that are all safe to run together.
abbrev pub Together : Toolbox → List ToolCallContent → Type 0
Together box [] = ⊥
Together box (c ∷ []) = Unit
Together box (c ∷ d ∷ cs) = AllSafe box (c ∷ d ∷ cs)

-- Rounds that take the calls in order, each of which may run together.
pub data Rounds (box : Toolbox) : List ToolCallContent → List (List ToolCallContent) → Type 0 where
  stop : {calls : List ToolCallContent} → Rounds box calls []
  round :
      {batch behind : List ToolCallContent} {rounds : List (List ToolCallContent)}
      → Together box batch
      → Rounds box behind rounds
      → Rounds box (batch ++ behind) (batch ∷ rounds)

tool_answer_called :
    (c : ToolCallContent) (callback : Bool) (r : ToolResponse × Option (List ℕ))
    → tool_answer callback c r
      ≡ ends_with callback (tool_answer false c r).result (tool_answer false c r).critical
tool_answer_called c callback (response, some e) = refl
tool_answer_called c callback (response, none) = refl

-- Giving the callback does not change a call's result.
single_called :
    (box : Toolbox) (c : ToolCallContent) (callback : Bool)
    → let o = execute_single_tool box c false in
      execute_single_tool box c callback ≡ ends_with callback o.result o.critical
unfolding execute_single_tool
single_called box c callback = elim (Bool-cases c.invalid) [
  | inl e ↦ rw (e) refl
  | inr e ↦ elim (Option-cases (run_tool box c.tool_name)) [
    | inl none_e ↦ rw (e, none_e) refl
    | inr (run, some_e) ↦
        rw (e, some_e)
          (tool_answer_called c callback
            (run (record { id = c.tool_call_id; name = c.tool_name; input = c.input })))
  ]
]

abbrev and_then : Collected → Collected → Collected
and_then first second = elim first.failure [
  | some e ↦ first
  | none ↦ record {
    results = first.results ++ second.results;
    called = first.called ++ second.called;
    failure = second.failure;
  }
]

collect_one-and_then :
    (callback : Bool) (o : SingleRun) (a b : Collected)
    → collect_one callback o (and_then a b) ≡ and_then (collect_one callback o a) b
collect_one-and_then callback o a b = elim (Bool-cases o.critical) [
  | inl h ↦ rw (h) refl
  | inr h ↦ elim (Option-cases a.failure) [
    | inl e ↦
        rw (h, e)
          (ap
            (λ l. record {
              results = o.result ∷ a.results ++ b.results;
              called = l;
              failure = b.failure;
            })
            (sym (append_assoc (notified callback o.result) a.called b.called)))
    | inr (x, e) ↦ rw (h, e) refl
  ]
]

-- Running some calls and then others is running them all.
collect_append :
    (callback : Bool) (os ps : List SingleRun)
    → collect callback (os ++ ps) ≡ and_then (collect callback os) (collect callback ps)
unfolding collect
collect_append callback [] ps = refl
collect_append callback (o ∷ os) ps =
    ap (collect_one callback o) (collect_append callback os ps)
    ∙ collect_one-and_then callback o (collect callback os) (collect callback ps)

outcomes_append :
    (box : Toolbox) (cs ds : List ToolCallContent)
    → outcomes_of box (cs ++ ds) ≡ outcomes_of box cs ++ outcomes_of box ds
outcomes_append box [] ds = refl
outcomes_append box (c ∷ cs) ds =
    ap (◌∷◌ (execute_single_tool box c false)) (outcomes_append box cs ds)

span_lem :
    (box : Toolbox) (cs : List ToolCallContent)
    → let s = span_safe box cs in (s.0 ++ s.1 ≡ cs) × AllSafe box s.0 × (length s.1 ≤ length cs)
unfolding span_safe
span_lem box [] = (refl, tt, omega arith)
span_lem box (c ∷ cs) = elim (Bool-cases (is_parallel_safe box c)) [
  | inl h ↦
      let rest = span_lem box cs in rw (h) (ap (◌∷◌ c) rest.0, (h, rest.1), omega (arith, rest.2))
  | inr h ↦ rw (h) (refl, tt, omega arith)
]

answer_of-and_then :
    (first second : Collected)
    → first.failure ≡ none
    → with_results first.results (answer_of second) ≡ answer_of (and_then first second)
answer_of-and_then first second h = elim (Option-cases second.failure) [
  | inl e ↦ rw (h, e) refl
  | inr (x, e) ↦ rw (h, e) refl
]

abbrev rounds_after :
    List ToolCallContent
    → Option (List ℕ)
    → List (List ToolCallContent)
    → List (List ToolCallContent)
rounds_after batch (some e) rounds = batch ∷ []
rounds_after batch none rounds = batch ∷ rounds

abbrev pub execution_of : Collected → List (List ToolCallContent) → Execution
execution_of c rounds = record { answer = answer_of c; called = c.called; rounds = rounds }

run_batch-and_then :
    (batch : List ToolCallContent) (first second : Collected) (rounds : List (List ToolCallContent))
    → run_batch batch first (some (execution_of second rounds))
      ≡ some (execution_of (and_then first second) (rounds_after batch first.failure rounds))
run_batch-and_then batch first second rounds = elim (Option-cases first.failure) [
  | inl e ↦ elim (Option-cases second.failure) [
    | inl e2 ↦ rw (e, e2) refl
    | inr (y, e2) ↦ rw (e, e2) refl
  ]
  | inr (x, e) ↦ rw (e) refl
]

run_barrier-and_then :
    (callback : Bool) (c : ToolCallContent) (o : SingleRun) (second : Collected)
    (rounds : List (List ToolCallContent))
    → let first = collect callback (o ∷ []) in
      run_barrier c (ends_with callback o.result o.critical) (some (execution_of second rounds))
      ≡ some (execution_of (and_then first second) (rounds_after (c ∷ []) first.failure rounds))
unfolding collect
run_barrier-and_then true c o second rounds = elim (Bool-cases o.critical) [
  | inl e ↦ rw (e) refl
  | inr e ↦ elim (Option-cases second.failure) [
    | inl e2 ↦ rw (e, e2) refl
    | inr (y, e2) ↦ rw (e, e2) refl
  ]
]
run_barrier-and_then false c o second rounds = elim (Bool-cases o.critical) [
  | inl e ↦ rw (e) refl
  | inr e ↦ elim (Option-cases second.failure) [
    | inl e2 ↦ rw (e, e2) refl
    | inr (y, e2) ↦ rw (e, e2) refl
  ]
]

AllSafe-Together :
    (box : Toolbox) (c : ToolCallContent) (cs : List ToolCallContent)
    → AllSafe box (c ∷ cs)
    → Together box (c ∷ cs)
AllSafe-Together box c [] h = tt
AllSafe-Together box c (d ∷ cs) h = h

rounds_after-Rounds :
    (box : Toolbox) (batch behind : List ToolCallContent) (failure : Option (List ℕ))
    (rounds : List (List ToolCallContent))
    → Together box batch
    → Rounds box behind rounds
    → Rounds box (batch ++ behind) (rounds_after batch failure rounds)
rounds_after-Rounds box batch behind none rounds t r = round t r
rounds_after-Rounds box batch behind (some e) rounds t r = round t stop

-- What `execute_from` gives.
abbrev Agrees : Toolbox → Bool → List ToolCallContent → Option Execution → Type 0
Agrees box callback calls x =
    (rounds : List (List ToolCallContent)) × (x
      ≡ some (execution_of (one_at_a_time box callback calls) rounds))
    × Rounds box calls rounds

batch-Agrees :
    (box : Toolbox) (callback : Bool) (batch behind : List ToolCallContent) (x : Option Execution)
    → Together box batch
    → Agrees box callback behind x
    → Agrees box callback
        (batch ++ behind)
        (run_batch batch (collect callback (outcomes_of box batch)) x)
batch-Agrees box callback batch behind x t (rounds, e, r) =
    let first = collect callback (outcomes_of box batch) in
    (
      rounds_after batch first.failure rounds,
      ap (run_batch batch first) e
          ∙ run_batch-and_then batch first (one_at_a_time box callback behind) rounds
          ∙ ap (λ c. some (execution_of c (rounds_after batch first.failure rounds)))
              (sym (
                ap (collect callback) (outcomes_append box batch behind)
                ∙ collect_append callback (outcomes_of box batch) (outcomes_of box behind))),
      rounds_after-Rounds box batch behind first.failure rounds t r,
    )

barrier-Agrees :
    (box : Toolbox) (callback : Bool) (c : ToolCallContent) (behind : List ToolCallContent)
    (x : Option Execution)
    → Agrees box callback behind x
    → Agrees box callback (c ∷ behind) (run_barrier c (execute_single_tool box c callback) x)
barrier-Agrees box callback c behind x (rounds, e, r) =
    let o = execute_single_tool box c false in
    let first = collect callback (o ∷ []) in
    (
      rounds_after (c ∷ []) first.failure rounds,
      ap (run_barrier c (execute_single_tool box c callback)) e
          ∙ ap
              (λ s.
                run_barrier c s (some (execution_of (one_at_a_time box callback behind) rounds)))
              (single_called box c callback)
          ∙ run_barrier-and_then callback c o (one_at_a_time box callback behind) rounds
          ∙ ap (λ l. some (execution_of l (rounds_after (c ∷ []) first.failure rounds)))
              (sym (collect_append callback (o ∷ []) (outcomes_of box behind))),
      rounds_after-Rounds box (c ∷ []) behind first.failure rounds tt r,
    )

execute_from-Agrees :
    (fuel : ℕ) (box : Toolbox) (callback : Bool) (calls : List ToolCallContent)
    → length calls ≤ fuel
    → Agrees box callback calls (execute_from fuel box callback calls)
unfolding execute_from span_safe collect
execute_from-Agrees fuel box callback [] h = ([], refl, stop)
execute_from-Agrees zero box callback (c ∷ cs) h = absurd (omega arith)
execute_from-Agrees (suc fuel) box callback (c ∷ cs) h =
    elim (Bool-cases (is_parallel_safe box c)) [
      | inl safe ↦
          let s = span_lem box cs in
          rw (safe) (
            subst
              (λ l. Agrees box callback (c ∷ l) (
                run_batch (c ∷ (span_safe box cs).0)
                  (collect callback (outcomes_of box (c ∷ (span_safe box cs).0)))
                  (execute_from fuel box callback (span_safe box cs).1)))
              s.0
              (batch-Agrees box callback (c ∷ (span_safe box cs).0) (span_safe box cs).1 _
                (AllSafe-Together box c (span_safe box cs).0 (safe, s.1))
                (execute_from-Agrees fuel box callback (span_safe box cs).1
                  (omega (arith, h, s.2)))))
      | inr alone ↦ rw (alone) (
          barrier-Agrees box callback c cs _
            (execute_from-Agrees fuel box callback cs (omega (arith, h))))
    ]

-- The run of the calls ends, and gives what the calls give one at a time in their order: the same
-- results or the error of the first critical one, and the same calls of the callback. Its rounds
-- take the calls in order, and a round of more than one call has only calls that are safe to run
-- together.
pub execute_parallel-one_at_a_time :
    (box : Toolbox) (callback : Bool) (calls : List ToolCallContent)
    → (rounds : List (List ToolCallContent)) × (execute_parallel box callback calls
        ≡ some (execution_of (one_at_a_time box callback calls) rounds))
      × Rounds box calls rounds
execute_parallel-one_at_a_time box callback calls =
    execute_from-Agrees (length calls) box callback calls (omega arith)
