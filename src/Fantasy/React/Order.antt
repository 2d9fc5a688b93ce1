-- ===== src/Fantasy/React/Order.antt =====
-- The order of the phases of one step: what stands in the log before tools are executed.
use dragonscale.Prelude.{◌∙◌, ap, ◌≡◌, some, List, [], ◌∷◌, ◌++◌, inl, inr, arith, ℕ, Bool}
use dragonscale.Fantasy.React.Machine.{
  ReActState, ReActTrigger, ReActTransition, StateMachine, init, llm_call, tool_validation,
  tool_execution, llm_responded, tools_validated, configure, permitted, new_react_fsm, fire_all,
}
use dragonscale.Fantasy.React.Chain.{Chain, Chain-Last, new_react_fsm-IsTraced, fire_all-IsTraced}

into_execution :
    (s : ReActState) (t : ReActTrigger)
    → permitted (configure s) t ≡ some tool_execution
    → (s ≡ tool_validation) × (t ≡ tools_validated)
unfolding configure permitted
into_execution s t h = ground arith

into_validation :
    (s : ReActState) (t : ReActTrigger)
    → permitted (configure s) t ≡ some tool_validation
    → (s ≡ llm_call) × (t ≡ llm_responded)
unfolding configure permitted
into_validation s t h = ground arith

-- The log ends with the model's answer and its validation.
pub record EndsValidated (l : List ReActTransition) : Type 0 where
  pub front : List ReActTransition
  pub responded : ReActTransition
  pub validated : ReActTransition
  pub split : l ≡ (front ++ (responded ∷ [])) ++ (validated ∷ [])
  pub responded_from : responded.from ≡ llm_call
  pub responded_by : responded.trigger ≡ llm_responded
  pub responded_to : responded.to ≡ tool_validation
  pub validated_from : validated.from ≡ tool_validation
  pub validated_by : validated.trigger ≡ tools_validated
  pub validated_to : validated.to ≡ tool_execution

validation_last :
    (l : List ReActTransition)
    → Chain init l tool_validation
    → (front : List ReActTransition) × (t : ReActTransition) × (l ≡ front ++ (t ∷ []))
      × (t.from ≡ llm_call)
      × (t.trigger ≡ llm_responded)
      × (t.to ≡ tool_validation)
validation_last l c = elim (Chain-Last init tool_validation l c) [
  | inl r ↦ cc
  | inr r ↦
      let (from, by) = into_validation r.last.from r.last.trigger (r.step ∙ ap some r.ends) in
      (r.front, r.last, r.split, from, by, r.ends)
]

Chain-EndsValidated : (l : List ReActTransition) → Chain init l tool_execution → EndsValidated l
Chain-EndsValidated l c = elim (Chain-Last init tool_execution l c) [
  | inl r ↦ cc
  | inr r ↦
      let (from, by) = into_execution r.last.from r.last.trigger (r.step ∙ ap some r.ends) in
      let (front, t, e, f, b, to) = validation_last r.front (rw from at r.before) in
      record {
        front = front;
        responded = t;
        validated = r.last;
        split = rw (r.split, e);
        responded_from = f;
        responded_by = b;
        responded_to = to;
        validated_from = from;
        validated_by = by;
        validated_to = r.ends;
      }
]

-- Whenever a machine that was driven from a new one, by any triggers, executes tools, the last two
-- transitions of its log are the model's response and the validation of the tool calls.
pub tool_execution-EndsValidated :
    (sm : StateMachine) (observed : Bool) (ts : List (ReActTrigger × ℕ × ℕ))
    → (fire_all sm (new_react_fsm observed) ts).state ≡ tool_execution
    → EndsValidated (fire_all sm (new_react_fsm observed) ts).log
tool_execution-EndsValidated sm observed ts h = Chain-EndsValidated _ (
    rw h at
      (fire_all-IsTraced sm (new_react_fsm observed) ts (new_react_fsm-IsTraced observed)).chained)
