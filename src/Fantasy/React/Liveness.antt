-- ===== src/Fantasy/React/Liveness.antt =====
-- The end of a run: `done` absorbs every trigger, and it can be reached from every state.

use dragonscale.Prelude.{
  Option-cases, ◌≡◌, refl, some, none, List, [], ◌∷◌, inl, inr, arith, ℕ, Option,
}
use dragonscale.Fantasy.React.Machine.{
  ReActState, ReActTrigger, ReActTrigger-discrete, ReActFsm, StateMachine, configure, permitted,
  on_transitioned, fire, fire_all, done, init, prepare_step, llm_call, tool_validation,
  tool_execution, append_messages, stop_check, error, start, prepared, llm_responded,
  tools_validated, tools_executed, messages_appended, finished,
}

-- A way of triggers from a state to `done` that takes no error.
unfoldable pub way_out : ReActState → List ReActTrigger
way_out done = []
way_out stop_check = finished ∷ []
way_out error = finished ∷ []
way_out append_messages = messages_appended ∷ finished ∷ []
way_out tool_execution = tools_executed ∷ messages_appended ∷ finished ∷ []
way_out tool_validation = tools_validated ∷ tools_executed ∷ messages_appended ∷ finished ∷ []
way_out llm_call =
    llm_responded ∷ tools_validated ∷ tools_executed ∷ messages_appended ∷ finished ∷ []
way_out prepare_step =
    prepared ∷ llm_responded ∷ tools_validated ∷ tools_executed ∷ messages_appended ∷ finished ∷ []
way_out init =
    start ∷ prepared ∷ llm_responded ∷ tools_validated ∷ tools_executed ∷ messages_appended
    ∷ finished ∷ []

-- The state that permitted triggers lead to.
walk : ReActState → List ReActTrigger → Option ReActState
walk s [] = some s
walk s (t ∷ ts) = elim (permitted (configure s) t) [ none ↦ none | some u ↦ walk u ts ]

walk-way_out : (s : ReActState) → walk s (way_out s) ≡ some done
unfolding walk way_out configure permitted ReActTrigger-discrete
walk-way_out init = refl
walk-way_out _ = refl

walk-suc :
    (s : ReActState) (t : ReActTrigger) (ts : List ReActTrigger) (u e : ReActState)
    → permitted (configure s) t ≡ some u
    → walk s (t ∷ ts) ≡ some e
    → walk u ts ≡ some e
unfolding walk
walk-suc s t ts u e p h = ground arith

-- Triggers fired at one reading of the clock and one step index.
abbrev pub at_once : ℕ → ℕ → List ReActTrigger → List (ReActTrigger × ℕ × ℕ)
at_once now step [] = []
at_once now step (t ∷ ts) = (t, now, step) ∷ at_once now step ts

module _ (sm : StateMachine) where
  fire_done :
      (f : ReActFsm) (t : ReActTrigger) (now step : ℕ) → f.state ≡ done → fire sm f t now step ≡ f
  unfolding fire configure permitted
  fire_done f t now step h = ground (arith, sm.fire_permitted configure f.state t)

  -- A finished run stays as it is, whatever is fired: its state, its log and what the observer saw.
  pub done_absorbs :
      (f : ReActFsm) (ts : List (ReActTrigger × ℕ × ℕ)) → f.state ≡ done → fire_all sm f ts ≡ f
  unfolding fire_all
  done_absorbs f [] h = refl
  done_absorbs f ((t, now, step) ∷ ts) h = rw (fire_done f t now step h) (done_absorbs f ts h)

  fire_moves :
      (f : ReActFsm) (t : ReActTrigger) (now step : ℕ) (to : ReActState)
      → permitted (configure f.state) t ≡ some to
      → (fire sm f t now step).state ≡ to
  unfolding fire on_transitioned
  fire_moves f t now step to h = ground (arith, sm.fire_permitted configure f.state t)

  fire_all-walk :
      (f : ReActFsm) (ts : List ReActTrigger) (now step : ℕ) (e : ReActState)
      → walk f.state ts ≡ some e
      → (fire_all sm f (at_once now step ts)).state ≡ e
  unfolding walk fire_all
  fire_all-walk f [] now step e h = cc
  fire_all-walk f (t ∷ ts) now step e h = elim (Option-cases (permitted (configure f.state) t)) [
    | inl p ↦ ground arith
    | inr (u, p) ↦
        fire_all-walk (fire sm f t now step) ts now step e
          (rw (fire_moves f t now step u p) (walk-suc f.state t ts u e p h))
  ]

  -- From every state the machine can be driven to `done`: no state is a dead end.
  pub fire_all-way_out :
      (f : ReActFsm) (now step : ℕ)
      → (fire_all sm f (at_once now step (way_out f.state))).state ≡ done
  fire_all-way_out f now step =
      fire_all-walk f (way_out f.state) now step done (walk-way_out f.state)
