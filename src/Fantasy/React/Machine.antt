-- ===== src/Fantasy/React/Machine.antt =====
-- react_fsm.go and react_fsm_machine.go: states, triggers, the configured transitions, `Fire`.
use dragonscale.Prelude.{ℕ, ◌≡◌, Bool, Option, none, some, List, [], ◌∷◌, ◌++◌, ite, if◌then◌else◌}

pub data ReActState : Type 0 where
  init prepare_step llm_call tool_validation tool_execution append_messages stop_check done error :
      ReActState

pub data ReActTrigger : Type 0 where
  start prepared llm_responded tools_validated tools_executed messages_appended : ReActTrigger
  stop_condition_met continue finished errored recovered_continue : ReActTrigger

unfoldable pub ReActTrigger-discrete : Discrete ReActTrigger
ReActTrigger-discrete = hlevel

-- `Meta` and `Error` are never set by the machine. `at` is the clock's reading.
pub record ReActTransition : Type 0 where
  pub from : ReActState
  pub to : ReActState
  pub trigger : ReActTrigger
  pub at : ℕ
  pub step_index : ℕ

abbrev pub Permits : Type 0
Permits = ReActState → List (ReActTrigger × ReActState)

-- `configure`: for each state the `Permit` lines, in order. `done` has none.
unfoldable pub configure : Permits
configure init = (start, prepare_step) ∷ (errored, error) ∷ []
configure prepare_step = (prepared, llm_call) ∷ (errored, error) ∷ []
configure llm_call = (llm_responded, tool_validation) ∷ (errored, error) ∷ []
configure tool_validation = (tools_validated, tool_execution) ∷ (errored, error) ∷ []
configure tool_execution = (tools_executed, append_messages) ∷ (errored, error) ∷ []
configure append_messages = (messages_appended, stop_check) ∷ (errored, error) ∷ []
configure stop_check =
    (stop_condition_met, done) ∷ (finished, done) ∷ (continue, prepare_step) ∷ (errored, error) ∷ []
configure error = (finished, done) ∷ (recovered_continue, prepare_step) ∷ []
configure done = []

-- The destination that a state's `Permit` lines give to a trigger.
unfoldable pub permitted : List (ReActTrigger × ReActState) → ReActTrigger → Option ReActState
permitted [] t = none
permitted ((u, s) ∷ ps) t = ite (ReActTrigger-discrete u t) (some s) (permitted ps t)

-- What the machine relies on of the engine: firing a trigger that the state permits moves to its
-- destination, and any other trigger goes to `OnUnhandledTrigger`, which returns nil.
pub record StateMachine : Type 0 where
  pub fire_ctx : Permits → ReActState → ReActTrigger → Option ReActState
  pub fire_permitted :
      (ps : Permits) (s : ReActState) (t : ReActTrigger) → fire_ctx ps s t ≡ permitted (ps s) t

-- `reactFSM`. `observer` is `some` of what the observer was told, oldest first.
pub record ReActFsm : Type 0 where
  pub state : ReActState
  pub log : List ReActTransition
  pub observer : Option (List ReActTransition)

unfoldable pub new_react_fsm : Bool → ReActFsm
new_react_fsm observed = record {
  state = init;
  log = [];
  observer = if observed then some [] else none;
}

unfoldable pub notify :
    Option (List ReActTransition) → ReActTransition → Option (List ReActTransition)
notify none t = none
notify (some seen) t = some (seen ++ (t ∷ []))

-- `OnTransitioned`: the transition is appended to the log, then the observer is told.
unfoldable pub on_transitioned : ReActFsm → ReActTransition → ReActFsm
on_transitioned f t = record f {
  state = t.to;
  log = f.log ++ (t ∷ []);
  observer = notify f.observer t;
}

module _ (sm : StateMachine) where
  -- `Fire`, at a reading of the clock and of the caller's step index.
  unfoldable pub fire : ReActFsm → ReActTrigger → ℕ → ℕ → ReActFsm
  fire f trigger now step = elim (sm.fire_ctx configure f.state trigger) [
    | none ↦ f
    | some to ↦
        on_transitioned f
          (record { from = f.state; to = to; trigger = trigger; at = now; step_index = step })
  ]

  -- The triggers of a whole run, each with its clock reading and step index.
  unfoldable pub fire_all : ReActFsm → List (ReActTrigger × ℕ × ℕ) → ReActFsm
  fire_all f [] = f
  fire_all f ((trigger, now, step) ∷ ts) = fire_all (fire f trigger now step) ts
