-- ===== src/Tests/React.antt =====
-- internal/fantasy/react_fsm_machine.go at concrete runs.
use dragonscale.Prelude.{ℕ, ◌≡◌, refl, true, false, none, List, [], ◌∷◌}
use dragonscale.Fantasy.React.Machine.{
  ReActTrigger, ReActTrigger-discrete, ReActFsm, StateMachine, start, prepared, llm_responded,
  tools_validated, continue, configure, permitted, new_react_fsm, notify, on_transitioned, fire,
  fire_all, init, tool_execution, done,
}
use dragonscale.Fantasy.React.Chain.{IsTraced, new_react_fsm-IsTraced, fire_all-IsTraced}
use dragonscale.Fantasy.React.Order.{EndsValidated, tool_execution-EndsValidated}
use dragonscale.Fantasy.React.Liveness.{way_out, at_once}

program : Unit {0}
unfolding ReActTrigger-discrete configure permitted new_react_fsm notify on_transitioned fire
    fire_all way_out
program = tt

-- An engine that looks the trigger up.
abbrev engine : StateMachine
engine = record { fire_ctx = λ ps s t. permitted (ps s) t; fire_permitted = λ ps s t. refl }

-- `errored` is fired in a state that permits it only after the tools ran; `continue` is not
-- permitted where it is fired, and is passed over.
abbrev script : List (ReActTrigger × ℕ × ℕ)
script =
    (start, 1, 0)
    ∷ (prepared, 2, 0)
    ∷ (continue, 3, 0)
    ∷ (llm_responded, 4, 0)
    ∷ (tools_validated, 5, 0)
    ∷ []

script_state : (fire_all engine (new_react_fsm true) script).state ≡ tool_execution
unfolding program
script_state = refl

fire_all-IsTraced_example : IsTraced (fire_all engine (new_react_fsm true) script)
fire_all-IsTraced_example =
    fire_all-IsTraced engine (new_react_fsm true) script (new_react_fsm-IsTraced true)

tool_execution-EndsValidated_example :
    EndsValidated (fire_all engine (new_react_fsm true) script).log
tool_execution-EndsValidated_example = tool_execution-EndsValidated engine true script script_state

abbrev ended : ReActFsm
ended = record { state = done; log = []; observer = none }

ended_stays : fire_all engine ended script ≡ ended
unfolding program
ended_stays = refl

reaches_done : (fire_all engine (new_react_fsm false) (at_once 7 1 (way_out init))).state ≡ done
unfolding program
reaches_done = refl
