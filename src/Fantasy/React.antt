-- ===== src/Fantasy/React.antt =====
-- The ReAct loop's state machine: internal/fantasy/react_fsm.go and react_fsm_machine.go.
-- The transition engine (github.com/qmuntal/stateless) is the parameter `StateMachine`.
pub mod Chain
pub mod Order
pub mod Liveness
pub mod Machine
