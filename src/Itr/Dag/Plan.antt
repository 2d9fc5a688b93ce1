-- ===== src/Itr/Dag/Plan.antt =====
-- The data of pkg/itr/dag/executor.go: a plan's nodes, what runs them, and what a run leaves.
use dragonscale.Prelude.{ℕ, ◌⊎◌, Bool, List, Option}
use dragonscale.Prelude.Int.{ℤ}

-- `DAGNode`, with a payload that only the request reads.
pub record PlanNode (K P : Type 0) : Type 0 where
  pub id : K
  pub depends_on : List K
  pub payload : P

-- The errors of a node, and those that `Execute` returns.
pub data NodeError (K : Type 0) : Type 0 where
  node_failed : K → List ℕ → NodeError K
  dependency_failed : K → NodeError K → NodeError K
  unknown_dependency : K → NodeError K
  not_in_plan : K → NodeError K

pub data ExecuteError (K : Type 0) : Type 0 where
  cyclic : List K → ExecuteError K
  wave_failed : NodeError K → ExecuteError K
  join_failed : List ℕ → ExecuteError K

-- `nodeState.result` and `err`, once they are set.
pub record NodeResult (K : Type 0) : Type 0 where
  pub output : List ℕ
  pub err : Option (NodeError K)

-- What the bus answers.
pub record Response : Type 0 where
  pub result : List ℕ
  pub is_error : Bool
  pub cost_tokens : ℕ

-- `respond` is `executeNode`: it is handed the outputs of the nodes by id, none for an id that is no
-- node. `expander` is `rlmExpand` with its threshold, and answers none for an error.
pub record Services (K P : Type 0) : Type 0 where
  pub respond : PlanNode K P → (K → Option (List ℕ)) → Response
  pub expander : Option (ℤ × (List ℕ → Option (List ℕ × ℕ)))
  pub join : List (K × List ℕ) → List ℕ ⊎ (List ℕ × ℕ)

pub record ExecuteResult (K : Type 0) : Type 0 where
  pub final_answer : List ℕ
  pub node_results : List (K × List ℕ)
  pub total_tokens : ℕ

-- `stalled` is a node that waits for one that never ends, or that has no state, and `unfinished` an
-- order whose loop does not end.
pub data Outcome (K : Type 0) : Type 0 where
  answered : ExecuteResult K → Outcome K
  failed : ExecuteError K → Outcome K
  stalled unfinished : Outcome K

pub data DepCheck (K : Type 0) : Type 0 where
  deps_ready deps_waiting : DepCheck K
  deps_failed : NodeError K → DepCheck K

-- What one goroutine leaves: the result, the tokens, and whether it sets `waveErr`.
pub record Ran (K : Type 0) : Type 0 where
  pub result : NodeResult K
  pub tokens : ℕ
  pub wave_err : Option (NodeError K)

-- The results so far, the tokens, and `waveErr`.
pub record Progress (K : Type 0) : Type 0 where
  pub results : List (K × NodeResult K)
  pub tokens : ℕ
  pub wave_err : Option (NodeError K)
