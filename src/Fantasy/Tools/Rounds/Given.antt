-- ===== src/Fantasy/Tools/Rounds/Given.antt =====
-- What a call's tool gives in `DAGToolRuntime.Execute`, with the input's references replaced apart
-- from the code that replaces them.
use dragonscale.Prelude.{ℕ, inl, inr, ◌≡◌, false, List, Sum-cases, arith}
use dragonscale.Fantasy.Tools.{ToolCallContent, ToolResultContent, SingleRun, execute_single_tool}
use dragonscale.Fantasy.Tools.Refs.{Results, resolve_input}
use dragonscale.Fantasy.Tools.Refs.Replaced.{Resolved}
use dragonscale.Fantasy.Tools.Refs.Rewrites.{resolve_input-Resolved, Resolved-resolve_input}
use dragonscale.Fantasy.Tools.Rounds.{Setup, execute_dag_node}
use dragonscale.Fantasy.Tools.Rounds.State.{Explained}

-- The result is what the call's tool gives on the call's input with each reference in it replaced by
-- what stands for it in the table.
pub record Given (s : Setup) (c : ToolCallContent) (table : Results) (r : ToolResultContent)
    : Type 0 where
  pub input : List ℕ
  pub resolved : Resolved s.json table c.input input
  pub ran : SingleRun
  pub runs : execute_single_tool s.box (record c { input = input }) false ≡ ran
  pub goes_on : ran.critical ≡ false
  pub result : ran.result ≡ r

pub Explained-Given :
    (s : Setup) (c : ToolCallContent) (table : Results) (r : ToolResultContent)
    → Explained s c table r
    → Given s c table r
unfolding execute_dag_node
Explained-Given s c table r (o, e, h, same) =
    elim (Sum-cases (resolve_input s.json table c.input)) [
      | inl (x, f) ↦ absurd (ground (arith, e, f))
      | inr (input, f) ↦ record {
        input = input;
        resolved = resolve_input-Resolved s.json table c.input input f;
        ran = o;
        runs = ground (arith, e, f);
        goes_on = h;
        result = same;
      }
    ]

pub Given-Explained :
    (s : Setup) (c : ToolCallContent) (table : Results) (r : ToolResultContent)
    → Given s c table r
    → Explained s c table r
unfolding execute_dag_node
Given-Explained s c table r g = (
  g.ran,
  ground (arith, g.runs, Resolved-resolve_input s.json table c.input g.resolved),
  g.goes_on,
  g.result,
)
