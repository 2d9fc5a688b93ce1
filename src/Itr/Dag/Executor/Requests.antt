-- ===== src/Itr/Dag/Executor/Requests.antt =====
-- The requests that pkg/itr/dag/executor.go and resolver.go make of a plan's nodes, and the joiner's
-- text. A text is its bytes. The bus, the JSON encoder and the joiner are parameters; the time of a
-- request, which nothing reads here, is left out.
use dragonscale.Prelude.{
  ℕ, zero, suc, ◌+◌, ◌-◌, ◌⊎◌, inl, inr, Bool, true, ◌&&◌, ◌||◌, List, [], ◌∷◌, ◌++◌, Option, none,
  some, length, take, drop, leb, ltb, ◌==◌, if◌then◌else◌,
}
use dragonscale.Prelude.Int.{ℤ}
use dragonscale.Prelude.Text.{join_by, codes, begins, contains_codes}
use dragonscale.Itr.Dag.Plan.{PlanNode, Response, Services}

-- `CommandType`, of a node, whose texts are bytes.
pub data CommandType : Type 0 where
  peek grep partition recurse tool_exec exec_wasm final tool_search code_exec dag_plan : CommandType

-- The payloads that a node's request reads, and any other with its Go type's name.
pub data Payload : Type 0 where
  exec_payload : List ℕ → List ℕ → Payload
  search_payload : List ℕ → ℕ → Payload
  other_payload : List ℕ → List ℕ → Payload

pub record Command : Type 0 where
  pub kind : CommandType
  pub payload : Payload

pub record ToolRequest : Type 0 where
  pub id : List ℕ
  pub kind : CommandType
  pub payload : Payload
  pub session_key : List ℕ
  pub tool_call_id : List ℕ

-- A byte of `[A-Za-z0-9_-]`.
abbrev pub is_id_byte : ℕ → Bool
is_id_byte c =
    (leb 48 c && leb c 57)
    || (leb 65 c && leb c 90)
    || (leb 97 c && leb c 122)
    || c == 95
    || c == 45

abbrev pub id_prefix : List ℕ → List ℕ
id_prefix [] = []
id_prefix (c ∷ cs) = let rest = id_prefix cs in if is_id_byte c then c ∷ rest else []

-- The match of `nodeRefPattern` at the front of a text, without its `#node`.
unfoldable pub reference : List ℕ → Option (List ℕ)
reference s =
    if begins (codes "#node") s
    then elim (id_prefix (drop 5 s)) [ [] ↦ none | c ∷ cs ↦ some (c ∷ cs) ]
    else none

-- `escapeForJSON`, over the encoder of a text.
abbrev pub escape_for_json : (List ℕ → Option (List ℕ)) → List ℕ → List ℕ
escape_for_json marshal s = elim (marshal s) [
  | none ↦ s
  | some b ↦ if ltb (length b) 2 then s else take (length b - 2) (drop 1 b)
]

-- What takes the place of a match, when this is its node's result.
abbrev pub replacement : (List ℕ → Option (List ℕ)) → List ℕ → Option (List ℕ) → List ℕ
replacement marshal id none = codes "#node" ++ id
replacement marshal id (some result) = escape_for_json marshal result

module _ (marshal : List ℕ → Option (List ℕ)) (outputs : List ℕ → Option (List ℕ)) where
  -- `resolveRefs` behind the given number of bytes, which a match has used up.
  abbrev pub resolve_from : ℕ → List ℕ → List ℕ
  resolve_from skip [] = []
  resolve_from (suc skip) (c ∷ cs) = resolve_from skip cs
  resolve_from zero (c ∷ cs) = elim (reference (c ∷ cs)) [
    | none ↦ c ∷ resolve_from zero cs
    | some id ↦ replacement marshal id (outputs id) ++ resolve_from (4 + length id) cs
  ]

  abbrev pub resolve_refs : List ℕ → List ℕ
  resolve_refs args = resolve_from 0 args

  -- `resolveToolExecArgs`.
  abbrev pub resolve_tool_exec_args : List ℕ → List ℕ
  resolve_tool_exec_args args =
      if contains_codes args (codes "#node") then resolve_refs args else args

-- The `%T` of a payload.
abbrev pub type_name : Payload → List ℕ
type_name (exec_payload name args) = codes "itr.ToolExec"
type_name (search_payload query limit) = codes "itr.ToolSearch"
type_name (other_payload name contents) = name

abbrev pub wrong_payload : List ℕ → List ℕ → Payload → List ℕ
wrong_payload id wanted p =
    codes "node " ++ id ++ codes ": expected " ++ wanted ++ codes " payload, got " ++ type_name p

module _ (marshal : List ℕ → Option (List ℕ)) (session : List ℕ) where
  -- `nodeToRequest`: the error's text, or the request.
  unfoldable pub node_to_request :
      PlanNode (List ℕ) Command → (List ℕ → Option (List ℕ)) → List ℕ ⊎ ToolRequest
  node_to_request n outputs = elim n.payload.kind [
    | tool_exec ↦ elim n.payload.payload [
      | exec_payload name args ↦ inr (record {
        id = n.id;
        kind = tool_exec;
        payload = exec_payload name (resolve_tool_exec_args marshal outputs args);
        session_key = session;
        tool_call_id = n.id;
      })
      | search_payload query limit ↦
          inl (wrong_payload n.id (codes "ToolExec") (search_payload query limit))
      | other_payload name contents ↦
          inl (wrong_payload n.id (codes "ToolExec") (other_payload name contents))
    ]
    | tool_search ↦ elim n.payload.payload [
      | search_payload query limit ↦ inr (record {
        id = n.id;
        kind = tool_search;
        payload = search_payload query limit;
        session_key = session;
        tool_call_id = [];
      })
      | exec_payload name args ↦
          inl (wrong_payload n.id (codes "ToolSearch") (exec_payload name args))
      | other_payload name contents ↦
          inl (wrong_payload n.id (codes "ToolSearch") (other_payload name contents))
    ]
    | kind ↦ inr (record {
      id = n.id;
      kind = kind;
      payload = n.payload.payload;
      session_key = session;
      tool_call_id = [];
    })
  ]

  -- `executeNode`.
  unfoldable pub execute_node :
      (ToolRequest → Response) → PlanNode (List ℕ) Command → (List ℕ → Option (List ℕ)) → Response
  execute_node bus n outputs = elim (node_to_request n outputs) [
    | inl message ↦ record { result = message; is_error = true; cost_tokens = 0 }
    | inr request ↦ bus request
  ]

-- `concatenateResults`.
abbrev pub results_of : List (List ℕ × List ℕ) → List (List ℕ)
results_of [] = []
results_of ((id, []) ∷ rs) = results_of rs
results_of ((id, c ∷ cs) ∷ rs) = (c ∷ cs) ∷ results_of rs

abbrev pub concatenate_results : List (List ℕ × List ℕ) → List ℕ
concatenate_results rs = join_by (10 ∷ []) (results_of rs)

-- `truncate`, at a limit that is not negative.
abbrev pub truncate : List ℕ → ℕ → List ℕ
truncate s max = if leb (length s) max then s else take max s ++ codes "..."

abbrev pub result_lines : List (List ℕ × List ℕ) → List ℕ
result_lines [] = []
result_lines ((id, result) ∷ rs) =
    codes "- " ++ id ++ codes ": " ++ truncate result 2000 ++ (10 ∷ result_lines rs)

abbrev pub joiner_prompt : List ℕ
joiner_prompt =
    codes
      "You are synthesizing results from parallel tool executions into a coherent final answer. Be concise and precise."

-- `join`, of the results in the order in which the map is read.
unfoldable pub join :
    Option (List ℕ → List ℕ → List ℕ ⊎ (List ℕ × ℕ))
    → List ℕ
    → List (List ℕ × List ℕ)
    → List ℕ ⊎ (List ℕ × ℕ)
join none query rs = inr (concatenate_results rs, 0)
join (some joiner) [] rs = inr (concatenate_results rs, 0)
join (some joiner) (c ∷ cs) rs =
    joiner joiner_prompt ((c ∷ cs) ++ (10 ∷ 10 ∷ (codes "Node results:" ++ (10 ∷ result_lines rs))))

-- The executor's fields, and what they are called with.
pub record Executor : Type 0 where
  pub bus : ToolRequest → Response
  pub marshal : List ℕ → Option (List ℕ)
  pub rlm_expand : Option (ℤ × (List ℕ → Option (List ℕ × ℕ)))
  pub joiner : Option (List ℕ → List ℕ → List ℕ ⊎ (List ℕ × ℕ))

abbrev pub services_of : Executor → List ℕ → List ℕ → Services (List ℕ) Command
services_of e session query = record {
  respond = execute_node e.marshal session e.bus;
  expander = e.rlm_expand;
  join = join e.joiner query;
}
