-- ===== src/Fantasy/Tools.antt =====
-- The calls of tools of internal/fantasy: the types of tool.go and content.go, and
-- `executeSingleTool` of tool_runtime_parallel.go. A text is its code points, an error its text, and
-- a tool answers each call with a value; a callback is the list of the results that it is given.
pub mod Parallel
pub mod Batches
pub mod Json
pub mod Refs
pub mod Graph
pub mod Rounds
use dragonscale.Prelude.{
  ℕ, ◌+◌, ◌-◌, ◌*◌, ◌/◌, ◌%◌, Bool, true, false, ◌||◌, List, [], ◌∷◌, ◌++◌, Option, none, some, map,
  ite, ltb, ◌==◌, if◌then◌else◌,
}
use dragonscale.Prelude.Text.{codes, codes_eq, is_text}

pub record ToolCallContent : Type 0 where
  pub tool_call_id : List ℕ
  pub tool_name : List ℕ
  pub input : List ℕ
  pub invalid : Bool
  pub validation_error : Option (List ℕ)

-- `ToolResultOutputContent`, with the nil interface.
pub data ToolResultOutput : Type 0 where
  no_output : ToolResultOutput
  text_output : List ℕ → ToolResultOutput
  error_output : Option (List ℕ) → ToolResultOutput
  media_output : List ℕ → List ℕ → List ℕ → ToolResultOutput

pub record ToolResultContent : Type 0 where
  pub tool_call_id : List ℕ
  pub tool_name : List ℕ
  pub result : ToolResultOutput
  pub client_metadata : List ℕ
  pub provider_executed : Bool
  pub stop_turn : Bool

-- `ToolCall`.
pub record ToolCall : Type 0 where
  pub id : List ℕ
  pub name : List ℕ
  pub input : List ℕ

pub record ToolResponse : Type 0 where
  pub kind : List ℕ
  pub content : List ℕ
  pub data_bytes : List ℕ
  pub media_type : List ℕ
  pub metadata : List ℕ
  pub is_error : Bool
  pub stop_turn : Bool

-- What is used of an `AgentTool`, and of an `ExecutableProviderTool`.
pub record AgentTool : Type 0 where
  pub name : List ℕ
  pub parallel : Bool
  pub run : ToolCall → ToolResponse × Option (List ℕ)

pub record ProviderTool : Type 0 where
  pub name : List ℕ
  pub run : ToolCall → ToolResponse × Option (List ℕ)

pub record Toolbox : Type 0 where
  pub tools : List AgentTool
  pub provider_tools : List ProviderTool

-- `toolMap[name]`: of two tools with one name, the last.
unfoldable pub find_tool : List ℕ → List AgentTool → Option AgentTool
find_tool name [] = none
find_tool name (t ∷ ts) = elim (find_tool name ts) [
  | none ↦ ite (codes_eq t.name name) (some t) none
  | some later ↦ some later
]

unfoldable pub find_provider_tool : List ℕ → List ProviderTool → Option ProviderTool
find_provider_tool name [] = none
find_provider_tool name (t ∷ ts) = elim (find_provider_tool name ts) [
  | none ↦ ite (codes_eq t.name name) (some t) none
  | some later ↦ some later
]

abbrev pub is_parallel_safe : Toolbox → ToolCallContent → Bool
is_parallel_safe box tc =
    if tc.invalid
    then false
    else elim (find_tool tc.tool_name box.tools) [ none ↦ false | some t ↦ t.parallel ]

-- `base64.StdEncoding.EncodeToString`: a digit, and the text of some bytes.
abbrev pub base64_digit : ℕ → ℕ
base64_digit n =
    if ltb n 26
    then n + 65
    else if ltb n 52
    then n + 71
    else if ltb n 62
    then (n + 48) - 52
    else if n == 62
    then 43
    else 47

abbrev pub base64 : List ℕ → List ℕ
base64 [] = []
base64 (a ∷ []) = base64_digit (a / 4) ∷ base64_digit (a % 4 * 16) ∷ 61 ∷ 61 ∷ []
base64 (a ∷ b ∷ []) =
    base64_digit (a / 4) ∷ base64_digit (a % 4 * 16 + b / 16) ∷ base64_digit (b % 16 * 4) ∷ 61 ∷ []
base64 (a ∷ b ∷ c ∷ rest) =
    base64_digit (a / 4)
    ∷ base64_digit (a % 4 * 16 + b / 16)
    ∷ base64_digit (b % 16 * 4 + c / 64)
    ∷ base64_digit (c % 64)
    ∷ base64 rest

-- The output of a tool that returned no error.
abbrev pub output_of : ToolResponse → ToolResultOutput
output_of r =
    if r.is_error
    then error_output (some r.content)
    else if is_text r.kind "image" || is_text r.kind "media"
    then media_output (base64 r.data_bytes) r.media_type r.content
    else text_output r.content

-- A call's result, whether it is critical, and the results that the callback is given.
pub record SingleRun : Type 0 where
  pub result : ToolResultContent
  pub critical : Bool
  pub called : List ToolResultContent

abbrev pub notified : Bool → ToolResultContent → List ToolResultContent
notified callback r = if callback then r ∷ [] else []

abbrev pub ends_with : Bool → ToolResultContent → Bool → SingleRun
ends_with callback r critical = record {
  result = r;
  critical = critical;
  called = notified callback r;
}

abbrev pub blank_result : ToolCallContent → ToolResultOutput → ToolResultContent
blank_result tc out = record {
  tool_call_id = tc.tool_call_id;
  tool_name = tc.tool_name;
  result = out;
  client_metadata = [];
  provider_executed = false;
  stop_turn = false;
}

abbrev pub tool_answer : Bool → ToolCallContent → ToolResponse × Option (List ℕ) → SingleRun
tool_answer callback tc (response, err) =
    let result : ToolResultOutput → ToolResultContent = λ out. record {
      tool_call_id = tc.tool_call_id;
      tool_name = tc.tool_name;
      result = out;
      client_metadata = response.metadata;
      provider_executed = false;
      stop_turn = response.stop_turn;
    } in
    elim err [
      | some e ↦ ends_with callback (result (error_output (some e))) true
      | none ↦ ends_with callback (result (output_of response)) false
    ]

-- `runTool`, which is nil when no tool has the name.
abbrev pub run_tool : Toolbox → List ℕ → Option (ToolCall → ToolResponse × Option (List ℕ))
run_tool box name = elim (find_tool name box.tools) [
  | some t ↦ some t.run
  | none ↦ elim (find_provider_tool name box.provider_tools) [ some t ↦ some t.run | none ↦ none ]
]

unfoldable pub execute_single_tool : Toolbox → ToolCallContent → Bool → SingleRun
execute_single_tool box tc callback =
    if tc.invalid
    then ends_with callback (blank_result tc (error_output tc.validation_error)) false
    else elim (run_tool box tc.tool_name) [
      | none ↦
          let message = codes "tool not found: " ++ tc.tool_name in
          ends_with callback (blank_result tc (error_output (some message))) false
      | some run ↦
          tool_answer callback tc
            (run (record { id = tc.tool_call_id; name = tc.tool_name; input = tc.input }))
    ]

-- The error that ends a run at a critical result.
abbrev pub critical_error : ToolResultContent → List ℕ
critical_error r = elim r.result [ error_output (some e) ↦ e | _ ↦ codes "critical tool error" ]
