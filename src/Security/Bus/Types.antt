-- ===== src/Security/Bus/Types.antt =====
-- Requests and responses (pkg/itr/commands.go), audit events (audit.go), and what a bus is
-- configured with (bus.go).
use Prim.Native.String.{String}
use dragonscale.Prelude.{ℕ, Bool, true, false, List, [], ◌∷◌, ◌++◌, Option}
use dragonscale.Security.Redact.{RedactPattern}
use dragonscale.Security.Policy.Engine.{Args, ToolCapabilities, PolicyError, Stdlib, PolicyEngine}

pub data CommandType : Type 0 where
  peek grep partition recurse tool_exec exec_wasm final tool_search code_exec dag_plan : CommandType
  unknown : String → CommandType

pub record ToolExec : Type 0 where
  pub tool_name : String
  pub args_json : String

-- The payload of a request: the three that the bus looks into, and any other.
pub data Payload : Type 0 where
  exec : ToolExec → Payload
  search : String → ℕ → Payload  -- the query, and MaxResults (uint8)
  answer : String → Payload  -- Final.Answer
  opaque : Payload

pub record ToolRequest : Type 0 where
  pub id : String
  pub type : CommandType
  pub payload : Payload
  pub depth : ℕ  -- uint8
  pub session_key : String
  pub tool_call_id : String

pub data SecretError : Type 0 where
  secret_not_found : SecretError
  secret_failure : String → SecretError

pub data SecretResult : Type 0 where
  found : String → SecretResult
  missing : SecretError → SecretResult

-- A response text: a tool's, or one of the bus's own error messages.
pub data Message : Type 0 where
  plain : String → Message
  policy_violation : PolicyError → Message
  not_tool_exec invalid_args not_tool_search search_not_configured : Message
  secret_injection_failed : String → SecretError → Message
  not_handled : CommandType → Message

-- `RedactedKeys` is nil in every response of the bus.
pub record ToolResponse : Type 0 where
  pub id : String
  pub result : Message
  pub is_error : Bool
  pub leak_detected : Bool
  pub cost_tokens : ℕ

unfoldable pub new_success_response : String → Message → ℕ → ToolResponse
new_success_response id result cost = record {
  id = id;
  result = result;
  is_error = false;
  leak_detected = false;
  cost_tokens = cost;
}

unfoldable pub new_error_response : String → Message → ToolResponse
new_error_response id msg = record {
  id = id;
  result = msg;
  is_error = true;
  leak_detected = false;
  cost_tokens = 0;
}

unfoldable pub new_leak_response : String → Message → ToolResponse
new_leak_response id redacted = record {
  id = id;
  result = redacted;
  is_error = false;
  leak_detected = true;
  cost_tokens = 0;
}

-- `AuditEvent`; `at` and `duration_ms` are readings of the clock. The bus never sets
-- `RedactedKeys`. An empty `ExecutionError` is `plain ""`.
pub record AuditEvent : Type 0 where
  pub request_id : String
  pub session_key : String
  pub tool_call_id : String
  pub tool_name : String
  pub command_type : CommandType
  pub tool_input : String
  pub depth : ℕ
  pub at : ℕ
  pub duration_ms : ℕ
  pub is_error : Bool
  pub leak_detected : Bool
  pub secrets_accessed : List String
  pub policy_violated : Option PolicyError
  pub execution_error : Message

pub record ToolResult : Type 0 where
  pub for_llm : String
  pub is_error : Bool

-- What the bus is built from. `unmarshal` decodes the arguments' JSON, to none for an error and to a
-- nil map for a null; the executor is given the tool, its arguments and the injected keys, and may return nil.
pub record BusDeps (O : Type 0) : Type 0 where
  pub std : Stdlib
  pub policy : PolicyEngine
  pub secrets : Option (String → SecretResult)
  pub redactor : List RedactPattern
  pub cap_lookup : String → Option ToolCapabilities
  pub unmarshal : String → Option (Args O)
  pub executor : String → Args O → List String → Option ToolResult
  pub search_tools : Option (String → ℕ → String)

-- A run of the executor.
pub record Call (O : Type 0) : Type 0 where
  pub tool : String
  pub args : Args O
  pub injected : List String

-- The audit log's events, oldest first, and the executor's runs so far.
pub record BusState (O : Type 0) : Type 0 where
  pub events : List AuditEvent
  pub calls : List (Call O)

-- `AuditLog.Append`: the event is kept whatever the sinks return, and the bus only logs their error.
unfoldable pub append_event : {O : Type 0} → BusState O → AuditEvent → BusState O
append_event st e = record st { events = st.events ++ (e ∷ []) }
