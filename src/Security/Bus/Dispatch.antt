-- ===== src/Security/Bus/Dispatch.antt =====
-- `dispatch` of bus.go: the stages of a tool execution in order, and the other commands.
use Prim.Native.String.{String}
use text.Mathlib.Text.{◌==◌ as str_eq}
use dragonscale.Prelude.{
  ℕ, ◌==◌, true, false, ◌||◌, List, [], ◌∷◌, ◌++◌, Option, none, some, if◌then◌else◌,
}
use dragonscale.Security.Redact.{RedactPattern, redact, contains_sensitive, sanitize_audit_field}
use dragonscale.Security.Policy.Engine.{
  Args, ToolCapabilities, zero_capabilities, PolicyError, validate, validate_tool_execution,
}
use dragonscale.Security.Bus.Types.{
  CommandType, tool_exec, final, tool_search, ToolExec, Payload, exec, search, answer, ToolRequest,
  Message, plain, policy_violation, not_tool_exec, invalid_args, not_tool_search,
  search_not_configured, secret_injection_failed, not_handled, ToolResponse, new_success_response,
  new_error_response, new_leak_response, AuditEvent, ToolResult, BusDeps, Call, BusState,
  append_event,
}
use dragonscale.Security.Bus.Secrets.{injected, failed, inject_secrets}

-- The event that `dispatch` starts from.
unfoldable pub new_event : ToolRequest → ℕ → ℕ → AuditEvent
new_event req at duration = record {
  request_id = req.id;
  session_key = req.session_key;
  tool_call_id = req.tool_call_id;
  tool_name = "";
  command_type = req.type;
  tool_input = "";
  depth = req.depth;
  at = at;
  duration_ms = duration;
  is_error = false;
  leak_detected = false;
  secrets_accessed = [];
  policy_violated = none;
  execution_error = plain "";
}

-- The arguments' JSON: "" and "null" stand for no arguments, in a map that is not nil. What is
-- decoded is nil where the decoder leaves a nil map, as it does of a null between blanks.
unfoldable pub decode_args : {O : Type 0} → (String → Option (Args O)) → String → Option (Args O)
decode_args unmarshal json =
    if str_eq json "" || str_eq json "null" then some (some []) else unmarshal json

-- `handleToolSearch`.
unfoldable pub handle_tool_search :
    Option (String → ℕ → String) → ToolRequest → Payload → ToolResponse
handle_tool_search none req (search query n) = new_error_response req.id search_not_configured
handle_tool_search (some run) req (search query n) =
    new_success_response req.id (plain (run query (if n == 0 then 10 else n))) 0
handle_tool_search run req payload = new_error_response req.id not_tool_search

-- `handleRLMCommand`.
unfoldable pub handle_rlm_command : ToolRequest → CommandType → Payload → ToolResponse
handle_rlm_command req final (answer a) = new_success_response req.id (plain a) 0
handle_rlm_command req type payload = new_error_response req.id (not_handled type)

-- A tool's result after the leak scan: the response and the finished event.
unfoldable pub scan_text :
    List RedactPattern → ToolRequest → AuditEvent → String → ToolResponse × AuditEvent
scan_text ps req event out =
    if contains_sensitive ps out
    then (
      new_leak_response req.id (plain (redact ps out)),
      record event { leak_detected = true; execution_error = plain (redact ps out) },
    )
    else (new_success_response req.id (plain out) 0, record event { execution_error = plain out })

abbrev pub message_text : Message → String
message_text (plain s) = s
message_text m = ""

unfoldable pub scan_result :
    List RedactPattern → ToolRequest → AuditEvent → Option ToolResult → ToolResponse × AuditEvent
scan_result ps req event none = (new_success_response req.id (plain "") 0, event)
scan_result ps req event (some r) =
    let (resp, ev) = scan_text ps req event r.for_llm in
    if r.is_error
    then (
      record resp { is_error = true },
      record ev {
        execution_error = plain (sanitize_audit_field (some ps) (message_text ev.execution_error));
      },
    )
    else (resp, if ev.leak_detected then ev else record ev { execution_error = plain "" })

-- What is answered and logged, and the run of the executor, if there was one.
pub record Outcome (O : Type 0) : Type 0 where
  pub response : ToolResponse
  pub event : AuditEvent
  pub ran : Option (Call O)

module _ {O : Type 0} (deps : BusDeps O) where
  unfoldable pub capabilities : String → ToolCapabilities
  capabilities name = elim (deps.cap_lookup name) [ none ↦ zero_capabilities | some caps ↦ caps ]

  module _ (req : ToolRequest) (te : ToolExec) where
    -- Steps 5 and 6: execute, and scan what comes back.
    unfoldable pub execute_stage : AuditEvent → List String → List String → Args O → Outcome O
    execute_stage event accessed keys args =
        let ev = record event { secrets_accessed = accessed } in
        let (resp, done) =
          scan_result deps.redactor req ev (deps.executor te.tool_name args keys) in
        record {
          response = resp;
          event = record done { is_error = resp.is_error };
          ran = some (record { tool = te.tool_name; args = args; injected = keys });
        }

    -- Step 4: inject the secrets.
    unfoldable pub secret_stage : AuditEvent → Args O → Outcome O
    secret_stage event args =
        elim (inject_secrets deps.secrets (capabilities te.tool_name).secrets args) [
          | failed name e ↦ record {
            response = new_error_response req.id (secret_injection_failed name e);
            event = record event {
              is_error = true;
              execution_error = secret_injection_failed name e;
            };
            ran = none;
          }
          | injected accessed keys args' ↦ execute_stage event accessed keys args'
        ]

    -- A refusal by the policy.
    unfoldable pub refuse : AuditEvent → PolicyError → Outcome O
    refuse event e = record {
      response = new_error_response req.id (policy_violation e);
      event = record event { is_error = true; policy_violated = some e };
      ran = none;
    }

    -- Step 3: decode the arguments and check their targets.
    unfoldable pub args_stage : AuditEvent → Outcome O
    args_stage event = elim (decode_args deps.unmarshal te.args_json) [
      | none ↦ record {
        response = new_error_response req.id invalid_args;
        event = record event { is_error = true; execution_error = invalid_args };
        ran = none;
      }
      | some args ↦
          elim (validate_tool_execution deps.std deps.policy te.tool_name args
            (capabilities te.tool_name)) [
              | some e ↦ refuse event e
              | none ↦ secret_stage event args
            ]
    ]

    -- Step 2: the depth.
    unfoldable pub exec_stage : AuditEvent → Outcome O
    exec_stage event = elim (validate deps.policy req.depth) [
      | some e ↦ refuse event e
      | none ↦ args_stage event
    ]

    unfoldable pub tool_event : ℕ → ℕ → AuditEvent
    tool_event at duration = record (new_event req at duration) {
      tool_name = te.tool_name;
      tool_input = sanitize_audit_field (some deps.redactor) te.args_json;
    }

  module _ (req : ToolRequest) (at duration : ℕ) where
    unfoldable pub dispatch_exec : Payload → Outcome O
    dispatch_exec (exec te) = exec_stage req te (tool_event req te at duration)
    dispatch_exec payload = record {
      response = new_error_response req.id not_tool_exec;
      event = record (new_event req at duration) {
        is_error = true;
        execution_error = not_tool_exec;
      };
      ran = none;
    }

    -- Commands that run no tool: the event is logged as it was started.
    unfoldable pub answered : ToolResponse → Outcome O
    answered resp = record { response = resp; event = new_event req at duration; ran = none }

    unfoldable pub outcome : CommandType → Outcome O
    outcome tool_exec = dispatch_exec req.payload
    outcome tool_search = answered (handle_tool_search deps.search_tools req req.payload)
    outcome type = answered (handle_rlm_command req type req.payload)

  unfoldable pub record_call : Option (Call O) → List (Call O) → List (Call O)
  record_call none calls = calls
  record_call (some c) calls = calls ++ (c ∷ [])

  -- `dispatch`, between two readings of the clock.
  unfoldable pub dispatch : BusState O → ToolRequest → ℕ → ℕ → ToolResponse × BusState O
  dispatch st req at duration =
      let o = outcome req at duration req.type in
      (o.response, append_event (record st { calls = record_call o.ran st.calls }) o.event)
