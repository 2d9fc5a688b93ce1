-- ===== src/Security/Bus/Cleared.antt =====
-- When `dispatch` runs the executor, with what, and what comes back of it.
pub mod Run
use Prim.Native.String.{String}
use dragonscale.Prelude.{
  ℕ, ◌≡◌, ◌≢◌, ◌↔◌, ◌⊎◌, inl, inr, refl, sym, ap, ◌∙◌, Bool, true, false, List, [], ◌∷◌, ◌++◌, Memᴰ,
  Option, none, some, arith, Option-cases,
}
use dragonscale.Prelude.Text.{lookup}
use dragonscale.Security.Redact.{RedactPattern, redact, contains_sensitive, redact-clean}
use dragonscale.Security.Policy.Engine.{
  Args, PolicyError, ToolCapabilities, validate, validate_tool_execution, non_empty_string_arg,
}
use dragonscale.Security.Policy.Network.{NetworkAllowed}
use dragonscale.Security.Policy.Files.{execution-NetworkAllowed}
use dragonscale.Security.Bus.Types.{
  CommandType, tool_exec, tool_search, final, ToolExec, Payload, exec, search, answer, opaque,
  plain, Message, ToolRequest, ToolResponse, new_success_response, new_error_response,
  new_leak_response, AuditEvent, SecretError, ToolResult, BusDeps, Call, BusState, append_event,
}
use dragonscale.Security.Bus.Secrets.{Injection, injected, failed, inject_secrets}
use dragonscale.Security.Bus.Secrets.Frame.{inject_secrets-frame}
use dragonscale.Security.Bus.Dispatch.{
  new_event, decode_args, handle_tool_search, handle_rlm_command, scan_text, scan_result, Outcome,
  capabilities, execute_stage, secret_stage, refuse, args_stage, exec_stage, tool_event,
  dispatch_exec, answered, outcome, record_call, dispatch,
}

-- What the response shows of an executor's result.
pub record Shows (ps : List RedactPattern) (r : ToolResult) (resp : ToolResponse) : Type 0 where
  pub redacted : resp.result ≡ plain (redact ps r.for_llm)
  pub flagged : resp.leak_detected ≡ contains_sensitive ps r.for_llm
  pub error : resp.is_error ≡ r.is_error

-- Every check that stands between the tool call and a run of the executor passed.
pub record Passed {O : Type 0} (deps : BusDeps O) (req : ToolRequest) (te : ToolExec) (c : Call O)
    : Type 0 where
  pub decoded : Args O
  pub accessed : List String
  pub tool : c.tool ≡ te.tool_name
  pub depth : validate deps.policy req.depth ≡ none
  pub decodes : decode_args deps.unmarshal te.args_json ≡ some decoded
  pub targets :
      validate_tool_execution deps.std deps.policy te.tool_name decoded
        (capabilities deps te.tool_name)
      ≡ none
  pub secrets :
      inject_secrets deps.secrets (capabilities deps te.tool_name).secrets decoded
      ≡ injected accessed c.injected c.args

-- The request is a tool execution that passed.
pub record Cleared {O : Type 0} (deps : BusDeps O) (req : ToolRequest) (c : Call O) : Type 0 where
  pub te : ToolExec
  pub type : req.type ≡ tool_exec
  pub payload : req.payload ≡ exec te
  pub passed : Passed deps req te c

scan_result-Shows :
    (ps : List RedactPattern) (req : ToolRequest) (e : AuditEvent) (r : ToolResult)
    → Shows ps r (scan_result ps req e (some r)).0
unfolding scan_result scan_text new_success_response new_leak_response
scan_result-Shows ps req e r = ground (arith, redact-clean ps r.for_llm)

Injection-cases :
    {O : Type 0} (i : Injection O)
    → ((a k : List String) × (x : Args O) × (i ≡ injected a k x))
      ⊎ ((name : String) × (err : SecretError) × (i ≡ failed name err))
Injection-cases (injected a k x) = inl (a, k, x, refl)
Injection-cases (failed name err) = inr (name, err, refl)

module _ {O : Type 0} (deps : BusDeps O) (req : ToolRequest) (te : ToolExec) (e : AuditEvent) where
  secret_stage-Passed :
      (args : Args O) (c : Call O)
      → validate deps.policy req.depth ≡ none
      → decode_args deps.unmarshal te.args_json ≡ some args
      → validate_tool_execution deps.std deps.policy te.tool_name args
          (capabilities deps te.tool_name)
        ≡ none
      → (secret_stage deps req te e args).ran ≡ some c
      → Passed deps req te c
  unfolding secret_stage execute_stage
  secret_stage-Passed args c v d t h =
      elim (Injection-cases
        (inject_secrets deps.secrets (capabilities deps te.tool_name).secrets args)) [
          | inr (name, err, i) ↦ absurd (ground arith)
          | inl (a, k, x, i) ↦ record {
            decoded = args;
            accessed = a;
            tool = ground arith;
            depth = v;
            decodes = d;
            targets = t;
            secrets = ground arith;
          }
        ]

  pub exec_stage-Passed :
      (c : Call O) → (exec_stage deps req te e).ran ≡ some c → Passed deps req te c
  unfolding exec_stage args_stage refuse
  exec_stage-Passed c h = elim (Option-cases (validate deps.policy req.depth)) [
    | inr (p, v) ↦ absurd (ground arith)
    | inl v ↦ elim (Option-cases (decode_args deps.unmarshal te.args_json)) [
      | inl d ↦ absurd (ground arith)
      | inr (args, d) ↦
          elim (Option-cases (
            validate_tool_execution deps.std deps.policy te.tool_name args
              (capabilities deps te.tool_name))) [
                | inr (p, t) ↦ absurd (ground arith)
                | inl t ↦ secret_stage-Passed args c v d t (ground arith)
              ]
    ]
  ]

  pub Passed-exec_stage :
      (c : Call O) → Passed deps req te c → (exec_stage deps req te e).ran ≡ some c
  unfolding exec_stage args_stage secret_stage execute_stage
  Passed-exec_stage c p = ground (arith, p.secrets, p.decodes, p.targets, p.depth, p.tool)

  pub exec_stage-response :
      (c : Call O) (r : ToolResult)
      → (exec_stage deps req te e).ran ≡ some c
      → deps.executor c.tool c.args c.injected ≡ some r
      → Shows deps.redactor r (exec_stage deps req te e).response
  unfolding exec_stage args_stage secret_stage execute_stage
  exec_stage-response c r h x =
      let p = exec_stage-Passed c h in
      ground (
        arith,
        p.secrets,
        p.decodes,
        p.targets,
        p.depth,
        p.tool,
        scan_result-Shows deps.redactor req (record e { secrets_accessed = p.accessed }) r,
      )
