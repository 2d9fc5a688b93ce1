-- ===== src/Security/Bus/Audit.antt =====
-- The audit trail of `dispatch`.
use Prim.Native.String.{String}
use dragonscale.Prelude.{ℕ, ◌≡◌, refl, false, List, [], ◌∷◌, ◌++◌, Option, none, some, arith}
use dragonscale.Security.Redact.{RedactPattern}
use dragonscale.Security.Policy.Engine.{Args, PolicyError}
use dragonscale.Security.Bus.Types.{
  CommandType, tool_exec, ToolExec, Payload, exec, search, answer, opaque, ToolRequest,
  new_success_response, new_error_response, new_leak_response, AuditEvent, ToolResult, BusDeps,
  BusState, append_event,
}
use dragonscale.Security.Bus.Dispatch.{
  new_event, handle_tool_search, handle_rlm_command, scan_text, scan_result, Outcome, execute_stage,
  secret_stage, refuse, args_stage, exec_stage, tool_event, dispatch_exec, answered, outcome,
  dispatch,
}

-- The event carries the request's identity.
pub record IsAbout (req : ToolRequest) (e : AuditEvent) : Type 0 where
  pub request : e.request_id ≡ req.id
  pub session : e.session_key ≡ req.session_key
  pub call : e.tool_call_id ≡ req.tool_call_id
  pub command : e.command_type ≡ req.type
  pub deep : e.depth ≡ req.depth

-- The response answers the request, and the event tells of its error and of its leak.
pub record IsAudited {O : Type 0} (req : ToolRequest) (o : Outcome O) : Type 0 where
  pub about : IsAbout req o.event
  pub answers : o.response.id ≡ req.id
  pub marked : o.event.is_error ≡ o.response.is_error
  pub leaked : o.event.leak_detected ≡ o.response.leak_detected

scan_result-IsAbout :
    (ps : List RedactPattern) (req : ToolRequest) (e : AuditEvent) (r : Option ToolResult)
    → IsAbout req e
    → e.leak_detected ≡ false
    → let (resp, done) = scan_result ps req e r in
      IsAbout req done × (resp.id ≡ req.id) × (done.leak_detected ≡ resp.leak_detected)
unfolding scan_result scan_text new_success_response new_leak_response
scan_result-IsAbout ps req e none a l = ground arith
scan_result-IsAbout ps req e (some r) a l = ground arith

module _ {O : Type 0} (deps : BusDeps O) (req : ToolRequest) where
  module _ (te : ToolExec) (e : AuditEvent) (a : IsAbout req e) (l : e.leak_detected ≡ false) where
    execute_stage-IsAudited :
        (accessed keys : List String) (args : Args O)
        → IsAudited req (execute_stage deps req te e accessed keys args)
    unfolding execute_stage
    execute_stage-IsAudited accessed keys args =
        let (about, answers, leaked) =
          scan_result-IsAbout deps.redactor req (record e { secrets_accessed = accessed })
            (deps.executor te.tool_name args keys)
            (record {
              request = a.request;
              session = a.session;
              call = a.call;
              command = a.command;
              deep = a.deep;
            })
            l in
        record {
          about = record {
            request = about.request;
            session = about.session;
            call = about.call;
            command = about.command;
            deep = about.deep;
          };
          answers = answers;
          marked = refl;
          leaked = leaked;
        }

    secret_stage-IsAudited : (args : Args O) → IsAudited req (secret_stage deps req te e args)
    unfolding secret_stage new_error_response
    secret_stage-IsAudited args = grind (arith, execute_stage-IsAudited)

    refuse-IsAudited : (p : PolicyError) → IsAudited req (refuse deps req te e p)
    unfolding refuse new_error_response
    refuse-IsAudited p = ground arith

    args_stage-IsAudited : IsAudited req (args_stage deps req te e)
    unfolding args_stage new_error_response
    args_stage-IsAudited = grind (arith, secret_stage-IsAudited, refuse-IsAudited)

    exec_stage-IsAudited : IsAudited req (exec_stage deps req te e)
    unfolding exec_stage
    exec_stage-IsAudited = grind (arith, args_stage-IsAudited, refuse-IsAudited)

  module _ (at duration : ℕ) where
    new_event-IsAbout : IsAbout req (new_event req at duration)
    unfolding new_event
    new_event-IsAbout = ground arith

    tool_event-IsAbout : (te : ToolExec) → IsAbout req (tool_event deps req te at duration)
    unfolding tool_event new_event
    tool_event-IsAbout te = ground arith

    dispatch_exec-IsAudited :
        (payload : Payload) → IsAudited req (dispatch_exec deps req at duration payload)
    unfolding dispatch_exec new_error_response new_event tool_event
    dispatch_exec-IsAudited (exec te) =
        exec_stage-IsAudited te (tool_event deps req te at duration) (tool_event-IsAbout te) refl
    dispatch_exec-IsAudited (search q n) = ground arith
    dispatch_exec-IsAudited (answer x) = ground arith
    dispatch_exec-IsAudited opaque = ground arith

    -- The events and the answers of a request.
    answered-IsAbout :
        (type : CommandType)
        → let o = outcome deps req at duration type in
          IsAbout req o.event × (o.response.id ≡ req.id)
    unfolding outcome answered handle_tool_search handle_rlm_command new_error_response
        new_success_response new_event
    answered-IsAbout tool_exec = let a = dispatch_exec-IsAudited req.payload in (a.about, a.answers)
    answered-IsAbout _ = ground arith

    -- Every request, of any type and with any outcome, adds exactly one event to the audit log and
    -- keeps those that are there; the event has the request's id, session, tool call, type and
    -- depth, and the response its id.
    pub dispatch-events :
        (st : BusState O)
        → let (resp, st') = dispatch deps st req at duration in
          (e : AuditEvent) × (st'.events ≡ st.events ++ (e ∷ []))
          × IsAbout req e
          × (resp.id ≡ req.id)
    unfolding dispatch append_event
    dispatch-events st =
        let (about, answers) = answered-IsAbout req.type in
        ((outcome deps req at duration req.type).event, refl, about, answers)

    outcome-IsAudited :
        (type : CommandType) → type ≡ tool_exec → IsAudited req (outcome deps req at duration type)
    unfolding outcome
    outcome-IsAudited tool_exec h = dispatch_exec-IsAudited req.payload
    outcome-IsAudited _ h = cc

    -- For a tool execution the event also says whether the response is an error, and whether a
    -- leak was found.
    pub dispatch-IsAudited :
        (st : BusState O)
        → req.type ≡ tool_exec
        → let (resp, st') = dispatch deps st req at duration in
          (e : AuditEvent) × (st'.events ≡ st.events ++ (e ∷ []))
          × (e.is_error ≡ resp.is_error)
          × (e.leak_detected ≡ resp.leak_detected)
    unfolding dispatch append_event
    dispatch-IsAudited st h =
        let a = outcome-IsAudited req.type h in
        ((outcome deps req at duration req.type).event, refl, a.marked, a.leaked)
