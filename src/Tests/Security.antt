-- ===== src/Tests/Security.antt =====
-- pkg/security and pkg/security/securebus at concrete requests.
use Prim.Native.String.{String}
use text.Mathlib.Text.{◌==◌ as str_eq, starts_with}
use text.Mathlib.TextEquality.{eq_iff}
use dragonscale.Prelude.{
  ◌≤◌, ◌≡◌, ◌↔◌, ◌⊎◌, refl, true, false, none, some, List, [], ◌∷◌, ◌++◌, Memᴰ, arith, any,
  if◌then◌else◌,
}
use dragonscale.Prelude.Text.{lookup, insert}
use dragonscale.Security.Redact.{
  Regexp, RedactPattern, redact_step, redact, contains_sensitive, sanitize_audit_field,
}
use dragonscale.Security.Glob.{
  FilePathFns, any_tail, globstar_match_segments, globstar_match, Matches,
  globstar_match_segments-Matches,
}
use dragonscale.Security.Policy.Engine.{
  str, Args, get_arg, ToolCapabilities, shell_none, Stdlib, PolicyEngine, validate,
  non_empty_string_arg, filesystem_mode_for_tool, mode_allows, filesystem_policy_target,
  validate_endpoint, validate_network, check_path, validate_filesystem, check_url, check_path_arg,
  check_working_dir, validate_tool_execution,
}
use dragonscale.Security.Policy.Network.{
  NetworkAllowed, validate-none_iff, validate_network-none_iff,
}
use dragonscale.Security.Policy.Files.{FilesystemAllowed, validate_filesystem-none_iff}
use dragonscale.Security.Bus.Types.{
  tool_exec, exec, ToolRequest, SecretResult, found, missing, secret_not_found, plain,
  new_success_response, new_error_response, new_leak_response, AuditEvent, BusDeps, Call, BusState,
  append_event,
}
use dragonscale.Security.Bus.Secrets.{arg_key, inject_arg, inject_one, inject_from, inject_secrets}
use dragonscale.Security.Bus.Secrets.Frame.{inject_secrets-required}
use dragonscale.Security.Bus.Dispatch.{
  new_event, decode_args, handle_tool_search, handle_rlm_command, scan_text, scan_result,
  capabilities, execute_stage, secret_stage, refuse, args_stage, exec_stage, tool_event,
  dispatch_exec, answered, outcome, record_call, dispatch,
}
use dragonscale.Security.Bus.Audit.{IsAbout, dispatch-events}
use dragonscale.Security.Bus.Cleared.{Shows, Cleared}
use dragonscale.Security.Bus.Cleared.Run.{dispatch-Cleared, dispatch-Shows, dispatch-NetworkAllowed}

program : Unit {0}
unfolding any lookup insert redact_step redact contains_sensitive sanitize_audit_field any_tail
    globstar_match_segments globstar_match validate non_empty_string_arg filesystem_mode_for_tool
    mode_allows filesystem_policy_target validate_endpoint validate_network check_path
    validate_filesystem check_url check_path_arg check_working_dir validate_tool_execution
    new_success_response new_error_response new_leak_response append_event arg_key inject_arg
    get_arg inject_one inject_from inject_secrets new_event decode_args handle_tool_search
    handle_rlm_command scan_text scan_result capabilities execute_stage secret_stage refuse
    args_stage exec_stage tool_event dispatch_exec answered outcome record_call dispatch
program = tt

-- An expression that matches one text.
replace_one :
    (w text repl : String) → str_eq text w ≡ false → (if str_eq text w then repl else text) ≡ text
replace_one w text repl h = ground arith

abbrev literal : String → Regexp
literal w = record {
  match_string = λ text. str_eq text w;
  replace_all_string = λ text repl. if str_eq text w then repl else text;
  replace_unmatched = replace_one w;
}

abbrev patterns : List RedactPattern
patterns = record { re = literal "sk-123"; label = "KEY" } ∷ []

abbrev fns : FilePathFns
fns = record { match = str_eq; clean_split = λ s. s ∷ [] }

globstar_match_segments-Matches_example :
    (globstar_match_segments fns ("a" ∷ "**" ∷ "c" ∷ []) ("a" ∷ "b" ∷ "b" ∷ "c" ∷ []) ≡ true)
    ↔ Matches fns ("a" ∷ "**" ∷ "c" ∷ []) ("a" ∷ "b" ∷ "b" ∷ "c" ∷ [])
globstar_match_segments-Matches_example =
    globstar_match_segments-Matches fns ("a" ∷ "**" ∷ "c" ∷ []) ("a" ∷ "b" ∷ "b" ∷ "c" ∷ [])

globstar_skips :
    globstar_match_segments fns ("a" ∷ "**" ∷ "c" ∷ []) ("a" ∷ "b" ∷ "b" ∷ "c" ∷ []) ≡ true
unfolding program
globstar_skips = refl

abbrev stdlib : Stdlib
stdlib = record {
  paths = fns;
  url_scheme = λ u. some "https";
  rel = λ base target. some target;
  is_abs = λ p. starts_with p "/";
  join = λ base p. p;
}

abbrev engine : PolicyEngine
engine = record {
  max_recursion_depth = 10;
  allowed_workspace = "/work";
  ssrf_blocked_prefixes = "https://10." ∷ [];
  validate_url = λ u. true;
}

abbrev caps : ToolCapabilities
caps = record {
  secrets = record { name = "token"; inject_as = "arg:auth"; required = true } ∷ [];
  network = "https://api" ∷ [];
  filesystem = record { pattern = "notes"; mode = "rw" } ∷ [];
  shell = shell_none;
}

validate-none_iff_example :
    (validate engine 3 ≡ none)
    ↔ ((engine.max_recursion_depth ≡ 0) ⊎ (3 ≤ engine.max_recursion_depth))
validate-none_iff_example = validate-none_iff engine 3

validate_network-none_iff_example :
    (validate_network stdlib engine "https://api" caps.network ≡ none)
    ↔ NetworkAllowed stdlib engine "https://api" caps.network
validate_network-none_iff_example =
    validate_network-none_iff stdlib engine "https://api" caps.network

validate_filesystem-none_iff_example :
    (validate_filesystem stdlib engine "notes" "w" caps.filesystem ≡ none)
    ↔ FilesystemAllowed stdlib engine "notes" "w" caps.filesystem
validate_filesystem-none_iff_example =
    validate_filesystem-none_iff stdlib engine "notes" "w" caps.filesystem

abbrev args : Args (Unit {0})
args = some (("url", str "https://api") ∷ ("path", str "notes") ∷ [])

abbrev store : String → SecretResult
store name = if str_eq name "token" then found "s3cret" else missing secret_not_found

abbrev deps : BusDeps (Unit {0})
deps = record {
  std = stdlib;
  policy = engine;
  secrets = some store;
  redactor = patterns;
  cap_lookup = λ name. if str_eq name "fetch" then some caps else none;
  unmarshal = λ json. some args;
  executor = λ tool a keys. some (record { for_llm = "sk-123"; is_error = false });
  search_tools = none;
}

abbrev req : ToolRequest
req = record {
  id = "r1";
  type = tool_exec;
  payload = exec (record { tool_name = "fetch"; args_json = "{..}" });
  depth = 1;
  session_key = "s";
  tool_call_id = "c1";
}

abbrev idle : BusState (Unit {0})
idle = record { events = []; calls = [] }

abbrev with_auth : Args (Unit {0})
with_auth = some (("url", str "https://api") ∷ ("path", str "notes") ∷ ("auth", str "s3cret") ∷ [])

abbrev call : Call (Unit {0})
call = record { tool = "fetch"; args = with_auth; injected = "auth" ∷ [] }

ran_once : (dispatch deps idle req 5 7).1.calls ≡ [] ++ (call ∷ [])
unfolding program
ran_once = refl

-- A null between blanks is decoded to a nil map: the tool runs, and the required secret is read but
-- not injected.
null_between_blanks :
    (dispatch (record deps { unmarshal = λ json. some none }) idle req 5 7).1.calls
    ≡ record { tool = "fetch"; args = none; injected = [] } ∷ []
unfolding program
null_between_blanks = refl

-- The tool printed a key: the response has it redacted.
leak_redacted : (dispatch deps idle req 5 7).0.result ≡ plain "[REDACTED:KEY]"
unfolding program
leak_redacted = refl

not_auth : ¬ Memᴰ {A = String} "url" ("auth" ∷ [])
not_auth (Memᴰ.head e) = ground (arith, eq_iff "url" "auth")
not_auth (Memᴰ.tail m) = elim m [ ]

inject_secrets-required_example : (value : String) × (store "token" ≡ found value)
unfolding program
inject_secrets-required_example =
    inject_secrets-required store caps.secrets args ("token" ∷ []) ("auth" ∷ []) with_auth
      (record { name = "token"; inject_as = "arg:auth"; required = true }) refl (Memᴰ.head refl)
      refl

dispatch-events_example :
    (e : AuditEvent) × ((dispatch deps idle req 5 7).1.events ≡ [] ++ (e ∷ []))
    × IsAbout req e
    × ((dispatch deps idle req 5 7).0.id ≡ "r1")
dispatch-events_example = dispatch-events deps req 5 7 idle

dispatch-Cleared_example :
    ((dispatch deps idle req 5 7).1.calls ≡ [] ++ (call ∷ [])) ↔ Cleared deps req call
dispatch-Cleared_example = dispatch-Cleared deps req 5 7 idle call

dispatch-Shows_example :
    Shows patterns (record { for_llm = "sk-123"; is_error = false }) (dispatch deps idle req 5 7).0
dispatch-Shows_example =
    dispatch-Shows deps req 5 7 idle call (record { for_llm = "sk-123"; is_error = false }) ran_once
      refl

dispatch-NetworkAllowed_example :
    NetworkAllowed stdlib engine "https://api" (capabilities deps "fetch").network
unfolding program
dispatch-NetworkAllowed_example =
    dispatch-NetworkAllowed deps req 5 7 idle call "https://api" ran_once not_auth refl
