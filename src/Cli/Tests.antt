-- ===== src/Cli/Tests.antt =====
-- The command `export` of a trail with one event, and a call to a gateway that is served.
use mcp_gatekeeper.Prelude.{[], ◌∷◌, map, some, codes, length, sort_by, ◌≡◌, refl}
use mcp_gatekeeper.Json.Printable.{numbers_print}
use mcp_gatekeeper.Audit.Store.{oldest_first}
use mcp_gatekeeper.Audit.Jsonl.{to_jsonl, read_lines, decimal-printable, NumbersPrint}
use mcp_gatekeeper.Audit.Samples.{written, in_digits}
use mcp_gatekeeper.Prelude.{none, false, Text, true, keep, ◌++◌, ◌⊎◌}
use mcp_gatekeeper.Json.{null, Fields}
use mcp_gatekeeper.Registry.{NamespacedTool, find}
use mcp_gatekeeper.Upstream.{Opening, opened, Respond, replied, wire, is_connected}
use mcp_gatekeeper.Upstream.Connecting.{opens}
use mcp_gatekeeper.Gateway.{registry_of}
use mcp_gatekeeper.Gateway.Calls.{or_empty}
use mcp_gatekeeper.Gateway.Dispatch.{request_for, resumes}
use mcp_gatekeeper.Gateway.Forwarding.{Licensed}
use mcp_gatekeeper.Gateway.Samples.{quiet, approval_in, write_entry}
use mcp_gatekeeper.Config.{upstream_name}
use mcp_gatekeeper.Config.Samples.{sample}
use mcp_gatekeeper.Server.{Sdk, Meta, absent, CallParams, request_of, on_call_tool}
use mcp_gatekeeper.Prelude.{text_lt, text_eq, join_with}
use mcp_gatekeeper.Config.{to_rule}
use mcp_gatekeeper.Config.Samples.{files, write_rule}
use mcp_gatekeeper.Cli.Summary.{upstream_line, rule_line}
use mcp_gatekeeper.Cli.{gateway_deps}
use mcp_gatekeeper.Cli.Serving.{decision_for, on_call_tool-sent}
use mcp_gatekeeper.Gateway.{Gateway}
use mcp_gatekeeper.Database.{File}
use mcp_gatekeeper.Cli.{export}
use mcp_gatekeeper.Cli.Commands.{export-read_lines}
use mcp_gatekeeper.Cli.Serve.{Options, starts_ui, runs_http, servers}

abbrev trail : File
trail = record { schema = []; approvals = []; events = written ∷ [] }

numbers_fine : NumbersPrint written
unfolding numbers_print
numbers_fine = refl

export-read_lines_example :
    let (body, n, printed) = export in_digits (some (codes "audit.jsonl")) trail in
    (read_lines body ≡ map (to_jsonl in_digits) (sort_by oldest_first trail.events))
    × (n ≡ length (read_lines body))
export-read_lines_example =
    export-read_lines in_digits decimal-printable (some (codes "audit.jsonl")) trail
      (numbers_fine, tt)

abbrev silent : Sdk Fields Fields Fields
silent = record {
  validate = λ fs. none;
  elicitation = λ c. none;
  url = λ e. none;
  name = λ i. none;
  version = λ i. none;
  repr = λ v. [];
}

abbrev no_meta : Meta Fields Fields
no_meta = absent

abbrev all_open : Text → Opening
all_open name = opened

abbrev answers : Respond
answers before call = replied null false

-- The gateway after it has read the tools of its upstream.
abbrev ready : Gateway
ready = record (approval_in []) { refreshed = some ((codes "fs__write", write_entry) ∷ []) }

abbrev write_params : CallParams
write_params = record {
  name = codes "fs__write";
  arguments = none;
  request_state = none;
  input_responses = none;
}

on_call_tool-sent_example :
    let d = gateway_deps all_open answers (λ s. s) sample in
    let q = request_of silent no_meta write_params in
    let g' = (on_call_tool silent d quiet no_meta write_params ready).1 in
    (g'.sent ≡ [])
    ⊎ ((entry : NamespacedTool) × (find (codes "fs__write") (registry_of d ready) ≡ some entry)
        × (is_connected entry.upstream
              (keep (λ n. opens (all_open n)) (map upstream_name sample.upstreams))
            ≡ true)
        × (g'.sent ≡ [] ++ wire entry.upstream entry.remote_name (or_empty none) ∷ [])
        × Licensed quiet (resumes q) (decision_for sample (request_for q entry)).action g')
on_call_tool-sent_example =
    on_call_tool-sent silent all_open answers (λ s. s) sample quiet no_meta write_params ready

files_line : upstream_line files ≡ codes "  fs               stdio  npx"
unfolding upstream_line join_with
files_line = refl

write_line :
    rule_line 0 (to_rule write_rule)
    ≡ codes
        "   0. fs__write*                   -> require_approval  [upstream=fs, mode~w, path~/tmp/**, read_only=false]"
unfolding rule_line to_rule text_lt text_eq join_with
write_line = refl

abbrev over_http : Options
over_http = record {
  transport = codes "http";
  host = codes "127.0.0.1";
  port = 8810;
  no_ui = false;
}

-- No upstream lists a tool, and the pages come first.
both_served :
    servers sample over_http
    ≡ starts_ui (codes "mcp-gatekeeper") (codes "127.0.0.1") 8765
      ∷ runs_http (codes "127.0.0.1") 8810
      ∷ []
unfolding text_eq servers
both_served = refl
