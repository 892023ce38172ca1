-- ===== src/Config/Tests.antt =====
-- The theorems on configurations at a concrete one.
use mcp_gatekeeper.Prelude.{
  ℕ, List, [], ◌++◌, Bool, true, false, ◌&&◌, leb, all, none, some, Text, codes, ◌≡◌, refl, ◌↔◌,
}
use mcp_gatekeeper.Prelude.Results.{Result, ok}
use mcp_gatekeeper.Json.{end}
use mcp_gatekeeper.Policy.{Action, unstated, PolicyRequest, Source}
use mcp_gatekeeper.Policy.Engine.{evaluate}
use mcp_gatekeeper.Registry.{namespace, split_namespace}
use mcp_gatekeeper.Config.{GatekeeperConfig, build_policy}
use mcp_gatekeeper.Config.Checks.{validate_name, target_known}
use mcp_gatekeeper.Config.Targets.{distinct, names_of}
use mcp_gatekeeper.Config.Names.{ends_open, validate_name-split_namespace}
use mcp_gatekeeper.Config.Decisions.{file_decision, evaluate-build_policy}
use mcp_gatekeeper.Config.Loader.{Document, mapping, ErrorItem, ReadError, LoadError, load_config}
use mcp_gatekeeper.Config.Loader.Accepted.{Accepts, load_config_iff, load_config-targets}
use mcp_gatekeeper.Config.Samples.{sample}

abbrev write_call : PolicyRequest
write_call = record {
  tool = codes "fs__write";
  upstream = codes "fs";
  arguments = end;
  annotations = unstated;
}

evaluate-build_policy_example :
    evaluate write_call (build_policy sample)
    ≡ file_decision 0 sample.policy.rules write_call
        (record { action = Action.deny; source = Source.default; reason = none; rule_index = none })
evaluate-build_policy_example = evaluate-build_policy sample write_call

abbrev quoted : Text → Text
quoted s = codes "'" ++ (s ++ codes "'")

abbrev is_letter : ℕ → Bool
is_letter c = leb b'a' c && leb c b'z'

name_accepted : validate_name is_letter quoted (codes "fs") ≡ ok (codes "fs")
unfolding validate_name
name_accepted = refl

name_closed : ends_open (codes "fs") ≡ false
unfolding ends_open
name_closed = refl

validate_name-split_namespace_example :
    split_namespace (namespace (codes "fs") (codes "write")) ≡ some (codes "fs", codes "write")
validate_name-split_namespace_example =
    validate_name-split_namespace is_letter quoted (codes "fs") (codes "write") name_accepted
      name_closed refl

-- The file is read and parsed, and its mapping has the fields of the configuration.
abbrev fields_of : Unit {0} → Result (List ErrorItem) GatekeeperConfig
fields_of document = ok sample

abbrev reads_file : Text → Result ReadError Text
reads_file path = ok []

abbrev parses_file : Text → Result LoadError (Document (Unit {0}))
parses_file text = ok (mapping tt)

abbrev file_name : Text
file_name = codes "gatekeeper.yaml"

sample_loads : load_config quoted fields_of reads_file parses_file file_name ≡ ok sample
unfolding load_config
sample_loads = refl

load_config_iff_example :
    (load_config quoted fields_of reads_file parses_file file_name ≡ ok sample)
    ↔ Accepts quoted fields_of reads_file parses_file file_name sample
load_config_iff_example = load_config_iff quoted fields_of reads_file parses_file file_name sample

load_config-targets_example :
    distinct (names_of sample.upstreams)
      && all (target_known (names_of sample.upstreams)) sample.policy.rules
    ≡ true
load_config-targets_example =
    load_config-targets quoted fields_of reads_file parses_file file_name sample sample_loads
