-- ===== src/Lib.antt =====
-- A verification of mcp-gatekeeper, a proxy between an MCP client and its upstream servers that puts
-- each tool call under a policy, asks a human where the policy says so, and keeps an audit trail.
--
-- The parts, and the files that model them (paths from the root of the repository):
--   Glob       src/mcp_gatekeeper/policy/glob.py. `compile_loop` is the loop of `_compile`; the
--              expression it writes is a list of pieces (Glob/Pieces), each with its meaning in
--              Python's `re` under DOTALL, `$` before a final newline included. Glob/Language is a
--              relation on patterns and texts that knows nothing of the compilation; Glob/Syntax,
--              Glob/Meaning and Glob/Prefix carry the proofs that lead to it.
--   Policy     src/mcp_gatekeeper/policy/models.py (Policy) and policy/engine.py (Policy/Engine):
--              `resolve_argument`, `argument_matches`, `annotations_match`, `rule_matches` and
--              `evaluate`. A rule matches with Glob's `match_tool` and `match_path`.
--   Approvals  src/mcp_gatekeeper/approvals/models.py (Approvals), store.py (Approvals/Store) and
--              service.py (Approvals/Service). The table is a list of rows in the order of their
--              insertion, and a method of the store is the effect of its SQL on that list. The
--              service adds its dictionary of events and the time-out. `open` is `open_request`,
--              `pending` is `list_pending` and `_settle_timeout` is `settle_timeout`.
--   Registry   src/mcp_gatekeeper/proxy/registry.py: namespaced names, and the registry as the list of
--              the items of its dictionary.
--   Audit      src/mcp_gatekeeper/audit/models.py (Audit, Audit/Redact, the JSON lines in Audit/Jsonl)
--              and store.py (Audit/Store; `recent` in Audit/Recent, SQLite's LIKE in Audit/Like).
--   Upstream   src/mcp_gatekeeper/proxy/upstream.py: connecting, the two calls of a session, and the
--              client of a configured upstream (Upstream/Clients, `_build_client`).
--   Gateway    src/mcp_gatekeeper/proxy/gateway.py: what the gateway holds (Gateway), the handlers
--              (Gateway/Calls) and `call_tool` with its approval paths (Gateway/Dispatch). A call
--              looks its tool up in the Registry, asks Policy for a decision, parks requests in the
--              Approvals, sends to Upstream and records in Audit. `_unknown_tool`, `_deny` and
--              `_require_approval` are `answer_unknown`, `refuse` and `ask_approval`.
--   Config     src/mcp_gatekeeper/config/models.py (Config, its validators in Config/Checks) and
--              loader.py (Config/Loader). `build_policy` compiles a file's rules for Policy.
--   Server     src/mcp_gatekeeper/proxy/server.py: what is read of a request's `_meta`, and the two
--              handlers, which call the Gateway.
--   Pages      src/mcp_gatekeeper/ui/app.py: the handlers of the pages, over Approvals and Audit.
--   Database   src/mcp_gatekeeper/db.py: the file, the connection and its transactions. Database/Queue
--              and Database/Trail run the methods of the two stores on it, statement by statement, and
--              relate them to Approvals/Store and Audit/Store.
--   Cli        src/mcp_gatekeeper/cli.py: the summary of `validate`, the exits of `run`, how `_serve`
--              makes the gateway of a configuration (Cli), what it prints and starts (Cli/Serve), and
--              `export`.
--   System     the running program that `_serve` puts together: the handlers of Server and of Pages over
--              one approval queue and one audit trail, run over any list of steps. A step is a client's
--              call or listing, a form that is posted, or a page that is read; a call that is held lets
--              others act on the queue meanwhile. System/Moving relates each step to calls of the
--              approval service (Approvals/Service/Acts, Gateway/Queueing).
--   Demo       examples/try_it.py, the demonstration client: how it reads a decision off the page, waits for
--              it, answers an elicitation, and with `--auto` posts the approval itself.
--   Json       the arguments of a call, `json.dumps` of them (Json/Dumps) and `json.loads` of what it
--              writes (Json/Loads). Prelude holds what the parts share.
--
-- Approvals/Store and Audit/Store keep a row as the value that is read back from it. Their Columns modules
-- have the rows as SQLite holds them, with moments, arguments and enumerations as texts, as `create`,
-- `resolve`, `expire_overdue` and `record` write them and `_row_to_request` and `_row_to_event` read them.
--
-- State is passed explicitly: a handler takes the gateway and returns its answer with the gateway that
-- it leaves. `sent` is the list of the calls that were handed to the servers, in order. What the world
-- supplies during a call is an argument (`Ambient`): the clock readings, the ids that are drawn, the
-- latency, and what other tasks do to the approval queue meanwhile. A moment is the count of
-- microseconds since an epoch; the SQL compares the ISO texts of moments in UTC, which are ordered as
-- the moments are.
--
-- Parameters: `repr` of a text or a value; `respond`, the answer of a server to a call after those sent
-- before; `opening`, whether an upstream's client can be entered; `is_alnum` of a character;
-- `read_text`, `safe_load` and `fields`, the answers of the file system, of PyYAML and of pydantic up to
-- the last validator; `Sdk`, the SDK's models; `Rendering`, how Python writes a moment and a latency;
-- `style`, typer's; `Clock`, `isoformat` and `fromisoformat`. Of these a theorem assumes only what its comment says.
--
-- Loops: `wait` runs on a list of rounds, each of which holds the calls that other tasks make before
-- the waiting task wakes and the clock that it then reads; where the rounds end too early, the model
-- answers `waiting`; the rounds are enough where a clock comes to the request's deadline. The digits
-- of an index are computed on fuel, one more than the number, which has fewer digits than that. A JSON
-- text is read on fuel, one more than its length, which is more than its depth and the items of any list.
-- All else is structural recursion.
--
-- Not modelled: logging; the templates of the pages, the routing and the pretty printing of arguments;
-- the command `version`; the calls and the printing of examples/try_it.py; the construction of the SDK's server;
-- the PRAGMA settings and the threads of db.py, whose lock makes each method one step; the cache of
-- compiled patterns. A tool's definition is its name, its annotations and, as one value, all else.
-- Names of upstreams are taken to be distinct where they are connected, as the configuration demands:
-- the dictionaries of connections and failures are lists. The tables keep the arguments in the order in
-- which they came, where the text in the database has them in the order of their keys. A number in the
-- arguments is the text that Python writes for it. SQLite leaves open how rows of one moment are ordered by
-- `ORDER BY created_at` alone; the model keeps the order of insertion.
--
-- Taken for granted: a server's call returns or raises, so that an upstream which never answers, and a call
-- that the client cancels (it leaves no event), are left out; the write of an audit event succeeds; no other
-- task runs between the reading and the expiry in `ApprovalService.get`, or between the event's moment and its
-- write; `json.dumps` and `json.loads` meet no recursion limit.
pub mod Prelude
pub mod Json
pub mod Glob
pub mod Policy
pub mod Approvals
pub mod Registry
pub mod Audit
pub mod Upstream
pub mod Gateway
pub mod Config
pub mod Server
pub mod Database
pub mod Pages
pub mod Cli
pub mod System
pub mod Demo
