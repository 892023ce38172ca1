-- ===== src/Upstream.antt =====
-- proxy/upstream.py: the sessions with the upstream servers. What a server answers is a parameter:
-- a function of the calls that were sent before and of the call.
pub mod Connecting
pub mod Clients
use mcp_gatekeeper.Prelude.{
  List, [], ◌∷◌, ◌++◌, Bool, Option, none, some, if◌then◌else◌, Text, text_eq, codes,
}
use mcp_gatekeeper.Json.{Value, Fields, end, field}
use mcp_gatekeeper.Prelude.Results.{Result, ok, err}
use mcp_gatekeeper.Registry.{Tool}

-- A call on the wire; an empty mapping is sent as none.
pub record Sent : Type 0 where
  pub upstream : Text
  pub name : Text
  pub arguments : Option Fields

-- What the SDK's client does: it returns a result with its `is_error`, or raises.
pub data ClientReply : Type 0 where
  replied : Value → Bool → ClientReply
  raised : Text → ClientReply

abbrev pub Respond : Type 0
Respond = List Sent → Sent → ClientReply

-- What a session does: an exception becomes an `UpstreamError`.
pub data SessionReply : Type 0 where
  result : Value → Bool → SessionReply
  upstream_error : Text → SessionReply

abbrev pub sent_arguments : Fields → Option Fields
sent_arguments end = none
sent_arguments (field k v fs) = some (field k v fs)

abbrev pub wire : Text → Text → Fields → Sent
wire upstream name arguments = record {
  upstream = upstream;
  name = name;
  arguments = sent_arguments arguments;
}

abbrev pub call_failure : (Text → Text) → Text → Text → Text → Text
call_failure repr upstream name error =
    codes "upstream "
    ++ (repr upstream ++ (codes " failed to call " ++ (repr name ++ (codes ": " ++ error))))

-- `UpstreamSession.call_tool`.
unfoldable pub session_call : (Text → Text) → Text → Text → ClientReply → SessionReply
session_call repr upstream name (replied content is_error) = result content is_error
session_call repr upstream name (raised error) =
    upstream_error (call_failure repr upstream name error)

-- What the client's `list_tools` does: it returns the tools, or raises.
pub data ListReply : Type 0 where
  listed : List Tool → ListReply
  raised_list : Text → ListReply

abbrev pub list_failure : (Text → Text) → Text → Text → Text
list_failure repr upstream error =
    codes "upstream " ++ (repr upstream ++ (codes " failed to list tools: " ++ error))

-- `UpstreamSession.list_tools`: the tools, or the message of the `UpstreamError`.
unfoldable pub session_list : (Text → Text) → Text → ListReply → Result Text (List Tool)
session_list repr upstream (listed tools) = ok tools
session_list repr upstream (raised_list error) = err (list_failure repr upstream error)

-- Whether entering the SDK's client of an upstream succeeds, or raises.
pub data Opening : Type 0 where
  opened : Opening
  refused : Text → Opening

-- `connections` and `failures`, which the loop of `__aenter__` fills.
pub record UpstreamManager : Type 0 where
  pub connections : List Text
  pub failures : List (Text × Text)

unfoldable pub connect_loop : (Text → Opening) → List Text → UpstreamManager → UpstreamManager
connect_loop opening [] m = m
connect_loop opening (name ∷ upstreams) m = connect_loop opening upstreams (elim (opening name) [
  | opened ↦ record m { connections = m.connections ++ name ∷ [] }
  | refused error ↦ record m { failures = m.failures ++ (name, error) ∷ [] }
])

unfoldable pub connect : (Text → Opening) → List Text → UpstreamManager
unfolding connect_loop
connect opening upstreams =
    connect_loop opening upstreams (record { connections = []; failures = [] })

unfoldable pub is_connected : Text → List Text → Bool
is_connected name [] = Bool.false
is_connected name (c ∷ connections) =
    if text_eq c name then Bool.true else is_connected name connections

-- `__aexit__`, which also closes the clients in reverse order.
abbrev pub disconnect : UpstreamManager → UpstreamManager
disconnect m = record m { connections = [] }
