-- ===== src/Upstream/Clients.antt =====
-- `_build_client` of proxy/upstream.py: the SDK's client of a configured upstream, not yet connected.
use mcp_gatekeeper.Prelude.{List, [], ◌∷◌, Option, none, some, Text, ◌≡◌, refl}
use mcp_gatekeeper.Config.{HttpUpstream, Upstream, stdio, http}

-- `Client(StdioServerParameters(...))` and `Client(url)`.
pub data Client : Type 0 where
  process : Text → List Text → Option (List (Text × Text)) → Option Text → Client
  streamable_http : Text → Client

-- `dict(env) or None`.
abbrev pub or_none {ℓ} : {A : Type ℓ} → List A → Option (List A)
or_none [] = none
or_none (x ∷ xs) = some (x ∷ xs)

unfoldable pub build_client : Upstream → Client
build_client (stdio u) = process u.command u.args (or_none u.env) u.cwd
build_client (http u) = streamable_http u.url

-- The headers of an HTTP upstream do not reach its client.
build_client_headers :
    (u : HttpUpstream) (headers : List (Text × Text))
    → build_client (http (record u { headers = headers })) ≡ build_client (http u)
unfolding build_client
build_client_headers u headers = refl
