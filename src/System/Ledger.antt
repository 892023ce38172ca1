-- ===== src/System/Ledger.antt =====
-- What the audit trail holds of a run of the program (proxy/gateway.py, audit/store.py).
use mcp_gatekeeper.Prelude.{
  List, [], ◌∷◌, ◌++◌, append-nil, append_assoc, map, true, false, Text, text_eq_self, ◌≡◌, refl,
  sym, ap, ◌∙◌, inl, inr,
}
use mcp_gatekeeper.Audit.{AuditEvent, build_event}
use mcp_gatekeeper.Audit.Store.{Log, sqlite_store, record_in}
use mcp_gatekeeper.Audit.Fresh.{
  drawn, Drawn, record_event-fresh, Drawn-more, Drawn-append, Drawn-own,
}
use mcp_gatekeeper.Upstream.{Sent, wire}
use mcp_gatekeeper.Gateway.{GatewayDeps, Gateway, Ambient, Entry, event_of}
use mcp_gatekeeper.Gateway.Dispatch.{list_tools, refresh_registry}
use mcp_gatekeeper.Registry.{NamespacedTool}
use mcp_gatekeeper.Gateway.Calls.{or_empty}
use mcp_gatekeeper.Gateway.Handlers.{may_send}
use mcp_gatekeeper.Server.{Sdk, Meta, CallParams, on_list_tools}
use mcp_gatekeeper.Gateway.Forwarding.{Shows, entry-Shows}
use mcp_gatekeeper.System.Noting.{Noting, step-Recorded}
use mcp_gatekeeper.System.{Step, calls, lists, posts, shows, polls, opens, run_step, run_steps}

module _ {C E I : Type 0} (sdk : Sdk C E I) (d : GatewayDeps) where
  -- Every call draws an event id that no call and no event before it has.
  unfoldable pub Fresh : List Text → List (Step C I) → Type 0
  Fresh ids [] = Unit
  Fresh ids (calls amb meta params ∷ steps) =
      (drawn amb.event_id ids ≡ false) × Fresh (amb.event_id ∷ ids) steps
  Fresh ids (step ∷ steps) = Fresh ids steps

  -- The event is about the call.
  abbrev pub About : Ambient → CallParams → AuditEvent → Type 0
  About amb params event =
      (e : Entry) × (event ≡ event_of d amb e)
      × (e.tool ≡ params.name)
      × (e.arguments ≡ or_empty params.arguments)
      × Shows d amb params.name (or_empty params.arguments) event

  -- The events that the steps record and the calls that they send, in order: every call that is sent has an
  -- event of its own, about it, whose outcome is `forwarded` or `error`.
  pub data Ledger : List (Step C I) → Log → List Sent → Type 0 where
    over : Ledger [] [] []
    silent :
        {steps : List (Step C I)} {events : Log} {new : List Sent} (step : Step C I)
        → Ledger steps events new
        → Ledger (step ∷ steps) events new
    kept_back :
        {steps : List (Step C I)} {events : Log} {new : List Sent} (amb : Ambient) (meta : Meta C I)
        (params : CallParams) (event : AuditEvent)
        → About amb params event
        → Ledger steps events new
        → Ledger (calls amb meta params ∷ steps) (event ∷ events) new
    went_out :
        {steps : List (Step C I)} {events : Log} {new : List Sent} (amb : Ambient) (meta : Meta C I)
        (params : CallParams) (event : AuditEvent) (entry : NamespacedTool)
        → About amb params event
        → may_send event.outcome ≡ true
        → Ledger steps events new
        → Ledger
            (calls amb meta params ∷ steps)
            (event ∷ events)
            (wire entry.upstream entry.remote_name (or_empty params.arguments) ∷ new)

  -- What the steps add to the trail and to the calls sent.
  abbrev Added : Log → Gateway → List (Step C I) → Type 0
  Added log g steps =
      let g' = run_steps sdk d steps g in
      (events : Log) × (new : List Sent) × (g'.audit ≡ sqlite_store (log ++ events))
      × (g'.sent ≡ g.sent ++ new)
      × Ledger steps events new

  quietly :
      (log : Log) (step : Step C I) (steps : List (Step C I)) (g : Gateway)
      → (run_step sdk d step g).sent ≡ g.sent
      → Added log (run_step sdk d step g) steps
      → Added log g (step ∷ steps)
  unfolding run_steps
  quietly log step steps g s (events, new, a, e, t) =
      (events, new, a, e ∙ ap (λ l. l ++ new) s, silent step t)

  withheld :
      (log : Log) (amb : Ambient) (meta : Meta C I) (params : CallParams) (event : AuditEvent)
      (steps : List (Step C I)) (g : Gateway)
      → let g' = run_step sdk d (calls amb meta params) g in
        About amb params event
        → g'.sent ≡ g.sent
        → Added (log ++ event ∷ []) g' steps
        → Added log g (calls amb meta params ∷ steps)
  unfolding run_steps
  withheld log amb meta params event steps g about s (events, new, a, e, t) = (
    event ∷ events,
    new,
    a ∙ ap sqlite_store (append_assoc log (event ∷ []) events),
    e ∙ ap (λ l. l ++ new) s,
    kept_back amb meta params event about t,
  )

  released :
      (log : Log) (amb : Ambient) (meta : Meta C I) (params : CallParams) (event : AuditEvent)
      (entry : NamespacedTool) (steps : List (Step C I)) (g : Gateway)
      → let g' = run_step sdk d (calls amb meta params) g in
        let w = wire entry.upstream entry.remote_name (or_empty params.arguments) in
        About amb params event
        → may_send event.outcome ≡ true
        → g'.sent ≡ g.sent ++ w ∷ []
        → Added (log ++ event ∷ []) g' steps
        → Added log g (calls amb meta params ∷ steps)
  unfolding run_steps
  released log amb meta params event entry steps g about may s (events, new, a, e, t) =
      let w = wire entry.upstream entry.remote_name (or_empty params.arguments) in
      (
        event ∷ events,
        w ∷ new,
        a ∙ ap sqlite_store (append_assoc log (event ∷ []) events),
        e ∙ ap (λ l. l ++ new) s ∙ append_assoc g.sent (w ∷ []) new,
        went_out amb meta params event entry about may t,
      )

  event-id : (amb : Ambient) (e : Entry) → (event_of d amb e).event_id ≡ amb.event_id
  unfolding build_event
  event-id amb e = refl

  event-outcome : (amb : Ambient) (e : Entry) → (event_of d amb e).outcome ≡ e.outcome
  unfolding build_event
  event-outcome amb e = refl

  -- What a call leaves of a trail whose events have drawn ids.
  noted :
      (amb : Ambient) (e : Entry) (ids : List Text) (log : Log) (g : Gateway)
      → g.audit ≡ sqlite_store log
      → Drawn ids log
      → drawn amb.event_id ids ≡ false
      → record_in (event_of d amb e) g.audit ≡ sqlite_store (log ++ event_of d amb e ∷ [])
  unfolding record_in
  noted amb e ids log g a h n =
      rw a
        (ap sqlite_store (record_event-fresh (event_of d amb e) ids log h (rw (event-id amb e) n)))

  noisily :
      (ids : List Text) (log : Log) (amb : Ambient) (meta : Meta C I) (params : CallParams)
      (steps : List (Step C I)) (g : Gateway)
      → let g' = run_step sdk d (calls amb meta params) g in
        g.audit ≡ sqlite_store log
        → Drawn ids log
        → drawn amb.event_id ids ≡ false
        → Noting sdk d amb meta params g
        → ((log' : Log)
            → g'.audit ≡ sqlite_store log'
            → Drawn (amb.event_id ∷ ids) log'
            → Added log' g' steps)
        → Added log g (calls amb meta params ∷ steps)
  unfolding Noting
  noisily ids log amb meta params steps g a h n (e, r, tool, arguments, s) rest =
      let event = event_of d amb e in
      let shows = entry-Shows d amb e params.name (or_empty params.arguments) tool arguments in
      let about : About amb params event = (e, refl, tool, arguments, shows) in
      let known =
        Drawn-append (amb.event_id ∷ ids) log event (Drawn-more amb.event_id ids log h)
          (rw (event-id amb e) (rw (text_eq_self amb.event_id) refl)) in
      let more = rest (log ++ event ∷ []) (r ∙ noted amb e ids log g a h n) known in
      elim s [
        | inl same ↦ withheld log amb meta params event steps g about same more
        | inr (may, entry, sent) ↦
            released log amb meta params event entry steps g about
              (ap may_send (event-outcome amb e) ∙ may) sent more
      ]

  explain :
      (steps : List (Step C I)) (ids : List Text) (log : Log) (g : Gateway)
      → g.audit ≡ sqlite_store log
      → Drawn ids log
      → Fresh ids steps
      → Added log g steps
  unfolding Fresh run_step on_list_tools list_tools refresh_registry
  explain [] ids log g a h f = (
    [],
    [],
    unfold run_steps in (a ∙ ap sqlite_store (sym (append-nil log))),
    unfold run_steps in sym (append-nil g.sent),
    over,
  )
  explain (calls amb meta params ∷ steps) ids log g a h (n, f) =
      let step : Step C I = calls amb meta params in
      let g' = run_step sdk d step g in
      let ids' = amb.event_id ∷ ids in
      let later = Drawn-more amb.event_id ids log h in
      elim (step-Recorded sdk d amb meta params g) [
        | inl (same, s) ↦ quietly log step steps g s (explain steps ids' log g' (same ∙ a) later f)
        | inr noting ↦
            noisily ids log amb meta params steps g a h n noting
              (λ log' a' h'. explain steps ids' log' g' a' h' f)
      ]
  explain (lists answers ∷ steps) ids log g a h f =
      quietly log (lists answers) steps g refl
        (explain steps ids log (run_step sdk d (lists answers) g) a h f)
  explain (posts id form now ∷ steps) ids log g a h f =
      quietly log (posts id form now) steps g refl
        (explain steps ids log (run_step sdk d (posts id form now) g) a h f)
  explain (shows id now delay ∷ steps) ids log g a h f =
      quietly log (shows id now delay) steps g refl
        (explain steps ids log (run_step sdk d (shows id now delay) g) a h f)
  explain (polls now ∷ steps) ids log g a h f =
      quietly log (polls now) steps g refl
        (explain steps ids log (run_step sdk d (polls now) g) a h f)
  explain (opens now ∷ steps) ids log g a h f =
      quietly log (opens now) steps g refl
        (explain steps ids log (run_step sdk d (opens now) g) a h f)

  -- Every call that leaves the program is on the record. With the trail switched on and a fresh event id
  -- for every call, whatever the clients and the approvers do, in whatever order, the trail at the end is
  -- the trail from before with new events behind it, and the calls sent are those from before with new ones
  -- behind them: in the order of the clients' calls, each new event is about one call, its tool and its
  -- arguments with the configured patterns masked, and each new call sent has such an event of its own,
  -- with the outcome `forwarded` or `error`.
  pub run_steps-Ledger :
      (steps : List (Step C I)) (log : Log) (g : Gateway)
      → g.audit ≡ sqlite_store log
      → Fresh (map (λ e. e.event_id) log) steps
      → let g' = run_steps sdk d steps g in
        (events : Log) × (new : List Sent) × (g'.audit ≡ sqlite_store (log ++ events))
        × (g'.sent ≡ g.sent ++ new)
        × Ledger steps events new
  run_steps-Ledger steps log g a f =
      explain steps (map (λ e. e.event_id) log) log g a (Drawn-own log) f
