-- ===== src/Upstream/Connecting.antt =====
-- Connecting to the upstreams (proxy/upstream.py): one failure does not keep the others out.
use mcp_gatekeeper.Prelude.{
  List, [], ◌∷◌, ◌++◌, append_assoc, append-nil, Bool, true, false, not, Text, ◌≡◌, refl, sym, ap,
  ◌∙◌, keep,
}
use mcp_gatekeeper.Upstream.{Opening, opened, refused, UpstreamManager, connect_loop, connect}

abbrev pub opens : Opening → Bool
opens opened = true
opens (refused error) = false

abbrev pub failed_names : List (Text × Text) → List Text
failed_names [] = []
failed_names ((name, error) ∷ failures) = name ∷ failed_names failures

failed-append :
    (failures : List (Text × Text)) (name error : Text)
    → failed_names (failures ++ (name, error) ∷ []) ≡ failed_names failures ++ name ∷ []
failed-append [] name error = refl
failed-append ((n, e) ∷ failures) name error = ap (λ x. n ∷ x) (failed-append failures name error)

module _ (opening : Text → Opening) where
  -- From a manager on, the names that open follow its connections and the others its failures.
  abbrev Splits : List Text → UpstreamManager → Type 0
  Splits names m =
      ((connect_loop opening names m).connections
        ≡ m.connections ++ keep (λ n. opens (opening n)) names)
      × (failed_names (connect_loop opening names m).failures
          ≡ failed_names m.failures ++ keep (λ n. not (opens (opening n))) names)

  first-Splits :
      (name : Text) (names : List Text) (m : UpstreamManager) (o : Opening)
      → opening name ≡ o
      → ((m' : UpstreamManager) → Splits names m')
      → Splits (name ∷ names) m
  unfolding connect_loop
  first-Splits name names m opened e rest =
      let (c, f) = rest (record m { connections = m.connections ++ name ∷ [] }) in
      rw (e, connect_loop, keep)
        (c ∙ append_assoc m.connections (name ∷ []) (keep (λ n. opens (opening n)) names), f)
  first-Splits name names m (refused error) e rest =
      let (c, f) = rest (record m { failures = m.failures ++ (name, error) ∷ [] }) in
      let others = keep (λ n. not (opens (opening n))) names in
      rw (e, connect_loop, keep)
        (
          c,
          f
              ∙ (ap (λ x. x ++ others) (failed-append m.failures name error)
                  ∙ append_assoc (failed_names m.failures) (name ∷ []) others),
        )

  connect_loop-Splits : (names : List Text) (m : UpstreamManager) → Splits names m
  unfolding connect_loop
  connect_loop-Splits [] m =
      (sym (append-nil m.connections), sym (append-nil (failed_names m.failures)))
  connect_loop-Splits (name ∷ names) m =
      first-Splits name names m (opening name) refl (connect_loop-Splits names)

  -- After the manager has been entered, the connections are exactly the configured upstreams whose
  -- client opens, in the order of the configuration, and the failures name exactly the others.
  pub connect-keep :
      (names : List Text)
      → ((connect opening names).connections ≡ keep (λ n. opens (opening n)) names)
        × (failed_names (connect opening names).failures
            ≡ keep (λ n. not (opens (opening n))) names)
  unfolding connect
  connect-keep names = connect_loop-Splits names (record { connections = []; failures = [] })
