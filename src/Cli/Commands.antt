-- ===== src/Cli/Commands.antt =====
-- What the commands of cli.py do with a configuration, and what a gateway that is served does.
use mcp_gatekeeper.Prelude.{
  ℕ, List, [], map, Bool, true, false, ◌||◌, Option, if◌then◌else◌, Text, codes, text_eq, length,
  All, sort_by, ◌≡◌, refl, sym, ap, ◌↔◌, ◌⊎◌, inl, inr, arith,
}
use mcp_gatekeeper.Prelude.Results.{Result, ok, err}
use mcp_gatekeeper.Audit.Store.{oldest_first}
use mcp_gatekeeper.Audit.Jsonl.{
  Rendering, to_jsonl, read_lines, export_jsonl, export_jsonl-read_lines, NumbersPrint,
}
use mcp_gatekeeper.Json.Printable.{is_printable_text}
use mcp_gatekeeper.Config.{GatekeeperConfig}
use mcp_gatekeeper.Config.Loader.{Raised, config_error, uncaught}
use mcp_gatekeeper.Database.{File}
use mcp_gatekeeper.Cli.{Colour, Stop, exit, load_or_exit, run, export}

abbrev pub is_transport : Text → Bool
is_transport transport = text_eq transport (codes "stdio") || text_eq transport (codes "http")

ok_injective : {E A : Type 0} {a b : A} → ◌≡◌ {A = Result E A} (ok a) (ok b) → a ≡ b
ok_injective e = cc e

served :
    (b : Bool) (lines others : List Text) (stop : Stop) (d c : GatekeeperConfig)
    → ((if◌then◌else◌ {A = List Text × Result Stop GatekeeperConfig} b
          (lines, ok d)
          (others, err stop)).1
        ≡ ok c)
      ↔ ((◌≡◌ {A = Result Raised GatekeeperConfig} (ok d) (ok c)) × (b ≡ true))
served true lines others stop d c =
    (λ h. (ap ok (ok_injective h), refl), λ (h, k). ap ok (ok_injective h))
served false lines others stop d c = (λ h. ground (arith, h), λ (h, k). ground (arith, k))

refused_transport :
    (b : Bool) (lines others : List Text) (d : GatekeeperConfig) (n : ℕ)
    → ◌≡◌ {A = Result Stop GatekeeperConfig}
        (if◌then◌else◌ {A = List Text × Result Stop GatekeeperConfig} b
          (lines, ok d)
          (others, err (exit 2))).1
        (err (exit n))
    → (b ≡ false) × (n ≡ 2)
refused_transport true lines others d n h = ground (arith, h)
refused_transport false lines others d n h = (refl, ground (arith, h))

module _ (style : Colour → Text → Text) (repr : Text → Text) where
  -- The command `run` serves a configuration exactly when the file loads as that configuration and the
  -- transport is `stdio` or `http`.
  pub run_iff :
      (transport : Text) (loaded : Result Raised GatekeeperConfig) (c : GatekeeperConfig)
      → ((run style repr transport loaded).1 ≡ ok c)
        ↔ ((loaded ≡ ok c) × (is_transport transport ≡ true))
  unfolding run load_or_exit
  run_iff transport (ok d) c = served (is_transport transport) [] _ _ d c
  run_iff transport (err (config_error m)) c = (λ h. ground (arith, h), λ (h, k). ground (arith, h))
  run_iff transport (err (uncaught m)) c = (λ h. ground (arith, h), λ (h, k). ground (arith, h))

  -- Where `run` ends early, it ends with code 1 for a file that is no valid configuration and with code 2
  -- for an unknown transport.
  pub run-exits :
      (transport : Text) (loaded : Result Raised GatekeeperConfig) (n : ℕ)
      → (run style repr transport loaded).1 ≡ err (exit n)
      → ((m : Text) × (loaded ≡ err (config_error m)) × (n ≡ 1))
        ⊎ ((c : GatekeeperConfig) × (loaded ≡ ok c) × (is_transport transport ≡ false) × (n ≡ 2))
  unfolding run load_or_exit
  run-exits transport (ok d) n h =
      let (other, code) = refused_transport (is_transport transport) [] _ d n h in
      inr (d, refl, other, code)
  run-exits transport (err (config_error m)) n h = inl (m, refl, ground (arith, h))
  run-exits transport (err (uncaught m)) n h = ground (arith, h)

-- The command `export` writes one line for each recorded event, the oldest first, and counts exactly the
-- lines that a reader gets back from the text.
pub export-read_lines :
    (r : Rendering) (latencies : (n : ℕ) → is_printable_text (r.milliseconds n) ≡ true)
    (output : Option Text) (file : File)
    → All NumbersPrint file.events
    → let (body, n, printed) = export r output file in
      (read_lines body ≡ map (to_jsonl r) (sort_by oldest_first file.events))
      × (n ≡ length (read_lines body))
unfolding export export_jsonl
export-read_lines r latencies output file h =
    let same = export_jsonl-read_lines r latencies file.events h in (same, ap length (sym same))
