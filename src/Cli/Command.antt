-- ===== src/Cli/Command.antt =====
-- internal/cli/cli.go: the exit codes and the commands; and the callback of internal/cli/watch.go.
use ratatoskr_go.Base.{
  ℕ, Bool, true, false, ◌&&◌, ◌⊎◌, inl, inr, none, some, List, [], ◌∷◌, Text, bytes, text_eq, ltb,
  if◌then◌else◌,
}
use ratatoskr_go.Finding.{Finding, severity_error, severity_warning}
use ratatoskr_go.Report.{Format, parse_format}
use ratatoskr_go.Runner.Load.{Inputs, Scanned}
use ratatoskr_go.Runner.Pipeline.{Result, is_nil}
use ratatoskr_go.Telemetry.{
  Telemetry, Vector, record_findings, record_last_run_findings, record_run, record_watch_iteration,
  outcome_for,
}
use ratatoskr_go.Cli.Setup.{
  Mode, mode_lint, mode_check, mode_validate, Flags, Env, RunnerSetup, build_runner_config,
}

abbrev pub exit_ok : ℕ
exit_ok = 0

abbrev pub exit_warnings : ℕ
exit_warnings = 1

abbrev pub exit_errors : ℕ
exit_errors = 2

-- The loop of `exitCode`, with `worst` so far.
unfoldable pub exit_from : ℕ → List Finding → ℕ
exit_from worst [] = worst
exit_from worst (f ∷ findings) =
    let rest : ℕ =
      exit_from
        (if text_eq f.severity severity_warning && ltb worst exit_warnings
          then exit_warnings
          else worst)
        findings in
    if text_eq f.severity severity_error then exit_errors else rest

unfoldable pub exit_code : List Finding → Bool → ℕ
exit_code findings exit_zero = if exit_zero then exit_ok else exit_from exit_ok findings

-- The outcome of parsing the flags: -h, an error, or the flags.
pub data Parsed : Type 0 where
  help refused : Parsed
  given : Flags → Parsed

-- The rest of a run: the runner with a configuration, the watch mode and the writing of the report,
-- which answers whether it failed.
module _ {P L T St A : Type 0} (env : Env P L T St A)
    (run : RunnerSetup P L T St A → Inputs → Text ⊎ Result)
    (run_watch : RunnerSetup P L T St A → Inputs → Flags → Format → ℕ)
    (write_failed : Text → Format → Result → Bool) where
  abbrev pub run_once : Flags → Format → RunnerSetup P L T St A → Inputs → ℕ
  run_once f format cfg inputs = elim (run cfg inputs) [
    | inl err ↦ exit_errors
    | inr res ↦
        if write_failed f.output format res then exit_errors else exit_code res.findings f.exit_zero
  ]

  abbrev pub is_validate : Mode → Bool
  is_validate mode_validate = true
  is_validate _ = false

  abbrev pub has_no_inputs : Flags → Bool
  has_no_inputs f = is_nil f.prom_rules && is_nil f.loki_rules && is_nil f.dashboards

  unfoldable pub run_validate : Mode → Parsed → ℕ
  run_validate m help = exit_ok
  run_validate m refused = exit_errors
  run_validate m (given f) = if has_no_inputs f then exit_errors else elim (parse_format f.format) [
    | none ↦ exit_errors
    | some format ↦ elim (build_runner_config env f m) [
      | inl err ↦ exit_errors
      | inr cfg ↦
          let inputs : Inputs = record {
            prom_rules_paths = f.prom_rules;
            loki_rules_paths = f.loki_rules;
            dashboard_paths = f.dashboards;
          } in
          if f.watch
          then if is_validate m then run_watch cfg inputs f format else exit_errors
          else run_once f format cfg inputs
    ]
  ]

  -- `parse_flags` is the flag set of a subcommand, on the arguments after its name.
  unfoldable pub run_command : (List Text → Parsed) → List Text → ℕ
  run_command parse_flags [] = exit_errors
  run_command parse_flags (name ∷ args) =
      if text_eq name (bytes "lint")
      then run_validate mode_lint (parse_flags args)
      else if text_eq name (bytes "check")
      then run_validate mode_check (parse_flags args)
      else if text_eq name (bytes "validate")
      then run_validate mode_validate (parse_flags args)
      else exit_errors

-- The counts of a run under the keys of the runner, in the order in which a map is walked.
abbrev pub by_kind : Scanned → Vector Text
by_kind s =
    (bytes "prometheus_rules", s.prometheus_rules)
    ∷ (bytes "loki_rules", s.loki_rules)
    ∷ (bytes "dashboards", s.dashboards)
    ∷ []

-- The callback `onResult` of the watch mode, as what it does to the metrics.
module _ (range : Vector Text → Vector Text) where
  unfoldable pub on_result : Text ⊎ Result → Telemetry → Telemetry
  on_result (inl err) t = record_run (bytes "failed") [] (record_watch_iteration t)
  on_result (inr res) t =
      record_run (outcome_for res.findings) (by_kind res.files_scanned_by_kind) (
        record_last_run_findings range res.findings
          (record_findings res.findings (record_watch_iteration t)))
