-- ===== src/Cli/Policy.antt =====
-- internal/cli/cli.go: what the flags and the findings decide.
use ratatoskr_go.Base.{
  ℕ, ◌≤◌, Bool, true, false, not, ◌&&◌, ◌⊎◌, inl, inr, Option, none, some, List, [], ◌∷◌, Text,
  bytes, is_empty, text_eq, any, if◌then◌else◌, ◌≡◌, refl, arith,
}
use ratatoskr_go.Finding.{Finding, severity_error, severity_warning}
use ratatoskr_go.Lint as Lint
use ratatoskr_go.Runner.Pipeline as Pipeline
use ratatoskr_go.Telemetry.{outcome_from, outcome_for}
use ratatoskr_go.Cli.Setup.{
  Mode, mode_lint, mode_check, mode_validate, Flags, Env, no_checks, RunnerSetup, CheckerSetup,
  ConfigError, lint_config, all_off_lint_config, build_checker, build_runner_config, setup, attach,
}
use ratatoskr_go.Cli.Command.{exit_ok, exit_warnings, exit_errors, exit_from, exit_code}

abbrev pub is_error : Finding → Bool
is_error f = text_eq f.severity severity_error

abbrev pub is_warning : Finding → Bool
is_warning f = text_eq f.severity severity_warning

outcome_from-worst :
    (worst : Text) (findings : List Finding)
    → outcome_from worst findings ≡ (
        if any is_error findings
        then bytes "errors"
        else if any is_warning findings
        then bytes "warnings"
        else worst)
unfolding outcome_from
outcome_from-worst worst [] = refl
outcome_from-worst worst (f ∷ findings) =
    ground (arith, outcome_from-worst (if is_warning f then bytes "warnings" else worst) findings)

exit_from-worst :
    (worst : ℕ) (findings : List Finding)
    → worst ≤ 1
    → exit_from worst findings
      ≡ (if any is_error findings then 2 else if any is_warning findings then 1 else worst)
unfolding exit_from
exit_from-worst worst [] h = refl
exit_from-worst worst (f ∷ findings) h =
    ground (arith, exit_from-worst worst findings h, exit_from-worst 1 findings (omega arith))

module _ {P L T St A : Type 0} (env : Env P L T St A) where
  abbrev pub wants : Flags → Mode → Bool
  wants f mode_lint = false
  wants f mode_check = true
  wants f mode_validate =
      not f.offline
      && not (is_empty f.prometheus_url && is_empty f.loki_url && is_empty f.tempo_url)

  abbrev pub is_some : {B : Type 0} → Option B → Bool
  is_some none = false
  is_some (some x) = true

  attach-is_some :
      (f : Flags) (l : Lint.Config) (cfg : RunnerSetup P L T St A)
      (r : ConfigError ⊎ CheckerSetup P L T St A)
      → attach env f l r ≡ inr cfg
      → is_some cfg.checker ≡ true
  attach-is_some f l cfg (inl err) e = absurd (ground arith)
  attach-is_some f l cfg (inr c) e = ground arith

  validate-is_some :
      (f : Flags) (l : Lint.Config) (cfg : RunnerSetup P L T St A) (offline blank : Bool)
      → (if offline
          then inr (setup env f l none)
          else if blank
          then inr (setup env f l none)
          else attach env f l (build_checker env f))
        ≡ inr cfg
      → is_some cfg.checker ≡ (not offline && not blank)
  validate-is_some f l cfg true blank e = ground arith
  validate-is_some f l cfg false true e = ground arith
  validate-is_some f l cfg false false e = attach-is_some f l cfg (build_checker env f) e

  -- A configuration that is built has a catalog checker exactly in the check mode, and in the
  -- validate mode when it is not offline and one of the three addresses is given.
  pub build_runner_config-checker :
      (f : Flags) (m : Mode) (cfg : RunnerSetup P L T St A)
      → build_runner_config env f m ≡ inr cfg
      → is_some cfg.checker ≡ wants f m
  unfolding build_runner_config
  build_runner_config-checker f mode_lint cfg e = ground arith
  build_runner_config-checker f mode_check cfg e =
      attach-is_some f all_off_lint_config cfg (build_checker env f) e
  build_runner_config-checker f mode_validate cfg e =
      validate-is_some f (lint_config f) cfg f.offline
        (is_empty f.prometheus_url && is_empty f.loki_url && is_empty f.tempo_url) e

-- The exit code and the outcome label depend on the findings in the same way: 2 and "errors" if some
-- finding is an error, else 1 and "warnings" if some finding is a warning, else 0 and "clean",
-- also when there are findings of other severities; with --exit-zero the code is 0.
pub exit_code-outcome_for :
    (findings : List Finding) (exit_zero : Bool)
    → (exit_code findings exit_zero ≡ (
        if exit_zero
        then exit_ok
        else if any is_error findings
        then exit_errors
        else if any is_warning findings
        then exit_warnings
        else exit_ok))
      × (outcome_for findings ≡ (
          if any is_error findings
          then bytes "errors"
          else if any is_warning findings
          then bytes "warnings"
          else bytes "clean"))
unfolding exit_code outcome_for
exit_code-outcome_for findings exit_zero = (
  ground (arith, exit_from-worst 0 findings (omega arith)),
  outcome_from-worst (bytes "clean") findings,
)

lint_of : Bool → Bool → Lint.Config
lint_of no_defaults severity =
    if no_defaults
    then record no_checks { require_severity = severity }
    else record (Lint.default_config) { require_severity = severity }
