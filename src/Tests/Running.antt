-- ===== src/Tests/Running.antt =====
-- The watcher, the command line and the metrics at concrete inputs.
use mathlib.Core.List.{reverse, reverse_perm}
use ratatoskr_go.Base.{
  ◌+◌, ◌*◌, ◌/◌, ◌≤◌, ◌≡◌, refl, true, false, ◌&&◌, ◌||◌, inl, inr, none, some, List, [], ◌∷◌, Text,
  bytes, any, leb, ◌==◌, text_eq, if◌then◌else◌, arith,
}
use ratatoskr_go.Base.Int.{pos}
use ratatoskr_go.Finding.{
  Finding, severity_info, severity_warning, category_lint, no_source, no_context, code_empty_expr,
}
use ratatoskr_go.Lint as Lint
use ratatoskr_go.Cli.Setup.{
  Flags, Env, RunnerSetup, Mode, mode_validate, build_runner_config, build_checker, setup,
  lint_config, CheckerSetup,
}
use ratatoskr_go.Cli.Command.{exit_code, exit_ok, exit_warnings, exit_errors}
use ratatoskr_go.Cli.Policy.{
  is_error, is_warning, wants, is_some, exit_code-outcome_for, build_runner_config-checker,
}
use ratatoskr_go.Runner.Pipeline as Pipeline
use ratatoskr_go.Telemetry.{
  Telemetry, value_of, labels_eq, record_findings, record_last_run_findings, outcome_for,
}
use ratatoskr_go.Telemetry.Counts.{
  count, is_known, of_severity, record_findings-value, record_last_run_findings-value,
}
use ratatoskr_go.Watcher.{
  Config, with_defaults, Loop, Reach, entered, passed, retry_fired, start, pass, handle, run_once,
  next_wait,
}
use ratatoskr_go.Watcher.Backoff.{wait_after, power, wait_after-with_defaults}
use ratatoskr_go.Watcher.Retry.{failures, outcomes, readies, succeeded, Reach-calls}

abbrev watch_config : Config
watch_config = record {
  has_run = true;
  has_on_result = true;
  has_ready = true;
  debounce = 0;
  catalog_refresh = 0;
  retry_initial = 10;
  retry_max = 45;
}

wait_after-with_defaults_example :
    let cfg : Config = with_defaults watch_config in
    (wait_after cfg 1 ≡ cfg.retry_initial)
    × (wait_after cfg 4 ≡ (
        if leb (cfg.retry_max / 2) (cfg.retry_initial * power 2)
        then cfg.retry_max
        else cfg.retry_initial * power 3))
    × (cfg.retry_initial ≤ wait_after cfg 3)
    × (wait_after cfg 3 ≤ cfg.retry_max)
wait_after-with_defaults_example = wait_after-with_defaults watch_config 2

-- 20 and 40 after the second and third failure, then the cap.
waits_run :
    (wait_after (with_defaults watch_config) 2 ≡ 20)
    × (wait_after (with_defaults watch_config) 3 ≡ 40)
    × (wait_after (with_defaults watch_config) 4 ≡ 45)
unfolding wait_after with_defaults next_wait
waits_run = (refl, refl, refl)

-- The state after a first pass that fails and a retry that succeeds.
abbrev recovered : Loop
recovered = pass (with_defaults watch_config) (start (with_defaults watch_config) true) false

recovered-Reach : Reach 16 (with_defaults watch_config) recovered (false ∷ true ∷ [])
unfolding handle pass run_once with_defaults next_wait
recovered-Reach = passed (retry_fired false) false (entered true) (ground arith) refl refl

Reach-calls_example :
    (recovered.retry_armed ≡ (
      if failures (false ∷ true ∷ []) == 0
      then none
      else some (wait_after (with_defaults watch_config) (failures (false ∷ true ∷ [])))))
    × (outcomes recovered.watcher.calls ≡ false ∷ true ∷ [])
    × (readies recovered.watcher.calls ≡ (
        if (with_defaults watch_config).has_ready && succeeded (false ∷ true ∷ []) then 1 else 0))
Reach-calls_example = Reach-calls 16 watch_config recovered (false ∷ true ∷ []) recovered-Reach

abbrev with_severity : Text → Finding
with_severity severity = record {
  code = code_empty_expr;
  severity = severity;
  category = category_lint;
  source = no_source;
  message = bytes "m";
  suggestions = [];
  context = no_context;
}

abbrev mixed : List Finding
mixed =
    with_severity severity_info ∷ with_severity severity_warning ∷ with_severity severity_info ∷ []

exit_code-outcome_for_example :
    (exit_code mixed false ≡ (
      if false
      then exit_ok
      else if any is_error mixed
      then exit_errors
      else if any is_warning mixed
      then exit_warnings
      else exit_ok))
    × (outcome_for mixed ≡ (
        if any is_error mixed
        then bytes "errors"
        else if any is_warning mixed
        then bytes "warnings"
        else bytes "clean"))
exit_code-outcome_for_example = exit_code-outcome_for mixed false

abbrev flags : Flags
flags = record {
  prom_rules = bytes "rules" ∷ [];
  loki_rules = [];
  dashboards = [];
  prometheus_url = bytes "http://mimir";
  loki_url = [];
  tempo_url = [];
  prom_headers = bytes "X-Scope-OrgID=1" ∷ [];
  allowlist = [];
  cache_dir = [];
  offline = false;
  output = bytes "-";
  format = bytes "text";
  exit_zero = false;
  jobs = pos 4;
  require_severity = false;
  no_lint_defaults = true;
  watch = false;
}

abbrev env : Env Text Text Text Text Text
env = record {
  new_mimir = λ url hdr. inr url;
  new_loki = λ url. inr url;
  new_tempo = λ url. inr url;
  new_fs_store = λ root. root;
  open_allowlist = λ path. inl (bytes "no such file");
}

abbrev runner_settings : Pipeline.Config (Unit {0})
runner_settings = record {
  lint = Lint.default_config;
  checker = none;
  prewarm = true;
  prewarm_parallelism = pos 4;
}

abbrev checked : RunnerSetup Text Text Text Text Text
checked = setup env flags (lint_config flags) (
    some (record {
      prom = some (bytes "http://mimir", bytes "http://mimir");
      loki = none;
      tempo = none;
      store = none;
      allow = none;
    }))

checked-built : build_runner_config env flags mode_validate ≡ inr checked
unfolding build_runner_config build_checker ratatoskr_go.Cli.Setup.parse_headers
    ratatoskr_go.Cli.Setup.cut_at_equals
checked-built = refl

build_runner_config-checker_example : is_some env checked.checker ≡ wants env flags mode_validate
build_runner_config-checker_example =
    build_runner_config-checker env flags mode_validate checked checked-built

abbrev no_metrics : Telemetry
no_metrics = record {
  findings_total = [];
  last_run_findings = (severity_info, 9) ∷ [];
  runs_total = [];
  files_scanned = [];
  watch_iterations = 0;
  is_ready = false;
}

record_findings-value_example :
    value_of labels_eq
      (code_empty_expr, severity_info, category_lint)
      (record_findings mixed no_metrics).findings_total
    ≡ value_of labels_eq (code_empty_expr, severity_info, category_lint) no_metrics.findings_total
      + count
          (λ f.
            labels_eq
              (code_empty_expr, severity_info, category_lint)
              (f.code, f.severity, f.category))
          mixed
record_findings-value_example =
    record_findings-value (code_empty_expr, severity_info, category_lint) mixed no_metrics

record_last_run_findings-value_example :
    value_of text_eq severity_info
      (record_last_run_findings reverse mixed no_metrics).last_run_findings
    ≡ (if is_known severity_info || any (of_severity severity_info) mixed
        then count (of_severity severity_info) mixed
        else value_of text_eq severity_info no_metrics.last_run_findings)
record_last_run_findings-value_example =
    record_last_run_findings-value reverse reverse_perm severity_info mixed no_metrics
