-- ===== src/Runner/Pipeline.antt =====
-- internal/runner/runner.go: `Run` and the defaults of its configuration.
pub mod Order
use ratatoskr_go.Base.{
  ℕ, zero, suc, ◌+◌, Bool, true, false, not, ◌&&◌, ◌⊎◌, inl, inr, Option, none, some, List, [], ◌∷◌,
  ◌++◌, Text, is_empty, if◌then◌else◌,
}
use ratatoskr_go.Base.Int.{ℤ, pos, negsuc}
use ratatoskr_go.Finding.{Finding, sort_findings}
use ratatoskr_go.Lint as Lint
use ratatoskr_go.Lint.{lint_all, default_config, Seen}
use ratatoskr_go.Runner.Load.{Inputs, Scanned, Files, Loaded, load}
use ratatoskr_go.Runner.Gather.{Checker, gather, run_catalog}

-- The checker is a pointer: none is nil.
pub record Config (S : Type 0) : Type 0 where
  pub lint : Lint.Config
  pub checker : Option (Checker S)
  pub prewarm : Bool
  pub prewarm_parallelism : ℤ

abbrev pub is_nil : List Text → Bool
is_nil [] = true
is_nil (x ∷ xs) = false

abbrev pub is_unset : Lint.Config → Bool
is_unset cfg =
    not cfg.require_severity
    && not cfg.detect_duplicate_alerts
    && not cfg.check_empty_expr
    && is_empty cfg.for_gte_interval
    && is_nil cfg.require_annotations

abbrev pub parallelism_or_four : ℤ → ℤ
parallelism_or_four (pos zero) = pos 4
parallelism_or_four (pos (suc n)) = pos (suc n)
parallelism_or_four (negsuc n) = pos 4

unfoldable pub with_defaults : {S : Type 0} → Config S → Config S
with_defaults cfg = record cfg {
  lint = if is_unset cfg.lint then default_config else cfg.lint;
  prewarm_parallelism = parallelism_or_four cfg.prewarm_parallelism;
}

-- The result, without the two durations that the clock gives.
pub record Result : Type 0 where
  pub findings : List Finding
  pub files_scanned : ℕ
  pub files_scanned_by_kind : Scanned

-- `range` is the order in which a map is walked; the others are time durations, read and shown.
module _ (range : Seen → Seen) (parse_model : Text → Option ℕ) (show_duration : ℕ → Text)
    {S : Type 0} where
  abbrev pub report : Config S → Loaded → List Finding → Result
  report cfg files found = record {
    findings = sort_findings (
        files.findings
        ++ (lint_all range parse_model show_duration cfg.lint files.prom_files files.loki_files
            ++ found));
    files_scanned =
        files.scanned.prometheus_rules + files.scanned.loki_rules + files.scanned.dashboards;
    files_scanned_by_kind = files.scanned;
  }

  unfoldable pub run_loaded : Config S → (ℤ → Text) → Loaded → S → (Text ⊎ Result) × S
  run_loaded cfg show_int files s = elim (cfg.checker) [
    | none ↦ (inr (report cfg files []), s)
    | some checker ↦
        let (found, t) =
          run_catalog checker cfg.prewarm cfg.prewarm_parallelism
            (gather show_int files.prom_files files.loki_files files.dashboards) s in
        elim found [ inl err ↦ (inl err, t) | inr fs ↦ (inr (report cfg files fs), t) ]
  ]

  unfoldable pub run : Files → Config S → Inputs → S → (Text ⊎ Result) × S
  run fs cfg given s = elim (load fs given) [
    | inl err ↦ (inl err, s)
    | inr files ↦ run_loaded (with_defaults cfg) fs.show_int files s
  ]
