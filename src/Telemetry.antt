-- ===== src/Telemetry.antt =====
-- internal/telemetry/telemetry.go: the metrics as counts, and the outcome of a run.
pub mod Counts
use ratatoskr_go.Base.{
  ℕ, suc, ◌+◌, Bool, true, false, List, [], ◌∷◌, Text, bytes, text_eq, ltb, if◌then◌else◌,
}
use ratatoskr_go.Finding.{
  Finding, Severity, Code, Category, severity_error, severity_warning, severity_info,
}

-- A vector of counters or gauges: the labels of each series with its value.
abbrev pub Vector : Type 0 → Type 0
Vector K = List (K × ℕ)

-- `counts[k]++` on a map, and `Add` on a series: `eq` compares the labels.
unfoldable pub add_to : {K : Type 0} → (K → K → Bool) → K → ℕ → Vector K → Vector K
add_to eq k n [] = (k, n) ∷ []
add_to eq k n ((j, m) ∷ rest) =
    let below = add_to eq k n rest in if eq k j then (j, m + n) ∷ rest else (j, m) ∷ below

-- `Set` on a series.
unfoldable pub set_to : {K : Type 0} → (K → K → Bool) → K → ℕ → Vector K → Vector K
set_to eq k n [] = (k, n) ∷ []
set_to eq k n ((j, m) ∷ rest) =
    let below = set_to eq k n rest in if eq k j then (j, n) ∷ rest else (j, m) ∷ below

-- The value of a series; a series that was never written reads as 0.
unfoldable pub value_of : {K : Type 0} → (K → K → Bool) → K → Vector K → ℕ
value_of eq k [] = 0
value_of eq k ((j, m) ∷ rest) = let below = value_of eq k rest in if eq k j then m else below

abbrev pub Labels : Type 0
Labels = Code × Severity × Category

abbrev pub labels_eq : Labels → Labels → Bool
labels_eq (c, s, k) (d, t, l) =
    if text_eq c d then if text_eq s t then text_eq k l else false else false

-- The metrics of the runs, the readiness flag, and the probe's answers. The histograms are left out.
pub record Telemetry : Type 0 where
  pub findings_total : Vector Labels
  pub last_run_findings : Vector Text
  pub runs_total : Vector Text
  pub files_scanned : Vector Text
  pub watch_iterations : ℕ
  pub is_ready : Bool

unfoldable pub count_findings : List Finding → Vector Labels → Vector Labels
count_findings [] v = v
count_findings (f ∷ findings) v =
    count_findings findings (add_to labels_eq (f.code, f.severity, f.category) 1 v)

unfoldable pub record_findings : List Finding → Telemetry → Telemetry
record_findings findings t = record t { findings_total = count_findings findings t.findings_total }

unfoldable pub count_severities : List Finding → Vector Text → Vector Text
count_severities [] counts = counts
count_severities (f ∷ findings) counts =
    count_severities findings (add_to text_eq f.severity 1 counts)

abbrev pub no_counts : Vector Text
no_counts = (severity_error, 0) ∷ (severity_warning, 0) ∷ (severity_info, 0) ∷ []

unfoldable pub set_each : Vector Text → Vector Text → Vector Text
set_each [] gauge = gauge
set_each ((sev, n) ∷ counts) gauge = set_each counts (set_to text_eq sev n gauge)

-- `range` is the order in which the map of the counts is walked.
module _ (range : Vector Text → Vector Text) where
  unfoldable pub record_last_run_findings : List Finding → Telemetry → Telemetry
  record_last_run_findings findings t = record t {
    last_run_findings = set_each (range (count_severities findings no_counts)) t.last_run_findings;
  }

unfoldable pub add_files : Vector Text → Vector Text → Vector Text
add_files [] v = v
add_files ((kind, n) ∷ files) v = add_files files (if ltb 0 n then add_to text_eq kind n v else v)

unfoldable pub record_run : Text → Vector Text → Telemetry → Telemetry
record_run outcome files_by_kind t = record t {
  runs_total = add_to text_eq outcome 1 t.runs_total;
  files_scanned = add_files files_by_kind t.files_scanned;
}

unfoldable pub record_watch_iteration : Telemetry → Telemetry
record_watch_iteration t = record t { watch_iterations = suc t.watch_iterations }

unfoldable pub set_ready : Bool → Telemetry → Telemetry
set_ready ready t = record t { is_ready = ready }

-- The loop of `OutcomeFor`, with `worst` so far.
unfoldable pub outcome_from : Text → List Finding → Text
outcome_from worst [] = worst
outcome_from worst (f ∷ findings) =
    let rest : Text =
      outcome_from (if text_eq f.severity severity_warning then bytes "warnings" else worst)
        findings in
    if text_eq f.severity severity_error then bytes "errors" else rest

unfoldable pub outcome_for : List Finding → Text
outcome_for findings = outcome_from (bytes "clean") findings
