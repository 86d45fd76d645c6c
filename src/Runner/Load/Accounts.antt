-- ===== src/Runner/Load/Accounts.antt =====
-- internal/runner/runner.go: `load` accounts for every path.
use mathlib.Core.List.{append_assoc, append-nil}
use ratatoskr_go.Base.{
  suc, ◌+◌, ◌≡◌, refl, ap, sym, map, ◌∙◌, List, [], ◌∷◌, ◌++◌, length, Text, arith,
}
use ratatoskr_go.Extract.{PromResult, LogResult}
use ratatoskr_go.Finding.{Finding, Code, code_rule_file_yaml_invalid, code_dashboard_json_invalid}
use ratatoskr_go.Lint.{RuleFile}
use ratatoskr_go.Runner.Load.{
  Files, FileRead, unreadable, invalid, extracted, Gathered, Loaded, gather_file, load_files,
  load_expanded, file_read_finding, rule_file_yaml_finding, dashboard_json_finding,
  expr_parse_errors_from_prom_rule_file, expr_parse_errors_from_loki_rule_file,
  expr_parse_errors_from_dashboard, keep_rule_file, keep_dashboard,
}
use ratatoskr_go.Runner.Load.Whole.{
  file_level, file_level-append, empty-level, read_finding-level, rule_file-level, dashboard-level,
  prom_errors-level, loki_errors-level, dashboard_errors-level,
}

-- The files that are extracted, in order: each as the path and what the extractor returns.
abbrev pub extracted_one : {A : Type 0} → Text → FileRead A → List (Text × A)
extracted_one p (unreadable err) = []
extracted_one p (invalid err) = []
extracted_one p (extracted res) = (p, res) ∷ []

abbrev pub extracted_of : {A : Type 0} → (Text → FileRead A) → List Text → List (Text × A)
extracted_of read [] = []
extracted_of read (p ∷ paths) = extracted_one p (read p) ++ extracted_of read paths

-- The files that are not, in order: each as the path and the code that says why, which is `code` for
-- what the extractor refuses, and E003 for what cannot be opened, of whatever kind.
abbrev pub failed_one : {A : Type 0} → Code → Text → FileRead A → List (Text × Code)
failed_one code p (unreadable err) = (p, code_rule_file_yaml_invalid) ∷ []
failed_one code p (invalid err) = (p, code) ∷ []
failed_one code p (extracted res) = []

abbrev pub failed_of : {A : Type 0} → Code → (Text → FileRead A) → List Text → List (Text × Code)
failed_of code read [] = []
failed_of code read (p ∷ paths) = failed_one code p (read p) ++ failed_of code read paths

module _ {A B : Type 0} (read : Text → FileRead A) (complain : Text → Text → Finding)
    (keep : Text → A → B) (errors : Text → A → List Finding) (code : Code)
    (complains : (p err : Text) → file_level (complain p err ∷ []) ≡ (p, code) ∷ [])
    (quiet : (p : Text) (res : A) → file_level (errors p res) ≡ []) where
  gather : Gathered B → Text → FileRead A → Gathered B
  gather = gather_file read complain keep errors

  gather_file-count :
      (s : Gathered B) (p : Text) (r : FileRead A) → (gather s p r).count ≡ suc s.count
  unfolding gather gather_file
  gather_file-count s p (unreadable err) = refl
  gather_file-count s p (invalid err) = refl
  gather_file-count s p (extracted res) = refl

  gather_file-files :
      (s : Gathered B) (p : Text) (r : FileRead A) (later : List (Text × A))
      → (gather s p r).files ++ map (λ x. keep x.0 x.1) later
        ≡ s.files ++ map (λ x. keep x.0 x.1) (extracted_one p r ++ later)
  unfolding gather gather_file
  gather_file-files s p (unreadable err) later = refl
  gather_file-files s p (invalid err) later = refl
  gather_file-files s p (extracted res) later =
      append_assoc s.files (keep p res ∷ []) (map (λ x. keep x.0 x.1) later)

  appended :
      (old new : List Finding) (marks later : List (Text × Code))
      → file_level new ≡ marks
      → file_level (old ++ new) ++ later ≡ file_level old ++ (marks ++ later)
  appended old new marks later h =
      ap (λ xs. xs ++ later) (file_level-append old new ∙ ap (λ xs. file_level old ++ xs) h)
      ∙ append_assoc (file_level old) marks later

  gather_file-findings :
      (s : Gathered B) (p : Text) (r : FileRead A) (later : List (Text × Code))
      → file_level ((gather s p r).findings) ++ later
        ≡ file_level s.findings ++ (failed_one code p r ++ later)
  unfolding gather gather_file
  gather_file-findings s p (unreadable err) later =
      appended s.findings (file_read_finding p err ∷ []) _ later (read_finding-level p err)
  gather_file-findings s p (invalid err) later =
      appended s.findings (complain p err ∷ []) _ later (complains p err)
  gather_file-findings s p (extracted res) later =
      appended s.findings (errors p res) [] later (quiet p res)

  -- What the loop leaves, of the paths after a state.
  record Accounts (s t : Gathered B) (paths : List Text) : Type 0 where
    pub counted : t.count ≡ s.count + length paths
    pub kept : t.files ≡ s.files ++ map (λ x. keep x.0 x.1) (extracted_of read paths)
    pub reported : file_level t.findings ≡ file_level s.findings ++ failed_of code read paths

  load_files-Accounts :
      (s : Gathered B) (paths : List Text)
      → Accounts s (load_files read complain keep errors s paths) paths
  unfolding load_files gather
  load_files-Accounts s [] = record {
    counted = omega arith;
    kept = sym (append-nil s.files);
    reported = sym (append-nil (file_level s.findings));
  }
  load_files-Accounts s (p ∷ paths) =
      let later = load_files-Accounts (gather s p (read p)) paths in
      record {
        counted = omega (arith, later.counted, gather_file-count s p (read p));
        kept = later.kept ∙ gather_file-files s p (read p) (extracted_of read paths);
        reported = later.reported ∙ gather_file-findings s p (read p) (failed_of code read paths);
      }

abbrev prom_loaded : Files → List Text → Gathered (RuleFile PromResult)
prom_loaded fs paths =
    load_files fs.read_prom rule_file_yaml_finding keep_rule_file
      expr_parse_errors_from_prom_rule_file (record { count = 0; files = []; findings = [] }) paths

abbrev loki_loaded : Files → List Finding → List Text → Gathered (RuleFile LogResult)
loki_loaded fs found paths =
    load_files fs.read_loki rule_file_yaml_finding keep_rule_file
      expr_parse_errors_from_loki_rule_file (record { count = 0; files = []; findings = found })
      paths

-- For every list of paths after expansion: each path is counted once, under its kind, whether or not
-- it can be read; the files that are kept are, in order, those that are extracted, each under its
-- path and with what the extractor returned; and the findings about whole files are, in order, one
-- for each other file, with its path, and with the code E003 if it cannot be opened, or else, as the
-- extractor refuses it, E003 for a rule file and E004 for a dashboard.
pub load_expanded-accounts :
    (fs : Files) (prom_paths loki_paths dash_paths : List Text)
    → let loaded : Loaded = load_expanded fs prom_paths loki_paths dash_paths in
      (loaded.scanned.prometheus_rules ≡ length prom_paths)
      × (loaded.scanned.loki_rules ≡ length loki_paths)
      × (loaded.scanned.dashboards ≡ length dash_paths)
      × (loaded.prom_files
          ≡ map
              (λ x. record { path = x.0; result = record { path = x.0; groups = x.1.groups } })
              (extracted_of fs.read_prom prom_paths))
      × (loaded.loki_files
          ≡ map
              (λ x. record { path = x.0; result = record { path = x.0; groups = x.1.groups } })
              (extracted_of fs.read_loki loki_paths))
      × (loaded.dashboards
          ≡ map (λ x. record x.1 { path = x.0 }) (extracted_of fs.read_dashboard dash_paths))
      × (file_level loaded.findings
          ≡ failed_of code_rule_file_yaml_invalid fs.read_prom prom_paths
            ++ failed_of code_rule_file_yaml_invalid fs.read_loki loki_paths
            ++ failed_of code_dashboard_json_invalid fs.read_dashboard dash_paths)
unfolding load_expanded
load_expanded-accounts fs prom_paths loki_paths dash_paths =
    let p : Gathered (RuleFile PromResult) = prom_loaded fs prom_paths in
    let l : Gathered (RuleFile LogResult) = loki_loaded fs p.findings loki_paths in
    let prom =
      load_files-Accounts fs.read_prom rule_file_yaml_finding keep_rule_file
        expr_parse_errors_from_prom_rule_file code_rule_file_yaml_invalid rule_file-level
        prom_errors-level (record { count = 0; files = []; findings = [] }) prom_paths in
    let loki =
      load_files-Accounts fs.read_loki rule_file_yaml_finding keep_rule_file
        expr_parse_errors_from_loki_rule_file code_rule_file_yaml_invalid rule_file-level
        loki_errors-level (record { count = 0; files = []; findings = p.findings }) loki_paths in
    let dash =
      load_files-Accounts fs.read_dashboard dashboard_json_finding keep_dashboard
        (expr_parse_errors_from_dashboard fs.show_int) code_dashboard_json_invalid dashboard-level
        (dashboard_errors-level fs.show_int)
        (record { count = 0; files = []; findings = l.findings }) dash_paths in
    let bad_prom = failed_of code_rule_file_yaml_invalid fs.read_prom prom_paths in
    let bad_loki = failed_of code_rule_file_yaml_invalid fs.read_loki loki_paths in
    let bad_dash = failed_of code_dashboard_json_invalid fs.read_dashboard dash_paths in
    (
      omega (arith, prom.counted),
      omega (arith, loki.counted),
      omega (arith, dash.counted),
      prom.kept,
      loki.kept,
      dash.kept,
      dash.reported
          ∙ ap (λ xs. xs ++ bad_dash)
              (loki.reported
                ∙ ap (λ xs. xs ++ bad_loki)
                    (prom.reported ∙ ap (λ xs. xs ++ bad_prom) empty-level)),
    )
