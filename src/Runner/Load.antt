-- ===== src/Runner/Load.antt =====
-- internal/runner/runner.go: `load`, which reads the files and reports those, and the expressions,
-- that do not parse.
pub mod Accounts
pub mod Whole
use ratatoskr_go.Base.{
  ℕ, suc, ◌+◌, Bool, true, false, not, ◌⊎◌, inl, inr, List, [], ◌∷◌, ◌++◌, length, Text, bytes,
  is_empty, text_eq, if◌then◌else◌,
}
use ratatoskr_go.Base.Int.{ℤ}
use ratatoskr_go.Extract.{
  PromResult, LogResult, RuleExtraction, RuleGroup, RuleFileResult, DashboardTarget, DashboardPanel,
  DashboardVariable, DashboardResult,
}
use ratatoskr_go.Finding.{
  Finding, Source, Code, no_source, no_context, category_parse, severity_error,
  code_rule_file_yaml_invalid, code_dashboard_json_invalid, code_promql_parse_error,
  code_logql_parse_error,
}
use ratatoskr_go.Lint.{RuleFile}

pub record Inputs : Type 0 where
  pub prom_rules_paths : List Text
  pub loki_rules_paths : List Text
  pub dashboard_paths : List Text

-- The numbers of files under the keys KindPromRules, KindLokiRules and KindDashboards.
pub record Scanned : Type 0 where
  pub prometheus_rules : ℕ
  pub loki_rules : ℕ
  pub dashboards : ℕ

-- A file opened and handed to its extractor: an error of os.Open, an error of the extractor, or
-- the extraction.
pub data FileRead (A : Type 0) : Type 0 where
  unreadable : Text → FileRead A
  invalid : Text → FileRead A
  extracted : A → FileRead A

abbrev pub parse_finding : Code → Source → Text → Finding
parse_finding code source message = record {
  code = code;
  severity = severity_error;
  category = category_parse;
  source = source;
  message = message;
  suggestions = [];
  context = no_context;
}

abbrev pub in_file : Text → Source
in_file path = record no_source { file = path }

unfoldable pub file_read_finding : Text → Text → Finding
file_read_finding path err =
    parse_finding code_rule_file_yaml_invalid (in_file path) (bytes "cannot read file: " ++ err)

unfoldable pub rule_file_yaml_finding : Text → Text → Finding
rule_file_yaml_finding path err =
    parse_finding code_rule_file_yaml_invalid (in_file path)
      (bytes "rule file YAML invalid: " ++ err)

unfoldable pub dashboard_json_finding : Text → Text → Finding
dashboard_json_finding path err =
    parse_finding code_dashboard_json_invalid (in_file path)
      (bytes "dashboard JSON invalid: " ++ err)

-- `ruleName` and `lokiRuleName`.
unfoldable pub rule_name : {R : Type 0} → RuleExtraction R → Text
rule_name r = if not (is_empty r.alert) then r.alert else r.recorded

-- Where an expression of a rule stands.
abbrev pub rule_source : {R : Type 0} → Text → Text → RuleExtraction R → Source
rule_source path group r = record no_source { file = path; group = group; rule = rule_name r }

-- The inner loops of `exprParseErrorsFromPromRuleFile` and `exprParseErrorsFromLokiRuleFile`, which
-- differ in the code and in the language that the message names.
module _ (code : Code) (language : Text) where
  abbrev pub rule_error : {R : Type 0} → Text → Text → RuleExtraction R → Finding
  rule_error path group r =
      parse_finding code (rule_source path group r)
        (language ++ (bytes " parse error: " ++ r.error))

  unfoldable pub errors_of_rules :
      {R : Type 0} → Text → Text → List (RuleExtraction R) → List Finding
  errors_of_rules path group [] = []
  errors_of_rules path group (r ∷ rules) =
      let rest : List Finding = errors_of_rules path group rules in
      if is_empty r.error then rest else rule_error path group r ∷ rest

  unfoldable pub errors_of_groups : {R : Type 0} → Text → List (RuleGroup R) → List Finding
  errors_of_groups path [] = []
  errors_of_groups path (g ∷ groups) =
      errors_of_rules path g.name g.rules ++ errors_of_groups path groups

unfoldable pub expr_parse_errors_from_prom_rule_file :
    Text → RuleFileResult PromResult → List Finding
expr_parse_errors_from_prom_rule_file path res =
    errors_of_groups code_promql_parse_error (bytes "PromQL") path res.groups

unfoldable pub expr_parse_errors_from_loki_rule_file :
    Text → RuleFileResult LogResult → List Finding
expr_parse_errors_from_loki_rule_file path res =
    errors_of_groups code_logql_parse_error (bytes "LogQL") path res.groups

-- `show_int` is the decimal form of an integer.
module _ (show_int : ℤ → Text) where
  unfoldable pub panel_label : DashboardPanel → DashboardTarget → Text
  panel_label p t =
      let label : Text = if is_empty p.title then bytes "id=" ++ show_int p.id else p.title in
      if not (is_empty t.ref_id) then label ++ (bytes "/" ++ t.ref_id) else label

  abbrev pub language_code : Text → Code
  language_code language =
      if text_eq language (bytes "logql") then code_logql_parse_error else code_promql_parse_error

  abbrev pub panel_source : Text → DashboardPanel → DashboardTarget → Source
  panel_source path p t = record no_source { file = path; panel = panel_label p t }

  abbrev pub variable_source : Text → DashboardVariable → Source
  variable_source path v = record no_source { file = path; panel = bytes "var=" ++ v.name }

  unfoldable pub errors_of_targets : Text → DashboardPanel → List DashboardTarget → List Finding
  errors_of_targets path p [] = []
  errors_of_targets path p (t ∷ targets) =
      let rest : List Finding = errors_of_targets path p targets in
      if is_empty t.error
      then rest
      else parse_finding (language_code t.language) (panel_source path p t)
          (t.language ++ (bytes " parse error: " ++ t.error))
        ∷ rest

  unfoldable pub errors_of_panels : Text → List DashboardPanel → List Finding
  errors_of_panels path [] = []
  errors_of_panels path (p ∷ panels) =
      errors_of_targets path p p.targets ++ errors_of_panels path panels

  unfoldable pub errors_of_variables : Text → List DashboardVariable → List Finding
  errors_of_variables path [] = []
  errors_of_variables path (v ∷ variables) =
      let rest : List Finding = errors_of_variables path variables in
      if is_empty v.error
      then rest
      else parse_finding (language_code v.language) (variable_source path v)
          (v.language ++ (bytes " parse error: " ++ v.error))
        ∷ rest

  unfoldable pub expr_parse_errors_from_dashboard : Text → DashboardResult → List Finding
  expr_parse_errors_from_dashboard path res =
      errors_of_panels path res.panels ++ errors_of_variables path res.variables

-- What one of the three loops of `load` has gathered: the count, the files and the findings.
pub record Gathered (A : Type 0) : Type 0 where
  pub count : ℕ
  pub files : List A
  pub findings : List Finding

-- One of the three loops: each reads, reports with `complain` what the extractor refuses, keeps
-- the rest as `keep` says, and reports the expressions that do not parse with `errors`.
module _ {A B : Type 0} (read : Text → FileRead A) (complain : Text → Text → Finding)
    (keep : Text → A → B) (errors : Text → A → List Finding) where
  unfoldable pub gather_file : Gathered B → Text → FileRead A → Gathered B
  gather_file s p (unreadable err) = record s {
    count = suc s.count;
    findings = s.findings ++ file_read_finding p err ∷ [];
  }
  gather_file s p (invalid err) = record s {
    count = suc s.count;
    findings = s.findings ++ complain p err ∷ [];
  }
  gather_file s p (extracted res) = record {
    count = suc s.count;
    files = s.files ++ keep p res ∷ [];
    findings = s.findings ++ errors p res;
  }

  unfoldable pub load_files : Gathered B → List Text → Gathered B
  load_files s [] = s
  load_files s (p ∷ paths) = load_files (gather_file s p (read p)) paths

pub record Loaded : Type 0 where
  pub prom_files : List (RuleFile PromResult)
  pub loki_files : List (RuleFile LogResult)
  pub dashboards : List DashboardResult
  pub findings : List Finding
  pub scanned : Scanned

-- The files as the extractors return them, with `res.Path = p`.
abbrev pub keep_rule_file : {R : Type 0} → Text → RuleFileResult R → RuleFile R
keep_rule_file p res = record { path = p; result = record res { path = p } }

abbrev pub keep_dashboard : Text → DashboardResult → DashboardResult
keep_dashboard p res = record res { path = p }

abbrev pub prom_extensions : List Text
prom_extensions = bytes ".yaml" ∷ bytes ".yml" ∷ []

abbrev pub dashboard_extensions : List Text
dashboard_extensions = bytes ".json" ∷ []

-- What `load` asks of the file system and of the extractors: `expand` for the paths, then a file
-- opened and extracted.
pub record Files : Type 0 where
  pub expand : List Text → List Text → Text ⊎ List Text
  pub read_prom : Text → FileRead (RuleFileResult PromResult)
  pub read_loki : Text → FileRead (RuleFileResult LogResult)
  pub read_dashboard : Text → FileRead DashboardResult
  pub show_int : ℤ → Text

unfoldable pub load_expanded : Files → List Text → List Text → List Text → Loaded
load_expanded fs prom_paths loki_paths dash_paths =
    let prom =
      load_files fs.read_prom rule_file_yaml_finding keep_rule_file
        expr_parse_errors_from_prom_rule_file (record { count = 0; files = []; findings = [] })
        prom_paths in
    let loki =
      load_files fs.read_loki rule_file_yaml_finding keep_rule_file
        expr_parse_errors_from_loki_rule_file
        (record { count = 0; files = []; findings = prom.findings }) loki_paths in
    let dash =
      load_files fs.read_dashboard dashboard_json_finding keep_dashboard
        (expr_parse_errors_from_dashboard fs.show_int)
        (record { count = 0; files = []; findings = loki.findings }) dash_paths in
    record {
      prom_files = prom.files;
      loki_files = loki.files;
      dashboards = dash.files;
      findings = dash.findings;
      scanned = record {
        prometheus_rules = prom.count;
        loki_rules = loki.count;
        dashboards = dash.count;
      };
    }

unfoldable pub load : Files → Inputs → Text ⊎ Loaded
load fs given = elim (fs.expand given.prom_rules_paths prom_extensions) [
  | inl err ↦ inl err
  | inr prom_paths ↦ elim (fs.expand given.loki_rules_paths prom_extensions) [
    | inl err ↦ inl err
    | inr loki_paths ↦ elim (fs.expand given.dashboard_paths dashboard_extensions) [
      | inl err ↦ inl err
      | inr dash_paths ↦ inr (load_expanded fs prom_paths loki_paths dash_paths)
    ]
  ]
]
