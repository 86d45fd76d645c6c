-- ===== src/Lint.antt =====
-- pkg/lint/lint.go: the structural checks of rule files.
pub mod Rules
pub mod Duplicates
pub mod Repeats
use ratatoskr_go.Base.{
  ℕ, Bool, true, false, not, ◌&&◌, Option, none, some, List, [], ◌∷◌, ◌++◌, map, Text, bytes,
  text_eq, is_empty, ltb, if◌then◌else◌,
}
use ratatoskr_go.Base.Space.{trim_space}
use ratatoskr_go.Base.Table.{text_at}
use ratatoskr_go.Extract.{PromResult, LogResult, RuleFileResult, RuleGroup, RuleExtraction}
use ratatoskr_go.Finding.{
  Finding, Source, no_source, no_context, sort_findings, category_lint, severity_warning,
  severity_error, code_empty_expr, code_missing_severity, code_missing_annotation,
  code_for_less_than_interval, code_duplicate_alert,
}

abbrev pub for_gte_interval_off : Text
for_gte_interval_off = bytes "off"

abbrev pub for_gte_interval_warn : Text
for_gte_interval_warn = bytes "warn"

abbrev pub for_gte_interval_error : Text
for_gte_interval_error = bytes "error"

pub record Config : Type 0 where
  pub require_severity : Bool
  pub require_annotations : List Text
  pub detect_duplicate_alerts : Bool
  pub for_gte_interval : Text
  pub check_empty_expr : Bool

abbrev pub default_config : Config
default_config = record {
  require_severity = true;
  require_annotations = bytes "summary" ∷ bytes "description" ∷ [];
  detect_duplicate_alerts = true;
  for_gte_interval = for_gte_interval_warn;
  check_empty_expr = true;
}

-- `PromQLFile` and `LogQLFile`: a parsed rule file with its source path.
pub record RuleFile (R : Type 0) : Type 0 where
  pub path : Text
  pub result : RuleFileResult R

-- `promRule`: the view of a rule that the checks work on. A duration that was not given, or not
-- understood, is none.
pub record Rule : Type 0 where
  pub file : Text
  pub group : Text
  pub group_interval : Option ℕ
  pub name : Text
  pub is_alert : Bool
  pub expr : Text
  pub labels : List (Text × Text)
  pub annotations : List (Text × Text)
  pub for_str : Text

abbrev pub source : Rule → Source
source r = record no_source { file = r.file; group = r.group; rule = r.name }

-- A finding of this package, with no suggestions.
abbrev pub lint_finding : Text → Text → Source → Text → Finding
lint_finding code severity src message = record {
  code = code;
  severity = severity;
  category = category_lint;
  source = src;
  message = message;
  suggestions = [];
  context = no_context;
}

abbrev pub rule_name : Text → Text → Text
rule_name alert recorded = if not (is_empty alert) then alert else recorded

-- strings.TrimSpace(s) == ""
abbrev pub is_blank : Text → Bool
is_blank s = is_empty (trim_space s)

unfoldable pub check_empty : Config → Rule → List Finding
check_empty cfg r =
    if cfg.check_empty_expr && is_blank r.expr
    then lint_finding code_empty_expr severity_warning (source r) (bytes "rule expression is empty")
      ∷ []
    else []

unfoldable pub check_severity : Config → Rule → List Finding
check_severity cfg r =
    if cfg.require_severity && is_blank (text_at (bytes "severity") r.labels)
    then lint_finding code_missing_severity severity_error (source r)
        (bytes "alert is missing required label `severity`")
      ∷ []
    else []

abbrev pub missing_annotation : Rule → Text → Finding
missing_annotation r a =
    record (lint_finding code_missing_annotation severity_error (source r)
      (bytes "alert is missing required annotation `" ++ (a ++ bytes "`"))) {
        context = record no_context { label = a };
      }

unfoldable pub check_annotations : List Text → Rule → List Finding
check_annotations [] r = []
check_annotations (a ∷ required) r =
    (if is_blank (text_at a r.annotations) then missing_annotation r a ∷ [] else [])
    ++ check_annotations required r

-- model.ParseDuration (none for an error) and Duration.String of the Prometheus library, on
-- milliseconds.
unfoldable pub parse_duration : (Text → Option ℕ) → Text → Option ℕ
parse_duration parse_model s = if is_empty s then none else parse_model s

module _ (parse_model : Text → Option ℕ) (show_duration : ℕ → Text) where
  abbrev pub short_for : Config → Rule → ℕ → Finding
  short_for cfg r interval =
      lint_finding code_for_less_than_interval
        (if text_eq cfg.for_gte_interval for_gte_interval_error
          then severity_error
          else severity_warning)
        (source r)
        (bytes "alert `for` ("
          ++ (r.for_str
              ++ (bytes ") is less than group `interval` ("
                  ++ (show_duration interval ++ bytes ")"))))

  unfoldable pub check_for : Config → Rule → List Finding
  check_for cfg r = elim r.group_interval [
    | none ↦ []
    | some interval ↦
        if not (text_eq cfg.for_gte_interval for_gte_interval_off) && not (is_empty r.for_str)
        then elim (parse_duration parse_model r.for_str) [
          | none ↦ []
          | some for_d ↦ if ltb for_d interval then short_for cfg r interval ∷ [] else []
        ]
        else []
  ]

  unfoldable pub lint_rule : Config → Rule → List Finding
  lint_rule cfg r =
      check_empty cfg r
      ++ (if not r.is_alert
          then []
          else check_severity cfg r
            ++ (check_annotations cfg.require_annotations r ++ check_for cfg r))

  module _ {R : Type 0} (expr_of : R → Text) where
    abbrev pub to_rule : Text → RuleGroup R → RuleExtraction R → Rule
    to_rule path g r = record {
      file = path;
      group = g.name;
      group_interval = parse_duration parse_model g.interval;
      name = rule_name r.alert r.recorded;
      is_alert = not (is_empty r.alert);
      expr = expr_of r.result;
      labels = r.labels;
      annotations = r.annotations;
      for_str = r.for_str;
    }

    unfoldable pub lint_rules : Config → Text → RuleGroup R → List (RuleExtraction R) → List Finding
    lint_rules cfg path g [] = []
    lint_rules cfg path g (r ∷ rs) = lint_rule cfg (to_rule path g r) ++ lint_rules cfg path g rs

    unfoldable pub lint_groups : Config → Text → List (RuleGroup R) → List Finding
    lint_groups cfg path [] = []
    lint_groups cfg path (g ∷ gs) = lint_rules cfg path g g.rules ++ lint_groups cfg path gs

    unfoldable pub lint_files : Config → List (RuleFile R) → List Finding
    lint_files cfg [] = []
    lint_files cfg (f ∷ fs) = lint_groups cfg f.path f.result.groups ++ lint_files cfg fs

-- The alerts of a corpus in document order, each with its location: the calls of `add`.
module _ {R : Type 0} where
  unfoldable pub alerts_of_rules : Text → Text → List (RuleExtraction R) → List Source
  alerts_of_rules path group [] = []
  alerts_of_rules path group (r ∷ rs) =
      (if not (is_empty r.alert)
        then record no_source { file = path; group = group; rule = r.alert } ∷ []
        else [])
      ++ alerts_of_rules path group rs

  unfoldable pub alerts_of_groups : Text → List (RuleGroup R) → List Source
  alerts_of_groups path [] = []
  alerts_of_groups path (g ∷ gs) = alerts_of_rules path g.name g.rules ++ alerts_of_groups path gs

  unfoldable pub alerts_of_files : List (RuleFile R) → List Source
  alerts_of_files [] = []
  alerts_of_files (f ∷ fs) = alerts_of_groups f.path f.result.groups ++ alerts_of_files fs

abbrev pub Seen : Type 0
Seen = List (Text × List Source)

abbrev pub has_name : Text → Seen → Bool
has_name name [] = false
has_name name (e ∷ seen) = if text_eq e.0 name then true else has_name name seen

abbrev pub extend : Source → Text × List Source → Text × List Source
extend at e = if text_eq e.0 at.rule then (e.0, e.1 ++ at ∷ []) else e

-- seen[name] = append(seen[name], loc)
unfoldable pub add : Seen → Source → Seen
add seen at =
    if has_name at.rule seen then map (extend at) seen else seen ++ (at.rule, at ∷ []) ∷ []

unfoldable pub add_all : Seen → List Source → Seen
add_all seen [] = seen
add_all seen (at ∷ rest) = add_all (add seen at) rest

unfoldable pub format_source : Source → Text
format_source s = if not (is_empty s.group) then s.file ++ (bytes ":" ++ s.group) else s.file

unfoldable pub duplicate : Text → Source → Source → Finding
duplicate name first at =
    lint_finding code_duplicate_alert severity_error at
      (bytes "alert name `" ++ (name ++ (bytes "` is also defined at " ++ format_source first)))

abbrev pub duplicates_at : Text × List Source → List Finding
duplicates_at (name, []) = []
duplicates_at (name, first ∷ rest) = map (duplicate name first) rest

unfoldable pub duplicates_in : Seen → List Finding
duplicates_in [] = []
duplicates_in (e ∷ seen) = duplicates_at e ++ duplicates_in seen

-- `range` gives the entries of a map in the order of its iteration, which Go leaves open.
module _ (range : Seen → Seen) where
  unfoldable pub detect_duplicate_alerts :
      List (RuleFile PromResult) → List (RuleFile LogResult) → List Finding
  detect_duplicate_alerts prom_files loki_files =
      duplicates_in (range (add_all [] (alerts_of_files prom_files ++ alerts_of_files loki_files)))

  module _ (parse_model : Text → Option ℕ) (show_duration : ℕ → Text) where
    unfoldable pub lint_all :
        Config → List (RuleFile PromResult) → List (RuleFile LogResult) → List Finding
    lint_all cfg prom_files loki_files = sort_findings (
        lint_files parse_model show_duration (λ r. r.expr) cfg prom_files
        ++ (lint_files parse_model show_duration (λ r. r.expr) cfg loki_files
            ++ (if cfg.detect_duplicate_alerts
                then detect_duplicate_alerts prom_files loki_files
                else [])))
