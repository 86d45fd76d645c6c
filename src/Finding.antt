-- ===== src/Finding.antt =====
-- pkg/finding: findings, their codes and severities, and the order that reports rely on.
pub mod Order
use ratatoskr_go.Base.{
  ℕ, Bool, not, List, [], ◌∷◌, Text, bytes, text_eq, text_lt, ltb, ◌==◌, if◌then◌else◌,
}
use ratatoskr_go.Base.Sort.{sort_stable}

abbrev pub Severity : Type 0
Severity = Text

abbrev pub severity_error : Severity
severity_error = bytes "error"

abbrev pub severity_warning : Severity
severity_warning = bytes "warning"

abbrev pub severity_info : Severity
severity_info = bytes "info"

abbrev pub Category : Type 0
Category = Text

abbrev pub category_parse : Category
category_parse = bytes "parse"

abbrev pub category_lint : Category
category_lint = bytes "lint"

abbrev pub category_catalog : Category
category_catalog = bytes "catalog"

-- Location in the input corpus; lines count from 1, and 0 is unknown.
pub record Source : Type 0 where
  pub file : Text
  pub line : ℕ
  pub group : Text
  pub rule : Text
  pub panel : Text

pub record Context : Type 0 where
  pub metric : Text
  pub label : Text
  pub value : Text
  pub expr : Text

abbrev pub Code : Type 0
Code = Text

pub record Finding : Type 0 where
  pub code : Code
  pub severity : Severity
  pub category : Category
  pub source : Source
  pub message : Text
  pub suggestions : List Text
  pub context : Context

-- The zero values of Go.
abbrev pub no_source : Source
no_source = record { file = []; line = 0; group = []; rule = []; panel = [] }

abbrev pub no_context : Context
no_context = record { metric = []; label = []; value = []; expr = [] }

-- The comparison function of `Sort`.
unfoldable pub before : Finding → Finding → Bool
before a b =
    if not (text_eq a.source.file b.source.file)
    then text_lt a.source.file b.source.file
    else if not (a.source.line == b.source.line)
    then ltb a.source.line b.source.line
    else if not (text_eq a.source.group b.source.group)
    then text_lt a.source.group b.source.group
    else if not (text_eq a.source.rule b.source.rule)
    then text_lt a.source.rule b.source.rule
    else if not (text_eq a.code b.code)
    then text_lt a.code b.code
    else text_lt a.message b.message

unfoldable pub sort_findings : List Finding → List Finding
sort_findings findings = sort_stable before findings

-- The severity that a code's prefix implies.
unfoldable pub default_severity : Code → Severity
default_severity [] = severity_info
default_severity (c ∷ rest) =
    if c == b'E' then severity_error else if c == b'W' then severity_warning else severity_info

-- pkg/finding/code.go: the codes.
abbrev pub code_promql_parse_error : Code
code_promql_parse_error = bytes "E001_PROMQL_PARSE_ERROR"

abbrev pub code_logql_parse_error : Code
code_logql_parse_error = bytes "E002_LOGQL_PARSE_ERROR"

abbrev pub code_rule_file_yaml_invalid : Code
code_rule_file_yaml_invalid = bytes "E003_RULEFILE_YAML_INVALID"

abbrev pub code_dashboard_json_invalid : Code
code_dashboard_json_invalid = bytes "E004_DASHBOARD_JSON_INVALID"

abbrev pub code_metric_unknown : Code
code_metric_unknown = bytes "E101_METRIC_UNKNOWN"

abbrev pub code_label_unknown : Code
code_label_unknown = bytes "E102_LABEL_UNKNOWN"

abbrev pub code_label_value_unknown : Code
code_label_value_unknown = bytes "E103_LABEL_VALUE_UNKNOWN"

abbrev pub code_stream_label_unknown : Code
code_stream_label_unknown = bytes "E201_STREAM_LABEL_UNKNOWN"

abbrev pub code_stream_value_unknown : Code
code_stream_value_unknown = bytes "E202_STREAM_VALUE_UNKNOWN"

abbrev pub code_missing_severity : Code
code_missing_severity = bytes "E301_MISSING_SEVERITY"

abbrev pub code_missing_annotation : Code
code_missing_annotation = bytes "E302_MISSING_ANNOTATION"

abbrev pub code_duplicate_alert : Code
code_duplicate_alert = bytes "E303_DUPLICATE_ALERT"

abbrev pub code_for_less_than_interval : Code
code_for_less_than_interval = bytes "W401_FOR_LT_INTERVAL"

abbrev pub code_empty_expr : Code
code_empty_expr = bytes "W402_EMPTY_EXPR"

abbrev pub code_trace_attribute_unknown : Code
code_trace_attribute_unknown = bytes "E801_TRACE_ATTRIBUTE_UNKNOWN"

abbrev pub code_trace_attribute_value_unknown : Code
code_trace_attribute_value_unknown = bytes "E802_TRACE_ATTRIBUTE_VALUE_UNKNOWN"
