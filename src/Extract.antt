-- ===== src/Extract.antt =====
-- The extraction results of the root package (promql.go, logql.go, traceql.go, rulefile.go and
-- dashboard.go): the data that linting and the catalog checks consume.
use ratatoskr_go.Base.{Bool, Option, List, ◌++◌, Text, bytes}
use ratatoskr_go.Base.Int.{ℤ}

pub record Selector : Type 0 where
  pub metric : Text
  pub label : Text
  pub op : Text
  pub value : Text

-- `Result`. The timestamps of @ modifiers are kept in milliseconds, as the parser gives them.
pub record PromResult : Type 0 where
  pub expr : Text
  pub metric_refs : List Text
  pub selectors : List Selector
  pub at_modifiers : List ℤ
  pub functions : List Text

pub record LabelMatcher : Type 0 where
  pub label : Text
  pub op : Text
  pub value : Text

pub record LineFilter : Type 0 where
  pub op : Text
  pub pattern : Text

pub record LogResult : Type 0 where
  pub expr : Text
  pub stream_selectors : List LabelMatcher
  pub line_filters : List LineFilter
  pub label_filters : List Text
  pub parsers : List Text
  pub functions : List Text

pub record TraceAttribute : Type 0 where
  pub scope : Text
  pub parent : Bool
  pub name : Text

pub record TraceMatcher : Type 0 where
  pub attribute : TraceAttribute
  pub value : Text

pub record TraceResult : Type 0 where
  pub expr : Text
  pub attributes : List TraceAttribute
  pub intrinsics : List Text
  pub functions : List Text
  pub matchers : List TraceMatcher

-- The attribute as TraceQL writes it, less the parent prefix.
unfoldable pub qualified : TraceAttribute → Text
qualified a = a.scope ++ (bytes "." ++ a.name)

-- One rule of a rule file; R is the extraction of its expression. A map of labels or annotations
-- is a list of pairs, each key once.
pub record RuleExtraction (R : Type 0) : Type 0 where
  pub recorded : Text
  pub alert : Text
  pub for_str : Text
  pub labels : List (Text × Text)
  pub annotations : List (Text × Text)
  pub result : R
  pub error : Text

pub record RuleGroup (R : Type 0) : Type 0 where
  pub name : Text
  pub interval : Text
  pub rules : List (RuleExtraction R)

pub record RuleFileResult (R : Type 0) : Type 0 where
  pub path : Text
  pub groups : List (RuleGroup R)

-- An extraction under a pointer: none is nil.
pub record DashboardTarget : Type 0 where
  pub ref_id : Text
  pub datasource : Text
  pub language : Text
  pub expr : Text
  pub variables : List Text
  pub promql : Option PromResult
  pub logql : Option LogResult
  pub traceql : Option TraceResult
  pub error : Text

pub record DashboardPanel : Type 0 where
  pub id : ℤ
  pub title : Text
  pub kind : Text
  pub datasource : Text
  pub targets : List DashboardTarget

pub record DashboardVariable : Type 0 where
  pub name : Text
  pub kind : Text
  pub datasource : Text
  pub language : Text
  pub query : Text
  pub variables : List Text
  pub promql : Option PromResult
  pub logql : Option LogResult
  pub traceql : Option TraceResult
  pub error : Text

pub record DashboardResult : Type 0 where
  pub path : Text
  pub title : Text
  pub uid : Text
  pub panels : List DashboardPanel
  pub variables : List DashboardVariable

-- The literal that stands in for a dashboard variable.
abbrev pub dashboard_variable_sentinel : Text
dashboard_variable_sentinel = bytes "__ratatoskr_dashboard_var__"
