-- ===== src/Dashboard/Walk.antt =====
-- dashboard.go: `ExtractDashboard` on a decoded document, with `extractTarget` and `extractInto`.
pub mod Leaves
pub mod Languages
use ratatoskr_go.Base.{
  ℕ, Bool, true, false, not, ◌&&◌, ◌||◌, ◌⊎◌, inl, inr, Option, none, some, List, [], ◌∷◌, ◌++◌,
  Text, bytes, is_empty, contains, has_prefix, length, leb, ◌==◌, text_eq, if◌then◌else◌,
}
use ratatoskr_go.Base.Int.{ℤ}
use ratatoskr_go.Base.Space.{trim_space}
use ratatoskr_go.Dashboard.Calls.{unwrap_promql_variable_query}
use ratatoskr_go.Dashboard.Variables.{normalize_dashboard_expr}
use ratatoskr_go.Extract.{
  PromResult, LogResult, TraceResult, DashboardTarget, DashboardPanel, DashboardVariable,
  DashboardResult,
}

-- The decoded document, over the type R of json.RawMessage.
pub record GrafanaTarget (R : Type 0) : Type 0 where
  pub ref_id : Text
  pub datasource : R
  pub expr : Text
  pub query : Text
  pub query_type : Text

pub record GrafanaPanel (R : Type 0) : Type 0 where
  pub id : ℤ
  pub title : Text
  pub kind : Text
  pub datasource : R
  pub targets : List (GrafanaTarget R)

-- A list of panels; `panel p nested rest` begins with p, whose own panels are `nested`.
pub data GrafanaPanels (R : Type 0) : Type 0 where
  no_panels : GrafanaPanels R
  panel : GrafanaPanel R → GrafanaPanels R → GrafanaPanels R → GrafanaPanels R

pub record GrafanaVariable (R : Type 0) : Type 0 where
  pub name : Text
  pub kind : Text
  pub datasource : R
  pub query : R

pub record GrafanaDashboard (R : Type 0) : Type 0 where
  pub title : Text
  pub uid : Text
  pub panels : GrafanaPanels R
  pub templating : List (GrafanaVariable R)

-- What encoding/json makes of a raw message: whether it is empty, its string, and the fields "type"
-- and "query" of its object; none is an error. `lower` is strings.ToLower.
pub record Json (R : Type 0) : Type 0 where
  pub is_blank : R → Bool
  pub as_string : R → Option Text
  pub type_of : R → Option Text
  pub query_of : R → Option Text
  pub lower : Text → Text

-- `ExtractPromQL`, `ExtractLogQL` and `ExtractTraceQL`: a result and an error, if there is one.
pub record Extractors : Type 0 where
  pub extract_promql : Text → PromResult × Option Text
  pub extract_logql : Text → LogResult × Option Text
  pub extract_traceql : Text → TraceResult × Option Text

abbrev pub or_empty : Option Text → Text
or_empty none = []
or_empty (some s) = s

abbrev pub string_or : Option Text → Option Text → Option Text
string_or (some s) o = some s
string_or none o = o

unfoldable pub datasource_type : {R : Type 0} → Json R → R → Text
datasource_type j raw =
    if j.is_blank raw
    then []
    else elim (string_or (j.as_string raw) (j.type_of raw)) [ none ↦ [] | some s ↦ j.lower s ]

unfoldable pub variable_query : {R : Type 0} → Json R → R → Text
variable_query j raw =
    if j.is_blank raw then [] else or_empty (string_or (j.as_string raw) (j.query_of raw))

unfoldable pub language_for : Text → Text
language_for ds =
    if contains (bytes "prometheus") ds || text_eq ds (bytes "mimir") || contains (bytes "mimir") ds
    then bytes "promql"
    else if contains (bytes "loki") ds
    then bytes "logql"
    else if contains (bytes "tempo") ds
    then bytes "traceql"
    else bytes "unknown"

-- strings.TrimLeft(expr, " \t\r\n")
unfoldable pub trim_left : Text → Text
trim_left [] = []
trim_left (c ∷ s) =
    let rest : Text = trim_left s in if c == 32 || c == 9 || c == 13 || c == 10 then rest else c ∷ s

unfoldable pub classify_expr : Text → Text
classify_expr expr =
    if has_prefix (bytes "{") (trim_left expr) then bytes "logql" else bytes "promql"

abbrev pub is_hex : ℕ → Bool
is_hex c = (leb b'0' c && leb c b'9') || (leb b'a' c && leb c b'f') || (leb b'A' c && leb c b'F')

abbrev pub all_hex : Text → Bool
all_hex [] = true
all_hex (c ∷ s) = is_hex c && all_hex s

-- `traceIDRE`
unfoldable pub is_trace_id : Text → Bool
is_trace_id s = all_hex s && leb 16 (length s) && leb (length s) 32

unfoldable pub is_traceql_query : Text → Text → Bool
is_traceql_query query_type expr =
    if not (is_empty query_type) && not (text_eq query_type (bytes "traceql"))
    then false
    else not (is_trace_id (trim_space expr))

-- The language of a query: that of its datasource, or a guess.
abbrev pub language_of : Text → Text → Text
language_of ds norm =
    let l : Text = language_for ds in if text_eq l (bytes "unknown") then classify_expr norm else l

module _ (x : Extractors) where
  -- A target before its extraction, and after that in each language.
  abbrev pub new_target : Text → Text → Text → List Text → Text → DashboardTarget
  new_target ref_id ds expr vars language = record {
    ref_id = ref_id;
    datasource = ds;
    language = language;
    expr = expr;
    variables = vars;
    promql = none;
    logql = none;
    traceql = none;
    error = [];
  }

  abbrev pub fill_target : Text → DashboardTarget → DashboardTarget
  fill_target norm t =
      if text_eq t.language (bytes "promql")
      then record t {
        promql = some (x.extract_promql norm).0;
        error = or_empty (x.extract_promql norm).1;
      }
      else if text_eq t.language (bytes "logql")
      then record t {
        logql = some (x.extract_logql norm).0;
        error = or_empty (x.extract_logql norm).1;
      }
      else if text_eq t.language (bytes "traceql")
      then record t {
        traceql = some (x.extract_traceql norm).0;
        error = or_empty (x.extract_traceql norm).1;
      }
      else t

  unfoldable pub extract_target : Text → Text → Text → DashboardTarget
  extract_target ref_id ds expr =
      let (norm, vars) = normalize_dashboard_expr expr in
      fill_target norm (new_target ref_id ds expr vars (language_of ds norm))

  abbrev pub fill_promql : Option Text → DashboardVariable → DashboardVariable
  fill_promql none v = v
  fill_promql (some inner) v = record v {
    promql = some (x.extract_promql inner).0;
    error = or_empty (x.extract_promql inner).1;
  }

  abbrev pub fill_variable : Text → DashboardVariable → DashboardVariable
  fill_variable norm v =
      if text_eq v.language (bytes "promql")
      then fill_promql (unwrap_promql_variable_query norm) v
      else if text_eq v.language (bytes "logql")
      then record v {
        logql = some (x.extract_logql norm).0;
        error = or_empty (x.extract_logql norm).1;
      }
      else if text_eq v.language (bytes "traceql")
      then record v {
        traceql = some (x.extract_traceql norm).0;
        error = or_empty (x.extract_traceql norm).1;
      }
      else v

  -- `extractInto` on a variable that is new.
  unfoldable pub extract_variable : Text → Text → Text → Text → DashboardVariable
  extract_variable name kind ds q =
      let (norm, vars) = normalize_dashboard_expr q in
      fill_variable norm (record {
        name = name;
        kind = kind;
        datasource = ds;
        language = language_of ds norm;
        query = q;
        variables = vars;
        promql = none;
        logql = none;
        traceql = none;
        error = [];
      })

  module _ {R : Type 0} (j : Json R) where
    abbrev pub or_parent : Text → Text → Text
    or_parent [] parent = parent
    or_parent ds parent = ds

    abbrev pub target_expr : GrafanaTarget R → Text
    target_expr t = or_parent t.expr t.query

    -- One turn of the loop over the targets of a panel, whose datasource is `ds`.
    unfoldable pub target_of : Text → GrafanaTarget R → List DashboardTarget
    target_of ds t =
        let expr : Text = target_expr t in
        let tds : Text = or_parent (datasource_type j t.datasource) ds in
        if is_empty expr
        then []
        else if text_eq (language_for tds) (bytes "traceql")
            && not (is_traceql_query t.query_type expr)
        then []
        else extract_target t.ref_id tds expr ∷ []

    unfoldable pub targets_of : Text → List (GrafanaTarget R) → List DashboardTarget
    targets_of ds [] = []
    targets_of ds (t ∷ targets) = target_of ds t ++ targets_of ds targets

    abbrev pub panel_of : Text → GrafanaPanel R → DashboardPanel
    panel_of ds p = record {
      id = p.id;
      title = p.title;
      kind = p.kind;
      datasource = ds;
      targets = targets_of ds p.targets;
    }

    abbrev pub panel_ds : GrafanaPanel R → Text → Text
    panel_ds p parent = or_parent (datasource_type j p.datasource) parent

    -- The closure `walk`: what it appends to the panels.
    unfoldable pub walk : GrafanaPanels R → Text → List DashboardPanel
    walk no_panels parent = []
    walk (panel p nested rest) parent =
        let below : List DashboardPanel = walk nested (panel_ds p parent) in
        let others : List DashboardPanel = walk rest parent in
        if text_eq p.kind (bytes "row")
        then below ++ others
        else panel_of (panel_ds p parent) p ∷ others

    -- One turn of the loop over the variables.
    unfoldable pub variable_of : GrafanaVariable R → List DashboardVariable
    variable_of v =
        let q : Text = variable_query j v.query in
        if not (is_empty v.kind) && not (text_eq v.kind (bytes "query"))
        then []
        else if is_empty q
        then []
        else extract_variable v.name v.kind (datasource_type j v.datasource) q ∷ []

    unfoldable pub variables_of : List (GrafanaVariable R) → List DashboardVariable
    variables_of [] = []
    variables_of (v ∷ variables) = variable_of v ++ variables_of variables

    -- `ExtractDashboard` after the decoding.
    unfoldable pub dashboard_of : GrafanaDashboard R → DashboardResult
    dashboard_of d = record {
      path = [];
      title = d.title;
      uid = d.uid;
      panels = walk d.panels [];
      variables = variables_of d.templating;
    }

    -- `decode` is the reading and the decoding, with the error of either.
    unfoldable pub extract_dashboard :
        {I : Type 0} → (I → Text ⊎ GrafanaDashboard R) → Option I → Text ⊎ DashboardResult
    extract_dashboard decode none = inl (bytes "nil reader")
    extract_dashboard decode (some r) = elim (decode r) [
      | inl err ↦ inl err
      | inr d ↦ inr (dashboard_of d)
    ]
