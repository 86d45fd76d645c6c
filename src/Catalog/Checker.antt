-- ===== src/Catalog/Checker.antt =====
-- pkg/catalog/checker.go: the checker and its `CheckPromQL`, over cached lookups that may fail and that
-- change the state of the cache.
pub mod Cached
pub mod CachedKnown
pub mod Known
pub mod Logs
pub mod LogsKnown
pub mod Silent
pub mod Traces
pub mod TracesKnown
use ratatoskr_go.Base.{
  Bool, true, false, not, ◌&&◌, ◌||◌, ◌⊎◌, inl, inr, Option, none, some, List, [], ◌∷◌, ◌++◌, Text,
  bytes, is_empty, text_eq, member, if◌then◌else◌,
}
use ratatoskr_go.Base.Int.{ℤ, pos}
use ratatoskr_go.Catalog.Allowlist.{
  Allowlist, Patterns, allows_metric, allows_label, allows_label_value,
}
use ratatoskr_go.Base.Calls.{Call, pure, fail, ◌>>=◌, each}
use ratatoskr_go.Catalog.Entry.{is_positive}
use ratatoskr_go.Catalog.Suggest.{suggest}
use ratatoskr_go.Extract.{PromResult, Selector}
use ratatoskr_go.Finding.{
  Finding, Source, Context, Code, no_context, default_severity, category_catalog, sort_findings,
  code_metric_unknown, code_label_unknown, code_label_value_unknown,
}

-- The cached lookups of the checker: promMetricNames, promMetricLabels, promMetricLabelValues.
pub record Lookups (S : Type 0) : Type 0 where
  pub prom_metric_names : Call S (List Text)
  pub prom_metric_labels : Text → Call S (List Text)
  pub prom_metric_label_values : Text → Text → Call S (List Text)

-- lokiLabelNames, lokiLabelValues; traceAttributeNames and traceAttributeValues, of a scope.
pub record LogqlLookups (S : Type 0) : Type 0 where
  pub loki_label_names : Call S (List Text)
  pub loki_label_values : Text → Call S (List Text)

pub record TraceqlLookups (S : Type 0) : Type 0 where
  pub trace_attribute_names : Text → Call S (List Text)
  pub trace_attribute_values : Text → Text → Call S (List Text)

-- The fields but for the clients, the store and the clock; `has_prom`, `has_loki` and `has_tempo` say
-- that a client is there.
pub record Checker : Type 0 where
  pub has_prom : Bool
  pub prom_source : Text
  pub has_loki : Bool
  pub loki_source : Text
  pub has_tempo : Bool
  pub tempo_source : Text
  pub allow : Option Allowlist
  pub max_suggestions : ℤ
  pub suggest_dist : ℤ
  pub lifetime : ℤ

-- The methods `maxSuggestions` and `suggestDist`, with their defaults.
unfoldable pub max_suggestions_or_default : Checker → ℤ
max_suggestions_or_default c = if is_positive c.max_suggestions then c.max_suggestions else pos 3

unfoldable pub suggest_dist_or_default : Checker → ℤ
suggest_dist_or_default c = if is_positive c.suggest_dist then c.suggest_dist else pos 3

abbrev pub new_finding : Code → Source → Text → List Text → Context → Finding
new_finding code src message suggestions context = record {
  code = code;
  severity = default_severity code;
  category = category_catalog;
  source = src;
  message = message;
  suggestions = suggestions;
  context = context;
}

-- `quoted` is the verb %q, and `range` the order in which a map is walked.
module _ (quoted : Text → Text) (range : Patterns → Patterns) (c : Checker) (src : Source)
    (expr : Text) where
  abbrev pub unknown_metric : List Text → Text → Finding
  unknown_metric names m =
      new_finding code_metric_unknown src
        (bytes "metric " ++ (quoted m ++ bytes " not present in catalog"))
        (suggest m names (max_suggestions_or_default c) (suggest_dist_or_default c))
        (record no_context { metric = m; expr = expr })

  -- The loop over the metrics.
  unfoldable pub check_metrics : List Text → List Text → List Finding
  check_metrics names [] = []
  check_metrics names (m ∷ refs) =
      let rest : List Finding = check_metrics names refs in
      if member m names
      then rest
      else if (allows_metric c.allow m).0
      then rest
      else unknown_metric names m ∷ rest

  abbrev pub unknown_label : List Text → Selector → Finding
  unknown_label labels sel =
      new_finding code_label_unknown src
        (bytes "label "
          ++ (quoted sel.label ++ (bytes " not present on metric " ++ quoted sel.metric)))
        (suggest sel.label labels (max_suggestions_or_default c) (suggest_dist_or_default c))
        (record no_context { metric = sel.metric; label = sel.label; expr = expr })

  abbrev pub unknown_value : List Text → Selector → Finding
  unknown_value values sel =
      new_finding code_label_value_unknown src
        (bytes "value "
          ++ (quoted sel.value
              ++ (bytes " not observed for label "
                  ++ (quoted sel.label ++ (bytes " on metric " ++ quoted sel.metric)))))
        (suggest sel.value values (max_suggestions_or_default c) (suggest_dist_or_default c))
        (record { metric = sel.metric; label = sel.label; value = sel.value; expr = expr })

  abbrev pub check_label : List Text → Selector → List Finding
  check_label labels sel =
      if (allows_label range c.allow sel.metric sel.label).0
      then []
      else unknown_label labels sel ∷ []

  abbrev pub check_value : List Text → Selector → List Finding
  check_value values sel =
      if member sel.value values
      then []
      else if (allows_label_value range c.allow sel.metric sel.label sel.value).0
      then []
      else unknown_value values sel ∷ []

  module _ {S : Type 0} (lookups : Lookups S) where
    -- The body of the loop over the selectors.
    unfoldable pub check_selector : List Text → Selector → Call S (List Finding)
    check_selector names sel =
        if is_empty sel.metric || is_empty sel.label
        then pure []
        else if not (member sel.metric names)
        then pure []
        else do
          labels ← lookups.prom_metric_labels sel.metric
          if not (member sel.label labels)
              then pure (check_label labels sel)
              else if not (text_eq sel.op (bytes "=")) || is_empty sel.value
              then pure []
              else do
                values ← lookups.prom_metric_label_values sel.metric sel.label
                pure (check_value values sel)

    unfoldable pub check_selectors : List Text → List Selector → Call S (List Finding)
    check_selectors names = each (check_selector names)

unfoldable pub check_promql :
    (Text → Text)
    → (Patterns → Patterns)
    → Checker
    → {S : Type 0} → Lookups S
    → PromResult
    → Source
    → Call S (List Finding)
check_promql quoted range c lookups res src =
    if not c.has_prom
    then pure []
    else if is_empty c.prom_source
    then fail (bytes "catalog: Checker.PromSource must be set when Prom is configured")
    else do
      names ← lookups.prom_metric_names
      found ← check_selectors quoted range c src res.expr lookups names res.selectors
      pure
          (sort_findings (check_metrics quoted range c src res.expr names res.metric_refs ++ found))
