-- ===== src/Catalog/Checker/Logs.antt =====
-- pkg/catalog/checker.go: `CheckLogQL`.
use ratatoskr_go.Base.{
  not, ◌||◌, List, [], ◌∷◌, ◌++◌, Text, bytes, is_empty, text_eq, member, if◌then◌else◌,
}
use ratatoskr_go.Catalog.Allowlist.{Patterns, allows_label, allows_label_value}
use ratatoskr_go.Catalog.Checker.{
  LogqlLookups, Checker, new_finding, max_suggestions_or_default, suggest_dist_or_default,
}
use ratatoskr_go.Base.Calls.{Call, pure, fail, ◌>>=◌, each}
use ratatoskr_go.Catalog.Suggest.{suggest}
use ratatoskr_go.Extract.{LogResult, LabelMatcher}
use ratatoskr_go.Finding.{
  Finding, Source, no_context, sort_findings, code_stream_label_unknown, code_stream_value_unknown,
}

module _ (quoted : Text → Text) (range : Patterns → Patterns) (c : Checker) (src : Source)
    (expr : Text) where
  abbrev pub unknown_stream_label : List Text → LabelMatcher → Finding
  unknown_stream_label labels sel =
      new_finding code_stream_label_unknown src
        (bytes "stream label " ++ (quoted sel.label ++ bytes " not present in Loki"))
        (suggest sel.label labels (max_suggestions_or_default c) (suggest_dist_or_default c))
        (record no_context { label = sel.label; expr = expr })

  abbrev pub unknown_stream_value : List Text → LabelMatcher → Finding
  unknown_stream_value values sel =
      new_finding code_stream_value_unknown src
        (bytes "value "
          ++ (quoted sel.value ++ (bytes " not observed for stream label " ++ quoted sel.label)))
        (suggest sel.value values (max_suggestions_or_default c) (suggest_dist_or_default c))
        (record no_context { label = sel.label; value = sel.value; expr = expr })

  abbrev pub check_stream_label : List Text → LabelMatcher → List Finding
  check_stream_label labels sel =
      if (allows_label range c.allow [] sel.label).0
      then []
      else unknown_stream_label labels sel ∷ []

  abbrev pub check_stream_value : List Text → LabelMatcher → List Finding
  check_stream_value values sel =
      if member sel.value values
      then []
      else if (allows_label_value range c.allow [] sel.label sel.value).0
      then []
      else unknown_stream_value values sel ∷ []

  -- The body of the loop over the stream selectors.
  unfoldable pub check_stream :
      {S : Type 0} → LogqlLookups S → List Text → LabelMatcher → Call S (List Finding)
  check_stream lookups labels sel =
      if is_empty sel.label
      then pure []
      else if not (member sel.label labels)
      then pure (check_stream_label labels sel)
      else if not (text_eq sel.op (bytes "=")) || is_empty sel.value
      then pure []
      else do values ← lookups.loki_label_values sel.label; pure (check_stream_value values sel)

unfoldable pub check_logql :
    (Text → Text)
    → (Patterns → Patterns)
    → Checker
    → {S : Type 0} → LogqlLookups S
    → LogResult
    → Source
    → Call S (List Finding)
check_logql quoted range c lookups res src =
    if not c.has_loki
    then pure []
    else if is_empty c.loki_source
    then fail (bytes "catalog: Checker.LokiSource must be set when Loki is configured")
    else do
      labels ← lookups.loki_label_names
      found ← each (check_stream quoted range c src res.expr lookups labels) res.stream_selectors
      pure (sort_findings found)
