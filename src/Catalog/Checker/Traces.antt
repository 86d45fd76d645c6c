-- ===== src/Catalog/Checker/Traces.antt =====
-- pkg/catalog/checker.go: `CheckTraceQL`.
use ratatoskr_go.Base.{
  not, ◌||◌, List, [], ◌∷◌, ◌++◌, Text, bytes, is_empty, contains, member, if◌then◌else◌,
}
use ratatoskr_go.Catalog.Allowlist.{Patterns, allows_label, allows_label_value}
use ratatoskr_go.Catalog.Checker.{
  TraceqlLookups, Checker, new_finding, max_suggestions_or_default, suggest_dist_or_default,
}
use ratatoskr_go.Base.Calls.{Call, pure, fail, ◌>>=◌, each}
use ratatoskr_go.Catalog.Suggest.{suggest}
use ratatoskr_go.Extract.{
  TraceAttribute, TraceMatcher, TraceResult, qualified, dashboard_variable_sentinel,
}
use ratatoskr_go.Finding.{
  Finding, Source, no_context, sort_findings, code_trace_attribute_unknown,
  code_trace_attribute_value_unknown,
}

module _ (quoted : Text → Text) (range : Patterns → Patterns) (c : Checker) (src : Source)
    (expr : Text) where
  abbrev pub unknown_attribute : List Text → TraceAttribute → Finding
  unknown_attribute names a =
      new_finding code_trace_attribute_unknown src
        (bytes "attribute " ++ (quoted (qualified a) ++ bytes " not present in Tempo"))
        (suggest a.name names (max_suggestions_or_default c) (suggest_dist_or_default c))
        (record no_context { label = qualified a; expr = expr })

  abbrev pub unknown_attribute_value : List Text → TraceMatcher → Finding
  unknown_attribute_value values m =
      new_finding code_trace_attribute_value_unknown src
        (bytes "value "
          ++ (quoted m.value
              ++ (bytes " not observed for attribute " ++ quoted (qualified m.attribute))))
        (suggest m.value values (max_suggestions_or_default c) (suggest_dist_or_default c))
        (record no_context { label = qualified m.attribute; value = m.value; expr = expr })

  -- The findings on an attribute, and the names that `unknown` has after it.
  abbrev pub judge_attribute : List Text → TraceAttribute → List Text → List Finding × List Text
  judge_attribute unknown a names =
      if member a.name names
      then ([], unknown)
      else if (allows_label range c.allow [] (qualified a)).0
      then ([], qualified a ∷ unknown)
      else (unknown_attribute names a ∷ [], qualified a ∷ unknown)

  unfoldable pub check_attribute :
      {S : Type 0}
      → TraceqlLookups S
      → List Text
      → List Text
      → TraceAttribute
      → Call S (List Finding × List Text)
  check_attribute lookups seen unknown a =
      if member (qualified a) seen
      then pure ([], unknown)
      else do names ← lookups.trace_attribute_names a.scope; pure (judge_attribute unknown a names)

  -- The loop over the attributes; the sets `seen` and `unknown` are lists.
  unfoldable pub check_attributes :
      {S : Type 0}
      → TraceqlLookups S
      → List Text
      → List Text
      → List TraceAttribute
      → Call S (List Finding × List Text)
  check_attributes lookups seen unknown [] = pure ([], unknown)
  check_attributes lookups seen unknown (a ∷ attributes) = do
    one ← check_attribute lookups seen unknown a
    rest ← check_attributes lookups (qualified a ∷ seen) (one.1) attributes
    pure (one.0 ++ rest.0, rest.1)

  abbrev pub check_attribute_value : List Text → TraceMatcher → List Finding
  check_attribute_value values m =
      if member m.value values
      then []
      else if (allows_label_value range c.allow [] (qualified m.attribute) m.value).0
      then []
      else unknown_attribute_value values m ∷ []

  -- The body of the loop over the matchers.
  unfoldable pub check_matcher :
      {S : Type 0} → TraceqlLookups S → List Text → TraceMatcher → Call S (List Finding)
  check_matcher lookups unknown m =
      if member (qualified m.attribute) unknown
      then pure []
      else if is_empty m.value || contains dashboard_variable_sentinel m.value
      then pure []
      else do
        values ← lookups.trace_attribute_values m.attribute.scope m.attribute.name
        pure (check_attribute_value values m)

unfoldable pub check_traceql :
    (Text → Text)
    → (Patterns → Patterns)
    → Checker
    → {S : Type 0} → TraceqlLookups S
    → TraceResult
    → Source
    → Call S (List Finding)
check_traceql quoted range c lookups res src =
    if not c.has_tempo
    then pure []
    else if is_empty c.tempo_source
    then fail (bytes "catalog: Checker.TempoSource must be set when Tempo is configured")
    else do
      attributes ← check_attributes quoted range c src res.expr lookups [] [] res.attributes
      found ← each (check_matcher quoted range c src res.expr lookups (attributes.1)) res.matchers
      pure (sort_findings (attributes.0 ++ found))
