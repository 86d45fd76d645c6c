-- ===== src/Catalog/Checker/LogsKnown.antt =====
-- pkg/catalog/checker.go: when `CheckLogQL` reports nothing.
use ratatoskr_go.Base.{
  ◌≡◌, ◌↔◌, Bool, true, false, not, ◌||◌, List, [], Text, bytes, is_empty, text_eq, member, All,
  if◌then◌else◌, arith,
}
use ratatoskr_go.Catalog.Allowlist.{Patterns, allows_label, allows_label_value}
use ratatoskr_go.Catalog.Checker.{LogqlLookups, Checker}
use ratatoskr_go.Catalog.Checker.Logs.{
  check_stream_label, check_stream_value, check_stream, check_logql,
}
use ratatoskr_go.Catalog.Checker.Silent.{found_by_fits, sort_nil_iff, guard-Gives}
use ratatoskr_go.Base.Calls.{Gives, found_by, pure-Gives, bind-Gives, if-Gives, each-Gives}
use ratatoskr_go.Extract.{LogResult, LabelMatcher}
use ratatoskr_go.Finding.{Finding, Source, sort_findings}

-- What a Loki server knows.
pub record Streams : Type 0 where
  pub labels : List Text
  pub values : Text → List Text

-- Lookups that, in the states of the invariant, succeed with what the server knows.
pub record Serves {S : Type 0} (I : S → Type 0) (k : Streams) (lookups : LogqlLookups S)
    : Type 0 where
  pub labels : Gives I lookups.loki_label_names k.labels
  pub values : (l : Text) → Gives I (lookups.loki_label_values l) (k.values l)

module _ (range : Patterns → Patterns) (c : Checker) (k : Streams) where
  -- The test of a stream selector: its label is known or allowed, and a known label has a value in
  -- order.
  abbrev pub stream_fits : LabelMatcher → Bool
  stream_fits sel =
      if is_empty sel.label
      then true
      else if member sel.label k.labels
      then not (text_eq sel.op (bytes "="))
        || is_empty sel.value
        || member sel.value (k.values sel.label)
        || (allows_label_value range c.allow [] sel.label sel.value).0
      else (allows_label range c.allow [] sel.label).0

  module _ (quoted : Text → Text) (src : Source) (expr : Text) where
    found_for : LabelMatcher → List Finding
    found_for sel =
        if is_empty sel.label
        then []
        else if not (member sel.label k.labels)
        then check_stream_label quoted range c src expr k.labels sel
        else if not (text_eq sel.op (bytes "=")) || is_empty sel.value
        then []
        else check_stream_value quoted range c src expr (k.values sel.label) sel

    check_stream-Gives :
        {S : Type 0} (I : S → Type 0) (lookups : LogqlLookups S)
        → Serves I k lookups
        → (sel : LabelMatcher)
        → Gives I (check_stream quoted range c src expr lookups k.labels sel) (found_for sel)
    unfolding check_stream found_for
    check_stream-Gives I lookups h sel = if-Gives I (is_empty sel.label) _ _ _ _ (pure-Gives I []) (
        if-Gives I (not (member sel.label k.labels)) _ _ _ _ (pure-Gives I _) (
          if-Gives I (not (text_eq sel.op (bytes "=")) || is_empty sel.value) _ _ _ _
            (pure-Gives I []) (bind-Gives I _ _ _ _ (h.values sel.label) (pure-Gives I _))))

    found_for_fits : (sel : LabelMatcher) → (found_for sel ≡ []) ↔ (stream_fits sel ≡ true)
    unfolding found_for
    found_for_fits sel = ground arith

pub check_logql_fits :
    (quoted : Text → Text) (range : Patterns → Patterns) (c : Checker) (k : Streams)
    → c.has_loki ≡ true
    → is_empty c.loki_source ≡ false
    → {S : Type 0} (I : S → Type 0) (lookups : LogqlLookups S) → Serves I k lookups
    → (res : LogResult) (src : Source)
    → (out : List Finding) × Gives I (check_logql quoted range c lookups res src) out
      × ((out ≡ []) ↔ All (λ sel. stream_fits range c k sel ≡ true) res.stream_selectors)
unfolding check_logql
check_logql_fits quoted range c k given address I lookups serves res src =
    let found : List Finding =
      found_by (found_for range c k quoted src res.expr) res.stream_selectors in
    let sorts = sort_nil_iff found in
    let nothing =
      found_by_fits (found_for range c k quoted src res.expr) (stream_fits range c k)
        (found_for_fits range c k quoted src res.expr) res.stream_selectors in
    (
      sort_findings found,
      guard-Gives I _ _ _ _ _ _ given address (
          bind-Gives I _ _ _ _ serves.labels (
            bind-Gives I _ _ _ _
              (each-Gives I _ _ (check_stream-Gives range c k quoted src res.expr I lookups serves)
                res.stream_selectors)
              (pure-Gives I (sort_findings found)))),
      (λ h. nothing.0 (sorts.0 h), λ h. sorts.1 (nothing.1 h)),
    )
