-- ===== src/Catalog/Checker/Known.antt =====
-- pkg/catalog/checker.go: when `CheckPromQL` reports nothing.
use ratatoskr_go.Base.{
  ◌≡◌, refl, ◌↔◌, Bool, true, false, not, ◌||◌, List, [], ◌∷◌, ◌++◌, Text, bytes, is_empty, text_eq,
  member, All, if◌then◌else◌, arith,
}
use ratatoskr_go.Catalog.Allowlist.{Patterns, allows_metric, allows_label, allows_label_value}
use ratatoskr_go.Extract.{PromResult, Selector}
use ratatoskr_go.Finding.{Finding, Source, sort_findings}
use ratatoskr_go.Catalog.Checker.{
  Lookups, Checker, check_metrics, check_label, check_value, check_selector, check_selectors,
  check_promql,
}
use ratatoskr_go.Catalog.Checker.Silent.{append_nil_iff, found_by_fits, sort_nil_iff, guard-Gives}
use ratatoskr_go.Base.Calls.{Gives, found_by, pure-Gives, bind-Gives, if-Gives, each-Gives}

-- What a server knows.
pub record Catalog : Type 0 where
  pub names : List Text
  pub labels : Text → List Text
  pub values : Text → Text → List Text

-- Lookups that, in the states of the invariant, succeed with what the server knows.
pub record Serves {S : Type 0} (I : S → Type 0) (k : Catalog) (lookups : Lookups S) : Type 0 where
  pub names : Gives I lookups.prom_metric_names k.names
  pub labels : (m : Text) → Gives I (lookups.prom_metric_labels m) (k.labels m)
  pub values : (m l : Text) → Gives I (lookups.prom_metric_label_values m l) (k.values m l)

module _ (range : Patterns → Patterns) (c : Checker) (k : Catalog) where
  abbrev pub metric_fits : Text → Bool
  metric_fits m = member m k.names || (allows_metric c.allow m).0

  -- The test of a selector: nothing is asked of one without a metric or a label, or on an unknown
  -- metric; otherwise the label is known or allowed, and a known label has a value in order.
  abbrev pub selector_fits : Selector → Bool
  selector_fits sel =
      if is_empty sel.metric || is_empty sel.label || not (member sel.metric k.names)
      then true
      else if member sel.label (k.labels sel.metric)
      then not (text_eq sel.op (bytes "="))
        || is_empty sel.value
        || member sel.value (k.values sel.metric sel.label)
        || (allows_label_value range c.allow sel.metric sel.label sel.value).0
      else (allows_label range c.allow sel.metric sel.label).0

  module _ (quoted : Text → Text) (src : Source) (expr : Text) where
    found_for : Selector → List Finding
    found_for sel =
        if is_empty sel.metric || is_empty sel.label
        then []
        else if not (member sel.metric k.names)
        then []
        else if not (member sel.label (k.labels sel.metric))
        then check_label quoted range c src expr (k.labels sel.metric) sel
        else if not (text_eq sel.op (bytes "=")) || is_empty sel.value
        then []
        else check_value quoted range c src expr (k.values sel.metric sel.label) sel

    check_selector-Gives :
        {S : Type 0} (I : S → Type 0) (lookups : Lookups S)
        → Serves I k lookups
        → (sel : Selector)
        → Gives I (check_selector quoted range c src expr lookups k.names sel) (found_for sel)
    unfolding check_selector found_for
    check_selector-Gives I lookups h sel = if-Gives I _ _ _ _ _ (pure-Gives I []) (
        if-Gives I _ _ _ _ _ (pure-Gives I []) (
          bind-Gives I _ _ _ _ (h.labels sel.metric) (
            if-Gives I _ _ _ _ _ (pure-Gives I _) (
              if-Gives I _ _ _ _ _ (pure-Gives I [])
                (bind-Gives I _ _ _ _ (h.values sel.metric sel.label) (pure-Gives I _))))))

    found_for_fits : (sel : Selector) → (found_for sel ≡ []) ↔ (selector_fits sel ≡ true)
    unfolding found_for
    found_for_fits sel = ground arith

    check_metrics_fits :
        (refs : List Text)
        → (check_metrics quoted range c src expr k.names refs ≡ [])
          ↔ All (λ m. metric_fits m ≡ true) refs
    unfolding check_metrics
    check_metrics_fits [] = (λ h. tt, λ h. refl)
    check_metrics_fits (m ∷ refs) = ground (arith, check_metrics_fits refs)

    nothing_found :
        (res : PromResult)
        → (check_metrics quoted range c src expr k.names res.metric_refs
              ++ found_by found_for res.selectors
            ≡ [])
          ↔ (All (λ m. metric_fits m ≡ true) res.metric_refs
              × All (λ sel. selector_fits sel ≡ true) res.selectors)
    nothing_found res =
        let metrics = check_metrics_fits res.metric_refs in
        let selectors = found_by_fits (found_for) selector_fits found_for_fits res.selectors in
        let split =
          append_nil_iff (check_metrics quoted range c src expr k.names res.metric_refs)
            (found_by found_for res.selectors) in
        (
          λ h. (metrics.0 (split.0 h).0, selectors.0 (split.0 h).1),
          λ h. split.1 (metrics.1 h.0, selectors.1 h.1),
        )

pub check_promql_fits :
    (quoted : Text → Text) (range : Patterns → Patterns) (c : Checker) (k : Catalog)
    → c.has_prom ≡ true
    → is_empty c.prom_source ≡ false
    → {S : Type 0} (I : S → Type 0) (lookups : Lookups S) → Serves I k lookups
    → (res : PromResult) (src : Source)
    → (out : List Finding) × Gives I (check_promql quoted range c lookups res src) out
      × ((out ≡ []) ↔ (
          All (λ m. metric_fits range c k m ≡ true) res.metric_refs
          × All (λ sel. selector_fits range c k sel ≡ true) res.selectors))
unfolding check_promql check_selectors
check_promql_fits quoted range c k given address I lookups serves res src =
    let found : List Finding =
      check_metrics quoted range c src res.expr k.names res.metric_refs
      ++ found_by (found_for range c k quoted src res.expr) res.selectors in
    let sorts = sort_nil_iff found in
    let nothing = nothing_found range c k quoted src res.expr res in
    (
      sort_findings found,
      guard-Gives I _ _ _ _ _ _ given address (
          bind-Gives I _ _ _ _ serves.names (
            bind-Gives I _ _ _ _
              (each-Gives I _ _
                (check_selector-Gives range c k quoted src res.expr I lookups serves) res.selectors)
              (pure-Gives I (sort_findings found)))),
      (λ h. nothing.0 (sorts.0 h), λ h. sorts.1 (nothing.1 h)),
    )
