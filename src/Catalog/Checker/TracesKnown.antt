-- ===== src/Catalog/Checker/TracesKnown.antt =====
-- pkg/catalog/checker.go: when `CheckTraceQL` reports nothing.
use mathlib.Core.Path.{subst}
use ratatoskr_go.Base.{
  ◌≡◌, refl, ap, ◌∙◌, ◌↔◌, Bool, true, false, ◌||◌, List, [], ◌∷◌, ◌++◌, Text, is_empty, contains,
  member, All, if◌then◌else◌, Bool-cases, inl, inr, arith,
}
use ratatoskr_go.Catalog.Allowlist.{Patterns, allows_label, allows_label_value}
use ratatoskr_go.Catalog.Checker.{TraceqlLookups, Checker}
use ratatoskr_go.Catalog.Checker.Silent.{append_nil_iff, found_by_fits, sort_nil_iff, guard-Gives}
use ratatoskr_go.Base.Calls.{Gives, found_by, pure-Gives, bind-Gives, if-Gives, each-Gives}
use ratatoskr_go.Catalog.Checker.Traces.{
  judge_attribute, check_attribute, check_attributes, check_attribute_value, check_matcher,
  check_traceql,
}
use ratatoskr_go.Extract.{
  TraceAttribute, TraceMatcher, TraceResult, qualified, dashboard_variable_sentinel,
}
use ratatoskr_go.Finding.{Finding, Source, sort_findings}

-- What a Tempo server knows, in a scope; the empty scope stands for an attribute without one.
pub record Spans : Type 0 where
  pub names : Text → List Text
  pub values : Text → Text → List Text

-- Lookups that, in the states of the invariant, succeed with what the server knows.
pub record Serves {S : Type 0} (I : S → Type 0) (k : Spans) (lookups : TraceqlLookups S)
    : Type 0 where
  pub names : (s : Text) → Gives I (lookups.trace_attribute_names s) (k.names s)
  pub values : (s n : Text) → Gives I (lookups.trace_attribute_values s n) (k.values s n)

-- Of the attributes whose qualified names are not in `seen`, the first with each qualified name.
abbrev pub firsts : List Text → List TraceAttribute → List TraceAttribute
firsts seen [] = []
firsts seen (a ∷ attributes) =
    let rest : List TraceAttribute = firsts (qualified a ∷ seen) attributes in
    if member (qualified a) seen then rest else a ∷ rest

module _ (range : Patterns → Patterns) (c : Checker) (k : Spans) where
  abbrev pub is_known : TraceAttribute → Bool
  is_known a = member a.name (k.names a.scope)

  abbrev pub attribute_fits : TraceAttribute → Bool
  attribute_fits a = is_known a || (allows_label range c.allow [] (qualified a)).0

  -- The qualified names of the attributes that are not known, put before those in `unknown`.
  abbrev pub unknown_after : List Text → List TraceAttribute → List Text
  unknown_after unknown [] = unknown
  unknown_after unknown (a ∷ attributes) =
      unknown_after (if is_known a then unknown else qualified a ∷ unknown) attributes

  -- The test of a matcher: nothing is asked of one on an unknown attribute, without a value, or with
  -- a value that holds a dashboard variable.
  abbrev pub matcher_fits : List Text → TraceMatcher → Bool
  matcher_fits unknown m =
      member (qualified m.attribute) unknown
      || is_empty m.value
      || contains dashboard_variable_sentinel m.value
      || member m.value (k.values m.attribute.scope m.attribute.name)
      || (allows_label_value range c.allow [] (qualified m.attribute) m.value).0

  module _ (quoted : Text → Text) (src : Source) (expr : Text) where
    judged : List Text → TraceAttribute → List Finding × List Text
    judged unknown a = judge_attribute quoted range c src expr unknown a (k.names a.scope)

    -- What the loop over the attributes gives.
    found_in : List Text → List Text → List TraceAttribute → List Finding × List Text
    found_in seen unknown [] = ([], unknown)
    found_in seen unknown (a ∷ attributes) =
        let one : List Finding × List Text =
          if member (qualified a) seen then ([], unknown) else judged unknown a in
        let rest : List Finding × List Text = found_in (qualified a ∷ seen) (one.1) attributes in
        (one.0 ++ rest.0, rest.1)

    matcher_found : List Text → TraceMatcher → List Finding
    matcher_found unknown m =
        if member (qualified m.attribute) unknown
        then []
        else if is_empty m.value || contains dashboard_variable_sentinel m.value
        then []
        else check_attribute_value quoted range c src expr
            (k.values m.attribute.scope m.attribute.name) m

    module _ {S : Type 0} (I : S → Type 0) (lookups : TraceqlLookups S)
        (serves : Serves I k lookups) where
      check_attribute-Gives :
          (seen unknown : List Text) (a : TraceAttribute)
          → Gives I
              (check_attribute quoted range c src expr lookups seen unknown a)
              (if member (qualified a) seen then ([], unknown) else judged unknown a)
      unfolding check_attribute judged
      check_attribute-Gives seen unknown a =
          if-Gives I _ _ _ _ _ (pure-Gives I _)
            (bind-Gives I _ _ _ _ (serves.names a.scope) (pure-Gives I _))

      check_attributes-Gives :
          (seen unknown : List Text) (attributes : List TraceAttribute)
          → Gives I
              (check_attributes quoted range c src expr lookups seen unknown attributes)
              (found_in seen unknown attributes)
      unfolding check_attributes found_in
      check_attributes-Gives seen unknown [] = pure-Gives I _
      check_attributes-Gives seen unknown (a ∷ attributes) =
          bind-Gives I _ _ _ _ (check_attribute-Gives seen unknown a) (
            bind-Gives I _ _ _ _
              (check_attributes-Gives (qualified a ∷ seen)
                ((if member (qualified a) seen then ([], unknown) else judged unknown a).1)
                attributes)
              (pure-Gives I _))

      check_matcher-Gives :
          (unknown : List Text) (m : TraceMatcher)
          → Gives I
              (check_matcher quoted range c src expr lookups unknown m)
              (matcher_found unknown m)
      unfolding check_matcher matcher_found
      check_matcher-Gives unknown m =
          if-Gives I (member (qualified m.attribute) unknown) _ _ _ _ (pure-Gives I []) (
            if-Gives I (is_empty m.value || contains dashboard_variable_sentinel m.value) _ _ _ _
              (pure-Gives I [])
              (bind-Gives I _ _ _ _ (serves.values m.attribute.scope m.attribute.name)
                (pure-Gives I _)))

    judged_unknown :
        (unknown : List Text) (a : TraceAttribute)
        → (judged unknown a).1 ≡ (if is_known a then unknown else qualified a ∷ unknown)
    unfolding judged
    judged_unknown unknown a = ground arith

    judged_fits :
        (unknown : List Text) (a : TraceAttribute)
        → ((judged unknown a).0 ≡ []) ↔ (attribute_fits a ≡ true)
    unfolding judged
    judged_fits unknown a = ground arith

    found_in_unknown :
        (seen unknown : List Text) (attributes : List TraceAttribute)
        → (found_in seen unknown attributes).1 ≡ unknown_after unknown (firsts seen attributes)
    unfolding found_in
    found_in_unknown seen unknown [] = refl
    found_in_unknown seen unknown (a ∷ attributes) = elim (Bool-cases (member (qualified a) seen)) [
      | inl y ↦ rw (y) (found_in_unknown (qualified a ∷ seen) unknown attributes)
      | inr n ↦ rw (n) (
          ap (λ u. (found_in (qualified a ∷ seen) u attributes).1) (judged_unknown unknown a)
          ∙ found_in_unknown (qualified a ∷ seen)
              (if is_known a then unknown else qualified a ∷ unknown) attributes)
    ]

    found_in_fits :
        (seen unknown : List Text) (attributes : List TraceAttribute)
        → ((found_in seen unknown attributes).0 ≡ [])
          ↔ All (λ a. attribute_fits a ≡ true) (firsts seen attributes)
    unfolding found_in
    found_in_fits seen unknown [] = (λ h. tt, λ h. refl)
    found_in_fits seen unknown (a ∷ attributes) = elim (Bool-cases (member (qualified a) seen)) [
      | inl y ↦ rw (y) (found_in_fits (qualified a ∷ seen) unknown attributes)
      | inr n ↦
          let one = judged unknown a in
          let rest = found_in_fits (qualified a ∷ seen) (one.1) attributes in
          let split =
            append_nil_iff (one.0) ((found_in (qualified a ∷ seen) (one.1) attributes).0) in
          let here = judged_fits unknown a in
          rw (n) (
            (λ h. (here.0 (split.0 h).0, rest.0 (split.0 h).1)),
            (λ h. split.1 (here.1 h.0, rest.1 h.1)),
          )
    ]

    matcher_found_fits :
        (unknown : List Text) (m : TraceMatcher)
        → (matcher_found unknown m ≡ []) ↔ (matcher_fits unknown m ≡ true)
    unfolding matcher_found
    matcher_found_fits unknown m = ground arith

-- With a client and its address, and where the lookups, in the states of an invariant, succeed with
-- what the server knows and leave a state of the invariant: from such a state CheckTraceQL returns
-- findings and leaves such a state; it reports nothing exactly if, of the attributes with one
-- qualified name, the first is known in its scope or allowed, and each matcher whose attribute is
-- not among those that are unknown has no value, or a value that holds a dashboard variable, or one
-- that is known or allowed.
pub check_traceql_fits :
    (quoted : Text → Text) (range : Patterns → Patterns) (c : Checker) (k : Spans)
    → c.has_tempo ≡ true
    → is_empty c.tempo_source ≡ false
    → {S : Type 0} (I : S → Type 0) (lookups : TraceqlLookups S) → Serves I k lookups
    → (res : TraceResult) (src : Source)
    → (out : List Finding) × Gives I (check_traceql quoted range c lookups res src) out
      × ((out ≡ []) ↔ (
          All (λ a. attribute_fits range c k a ≡ true) (firsts [] res.attributes)
          × All
              (λ m.
                matcher_fits range c k (unknown_after range c k [] (firsts [] res.attributes)) m
                ≡ true)
              res.matchers))
unfolding check_traceql
check_traceql_fits quoted range c k given address I lookups serves res src =
    let attributes = found_in range c k quoted src res.expr [] [] res.attributes in
    let found_for = matcher_found range c k quoted src res.expr (attributes.1) in
    let found : List Finding = attributes.0 ++ found_by found_for res.matchers in
    let sorts = sort_nil_iff found in
    let split = append_nil_iff (attributes.0) (found_by found_for res.matchers) in
    let first = found_in_fits range c k quoted src res.expr [] [] res.attributes in
    let second =
      found_by_fits found_for (matcher_fits range c k (attributes.1))
        (matcher_found_fits range c k quoted src res.expr (attributes.1)) res.matchers in
    let same = found_in_unknown range c k quoted src res.expr [] [] res.attributes in
    (
      sort_findings found,
      guard-Gives I _ _ _ _ _ _ given address (
          bind-Gives I _ _ _ _
            (check_attributes-Gives range c k quoted src res.expr I lookups serves [] []
              res.attributes)
            (bind-Gives I _ _ _ _
              (each-Gives I _ _
                (check_matcher-Gives range c k quoted src res.expr I lookups serves (attributes.1))
                res.matchers)
              (pure-Gives I (sort_findings found)))),
      subst
          (λ u. (sort_findings found ≡ []) ↔ (
            All (λ a. attribute_fits range c k a ≡ true) (firsts [] res.attributes)
            × All (λ m. matcher_fits range c k u m ≡ true) res.matchers))
          same
          (
            (λ h. (first.0 (split.0 (sorts.0 h)).0, second.0 (split.0 (sorts.0 h)).1)),
            (λ h. sorts.1 (split.1 (first.1 h.0, second.1 h.1))),
          ),
    )
