-- ===== src/Catalog/Allowlist/Asked.antt =====
-- pkg/catalog/allowlist.go: what a loaded allowlist allows, from the document it was loaded from.
use mathlib.Core.List.{Perm}
use ratatoskr_go.Base.{
  ◌≡◌, refl, ap, ◌∙◌, Bool, true, false, not, ◌&&◌, ◌||◌, Option, some, List, [], ◌∷◌, ◌++◌, Text,
  bytes, is_empty, text_lt, text_eq_iff, any, All, ◌==◌, if◌then◌else◌, arith,
}
use ratatoskr_go.Base.Any.{any-append, any-perm}
use ratatoskr_go.Base.Sort.{sort_stable, sort_stable-perm}
use ratatoskr_go.Base.Table.{find, put}
use ratatoskr_go.Catalog.Allowlist.{
  MetricItem, LabelItem, ValueItem, AllowlistYaml, Patterns, Allowlist, append_at, is_nil,
  skips_label, skips_value, value_key, add_metrics, add_labels, add_values, add_metric, add_label,
  add_value, note, sort_patterns, sort_lists, empty_allowlist, from_document, match_pattern,
  cut_at_slash, metric_in, pattern_in, matches_key, allows_metric, allows_label, allows_label_value,
}

abbrev pub hits : (Text → Bool) → Text → Text × List Text → Bool
hits matches s e = matches e.0 && any (λ p. match_pattern p s) e.1

module _ (matches : Text → Bool) (s : Text) where
  pattern_in-any :
      (kind : Text) (reasons : List (Text × Text)) (m : Patterns)
      → (pattern_in kind matches reasons s m).0 ≡ any (hits matches s) m
  unfolding pattern_in
  pattern_in-any kind reasons [] = refl
  pattern_in-any kind reasons ((key, patterns) ∷ m) = ground (arith, pattern_in-any kind reasons m)

  append_at-any :
      (k : Text) (ps : List Text) (m : Patterns)
      → any (hits matches s) (append_at k ps m) ≡ (any (hits matches s) m || hits matches s (k, ps))
  unfolding find put
  append_at-any k ps [] = ground arith
  append_at-any k ps ((j, w) ∷ m) =
      ground
        (arith, text_eq_iff j k, any-append (λ p. match_pattern p s) w ps, append_at-any k ps m)

  sort_patterns-any :
      (m : Patterns) → any (hits matches s) (sort_patterns m) ≡ any (hits matches s) m
  sort_patterns-any [] = refl
  sort_patterns-any ((k, ps) ∷ m) =
      ground (
        arith,
        any-perm (λ p. match_pattern p s) (sort_stable-perm text_lt ps),
        sort_patterns-any m,
      )

metric_in-any :
    (reasons : List (Text × Text)) (name : Text) (ps : List Text)
    → (metric_in reasons name ps).0 ≡ any (λ p. match_pattern p name) ps
unfolding metric_in
metric_in-any reasons name [] = refl
metric_in-any reasons name (p ∷ ps) = ground (arith, metric_in-any reasons name ps)

-- The entries of the document that allow something.
abbrev pub metric_allows : Text → MetricItem → Bool
metric_allows name m = not (is_empty m.pattern) && match_pattern m.pattern name

abbrev pub label_allows : Text → Text → LabelItem → Bool
label_allows metric label l =
    not (is_empty l.metric)
    && match_pattern l.metric metric
    && any (λ p. match_pattern p label) l.patterns

abbrev pub value_allows : Text → Text → Text → ValueItem → Bool
value_allows metric label value v =
    not (is_empty v.metric)
    && not (is_empty v.label)
    && match_pattern v.metric metric
    && match_pattern v.label label
    && any (λ p. match_pattern p value) v.patterns

field_if {ℓ κ} :
    {A : Type ℓ} {B : Type κ} (f : A → B) (b : Bool) (x y : A)
    → f (if b then x else y) ≡ (if b then f x else f y)
field_if f true x y = refl
field_if f false x y = refl

same_if {ℓ} : {A : Type ℓ} (b : Bool) (x : A) → (if b then x else x) ≡ x
same_if true x = refl
same_if false x = refl

add_metrics-frame :
    (items : List MetricItem) (a : Allowlist)
    → ((add_metrics items a).labels ≡ a.labels)
      × ((add_metrics items a).label_values ≡ a.label_values)
unfolding add_metrics
add_metrics-frame [] a = (refl, refl)
add_metrics-frame (m ∷ items) a =
    let rest = add_metrics-frame items (add_metric a m) in
    (
      rest.0
          ∙ field_if (λ x. x.labels) (is_empty m.pattern) a _
          ∙ same_if (is_empty m.pattern) a.labels,
      rest.1
          ∙ field_if (λ x. x.label_values) (is_empty m.pattern) a _
          ∙ same_if (is_empty m.pattern) a.label_values,
    )

add_labels-frame :
    (items : List LabelItem) (a : Allowlist)
    → ((add_labels items a).metrics ≡ a.metrics)
      × ((add_labels items a).label_values ≡ a.label_values)
unfolding add_labels
add_labels-frame [] a = (refl, refl)
add_labels-frame (l ∷ items) a =
    let rest = add_labels-frame items (add_label a l) in
    (
      rest.0 ∙ field_if (λ x. x.metrics) (skips_label l) a _ ∙ same_if (skips_label l) a.metrics,
      rest.1
          ∙ field_if (λ x. x.label_values) (skips_label l) a _
          ∙ same_if (skips_label l) a.label_values,
    )

add_values-frame :
    (items : List ValueItem) (a : Allowlist)
    → ((add_values items a).metrics ≡ a.metrics) × ((add_values items a).labels ≡ a.labels)
unfolding add_values
add_values-frame [] a = (refl, refl)
add_values-frame (v ∷ items) a =
    let rest = add_values-frame items (add_value a v) in
    (
      rest.0 ∙ field_if (λ x. x.metrics) (skips_value v) a _ ∙ same_if (skips_value v) a.metrics,
      rest.1 ∙ field_if (λ x. x.labels) (skips_value v) a _ ∙ same_if (skips_value v) a.labels,
    )

add_metrics-any :
    (name : Text) (items : List MetricItem) (a : Allowlist)
    → any (λ p. match_pattern p name) (add_metrics items a).metrics
      ≡ (any (λ p. match_pattern p name) a.metrics || any (metric_allows name) items)
unfolding add_metrics
add_metrics-any name [] a = ground arith
add_metrics-any name (m ∷ items) a =
    let q = λ (p : Text). match_pattern p name in
    add_metrics-any name items (add_metric a m)
    ∙ ground (
      arith,
      field_if (λ x. any q x.metrics) (is_empty m.pattern) a
          (record a {
            metrics = a.metrics ++ m.pattern ∷ [];
            reasons = note (bytes "metric:" ++ m.pattern) m.reason a.reasons;
          }),
      any-append q a.metrics (m.pattern ∷ []),
    )

any-is_nil : (p : Text → Bool) (xs : List Text) → is_nil xs ≡ true → any p xs ≡ false
any-is_nil p [] h = refl
any-is_nil p (x ∷ xs) h = absurd (ground arith)

add_labels-any :
    (metric label : Text) (items : List LabelItem) (a : Allowlist)
    → any (hits (λ key. match_pattern key metric) label) (add_labels items a).labels ≡ (
        any (hits (λ key. match_pattern key metric) label) a.labels
        || any (label_allows metric label) items)
unfolding add_labels
add_labels-any metric label [] a = ground arith
add_labels-any metric label (l ∷ items) a =
    let key_test = λ (key : Text). match_pattern key metric in
    add_labels-any metric label items (add_label a l)
    ∙ ground (
      arith,
      field_if (λ x. any (hits key_test label) x.labels) (skips_label l) a
          (record a {
            labels = append_at l.metric l.patterns a.labels;
            reasons = note (bytes "label:" ++ l.metric) l.reason a.reasons;
          }),
      append_at-any key_test label l.metric l.patterns a.labels,
      any-is_nil (λ p. match_pattern p label) l.patterns,
    )

abbrev pub has_slash : Text → Bool
has_slash s = any (λ c. c == b'/') s

cut_at_slash-join :
    (m l : Text) → has_slash m ≡ false → cut_at_slash (m ++ (bytes "/" ++ l)) ≡ some (m, l)
unfolding cut_at_slash
cut_at_slash-join [] l h = refl
cut_at_slash-join (c ∷ m) l h = ground (arith, cut_at_slash-join m l)

matches_key-value_key :
    (metric label : Text) (v : ValueItem)
    → has_slash v.metric ≡ false
    → matches_key metric label (value_key v)
      ≡ (match_pattern v.metric metric && match_pattern v.label label)
matches_key-value_key metric label v h = rw (matches_key, cut_at_slash-join v.metric v.label h) refl

add_values-any :
    (metric label value : Text) (items : List ValueItem) (a : Allowlist)
    → All (λ v. has_slash v.metric ≡ false) items
    → any (hits (matches_key metric label) value) (add_values items a).label_values ≡ (
        any (hits (matches_key metric label) value) a.label_values
        || any (value_allows metric label value) items)
unfolding add_values
add_values-any metric label value [] a h = ground arith
add_values-any metric label value (v ∷ items) a h =
    add_values-any metric label value items (add_value a v) h.1
    ∙ ground (
      arith,
      field_if (λ x. any (hits (matches_key metric label) value) x.label_values) (skips_value v) a
          (record a {
            label_values = append_at (value_key v) v.patterns a.label_values;
            reasons = note (bytes "value:" ++ value_key v) v.reason a.reasons;
          }),
      append_at-any (matches_key metric label) value (value_key v) v.patterns a.label_values,
      matches_key-value_key metric label v h.0,
      any-is_nil (λ p. match_pattern p value) v.patterns,
    )

-- Where no metric pattern among the label values of the document contains a slash: what an allowlist
-- allows, whatever the order in which its maps are walked, is what the document it was loaded from
-- says: a name is allowed if some entry with nonempty fields has patterns that match.
pub from_document-allows :
    (range : Patterns → Patterns)
    → ((m : Patterns) → Perm (range m) m)
    → (doc : AllowlistYaml) → All (λ v. has_slash v.metric ≡ false) doc.values
    → (metric label value : Text)
    → let a : Option Allowlist = some (from_document doc) in
      ((allows_metric a metric).0 ≡ any (metric_allows metric) doc.metrics)
      × ((allows_label range a metric label).0 ≡ any (label_allows metric label) doc.labels)
      × ((allows_label_value range a metric label value).0
          ≡ any (value_allows metric label value) doc.values)
unfolding from_document sort_lists allows_metric allows_label allows_label_value
from_document-allows range walk doc h metric label value =
    let a : Allowlist = add_metrics doc.metrics empty_allowlist in
    let b : Allowlist = add_labels doc.labels a in
    let c : Allowlist = add_values doc.values b in
    let key_test = λ (key : Text). match_pattern key metric in
    (
      metric_in-any c.reasons metric (sort_stable text_lt c.metrics)
          ∙ any-perm (λ p. match_pattern p metric) (sort_stable-perm text_lt c.metrics)
          ∙ ap (any (λ p. match_pattern p metric))
              ((add_values-frame doc.values b).0 ∙ (add_labels-frame doc.labels a).0)
          ∙ add_metrics-any metric doc.metrics empty_allowlist,
      pattern_in-any key_test label (bytes "label:") c.reasons (range (sort_patterns c.labels))
          ∙ any-perm (hits key_test label) (walk (sort_patterns c.labels))
          ∙ sort_patterns-any key_test label c.labels
          ∙ ap (any (hits key_test label)) ((add_values-frame doc.values b).1)
          ∙ add_labels-any metric label doc.labels a
          ∙ ap (λ m. any (hits key_test label) m || any (label_allows metric label) doc.labels)
              ((add_metrics-frame doc.metrics empty_allowlist).0),
      pattern_in-any (matches_key metric label) value (bytes "value:") c.reasons
            (range (sort_patterns c.label_values))
          ∙ any-perm (hits (matches_key metric label) value) (walk (sort_patterns c.label_values))
          ∙ sort_patterns-any (matches_key metric label) value c.label_values
          ∙ add_values-any metric label value doc.values b h
          ∙ ap
              (λ m.
                any (hits (matches_key metric label) value) m
                || any (value_allows metric label value) doc.values)
              ((add_labels-frame doc.labels a).1
                ∙ (add_metrics-frame doc.metrics empty_allowlist).1),
    )
