-- ===== src/Catalog/Allowlist.antt =====
-- pkg/catalog/allowlist.go: the allowlist, as it is loaded and as it is asked.
pub mod Asked
pub mod Patterns
use ratatoskr_go.Base.{
  ℕ, Bool, true, false, not, ◌&&◌, ◌||◌, ◌⊎◌, inl, inr, Option, none, some, List, [], ◌∷◌, ◌++◌,
  map, Text, bytes, is_empty, text_eq, text_lt, has_prefix, any, ◌==◌, if◌then◌else◌,
}
use ratatoskr_go.Base.Sort.{sort_stable}
use ratatoskr_go.Base.Table.{find, put, text_at}

-- `allowlistMetric`, `allowlistLabel`, `allowlistValue` and `allowlistYAML`.
pub record MetricItem : Type 0 where
  pub pattern : Text
  pub reason : Text

pub record LabelItem : Type 0 where
  pub metric : Text
  pub patterns : List Text
  pub reason : Text

pub record ValueItem : Type 0 where
  pub metric : Text
  pub label : Text
  pub patterns : List Text
  pub reason : Text

pub record AllowlistYaml : Type 0 where
  pub metrics : List MetricItem
  pub labels : List LabelItem
  pub values : List ValueItem

-- A map from patterns to lists of patterns.
abbrev pub Patterns : Type 0
Patterns = List (Text × List Text)

pub record Allowlist : Type 0 where
  pub metrics : List Text
  pub labels : Patterns
  pub label_values : Patterns
  pub reasons : List (Text × Text)

-- m[k] of a map of lists: the empty list for a missing key.
abbrev pub list_at : Text → Patterns → List Text
list_at k m = elim (find k m) [ none ↦ [] | some v ↦ v ]

-- m[k] = append(m[k], ps...)
abbrev pub append_at : Text → List Text → Patterns → Patterns
append_at k ps m = put k (list_at k m ++ ps) m

-- a.Reasons[k] = reason, unless the reason is empty.
abbrev pub note : Text → Text → List (Text × Text) → List (Text × Text)
note k reason m = if is_empty reason then m else put k reason m

abbrev pub is_nil : List Text → Bool
is_nil [] = true
is_nil (x ∷ xs) = false

abbrev pub skips_label : LabelItem → Bool
skips_label l = is_empty l.metric || is_nil l.patterns

abbrev pub skips_value : ValueItem → Bool
skips_value v = is_empty v.metric || is_empty v.label || is_nil v.patterns

abbrev pub value_key : ValueItem → Text
value_key v = v.metric ++ (bytes "/" ++ v.label)

-- The bodies of the three loops of `LoadAllowlist`.
abbrev pub add_metric : Allowlist → MetricItem → Allowlist
add_metric a m = if is_empty m.pattern then a else record a {
  metrics = a.metrics ++ m.pattern ∷ [];
  reasons = note (bytes "metric:" ++ m.pattern) m.reason a.reasons;
}

abbrev pub add_label : Allowlist → LabelItem → Allowlist
add_label a l = if skips_label l then a else record a {
  labels = append_at l.metric l.patterns a.labels;
  reasons = note (bytes "label:" ++ l.metric) l.reason a.reasons;
}

abbrev pub add_value : Allowlist → ValueItem → Allowlist
add_value a v = if skips_value v then a else record a {
  label_values = append_at (value_key v) v.patterns a.label_values;
  reasons = note (bytes "value:" ++ value_key v) v.reason a.reasons;
}

unfoldable pub add_metrics : List MetricItem → Allowlist → Allowlist
add_metrics [] a = a
add_metrics (m ∷ items) a = add_metrics items (add_metric a m)

unfoldable pub add_labels : List LabelItem → Allowlist → Allowlist
add_labels [] a = a
add_labels (l ∷ items) a = add_labels items (add_label a l)

unfoldable pub add_values : List ValueItem → Allowlist → Allowlist
add_values [] a = a
add_values (v ∷ items) a = add_values items (add_value a v)

abbrev pub sort_patterns : Patterns → Patterns
sort_patterns = map (λ e. (e.0, sort_stable text_lt e.1))

-- `sort`
unfoldable pub sort_lists : Allowlist → Allowlist
sort_lists a = record a {
  metrics = sort_stable text_lt a.metrics;
  labels = sort_patterns a.labels;
  label_values = sort_patterns a.label_values;
}

abbrev pub empty_allowlist : Allowlist
empty_allowlist = record { metrics = []; labels = []; label_values = []; reasons = [] }

-- What the reader gives: nil, an error of reading, or its bytes.
pub data Reader : Type 0 where
  no_reader : Reader
  failing : Text → Reader
  given : Text → Reader

unfoldable pub from_document : AllowlistYaml → Allowlist
from_document doc =
    sort_lists
      (add_values doc.values (add_labels doc.labels (add_metrics doc.metrics empty_allowlist)))

-- `parse` is yaml.Unmarshal.
unfoldable pub load_allowlist : (Text → Text ⊎ AllowlistYaml) → Reader → Text ⊎ Allowlist
load_allowlist parse no_reader = inr empty_allowlist
load_allowlist parse (failing err) = inl (bytes "catalog: read allowlist: " ++ err)
load_allowlist parse (given content) =
    if is_empty content then inr empty_allowlist else elim (parse content) [
      | inl err ↦ inl (bytes "catalog: parse allowlist: " ++ err)
      | inr doc ↦ inr (from_document doc)
    ]

-- The text before a last '*'; none if it does not end so.
unfoldable pub before_star : Text → Option Text
before_star [] = none
before_star (c ∷ []) = if c == b'*' then some [] else none
before_star (c ∷ d ∷ rest) = elim (before_star (d ∷ rest)) [
  | none ↦ none
  | some stem ↦ some (c ∷ stem)
]

unfoldable pub match_pattern : Text → Text → Bool
match_pattern pattern s =
    if text_eq pattern (bytes "*")
    then true
    else elim (before_star pattern) [ none ↦ text_eq pattern s | some stem ↦ has_prefix stem s ]

-- strings.Cut at the first '/'; none without one.
unfoldable pub cut_at_slash : Text → Option (Text × Text)
cut_at_slash [] = none
cut_at_slash (c ∷ rest) = elim (c == b'/') [
  | true ↦ some ([], rest)
  | false ↦ elim (cut_at_slash rest) [ none ↦ none | some (m, l) ↦ some (c ∷ m, l) ]
]

-- The loop of `AllowsMetric`: whether a pattern matches, and the reason of the first that does.
unfoldable pub metric_in : List (Text × Text) → Text → List Text → Bool × Text
metric_in reasons name [] = (false, [])
metric_in reasons name (p ∷ patterns) =
    let rest = metric_in reasons name patterns in
    if match_pattern p name then (true, text_at (bytes "metric:" ++ p) reasons) else rest

-- The loops of `AllowsLabel` and `AllowsLabelValue` over a map: `matches` tests a key.
unfoldable pub pattern_in :
    Text → (Text → Bool) → List (Text × Text) → Text → Patterns → Bool × Text
pattern_in kind matches reasons s [] = (false, [])
pattern_in kind matches reasons s ((key, patterns) ∷ entries) =
    let rest = pattern_in kind matches reasons s entries in
    if not (matches key)
    then rest
    else if any (λ p. match_pattern p s) patterns
    then (true, text_at (kind ++ key) reasons)
    else rest

abbrev pub matches_key : Text → Text → Text → Bool
matches_key metric label key = elim (cut_at_slash key) [
  | none ↦ false
  | some (m, l) ↦ match_pattern m metric && match_pattern l label
]

-- The receiver is a pointer: none is nil. `range` is the order in which a map is walked.
unfoldable pub allows_metric : Option Allowlist → Text → Bool × Text
allows_metric none name = (false, [])
allows_metric (some a) name = metric_in a.reasons name a.metrics

module _ (range : Patterns → Patterns) where
  unfoldable pub allows_label : Option Allowlist → Text → Text → Bool × Text
  allows_label none metric label = (false, [])
  allows_label (some a) metric label =
      pattern_in (bytes "label:") (λ key. match_pattern key metric) a.reasons label (range a.labels)

  unfoldable pub allows_label_value : Option Allowlist → Text → Text → Text → Bool × Text
  allows_label_value none metric label value = (false, [])
  allows_label_value (some a) metric label value =
      pattern_in (bytes "value:") (matches_key metric label) a.reasons value (range a.label_values)
