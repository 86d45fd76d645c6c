-- ===== src/Tests/Allowed.antt =====
-- The allowlist and the store at concrete inputs.
use mathlib.Core.List.{reverse, reverse_perm}
use ratatoskr_go.Base.{
  ◌≡◌, ◌↔◌, refl, true, false, ◌&&◌, Option, none, some, List, [], ◌∷◌, ◌++◌, Text, bytes, any,
  member, text_eq, has_prefix, if◌then◌else◌,
}
use ratatoskr_go.Base.Int.{pos}
use ratatoskr_go.Base.Sort.{sort_stable}
use ratatoskr_go.Base.Table.{find, put}
use ratatoskr_go.Catalog.Entry.{Entry, key, key_for, validate, is_valid}
use ratatoskr_go.Catalog.Store.{get, put_entry, delete, keys, sorted_unique}
use ratatoskr_go.Catalog.Store.Kept.{is_fit, is_found, IsKept, put_entry-get, put_entry-IsKept}
use ratatoskr_go.Catalog.Store.Unique.{IsIncreasing, sorted_unique-IsIncreasing}
use ratatoskr_go.Catalog.Allowlist.{
  AllowlistYaml, Allowlist, from_document, match_pattern, allows_metric, add_metrics, add_labels,
  add_values, sort_lists, before_star, cut_at_slash, pattern_in, allows_label, allows_label_value,
}
use ratatoskr_go.Catalog.Allowlist.Asked.{
  metric_allows, label_allows, value_allows, from_document-allows,
}
use ratatoskr_go.Catalog.Allowlist.Patterns.{match_pattern-star}

abbrev document : AllowlistYaml
document = record {
  metrics = record { pattern = bytes "cortex_*"; reason = bytes "old" } ∷ [];
  labels =
      record { metric = bytes "up"; patterns = bytes "pod" ∷ []; reason = [] }
      ∷ record { metric = bytes "up"; patterns = bytes "zone*" ∷ []; reason = [] }
      ∷ [];
  values =
      record { metric = bytes "*"; label = bytes "job"; patterns = bytes "x" ∷ []; reason = [] }
      ∷ [];
}

from_document-allows_example :
    let a : Option Allowlist = some (from_document document) in
    ((allows_metric a (bytes "up")).0 ≡ any (metric_allows (bytes "up")) document.metrics)
    × ((allows_label reverse a (bytes "up") (bytes "zone_a")).0
        ≡ any (label_allows (bytes "up") (bytes "zone_a")) document.labels)
    × ((allows_label_value reverse a (bytes "up") (bytes "zone_a") (bytes "x")).0
        ≡ any (value_allows (bytes "up") (bytes "zone_a") (bytes "x")) document.values)
from_document-allows_example =
    from_document-allows reverse reverse_perm document (refl, tt) (bytes "up") (bytes "zone_a")
      (bytes "x")

-- An entry whose metric pattern contains a slash does not allow what it says.
abbrev slashed : AllowlistYaml
slashed = record {
  metrics = [];
  labels = [];
  values =
      record { metric = bytes "a/b"; label = bytes "job"; patterns = bytes "x" ∷ []; reason = [] }
      ∷ [];
}

slash_cut :
    ((allows_label_value
        (λ m. m)
        (some (from_document slashed))
        (bytes "a/b")
        (bytes "job")
        (bytes "x")).0
      ≡ false)
    × ((allows_label_value
          (λ m. m)
          (some (from_document slashed))
          (bytes "a")
          (bytes "b/job")
          (bytes "x")).0
        ≡ true)
unfolding add_metrics add_labels add_values sort_lists from_document before_star match_pattern
    cut_at_slash pattern_in allows_label_value text_eq has_prefix member sort_stable find put
slash_cut = (refl, refl)

match_pattern-star_example :
    (match_pattern (bytes "cortex_" ++ bytes "*") (bytes "cortex_up") ≡ true)
    ↔ ((rest : Text) × (bytes "cortex_up" ≡ bytes "cortex_" ++ rest))
match_pattern-star_example = match_pattern-star (bytes "cortex_") (bytes "cortex_up")

abbrev unhashed : Text → Text
unhashed s = s

abbrev answer : Entry
answer = record {
  schema_version = pos 1;
  query = bytes "up";
  language = bytes "promql";
  source = bytes "http://mimir";
  fetched_at = 7;
  ttl_seconds = pos 0;
  result = none;
  error = bytes "not found";
}

put_entry-get_example :
    (get (bytes "k") (put_entry unhashed answer []).1 ≡ (
      if is_fit (validate answer) && text_eq (key unhashed answer) (bytes "k")
      then some answer
      else get (bytes "k") []))
    × ((put_entry unhashed answer []).0 ≡ validate answer)
    × (get (bytes "k") (delete (bytes "j") [])
        ≡ (if text_eq (bytes "j") (bytes "k") then none else get (bytes "k") []))
    × (member (bytes "k") (keys reverse []) ≡ is_found (get (bytes "k") []))
put_entry-get_example =
    put_entry-get unhashed reverse reverse_perm answer [] (bytes "j") (bytes "k")

-- The entry is valid, and is found under its key.
put_run : get (key unhashed answer) (put_entry unhashed answer []).1 ≡ some answer
unfolding get put_entry validate key_for find put is_valid member text_eq
put_run = refl

put_entry-IsKept_example :
    IsKept unhashed (put_entry unhashed answer []).1 × IsKept unhashed (delete (bytes "k") [])
put_entry-IsKept_example = put_entry-IsKept unhashed [] tt answer (bytes "k")

abbrev names : List Text
names = bytes "up" ∷ bytes "job" ∷ bytes "up" ∷ []

sorted_unique-IsIncreasing_example :
    IsIncreasing (sorted_unique names)
    × ((x : Text) → member x (sorted_unique names) ≡ member x names)
sorted_unique-IsIncreasing_example = sorted_unique-IsIncreasing names
