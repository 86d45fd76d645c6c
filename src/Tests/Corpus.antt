-- ===== src/Tests/Corpus.antt =====
-- Suggestions, findings and linting at concrete inputs.
use mathlib.Core.List.{Perm, reverse, reverse_perm}
use mathlib.Core.List.Perm
use ratatoskr_go.Base.{
  ℕ, ◌≡◌, refl, ◌↔◌, true, Option, none, some, List, [], ◌∷◌, ◌++◌, map, select, take, Text, bytes,
  text_eq, text_lt, leb, if◌then◌else◌,
}
use ratatoskr_go.Base.Int.{pos, pos_part}
use ratatoskr_go.Base.Sort.{IsSorted, sort_stable}
use ratatoskr_go.Catalog.Suggest.{levenshtein, suggest, Scored, scored_less}
use ratatoskr_go.Catalog.Suggest.Edits.{IsDistance}
use ratatoskr_go.Catalog.Suggest.Ranking.{levenshtein-IsDistance, suggest_ranked, near}
use ratatoskr_go.Extract.{PromResult, LogResult, RuleExtraction}
use ratatoskr_go.Finding.{
  Finding, before, sort_findings, severity_error, category_lint, no_source, no_context,
  code_missing_severity, code_empty_expr,
}
use ratatoskr_go.Finding.Order.{IsOrdered, same_keys, sort_findings_stable}
use ratatoskr_go.Lint.{
  Rule, RuleFile, default_config, lint_rule, lint_all, duplicate, detect_duplicate_alerts,
  alerts_of_files,
}
use ratatoskr_go.Lint.Rules.{IsClean, lint_rule-IsClean_iff}
use ratatoskr_go.Lint.Duplicates.{named, first_of, lint_all_deterministic}
use ratatoskr_go.Lint.Repeats.{about, tail, detect_duplicate_alerts_exact}

abbrev metrics : List Text
metrics = bytes "up" ∷ bytes "upp" ∷ bytes "down" ∷ []

levenshtein-IsDistance_example :
    (d : ℕ) × IsDistance (bytes "up") (bytes "upp") d
    × (levenshtein (bytes "up") (bytes "upp") 3 ≡ (if leb d 3 then some d else none))
levenshtein-IsDistance_example = levenshtein-IsDistance (bytes "up") (bytes "upp") 3

suggest_ranked_example :
    (ranked : List Scored) × Perm ranked (near (bytes "uq") metrics (pos_part (pos 2)))
    × IsSorted scored_less ranked
    × (suggest (bytes "uq") metrics (pos 3) (pos 2)
        ≡ map (λ s. s.name) (take (pos_part (pos 3)) ranked))
suggest_ranked_example = suggest_ranked (bytes "uq") metrics (pos 3) (pos 2) refl

abbrev lint_at : Text → Text → Finding
lint_at file code = record {
  code = code;
  severity = severity_error;
  category = category_lint;
  source = record no_source { file = file };
  message = bytes "m";
  suggestions = [];
  context = no_context;
}

abbrev two_findings : List Finding
two_findings =
    lint_at (bytes "b.yaml") code_missing_severity ∷ lint_at (bytes "a.yaml") code_empty_expr ∷ []

sort_findings_stable_example :
    Perm (sort_findings two_findings) two_findings
    × IsOrdered (sort_findings two_findings)
    × ((f : Finding)
        → select (same_keys f) (sort_findings two_findings) ≡ select (same_keys f) two_findings)
sort_findings_stable_example = sort_findings_stable two_findings

-- The file that comes first by name is reported first.
sort_run :
    map (λ f. f.source.file) (sort_findings two_findings) ≡ bytes "a.yaml" ∷ bytes "b.yaml" ∷ []
unfolding sort_findings before sort_stable text_eq text_lt
sort_run = refl

abbrev minutes : Text → Option ℕ
minutes s = if text_eq s (bytes "1m") then some 60 else none

abbrev shown : ℕ → Text
shown n = bytes "a duration"

abbrev alert_rule : Rule
alert_rule = record {
  file = bytes "a.yaml";
  group = bytes "g";
  group_interval = some 60;
  name = bytes "Down";
  is_alert = true;
  expr = bytes "up == 0";
  labels = (bytes "severity", bytes "page") ∷ [];
  annotations = (bytes "summary", bytes "s") ∷ (bytes "description", bytes "d") ∷ [];
  for_str = bytes "1m";
}

lint_rule-IsClean_iff_example :
    (lint_rule minutes shown default_config alert_rule ≡ [])
    ↔ IsClean minutes shown default_config alert_rule
lint_rule-IsClean_iff_example = lint_rule-IsClean_iff minutes shown default_config alert_rule

abbrev no_result : PromResult
no_result = record {
  expr = bytes "up";
  metric_refs = [];
  selectors = [];
  at_modifiers = [];
  functions = [];
}

abbrev down : RuleExtraction PromResult
down = record {
  recorded = [];
  alert = bytes "Down";
  for_str = [];
  labels = [];
  annotations = [];
  result = no_result;
  error = [];
}

abbrev twice : List (RuleFile PromResult)
twice =
    record {
      path = bytes "a.yaml";
      result = record {
        path = bytes "a.yaml";
        groups = record { name = bytes "g"; interval = []; rules = down ∷ down ∷ [] } ∷ [];
      };
    }
    ∷ []

detect_duplicate_alerts_exact_example :
    select (about (bytes "Down")) (detect_duplicate_alerts reverse twice [])
    ≡ map
        (duplicate
          (bytes "Down")
          (first_of (alerts_of_files twice ++ alerts_of_files {R = LogResult} []) (bytes "Down")))
        (tail (
          select
            (named (bytes "Down"))
            (alerts_of_files twice ++ alerts_of_files {R = LogResult} [])))
detect_duplicate_alerts_exact_example =
    detect_duplicate_alerts_exact reverse reverse_perm twice [] (bytes "Down")

lint_all_deterministic_example :
    lint_all (λ m. m) minutes shown default_config twice []
    ≡ lint_all reverse minutes shown default_config twice []
lint_all_deterministic_example =
    lint_all_deterministic (λ m. m) reverse (λ m. Perm.refl m) reverse_perm minutes shown
      default_config twice []
