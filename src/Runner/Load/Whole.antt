-- ===== src/Runner/Load/Whole.antt =====
-- internal/runner/runner.go: the findings about whole files, and that those of single expressions are none.
use mathlib.Core.List.{map-append}
use ratatoskr_go.Base.{
  ◌≡◌, refl, ap, map, ◌∙◌, Bool, true, false, ◌||◌, inl, inr, List, [], ◌∷◌, ◌++◌, select,
  select-append, select_out, Text, bytes, text_eq, is_empty, if◌then◌else◌, Bool-cases,
}
use ratatoskr_go.Base.Int.{ℤ}
use ratatoskr_go.Extract.{
  RuleExtraction, RuleGroup, RuleFileResult, DashboardPanel, DashboardTarget, DashboardVariable,
  DashboardResult, PromResult, LogResult,
}
use ratatoskr_go.Finding.{
  Finding, Code, code_rule_file_yaml_invalid, code_dashboard_json_invalid, code_promql_parse_error,
  code_logql_parse_error,
}
use ratatoskr_go.Runner.Load.{
  file_read_finding, rule_file_yaml_finding, dashboard_json_finding, errors_of_rules,
  errors_of_groups, errors_of_targets, errors_of_panels, errors_of_variables,
  expr_parse_errors_from_prom_rule_file, expr_parse_errors_from_loki_rule_file,
  expr_parse_errors_from_dashboard, rule_error, language_code,
}

-- Is a finding about a whole file, which could not be read or extracted?
abbrev pub is_file_level : Finding → Bool
is_file_level f =
    text_eq f.code code_rule_file_yaml_invalid || text_eq f.code code_dashboard_json_invalid

abbrev pub is_file_level_code : Code → Bool
is_file_level_code code =
    text_eq code code_rule_file_yaml_invalid || text_eq code code_dashboard_json_invalid

-- The findings about whole files, each as the path and the code.
unfoldable pub file_level : List Finding → List (Text × Code)
file_level fs = map (λ f. (f.source.file, f.code)) (select is_file_level fs)

pub file_level-append :
    (fs gs : List Finding) → file_level (fs ++ gs) ≡ file_level fs ++ file_level gs
unfolding file_level
file_level-append fs gs =
    ap (map (λ (f : Finding). (f.source.file, f.code))) (select-append is_file_level fs gs)
    ∙ map-append (λ (f : Finding). (f.source.file, f.code)) (select is_file_level fs)
        (select is_file_level gs)

pub empty-level : file_level [] ≡ []
unfolding file_level
empty-level = refl

both_empty :
    (fs gs : List Finding) → file_level fs ≡ [] → file_level gs ≡ [] → file_level (fs ++ gs) ≡ []
both_empty fs gs h k = file_level-append fs gs ∙ ap (λ xs. xs ++ file_level gs) h ∙ k

pub read_finding-level :
    (p err : Text)
    → file_level (file_read_finding p err ∷ []) ≡ (p, code_rule_file_yaml_invalid) ∷ []
unfolding file_level file_read_finding text_eq
read_finding-level p err = refl

pub rule_file-level :
    (p err : Text)
    → file_level (rule_file_yaml_finding p err ∷ []) ≡ (p, code_rule_file_yaml_invalid) ∷ []
unfolding file_level rule_file_yaml_finding text_eq
rule_file-level p err = refl

pub dashboard-level :
    (p err : Text)
    → file_level (dashboard_json_finding p err ∷ []) ≡ (p, code_dashboard_json_invalid) ∷ []
unfolding file_level dashboard_json_finding text_eq
dashboard-level p err = refl

level_if :
    (b : Bool) (f : Finding) (rest : List Finding)
    → is_file_level_code f.code ≡ false
    → file_level rest ≡ []
    → file_level (if b then rest else f ∷ rest) ≡ []
unfolding file_level
level_if true f rest h k = k
level_if false f rest h k =
    ap (map (λ (f : Finding). (f.source.file, f.code))) (select_out is_file_level f rest h) ∙ k

errors_of_rules-level :
    (code : Code) (language : Text) {R : Type 0} (path group : Text)
    (rules : List (RuleExtraction R))
    → is_file_level_code code ≡ false
    → file_level (errors_of_rules code language path group rules) ≡ []
unfolding errors_of_rules
errors_of_rules-level code language path group [] h = empty-level
errors_of_rules-level code language path group (r ∷ rules) h =
    level_if (is_empty r.error) (rule_error code language path group r)
      (errors_of_rules code language path group rules) h
      (errors_of_rules-level code language path group rules h)

errors_of_groups-level :
    (code : Code) (language : Text) {R : Type 0} (path : Text) (groups : List (RuleGroup R))
    → is_file_level_code code ≡ false
    → file_level (errors_of_groups code language path groups) ≡ []
unfolding errors_of_groups
errors_of_groups-level code language path [] h = empty-level
errors_of_groups-level code language path (g ∷ groups) h =
    both_empty (errors_of_rules code language path g.name g.rules)
      (errors_of_groups code language path groups)
      (errors_of_rules-level code language path g.name g.rules h)
      (errors_of_groups-level code language path groups h)

module _ (show_int : ℤ → Text) where
  language_code-level :
      (language : Text) → is_file_level_code (language_code show_int language) ≡ false
  unfolding text_eq
  language_code-level language = elim (Bool-cases (text_eq language (bytes "logql"))) [
    | inl e ↦ rw (e) refl
    | inr e ↦ rw (e) refl
  ]

  errors_of_targets-level :
      (path : Text) (p : DashboardPanel) (targets : List DashboardTarget)
      → file_level (errors_of_targets show_int path p targets) ≡ []
  unfolding errors_of_targets
  errors_of_targets-level path p [] = empty-level
  errors_of_targets-level path p (t ∷ targets) =
      level_if (is_empty t.error) _ (errors_of_targets show_int path p targets)
        (language_code-level t.language) (errors_of_targets-level path p targets)

  errors_of_panels-level :
      (path : Text) (panels : List DashboardPanel)
      → file_level (errors_of_panels show_int path panels) ≡ []
  unfolding errors_of_panels
  errors_of_panels-level path [] = empty-level
  errors_of_panels-level path (p ∷ panels) =
      both_empty (errors_of_targets show_int path p p.targets)
        (errors_of_panels show_int path panels) (errors_of_targets-level path p p.targets)
        (errors_of_panels-level path panels)

  errors_of_variables-level :
      (path : Text) (variables : List DashboardVariable)
      → file_level (errors_of_variables show_int path variables) ≡ []
  unfolding errors_of_variables
  errors_of_variables-level path [] = empty-level
  errors_of_variables-level path (v ∷ variables) =
      level_if (is_empty v.error) _ (errors_of_variables show_int path variables)
        (language_code-level v.language) (errors_of_variables-level path variables)

pub prom_errors-level :
    (p : Text) (res : RuleFileResult PromResult)
    → file_level (expr_parse_errors_from_prom_rule_file p res) ≡ []
unfolding expr_parse_errors_from_prom_rule_file text_eq
prom_errors-level p res =
    errors_of_groups-level code_promql_parse_error (bytes "PromQL") p res.groups refl

pub loki_errors-level :
    (p : Text) (res : RuleFileResult LogResult)
    → file_level (expr_parse_errors_from_loki_rule_file p res) ≡ []
unfolding expr_parse_errors_from_loki_rule_file text_eq
loki_errors-level p res =
    errors_of_groups-level code_logql_parse_error (bytes "LogQL") p res.groups refl

pub dashboard_errors-level :
    (show_int : ℤ → Text) (p : Text) (res : DashboardResult)
    → file_level (expr_parse_errors_from_dashboard show_int p res) ≡ []
unfolding expr_parse_errors_from_dashboard
dashboard_errors-level show_int p res =
    both_empty (errors_of_panels show_int p res.panels)
      (errors_of_variables show_int p res.variables) (errors_of_panels-level show_int p res.panels)
      (errors_of_variables-level show_int p res.variables)
