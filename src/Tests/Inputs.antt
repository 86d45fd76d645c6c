-- ===== src/Tests/Inputs.antt =====
-- The runner at concrete inputs.
use mathlib.Core.List.{Perm, reverse, reverse_perm}
use mathlib.Core.List.Perm
use ratatoskr_go.Base.{
  ℕ, ◌≡◌, refl, Bool, true, false, ◌⊎◌, inl, inr, Option, none, some, List, [], ◌∷◌, ◌++◌, map,
  Text, bytes, text_eq, text_lt, has_prefix, member, if◌then◌else◌,
}
use ratatoskr_go.Base.Int.{pos}
use ratatoskr_go.Base.Paths.{ext, ext_from}
use ratatoskr_go.Base.Sort.{sort_stable}
use ratatoskr_go.Extract.{PromResult, RuleExtraction, RuleFileResult}
use ratatoskr_go.Finding.{
  code_promql_parse_error, code_rule_file_yaml_invalid, code_dashboard_json_invalid,
}
use ratatoskr_go.Lint.{RuleFile, default_config}
use ratatoskr_go.Runner.Expand.{
  Entry, plain, folder, unlisted, also, done, visit, visit_all, expand_one, expand_all, expand,
}
use ratatoskr_go.Runner.Load.{
  Files, unreadable, invalid, extracted, Inputs, Loaded, load_expanded, prom_extensions,
}
use ratatoskr_go.Runner.Load.Accounts.{extracted_of, failed_of, load_expanded-accounts}
use ratatoskr_go.Runner.Load.Whole.{file_level}
use ratatoskr_go.Runner.Gather.{files_tagged}
use ratatoskr_go.Runner.Gather.Coverage.{
  tagged_sources, error_sources, errors_of_files, sources_of_files, files_tagged-errors_of_files,
}
use ratatoskr_go.Runner.Pipeline.{Config, run}
use ratatoskr_go.Runner.Pipeline.Order.{IsReported, expand_order, run_deterministic}

abbrev join : Text → Text → Text
join dir name = dir ++ (bytes "/" ++ name)

-- A directory with two rule files, a hidden one, one of another kind and a hidden directory that
-- cannot be listed.
abbrev rules_dir : Entry
rules_dir = folder (bytes "rules") (
    also (unlisted (bytes ".git") (bytes "denied")) (
      also (plain (bytes ".x.yaml"))
        (also (plain (bytes "b.YML")) (also (plain (bytes "notes.txt")) done))))

abbrev stat : Text → Text ⊎ Bool
stat p =
    if text_eq p (bytes "rules")
    then inr true
    else if text_eq p (bytes "a.yaml")
    then inr false
    else inl (bytes "no such file")

abbrev walk : Text → Text ⊎ Entry
walk p = inr rules_dir

expand_order_example :
    expand join stat walk (bytes "a.yaml" ∷ bytes "rules" ∷ []) prom_extensions
    ≡ inr (bytes "a.yaml" ∷ bytes "rules/b.YML" ∷ [])
unfolding expand expand_all expand_one visit visit_all has_prefix text_eq text_lt member ext
    ext_from sort_stable
expand_order_example =
    expand_order join stat walk prom_extensions {ps = bytes "rules" ∷ bytes "a.yaml" ∷ []}
      {qs = bytes "a.yaml" ∷ bytes "rules" ∷ []} (Perm.swap (bytes "a.yaml") (bytes "rules") [])
      (bytes "a.yaml" ∷ bytes "rules/b.YML" ∷ []) refl

abbrev result : PromResult
result = record {
  expr = bytes "up";
  metric_refs = [];
  selectors = [];
  at_modifiers = [];
  functions = [];
}

abbrev rule : Text → RuleExtraction PromResult
rule error = record {
  recorded = bytes "r";
  alert = [];
  for_str = [];
  labels = [];
  annotations = [];
  result = result;
  error = error;
}

-- One rule that parses and one that does not.
abbrev rule_file : RuleFileResult PromResult
rule_file = record {
  path = [];
  groups =
      record {
        name = bytes "g";
        interval = [];
        rules = rule [] ∷ rule (bytes "unexpected end") ∷ [];
      }
      ∷ [];
}

abbrev files : Files
files = record {
  expand = λ paths allowed. inr paths;
  read_prom =
      λ p. if text_eq p (bytes "a.yaml") then extracted rule_file else unreadable (bytes "denied");
  read_loki = λ p. invalid (bytes "not YAML");
  read_dashboard = λ p. invalid (bytes "not JSON");
  show_int = λ n. bytes "7";
}

load_expanded-accounts_example :
    let loaded : Loaded =
      load_expanded files
        (bytes "a.yaml" ∷ bytes "b.yaml" ∷ [])
        (bytes "l.yaml" ∷ [])
        (bytes "d.json" ∷ []) in
    (loaded.scanned.prometheus_rules ≡ 2)
    × (loaded.scanned.loki_rules ≡ 1)
    × (loaded.scanned.dashboards ≡ 1)
    × (loaded.prom_files
        ≡ map
            (λ x. record { path = x.0; result = record { path = x.0; groups = x.1.groups } })
            (extracted_of files.read_prom (bytes "a.yaml" ∷ bytes "b.yaml" ∷ [])))
    × (loaded.loki_files
        ≡ map
            (λ x. record { path = x.0; result = record { path = x.0; groups = x.1.groups } })
            (extracted_of files.read_loki (bytes "l.yaml" ∷ [])))
    × (loaded.dashboards
        ≡ map
            (λ x. record x.1 { path = x.0 })
            (extracted_of files.read_dashboard (bytes "d.json" ∷ [])))
    × (file_level loaded.findings
        ≡ failed_of code_rule_file_yaml_invalid files.read_prom
            (bytes "a.yaml" ∷ bytes "b.yaml" ∷ [])
          ++ failed_of code_rule_file_yaml_invalid files.read_loki (bytes "l.yaml" ∷ [])
          ++ failed_of code_dashboard_json_invalid files.read_dashboard (bytes "d.json" ∷ []))
load_expanded-accounts_example =
    load_expanded-accounts files (bytes "a.yaml" ∷ bytes "b.yaml" ∷ []) (bytes "l.yaml" ∷ [])
      (bytes "d.json" ∷ [])

abbrev rule_files : List (RuleFile PromResult)
rule_files = record { path = bytes "a.yaml"; result = rule_file } ∷ []

files_tagged-errors_of_files_example :
    Perm
      (tagged_sources (files_tagged rule_files)
        ++ error_sources (errors_of_files code_promql_parse_error (bytes "PromQL") rule_files))
      (sources_of_files rule_files)
files_tagged-errors_of_files_example =
    files_tagged-errors_of_files code_promql_parse_error (bytes "PromQL") rule_files

abbrev minutes : Text → Option ℕ
minutes s = if text_eq s (bytes "1m") then some 60 else none

abbrev settings : Config (Unit {0})
settings = record {
  lint = default_config;
  checker = none;
  prewarm = true;
  prewarm_parallelism = pos 4;
}

abbrev paths : Inputs
paths = record {
  prom_rules_paths = bytes "a.yaml" ∷ [];
  loki_rules_paths = [];
  dashboard_paths = [];
}

run_deterministic_example :
    (run (λ m. m) minutes (λ n. bytes "1m") files settings paths tt
      ≡ run reverse minutes (λ n. bytes "1m") files settings paths tt)
    × IsReported (run (λ m. m) minutes (λ n. bytes "1m") files settings paths tt).0
run_deterministic_example =
    run_deterministic (λ m. m) reverse (λ m. Perm.refl m) reverse_perm minutes (λ n. bytes "1m")
      files settings paths tt
