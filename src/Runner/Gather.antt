-- ===== src/Runner/Gather.antt =====
-- internal/runner/runner.go: `runCatalog`, which collects the expressions that parse and has the
-- catalog checker check each.
pub mod Checked
pub mod Coverage
use ratatoskr_go.Base.{
  Bool, true, false, not, ◌&&◌, ◌⊎◌, inl, inr, Option, none, some, List, [], ◌∷◌, ◌++◌, map, Text,
  bytes, is_empty, text_eq, if◌then◌else◌,
}
use ratatoskr_go.Base.Calls.{Call, pure, ◌>>=◌, with_prefix}
use ratatoskr_go.Base.Int.{ℤ}
use ratatoskr_go.Extract.{
  PromResult, LogResult, TraceResult, RuleExtraction, RuleGroup, DashboardTarget, DashboardPanel,
  DashboardVariable, DashboardResult,
}
use ratatoskr_go.Finding.{Finding, Source}
use ratatoskr_go.Lint.{RuleFile}
use ratatoskr_go.Runner.Load.{rule_source, panel_source, variable_source}

-- `taggedPromQL`, `taggedLogQL` and `taggedTraceQL`.
pub record Tagged (R : Type 0) : Type 0 where
  pub res : R
  pub source : Source

-- The expressions of the rule files of one language.
unfoldable pub rules_tagged : {R : Type 0} → Text → Text → List (RuleExtraction R) → List (Tagged R)
rules_tagged path group [] = []
rules_tagged path group (r ∷ rules) =
    let rest = rules_tagged path group rules in
    if not (is_empty r.error)
    then rest
    else record { res = r.result; source = rule_source path group r } ∷ rest

unfoldable pub groups_tagged : {R : Type 0} → Text → List (RuleGroup R) → List (Tagged R)
groups_tagged path [] = []
groups_tagged path (g ∷ groups) = rules_tagged path g.name g.rules ++ groups_tagged path groups

unfoldable pub files_tagged : {R : Type 0} → List (RuleFile R) → List (Tagged R)
files_tagged [] = []
files_tagged (f ∷ files) = groups_tagged f.path f.result.groups ++ files_tagged files

-- The expression of a target or of a variable in one language: its `language` must say so, its
-- extraction be there, and its error be empty.
abbrev pub tagged_if : {R : Type 0} → Text → Text → Option R → Text → Source → List (Tagged R)
tagged_if wanted language none error source = []
tagged_if wanted language (some res) error source =
    if text_eq language wanted && is_empty error
    then record { res = res; source = source } ∷ []
    else []

-- The dashboards' expressions in one language; `of_target` and `of_variable` read its pointer field.
module _ (show_int : ℤ → Text) {R : Type 0} (wanted : Text) (of_target : DashboardTarget → Option R)
    (of_variable : DashboardVariable → Option R) where
  unfoldable pub targets_tagged : Text → DashboardPanel → List DashboardTarget → List (Tagged R)
  targets_tagged path p [] = []
  targets_tagged path p (t ∷ targets) =
      tagged_if wanted t.language (of_target t) t.error (panel_source show_int path p t)
      ++ targets_tagged path p targets

  unfoldable pub panels_tagged : Text → List DashboardPanel → List (Tagged R)
  panels_tagged path [] = []
  panels_tagged path (p ∷ panels) = targets_tagged path p p.targets ++ panels_tagged path panels

  unfoldable pub variables_tagged : Text → List DashboardVariable → List (Tagged R)
  variables_tagged path [] = []
  variables_tagged path (v ∷ variables) =
      tagged_if wanted v.language (of_variable v) v.error (variable_source show_int path v)
      ++ variables_tagged path variables

  unfoldable pub dashboards_tagged : List DashboardResult → List (Tagged R)
  dashboards_tagged [] = []
  dashboards_tagged (d ∷ dashboards) =
      panels_tagged d.path d.panels
      ++ (variables_tagged d.path d.variables ++ dashboards_tagged dashboards)

-- The three lists of `runCatalog`.
pub record Expressions : Type 0 where
  pub prom_exprs : List (Tagged PromResult)
  pub loki_exprs : List (Tagged LogResult)
  pub trace_exprs : List (Tagged TraceResult)

unfoldable pub gather :
    (ℤ → Text)
    → List (RuleFile PromResult)
    → List (RuleFile LogResult)
    → List DashboardResult
    → Expressions
gather show_int prom_files loki_files dashboards = record {
  prom_exprs =
      files_tagged prom_files
      ++ dashboards_tagged show_int (bytes "promql") (λ t. t.promql) (λ v. v.promql) dashboards;
  loki_exprs =
      files_tagged loki_files
      ++ dashboards_tagged show_int (bytes "logql") (λ t. t.logql) (λ v. v.logql) dashboards;
  trace_exprs =
      dashboards_tagged show_int (bytes "traceql") (λ t. t.traceql) (λ v. v.traceql) dashboards;
}

-- The operations of the catalog checker that a run calls, over a state S of the checker: its cache,
-- its store and the servers. Each returns an error or its result, and the state it leaves.
pub record Checker (S : Type 0) : Type 0 where
  pub prewarm : List PromResult → List LogResult → List TraceResult → ℤ → Call S (Unit {0})
  pub check_promql : PromResult → Source → Call S (List Finding)
  pub check_logql : LogResult → Source → Call S (List Finding)
  pub check_traceql : TraceResult → Source → Call S (List Finding)

-- The loop over the expressions of one language: it stops at the first error.
unfoldable pub check_each :
    {S R : Type 0} → (R → Source → Call S (List Finding)) → List (Tagged R) → Call S (List Finding)
check_each check [] = pure []
check_each check (e ∷ es) = do
  found ←
      with_prefix (bytes "runner: catalog check (" ++ (e.source.file ++ bytes "): "))
        (check e.res e.source)
  rest ← check_each check es
  pure (found ++ rest)

unfoldable pub check_all : {S : Type 0} → Checker S → Expressions → Call S (List Finding)
check_all c exprs = do
  prom ← check_each c.check_promql exprs.prom_exprs
  loki ← check_each c.check_logql exprs.loki_exprs
  trace ← check_each c.check_traceql exprs.trace_exprs
  pure (prom ++ (loki ++ trace))

unfoldable pub run_catalog :
    {S : Type 0} → Checker S → Bool → ℤ → Expressions → Call S (List Finding)
run_catalog c false parallelism exprs = check_all c exprs
run_catalog c true parallelism exprs = do
  ready ← with_prefix (bytes "runner: prewarm: ") (
      c.prewarm (map (λ e. e.res) exprs.prom_exprs) (map (λ e. e.res) exprs.loki_exprs)
        (map (λ e. e.res) exprs.trace_exprs) parallelism)
  check_all c exprs
