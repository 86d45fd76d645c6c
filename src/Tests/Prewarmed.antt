-- ===== src/Tests/Prewarmed.antt =====
-- The plan of a prewarm, and a run with one, at concrete inputs.
use mathlib.Core.List.{reverse, reverse_perm}
use ratatoskr_go.Base.Calls.{Gives}
use ratatoskr_go.Base.Int.{ℤ, pos}
use ratatoskr_go.Base.{ℕ, ◌≡◌, refl, true, false, ◌&&◌, any, List, [], ◌∷◌, bytes}
use ratatoskr_go.Catalog.Cache.Virtual.{Virtual, prom, labels, values}
use ratatoskr_go.Catalog.Cache.{memory_store}
use ratatoskr_go.Catalog.Checker.Cached.{prom_lookups, loki_lookups, tempo_lookups}
use ratatoskr_go.Catalog.Checker.CachedKnown.{known_metrics, known_streams, known_spans}
use ratatoskr_go.Catalog.Prewarm.Done.{AllServe}
use ratatoskr_go.Catalog.Prewarm.Planned.{wants_labels, wants_values, plan_exact}
use ratatoskr_go.Catalog.Prewarm.Sets.{is_planned}
use ratatoskr_go.Catalog.Prewarm.{PrewarmInputs, AllLookups, plan}
use ratatoskr_go.Catalog.Store.{MemoryStore}
use ratatoskr_go.Finding.{Finding, no_source}
use ratatoskr_go.Runner.Gather.Checked.{catalog_checker, run_catalog-prewarm}
use ratatoskr_go.Runner.Gather.{Expressions, run_catalog}
use ratatoskr_go.Tests.Checked.{
  checker, servers, answer, same, whole_seconds, no_message, tick, Faithful, served, asked, logs,
  traces,
}

abbrev inputs : PrewarmInputs
inputs = record { promql = asked ∷ []; logql = logs ∷ []; traceql = traces ∷ [] }

plan_exact_example :
    (is_planned (labels prom (bytes "up")) (plan reverse checker inputs)
      ≡ (true && any (λ r. any (wants_labels (bytes "up")) r.selectors) inputs.promql))
    × (is_planned (values prom (bytes "up") (bytes "job")) (plan reverse checker inputs) ≡ (
        true && any (λ r. any (wants_values (bytes "up") (bytes "job")) r.selectors) inputs.promql))
plan_exact_example =
    plan_exact reverse (λ ks. reverse_perm ks) checker inputs (bytes "up") (bytes "job")

abbrev lookups : AllLookups (MemoryStore × ℕ)
lookups = record {
  in_prom =
      prom_lookups same whole_seconds (memory_store same no_message) tick (pos 0) same servers;
  in_loki =
      loki_lookups same whole_seconds (memory_store same no_message) tick (pos 0) same servers;
  in_tempo =
      tempo_lookups same whole_seconds (memory_store same no_message) tick (pos 0) same servers;
}

serves :
    AllServe Faithful (known_metrics answer) (known_streams answer) (known_spans answer) lookups
serves = record { proms = served.0; lokis = served.1; tempos = served.2 }

abbrev exprs : Expressions
exprs = record {
  prom_exprs = record { res = asked; source = no_source } ∷ [];
  loki_exprs = record { res = logs; source = no_source } ∷ [];
  trace_exprs = record { res = traces; source = no_source } ∷ [];
}

-- The tasks end in the reverse of the order of the plan.
abbrev backwards : ℤ → List Virtual → List Virtual
backwards n qs = reverse qs

run_catalog-prewarm_example :
    (out : List Finding) × Gives Faithful
      (run_catalog
        (catalog_checker same (λ m. m) reverse backwards checker lookups)
        false
        (pos 0)
        exprs)
      out
    × Gives Faithful
        (run_catalog
          (catalog_checker same (λ m. m) reverse backwards checker lookups)
          true
          (pos 0)
          exprs)
        out
run_catalog-prewarm_example =
    run_catalog-prewarm Faithful same (λ m. m) reverse backwards checker lookups
      (known_metrics answer) (known_streams answer) (known_spans answer) serves (refl, refl, refl)
      (pos 0) exprs
