-- ===== src/Runner/Gather/Checked.antt =====
-- internal/runner/runner.go: `runCatalog` with the checker of pkg/catalog.
use ratatoskr_go.Base.Calls.{Call, pure, Gives, pure-Gives, bind-Gives, with_prefix-Gives}
use ratatoskr_go.Base.Int.{ℤ}
use ratatoskr_go.Base.{
  ◌≡◌, Bool, true, false, not, inl, inr, List, [], ◌∷◌, ◌++◌, map, Text, is_empty, if◌then◌else◌,
  Bool-cases, arith,
}
use ratatoskr_go.Catalog.Allowlist.{Patterns}
use ratatoskr_go.Catalog.Cache.Virtual.{Virtual}
use ratatoskr_go.Catalog.Checker.Known.{Catalog, check_promql_fits}
use ratatoskr_go.Catalog.Checker.Logs.{check_logql}
use ratatoskr_go.Catalog.Checker.LogsKnown.{Streams, check_logql_fits}
use ratatoskr_go.Catalog.Checker.Traces.{check_traceql}
use ratatoskr_go.Catalog.Checker.TracesKnown.{Spans, check_traceql_fits}
use ratatoskr_go.Catalog.Checker.{check_promql, Checker as CatalogChecker}
use ratatoskr_go.Catalog.Prewarm.{AllLookups, prewarm}
use ratatoskr_go.Catalog.Prewarm.Done.{AllServe, prewarm-Gives}
use ratatoskr_go.Extract.{PromResult, LogResult, TraceResult}
use ratatoskr_go.Finding.{Finding, Source}
use ratatoskr_go.Runner.Gather.{Tagged, Expressions, Checker, check_each, check_all, run_catalog}

module _ {S : Type 0} (quoted : Text → Text) (range : Patterns → Patterns)
    (keys_range : List Text → List Text) (schedule : ℤ → List Virtual → List Virtual)
    (c : CatalogChecker) (x : AllLookups S) where
  -- The operations of the catalog checker that a run calls.
  unfoldable pub catalog_checker : Checker S
  catalog_checker = record {
    prewarm = λ ps ls ts n.
        prewarm keys_range schedule c x (record { promql = ps; logql = ls; traceql = ts }) n;
    check_promql = check_promql quoted range c x.in_prom;
    check_logql = check_logql quoted range c x.in_loki;
    check_traceql = check_traceql quoted range c x.in_tempo;
  }

off-Gives :
    {S : Type 0} (I : S → Type 0) {A : Type 0} (b : Bool) (a : A) (m : Call S A)
    → b ≡ false
    → Gives I (if not b then pure a else m) a
off-Gives I true a m h = absurd (ground arith)
off-Gives I false a m h = pure-Gives I a

-- From the states of the invariant a call always returns the same.
abbrev pub Settled : {S : Type 0} → (S → Type 0) → {A : Type 0} → Call S A → Type 0
Settled I {A} m = (a : A) × Gives I m a

module _ {S : Type 0} (I : S → Type 0) (quoted : Text → Text) (range : Patterns → Patterns)
    (c : CatalogChecker) (x : AllLookups S) (k : Catalog) (l : Streams) (t : Spans)
    (serves : AllServe I k l t x)
    (addresses : (is_empty c.prom_source ≡ false)
      × (is_empty c.loki_source ≡ false)
      × (is_empty c.tempo_source ≡ false)) where
  promql-Settled :
      (res : PromResult) (src : Source) → Settled I (check_promql quoted range c x.in_prom res src)
  unfolding check_promql
  promql-Settled res src = elim (Bool-cases c.has_prom) [
    | inl y ↦
        let fits =
          check_promql_fits quoted range c k y addresses.0 I x.in_prom serves.proms res src in
        (fits.0, fits.1)
    | inr n ↦ ([], off-Gives I c.has_prom [] _ n)
  ]

  logql-Settled :
      (res : LogResult) (src : Source) → Settled I (check_logql quoted range c x.in_loki res src)
  unfolding check_logql
  logql-Settled res src = elim (Bool-cases c.has_loki) [
    | inl y ↦
        let fits =
          check_logql_fits quoted range c l y addresses.1 I x.in_loki serves.lokis res src in
        (fits.0, fits.1)
    | inr n ↦ ([], off-Gives I c.has_loki [] _ n)
  ]

  traceql-Settled :
      (res : TraceResult) (src : Source)
      → Settled I (check_traceql quoted range c x.in_tempo res src)
  unfolding check_traceql
  traceql-Settled res src = elim (Bool-cases c.has_tempo) [
    | inl y ↦
        let fits =
          check_traceql_fits quoted range c t y addresses.2 I x.in_tempo serves.tempos res src in
        (fits.0, fits.1)
    | inr n ↦ ([], off-Gives I c.has_tempo [] _ n)
  ]

each-Settled :
    {S R : Type 0} (I : S → Type 0) (check : R → Source → Call S (List Finding))
    → ((res : R) (src : Source) → Settled I (check res src))
    → (es : List (Tagged R)) → Settled I (check_each check es)
unfolding check_each
each-Settled I check h [] = ([], pure-Gives I [])
each-Settled I check h (e ∷ es) =
    let (found, g) = h e.res e.source in
    let (rest, k) = each-Settled I check h es in
    (
      found ++ rest,
      bind-Gives I _ _ _ _ (with_prefix-Gives I _ _ _ g)
          (bind-Gives I _ _ _ _ k (pure-Gives I (found ++ rest))),
    )

-- Where the lookups of the three checks, in the states of an invariant, succeed with what the servers
-- know and leave a state of the invariant, and every server has an address: from such a state the
-- check of the expressions of a run returns findings, the same with and without a prewarm, whatever
-- the order in which its tasks end, and leaves such a state.
pub run_catalog-prewarm :
    {S : Type 0} (I : S → Type 0) (quoted : Text → Text) (range : Patterns → Patterns)
    (keys_range : List Text → List Text) (schedule : ℤ → List Virtual → List Virtual)
    (c : CatalogChecker) (x : AllLookups S) (k : Catalog) (l : Streams) (t : Spans)
    → AllServe I k l t x
    → (is_empty c.prom_source ≡ false)
      × (is_empty c.loki_source ≡ false)
      × (is_empty c.tempo_source ≡ false)
    → (parallelism : ℤ) (exprs : Expressions)
    → (out : List Finding) × Gives I
        (run_catalog (catalog_checker quoted range keys_range schedule c x) false parallelism exprs)
        out
      × Gives I
          (run_catalog
            (catalog_checker quoted range keys_range schedule c x)
            true
            parallelism
            exprs)
          out
unfolding run_catalog check_all catalog_checker
run_catalog-prewarm I quoted range keys_range schedule c x k l t serves addresses parallelism
      exprs =
    let (ps, p) =
      each-Settled I _ (promql-Settled I quoted range c x k l t serves addresses)
        exprs.prom_exprs in
    let (ls, q) =
      each-Settled I _ (logql-Settled I quoted range c x k l t serves addresses) exprs.loki_exprs in
    let (ts, r) =
      each-Settled I _ (traceql-Settled I quoted range c x k l t serves addresses)
        exprs.trace_exprs in
    let all =
      bind-Gives I _ _ _ _ p
        (bind-Gives I _ _ _ _ q (bind-Gives I _ _ _ _ r (pure-Gives I (ps ++ (ls ++ ts))))) in
    (
      ps ++ (ls ++ ts),
      all,
      bind-Gives I _ _ _ _
          (with_prefix-Gives I _ _ _ (
            prewarm-Gives I k l t x serves keys_range schedule c
              (record {
                promql = map (λ e. e.res) exprs.prom_exprs;
                logql = map (λ e. e.res) exprs.loki_exprs;
                traceql = map (λ e. e.res) exprs.trace_exprs;
              })
              parallelism))
          all,
    )
