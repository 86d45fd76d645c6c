-- ===== src/Catalog/Checker/Cached.antt =====
-- pkg/catalog/checker.go: the lookups of the three checks through the cache.
use ratatoskr_go.Base.{ℕ, List, Text}
use ratatoskr_go.Base.Int.{ℤ}
use ratatoskr_go.Catalog.Cache.{
  Store, cached_list, merged, prom_metric_names, prom_metric_labels, prom_metric_label_values,
  loki_label_names, loki_label_values, trace_attribute_names, trace_attribute_values,
}
use ratatoskr_go.Catalog.Cache.Virtual.{prom, loki, tempo, Servers}
use ratatoskr_go.Catalog.Checker.{Lookups, LogqlLookups, TraceqlLookups}
use ratatoskr_go.Base.Calls.{Call, pure, ◌>>=◌}
use ratatoskr_go.Catalog.Entry.{Slice, elements}

-- A nil slice has no elements.
unfoldable pub list_of : {S : Type 0} → Call S Slice → Call S (List Text)
list_of m = do names ← m; pure (elements names)

module _ {T W : Type 0} (hash : Text → Text) (seconds : ℕ → ℤ) (store : Store T) (clock : W → ℕ × W)
    (lifetime : ℤ) (quoted : Text → Text) (servers : Servers W) where
  unfoldable pub prom_lookups : Lookups (T × W)
  prom_lookups =
      let client = servers.prom_client in
      let source : Text = servers.address prom in
      record {
        prom_metric_names = list_of (
            cached_list hash seconds store clock lifetime (prom_metric_names quoted source client));
        prom_metric_labels = λ m. list_of (
            cached_list hash seconds store clock lifetime
              (prom_metric_labels quoted source client m));
        prom_metric_label_values = λ m l. list_of (
            cached_list hash seconds store clock lifetime
              (prom_metric_label_values quoted source client m l));
      }

  unfoldable pub loki_lookups : LogqlLookups (T × W)
  loki_lookups =
      let client = servers.loki_client in
      let source : Text = servers.address loki in
      record {
        loki_label_names =
            list_of
              (cached_list hash seconds store clock lifetime (loki_label_names source client));
        loki_label_values = λ l.
            list_of
              (cached_list hash seconds store clock lifetime (loki_label_values source client l));
      }

  unfoldable pub tempo_lookups : TraceqlLookups (T × W)
  tempo_lookups =
      let client = servers.tempo_client in
      let source : Text = servers.address tempo in
      record {
        trace_attribute_names = λ scope.
            merged
              (λ s.
                cached_list hash seconds store clock lifetime
                  (trace_attribute_names source client s))
              scope;
        trace_attribute_values = λ scope name.
            merged
              (λ s.
                cached_list hash seconds store clock lifetime
                  (trace_attribute_values source client s name))
              scope;
      }
