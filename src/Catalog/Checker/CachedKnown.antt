-- ===== src/Catalog/Checker/CachedKnown.antt =====
-- pkg/catalog/checker.go: the checks through the cache, over servers that do not change.
use ratatoskr_go.Base.{ℕ, ◌≡◌, false, List, [], ◌∷◌, All, Text, is_empty}
use ratatoskr_go.Base.Int.{ℤ}
use ratatoskr_go.Catalog.Cache.{
  memory_store, merged, trace_scopes, prom_metric_names, prom_metric_labels,
  prom_metric_label_values, loki_label_names, loki_label_values, trace_attribute_names,
  trace_attribute_values,
}
use ratatoskr_go.Catalog.Cache.Serving.{IsSteady, settled, IsFaithful, cached_list-Gives}
use ratatoskr_go.Catalog.Cache.Virtual.{
  Server, prom, loki, tempo, Virtual, metric_names, labels, values, Servers,
}
use ratatoskr_go.Catalog.Checker.Cached.{list_of, prom_lookups, loki_lookups, tempo_lookups}
use ratatoskr_go.Catalog.Checker.{Lookups, LogqlLookups, TraceqlLookups}
use ratatoskr_go.Catalog.Checker.Known.{Catalog}
use ratatoskr_go.Catalog.Checker.LogsKnown.{Streams}
use ratatoskr_go.Catalog.Checker.TracesKnown.{Spans}
use ratatoskr_go.Base.Calls.{Call, Gives, found_by, pure-Gives, bind-Gives, each-Gives_all}
use ratatoskr_go.Catalog.Entry.{Entry, Slice, Invalid, elements}
use ratatoskr_go.Catalog.Store.{MemoryStore, sorted_unique}

list_of-Gives :
    {S : Type 0} (I : S → Type 0) (m : Call S Slice) (v : Slice)
    → Gives I m v
    → Gives I (list_of m) (elements v)
unfolding list_of
list_of-Gives I m v g = bind-Gives I _ _ _ _ g (pure-Gives I (elements v))

All-map :
    {A : Type 0} {P Q : A → Type 0} → ((a : A) → P a → Q a) → (xs : List A) → All P xs → All Q xs
All-map f [] h = tt
All-map f (x ∷ xs) h = (f x h.0, All-map f xs h.1)

merged-Gives :
    {S : Type 0} (I : S → Type 0) (lookup : Text → Call S Slice) (v : Text → Slice)
    (P : Text → Type 0)
    → ((s : Text) → P s → Gives I (lookup s) (v s))
    → (scope : Text) → All P (trace_scopes scope)
    → Gives I
        (merged lookup scope)
        (sorted_unique (found_by (λ s. elements (v s)) (trace_scopes scope)))
unfolding merged
merged-Gives I lookup v P g scope asked =
    let one =
      λ (s : Text) (p : P s). bind-Gives I _ _ _ _ (g s p) (pure-Gives I (elements (v s))) in
    bind-Gives I _ _ _ _
      (each-Gives_all I _ (λ s. elements (v s)) (trace_scopes scope)
        (All-map one (trace_scopes scope) asked))
      (pure-Gives I _)

-- What the servers know, where they answer alike.
module _ (answer : Virtual → Slice) where
  abbrev pub known_metrics : Catalog
  known_metrics = record {
    names = elements (settled answer metric_names);
    labels = λ m. elements (settled answer (labels prom m));
    values = λ m l. elements (settled answer (values prom m l));
  }

  abbrev pub known_streams : Streams
  known_streams = record {
    labels = elements (settled answer (labels loki []));
    values = λ l. elements (settled answer (values loki [] l));
  }

  abbrev pub known_spans : Spans
  known_spans = record {
    names = λ scope.
        sorted_unique
          (found_by (λ s. elements (settled answer (labels tempo s))) (trace_scopes scope));
    values = λ scope name.
        sorted_unique
          (found_by (λ s. elements (settled answer (values tempo s name))) (trace_scopes scope));
  }

-- The lookups of the three checks that ask only queries of `Asked` succeed, in the states of the
-- invariant, with what the servers know.
module _ {S : Type 0} (I : S → Type 0) (answer : Virtual → Slice) (Asked : Virtual → Type 0) where
  pub record ServesMetrics (lookups : Lookups S) : Type 0 where
    pub names : Asked metric_names → Gives I lookups.prom_metric_names (known_metrics answer).names
    pub metric_labels :
        (m : Text)
        → Asked (labels prom m)
        → Gives I (lookups.prom_metric_labels m) ((known_metrics answer).labels m)
    pub metric_values :
        (m l : Text)
        → Asked (values prom m l)
        → Gives I (lookups.prom_metric_label_values m l) ((known_metrics answer).values m l)

  pub record ServesStreams (lookups : LogqlLookups S) : Type 0 where
    pub stream_labels :
        Asked (labels loki []) → Gives I lookups.loki_label_names (known_streams answer).labels
    pub stream_values :
        (l : Text)
        → Asked (values loki [] l)
        → Gives I (lookups.loki_label_values l) ((known_streams answer).values l)

  pub record ServesSpans (lookups : TraceqlLookups S) : Type 0 where
    pub span_names :
        (scope : Text)
        → All (λ s. Asked (labels tempo s)) (trace_scopes scope)
        → Gives I (lookups.trace_attribute_names scope) ((known_spans answer).names scope)
    pub span_values :
        (scope name : Text)
        → All (λ s. Asked (values tempo s name)) (trace_scopes scope)
        → Gives I
            (lookups.trace_attribute_values scope name)
            ((known_spans answer).values scope name)

-- Over the memory store, and for any set of queries no two of which share a hash unless they have the
-- same text: if the servers have addresses and answer each query of the set alike, at times after the
-- zero time, then from a store that holds, for each query of the set, nothing or what the server
-- answers, every cached lookup of the three checks that asks queries of the set returns what the
-- server answers, and leaves such a store, whatever has expired.
pub lookups-Serves :
    {W : Type 0} (quoted : Text → Text) (servers : Servers W) (hash : Text → Text) (seconds : ℕ → ℤ)
    (message : Entry → Invalid → Text) (clock : W → ℕ × W) (lifetime : ℤ) (answer : Virtual → Slice)
    (Asked : Virtual → Type 0)
    → IsSteady quoted servers hash seconds message clock lifetime answer Asked
    → ((p : Server) → is_empty (servers.address p) ≡ false)
    → ServesMetrics
        (IsFaithful quoted servers hash seconds message clock lifetime answer Asked)
        answer
        Asked
        (prom_lookups hash seconds (memory_store hash message) clock lifetime quoted servers)
      × ServesStreams
          (IsFaithful quoted servers hash seconds message clock lifetime answer Asked)
          answer
          Asked
          (loki_lookups hash seconds (memory_store hash message) clock lifetime quoted servers)
      × ServesSpans
          (IsFaithful quoted servers hash seconds message clock lifetime answer Asked)
          answer
          Asked
          (tempo_lookups hash seconds (memory_store hash message) clock lifetime quoted servers)
unfolding prom_lookups loki_lookups tempo_lookups prom_metric_names prom_metric_labels
    prom_metric_label_values loki_label_names loki_label_values trace_attribute_names
    trace_attribute_values
lookups-Serves {W} quoted servers hash seconds message clock lifetime answer Asked steady given =
    let I : MemoryStore × W → Type 0 =
      IsFaithful quoted servers hash seconds message clock lifetime answer Asked in
    let gives =
      cached_list-Gives quoted servers hash seconds message clock lifetime answer Asked steady in
    (
      record {
        names = λ a. list_of-Gives I _ _ (gives metric_names a (given prom));
        metric_labels = λ m a. list_of-Gives I _ _ (gives (labels prom m) a (given prom));
        metric_values = λ m l a. list_of-Gives I _ _ (gives (values prom m l) a (given prom));
      },
      record {
        stream_labels = λ a. list_of-Gives I _ _ (gives (labels loki []) a (given loki));
        stream_values = λ l a. list_of-Gives I _ _ (gives (values loki [] l) a (given loki));
      },
      record {
        span_names = λ scope asked.
            merged-Gives I _ _ (λ s. Asked (labels tempo s))
              (λ s a. gives (labels tempo s) a (given tempo)) scope asked;
        span_values = λ scope name asked.
            merged-Gives I _ _ (λ s. Asked (values tempo s name))
              (λ s a. gives (values tempo s name) a (given tempo)) scope asked;
      },
    )
