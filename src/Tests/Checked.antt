-- ===== src/Tests/Checked.antt =====
-- The checks, through the cache, at concrete inputs.
use ratatoskr_go.Base.{
  ℕ, ◌≡◌, ◌↔◌, ◌/◌, suc, refl, true, false, inr, none, some, List, [], ◌∷◌, All, Text, bytes, arith,
  length,
}
use ratatoskr_go.Base.Int.{ℤ, pos}
use ratatoskr_go.Catalog.Cache.{
  memory_store, Ask, offered, trace_scopes, prom_metric_names, prom_metric_labels,
  prom_metric_label_values, loki_label_names, loki_label_values, trace_attribute_names,
  trace_attribute_values,
}
use ratatoskr_go.Catalog.Cache.Kept.{place, IsOutcome, lookup, cached_list-IsKept}
use ratatoskr_go.Catalog.Cache.Serving.{IsSteady, IsFaithful}
use ratatoskr_go.Catalog.Cache.Virtual.{
  prom, loki, tempo, Virtual, metric_names, labels, values, Servers, ask_of, key_of, raw,
}
use ratatoskr_go.Catalog.Checker.Cached.{prom_lookups, loki_lookups, tempo_lookups}
use ratatoskr_go.Catalog.Checker.CachedKnown.{
  known_metrics, known_streams, known_spans, ServesMetrics, ServesStreams, ServesSpans,
  lookups-Serves,
}
use ratatoskr_go.Catalog.Checker.Known
use ratatoskr_go.Catalog.Checker.LogsKnown
use ratatoskr_go.Base.Calls.{Gives}
use ratatoskr_go.Catalog.Checker.Traces.{check_traceql}
use ratatoskr_go.Catalog.Checker.TracesKnown.{
  firsts, attribute_fits, unknown_after, matcher_fits, check_traceql_fits,
}
use ratatoskr_go.Catalog.Checker.TracesKnown
use ratatoskr_go.Catalog.Checker.{Checker, Lookups, LogqlLookups, TraceqlLookups}
use ratatoskr_go.Catalog.Entry.{Entry, Slice, Invalid, second, key_for}
use ratatoskr_go.Catalog.Store.{MemoryStore, get}
use ratatoskr_go.Catalog.Store.Kept.{IsKept}
use ratatoskr_go.Extract.{PromResult, LogResult, TraceResult}
use ratatoskr_go.Finding.{Finding, no_source}

abbrev pub checker : Checker
checker = record {
  has_prom = true;
  prom_source = bytes "http://mimir";
  has_loki = true;
  loki_source = bytes "http://loki";
  has_tempo = true;
  tempo_source = bytes "http://tempo";
  allow = none;
  max_suggestions = pos 3;
  suggest_dist = pos 3;
  lifetime = pos 0;
}

-- Servers that do not change; the world is the time of the last look at the clock.
abbrev pub servers : Servers ℕ
servers = record {
  prom_client = record {
    metric_names = λ w. (inr (some (bytes "up" ∷ [])), w);
    label_names = λ m w. (inr (some (bytes "job" ∷ [])), w);
    label_values = λ l m w. (inr (some (bytes "web" ∷ bytes "api" ∷ [])), w);
  };
  loki_client = record {
    label_names = λ w. (inr (some (bytes "job" ∷ [])), w);
    label_values = λ l w. (inr (some (bytes "web" ∷ bytes "api" ∷ [])), w);
  };
  tempo_client = record {
    attribute_names = λ s w. (inr (some (bytes "job" ∷ [])), w);
    attribute_values = λ s n w. (inr (some (bytes "web" ∷ bytes "api" ∷ [])), w);
  };
  address = λ p. bytes "http://mimir";
}

abbrev pub answer : Virtual → Slice
answer metric_names = some (bytes "up" ∷ [])
answer (labels p m) = some (bytes "job" ∷ [])
answer (values p m l) = some (bytes "web" ∷ bytes "api" ∷ [])

abbrev pub same : Text → Text
same s = s

abbrev pub whole_seconds : ℕ → ℤ
whole_seconds d = pos (d / second)

abbrev pub no_message : Entry → Invalid → Text
no_message e v = []

abbrev pub tick : ℕ → ℕ × ℕ
tick w = (suc w, suc w)

answers : (q : Virtual) (w : ℕ) → ((ask_of same servers q).fetch w).0 ≡ inr (answer q)
unfolding prom_metric_names prom_metric_labels prom_metric_label_values loki_label_names
    loki_label_values trace_attribute_names trace_attribute_values
answers metric_names w = refl
answers (labels prom m) w = refl
answers (labels loki m) w = refl
answers (labels tempo m) w = refl
answers (values prom m l) w = refl
answers (values loki m l) w = refl
answers (values tempo m l) w = refl

abbrev Every : Virtual → Type 0
Every q = Unit

steady : IsSteady same servers same whole_seconds no_message tick (pos 0) answer Every
unfolding key_for
steady = record {
  answers = λ q w a. answers q w;
  after_zero = λ w. omega arith;
  no_collision = λ q q' a a' h. h;
}

abbrev pub Faithful : MemoryStore × ℕ → Type 0
Faithful = IsFaithful same servers same whole_seconds no_message tick (pos 0) answer Every

abbrev prom_cached : Lookups (MemoryStore × ℕ)
prom_cached =
    prom_lookups same whole_seconds (memory_store same no_message) tick (pos 0) same servers

abbrev loki_cached : LogqlLookups (MemoryStore × ℕ)
loki_cached =
    loki_lookups same whole_seconds (memory_store same no_message) tick (pos 0) same servers

abbrev tempo_cached : TraceqlLookups (MemoryStore × ℕ)
tempo_cached =
    tempo_lookups same whole_seconds (memory_store same no_message) tick (pos 0) same servers

every_in : (xs : List Text) → All (λ s. Unit {0}) xs
every_in [] = tt
every_in (x ∷ xs) = (tt, every_in xs)

-- With a hash that keeps its text, every query may be asked.
pub served :
    Known.Serves Faithful (known_metrics answer) prom_cached
    × LogsKnown.Serves Faithful (known_streams answer) loki_cached
    × TracesKnown.Serves Faithful (known_spans answer) tempo_cached
served =
    let (p, l, t) =
      lookups-Serves same servers same whole_seconds no_message tick (pos 0) answer Every steady
        (λ p. refl) in
    (
      record {
        names = p.names tt;
        labels = λ m. p.metric_labels m tt;
        values = λ m l. p.metric_values m l tt;
      },
      record { labels = l.stream_labels tt; values = λ n. l.stream_values n tt },
      record {
        names = λ s. t.span_names s (every_in (trace_scopes s));
        values = λ s n. t.span_values s n (every_in (trace_scopes s));
      },
    )

-- The queries of one check: the names of the metrics, and the labels of "up".
data Few : Virtual → Type 0 where
  the_names : Few metric_names
  the_labels : Few (labels prom (bytes "up"))

-- A hash with collisions: the length.
abbrev size : Text → Text
size s = length s ∷ []

key_of-Few :
    (q q' : Virtual)
    → Few q
    → Few q'
    → key_of same servers size q ≡ key_of same servers size q'
    → raw same servers q ≡ raw same servers q'
unfolding key_for prom_metric_names prom_metric_labels
key_of-Few q q' the_names the_names h = refl
key_of-Few q q' the_names the_labels h = absurd (ground (arith, h))
key_of-Few q q' the_labels the_names h = absurd (ground (arith, h))
key_of-Few q q' the_labels the_labels h = refl

size-IsSteady : IsSteady same servers size whole_seconds no_message tick (pos 0) answer Few
size-IsSteady = record {
  answers = λ q w a. answers q w;
  after_zero = λ w. omega arith;
  no_collision = key_of-Few;
}

abbrev FaithfulFew : MemoryStore × ℕ → Type 0
FaithfulFew = IsFaithful same servers size whole_seconds no_message tick (pos 0) answer Few

lookups-Serves_example :
    ServesMetrics FaithfulFew answer Few
      (prom_lookups size whole_seconds (memory_store size no_message) tick (pos 0) same servers)
    × ServesStreams FaithfulFew answer Few
        (loki_lookups size whole_seconds (memory_store size no_message) tick (pos 0) same servers)
    × ServesSpans FaithfulFew answer Few
        (tempo_lookups size whole_seconds (memory_store size no_message) tick (pos 0) same servers)
lookups-Serves_example =
    lookups-Serves same servers size whole_seconds no_message tick (pos 0) answer Few size-IsSteady
      (λ p. refl)

abbrev pub asked : PromResult
asked = record {
  expr = bytes "up{job='web'}";
  metric_refs = bytes "up" ∷ [];
  selectors =
      record { metric = bytes "up"; label = bytes "job"; op = bytes "="; value = bytes "web" } ∷ [];
  at_modifiers = [];
  functions = [];
}

abbrev pub logs : LogResult
logs = record {
  expr = bytes "{job='web'}";
  stream_selectors = record { label = bytes "job"; op = bytes "="; value = bytes "web" } ∷ [];
  line_filters = [];
  label_filters = [];
  parsers = [];
  functions = [];
}

abbrev pub traces : TraceResult
traces = record {
  expr = bytes "{ .job = 'web' }";
  attributes = record { scope = []; parent = false; name = bytes "job" } ∷ [];
  intrinsics = [];
  functions = [];
  matchers =
      record {
        attribute = record { scope = []; parent = false; name = bytes "job" };
        value = bytes "web";
      }
      ∷ [];
}

check_traceql_fits_example :
    (out : List Finding) × Gives Faithful
      (check_traceql same
        (λ m. m)
        checker
        (tempo_lookups same whole_seconds (memory_store same no_message) tick (pos 0) same servers)
        traces
        no_source)
      out
    × ((out ≡ []) ↔ (
        All
          (λ a. attribute_fits (λ p. p) checker (known_spans answer) a ≡ true)
          (firsts [] traces.attributes)
        × All
            (λ m.
              matcher_fits
                (λ p. p)
                checker
                (known_spans answer)
                (unknown_after
                  (λ p. p)
                  checker
                  (known_spans answer)
                  []
                  (firsts [] traces.attributes))
                m
              ≡ true)
            traces.matchers))
check_traceql_fits_example =
    check_traceql_fits same (λ m. m) checker (known_spans answer) refl refl Faithful
      (tempo_lookups same whole_seconds (memory_store same no_message) tick (pos 0) same servers)
      (served.2) traces no_source

abbrev ask : Ask ℕ
ask = ask_of same servers metric_names

cached_list-IsKept_example :
    IsOutcome same whole_seconds no_message tick
      (pos 0)
      ask
      1
      1
      []
      (offered ask.get 1 (get (place same whole_seconds no_message tick (pos 0) ask) []))
      (lookup same whole_seconds no_message tick (pos 0) ask [] 0)
    × IsKept same (lookup same whole_seconds no_message tick (pos 0) ask [] 0).1.0
cached_list-IsKept_example =
    cached_list-IsKept same whole_seconds no_message tick (pos 0) ask [] 0 tt
