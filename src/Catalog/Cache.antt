-- ===== src/Catalog/Cache.antt =====
-- pkg/catalog/checker.go: the cached lookups. `cachedList` reads a store, and where the store has no
-- fresh answer it asks a client and writes what it says.
pub mod Kept
pub mod Reused
pub mod Serving
pub mod Virtual
use mathlib.Core.Option
use ratatoskr_go.Base.{
  ℕ, Bool, true, false, ◌*◌, ◌⊎◌, inl, inr, Option, none, some, List, [], ◌∷◌, ◌++◌, Text, bytes,
  is_empty, ltb, text_lt, if◌then◌else◌,
}
use ratatoskr_go.Base.Int.{ℤ, pos, negsuc}
use ratatoskr_go.Base.Sort.{sort_stable}
use ratatoskr_go.Base.Table.{find, put}
use ratatoskr_go.Base.Calls.{Call, pure, ◌>>=◌, each}
use ratatoskr_go.Catalog.Entry.{
  Entry, Result, Slice, Invalid, elements, schema_version_now, key_for, expired, invalid_message,
  second,
}
use ratatoskr_go.Catalog.Store.{MemoryStore, get, put_entry, sorted_unique}

-- `Store`: none of `read` is any error of Get, and `write` returns the error of Put, if there is one.
pub record Store (T : Type 0) : Type 0 where
  pub read : Text → T → Option Entry
  pub write : Entry → T → Option Text × T

-- `MemoryStore` as a `Store`.
abbrev pub memory_store : (Text → Text) → (Entry → Invalid → Text) → Store MemoryStore
memory_store hash message = record {
  read = get;
  write = λ e s. let (err, t) = put_entry hash e s in (Option.map (message e) err, t);
}

-- An answer of a client: an error or a slice, and what the call leaves of the world.
abbrev pub Answer : Type 0 → Type 0
Answer W = Call W Slice

-- `PromQLClient`, `LogQLClient` and `TraceQLClient`, over the world that holds the servers.
pub record PromqlClient (W : Type 0) : Type 0 where
  pub metric_names : Answer W
  pub label_names : List Text → Answer W
  pub label_values : Text → List Text → Answer W

pub record LogqlClient (W : Type 0) : Type 0 where
  pub label_names : Answer W
  pub label_values : Text → Answer W

pub record TraceqlClient (W : Type 0) : Type 0 where
  pub attribute_names : Text → Answer W
  pub attribute_values : Text → Text → Answer W

-- The constants of the virtual queries, and the default lifetime: an hour in nanoseconds.
abbrev pub virtual_global_metric_names : Text
virtual_global_metric_names = bytes "__ratatoskr_global_metric_names__"

abbrev pub virtual_global_label_names : Text
virtual_global_label_names = bytes "__ratatoskr_global_label_names__"

abbrev pub virtual_metric_labels : Text → Text
virtual_metric_labels metric = bytes "__ratatoskr_metric_labels__:" ++ metric

abbrev pub virtual_metric_values : Text → Text → Text
virtual_metric_values metric label =
    bytes "__ratatoskr_metric_label_values__:" ++ (metric ++ (bytes ":" ++ label))

abbrev pub virtual_loki_label_value : Text → Text
virtual_loki_label_value label = bytes "__ratatoskr_loki_label_values__:" ++ label

abbrev pub virtual_trace_attr_names : Text → Text
virtual_trace_attr_names scope = bytes "__ratatoskr_trace_attribute_names__:" ++ scope

abbrev pub virtual_trace_attr_value : Text → Text → Text
virtual_trace_attr_value scope name =
    bytes "__ratatoskr_trace_attribute_values__:" ++ (scope ++ (bytes ":" ++ name))

abbrev pub default_ttl : ℕ
default_ttl = 3600 * second

-- `ttl`: a lifetime that is not positive gives the default.
unfoldable pub ttl : ℤ → ℕ
ttl (pos n) = if ltb 0 n then n else default_ttl
ttl (negsuc n) = default_ttl

-- The arguments of `cachedList` less the context.
pub record Ask (W : Type 0) : Type 0 where
  pub language : Text
  pub source : Text
  pub query : Text
  pub fetch : Answer W
  pub set : Slice → Result → Result
  pub get : Result → Slice

-- `LabelValues[name] = values` on a result, and the value under a key: nil where it is missing.
abbrev pub set_values : Text → Slice → Result → Result
set_values name values r = record r { label_values = put name values r.label_values }

abbrev pub values_at : Text → Result → Slice
values_at name r = elim (find name r.label_values) [ none ↦ none | some values ↦ values ]

abbrev pub set_labels : Slice → Result → Result
set_labels names r = record r { label_names = names }

-- The value in the cache, if it is fresh and not nil.
unfoldable pub offered : (Result → Slice) → ℕ → Option Entry → Slice
offered read now none = none
offered read now (some e) =
    if expired e now then none else elim e.result [ none ↦ none | some r ↦ read r ]

abbrev pub empty_result : Result
empty_result = record {
  metric_names = none;
  label_names = none;
  label_values = [];
  series_count = pos 0;
}

-- `seconds d` is int(d.Seconds()) of package time, and `clock` is time.Now.
module _ {T W : Type 0} (hash : Text → Text) (seconds : ℕ → ℤ) (store : Store T) (clock : W → ℕ × W)
    (lifetime : ℤ) where
  unfoldable pub new_entry : Ask W → ℕ → Slice → Entry
  new_entry ask now values = record {
    schema_version = pos schema_version_now;
    query = ask.query;
    language = ask.language;
    source = ask.source;
    fetched_at = now;
    ttl_seconds = seconds (ttl lifetime);
    result = some (ask.set values empty_result);
    error = [];
  }

  -- After the write of the values to the store.
  abbrev pub written : Slice → W → Option Text × T → (Text ⊎ Slice) × (T × W)
  written values w (none, t) = (inr values, (t, w))
  written values w (some err, t) = (inl (bytes "catalog: cache write: " ++ err), (t, w))

  -- After the answer of the client.
  abbrev pub fetched : Ask W → ℕ → T → (Text ⊎ Slice) × W → (Text ⊎ Slice) × (T × W)
  fetched ask now t (inl err, w) = (inl err, (t, w))
  fetched ask now t (inr values, w) =
      let sorted : Slice = Option.map (sort_stable text_lt) values in
      written sorted w (store.write (new_entry ask now sorted) t)

  abbrev pub found_or_fetched : Ask W → ℕ → T → W → Slice → (Text ⊎ Slice) × (T × W)
  found_or_fetched ask now t w (some values) = (inr (some values), (t, w))
  found_or_fetched ask now t w none = fetched ask now t (ask.fetch w)

  abbrev pub at_time : Ask W → T → ℕ × W → (Text ⊎ Slice) × (T × W)
  at_time ask t (now, w) =
      found_or_fetched ask now t w
        (offered ask.get now (store.read (key_for hash ask.language ask.source ask.query) t))

  unfoldable pub cached_list : Ask W → Call (T × W) Slice
  cached_list ask s = at_time ask s.0 (clock s.1)

-- The virtual queries. `quoted` is the verb %q, and `source` the address of the server.
abbrev pub name_matcher : (Text → Text) → Text → Text
name_matcher quoted metric = bytes "{__name__=" ++ (quoted metric ++ bytes "}")

module _ {W : Type 0} (quoted : Text → Text) (source : Text) (client : PromqlClient W) where
  unfoldable pub prom_metric_names : Ask W
  prom_metric_names = record {
    language = bytes "promql";
    source = source;
    query = virtual_global_metric_names;
    fetch = client.metric_names;
    set = λ names r. record r { metric_names = names };
    get = λ r. r.metric_names;
  }

  unfoldable pub prom_metric_labels : Text → Ask W
  prom_metric_labels metric = record {
    language = bytes "promql";
    source = source;
    query = virtual_metric_labels metric;
    fetch = client.label_names (name_matcher quoted metric ∷ []);
    set = set_labels;
    get = λ r. r.label_names;
  }

  unfoldable pub prom_metric_label_values : Text → Text → Ask W
  prom_metric_label_values metric label = record {
    language = bytes "promql";
    source = source;
    query = virtual_metric_values metric label;
    fetch = client.label_values label (name_matcher quoted metric ∷ []);
    set = set_values label;
    get = values_at label;
  }

module _ {W : Type 0} (source : Text) (client : LogqlClient W) where
  unfoldable pub loki_label_names : Ask W
  loki_label_names = record {
    language = bytes "logql";
    source = source;
    query = virtual_global_label_names;
    fetch = client.label_names;
    set = set_labels;
    get = λ r. r.label_names;
  }

  unfoldable pub loki_label_values : Text → Ask W
  loki_label_values label = record {
    language = bytes "logql";
    source = source;
    query = virtual_loki_label_value label;
    fetch = client.label_values label;
    set = set_values label;
    get = values_at label;
  }

module _ {W : Type 0} (source : Text) (client : TraceqlClient W) where
  unfoldable pub trace_attribute_names : Text → Ask W
  trace_attribute_names scope = record {
    language = bytes "traceql";
    source = source;
    query = virtual_trace_attr_names scope;
    fetch = client.attribute_names scope;
    set = set_labels;
    get = λ r. r.label_names;
  }

  unfoldable pub trace_attribute_values : Text → Text → Ask W
  trace_attribute_values scope name = record {
    language = bytes "traceql";
    source = source;
    query = virtual_trace_attr_value scope name;
    fetch = client.attribute_values scope name;
    set = set_values name;
    get = values_at name;
  }

-- `traceScopes`: an attribute without a scope is looked up in two.
unfoldable pub trace_scopes : Text → List Text
trace_scopes [] = bytes "resource" ∷ bytes "span" ∷ []
trace_scopes scope = scope ∷ []

-- The loop of `traceAttributeNames` and of `traceAttributeValues` over the scopes, where `lookup`
-- is the cached lookup in one.
unfoldable pub merged : {S : Type 0} → (Text → Call S Slice) → Text → Call S (List Text)
merged lookup scope = do
  names ← each (λ s. do names ← lookup s; pure (elements names)) (trace_scopes scope)
  pure (sorted_unique names)
