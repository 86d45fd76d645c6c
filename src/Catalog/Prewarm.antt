-- ===== src/Catalog/Prewarm.antt =====
-- pkg/catalog/prewarm.go: `plan` and `Prewarm`. A task is the virtual query that it looks up.
pub mod Done
pub mod Planned
pub mod Sets
use ratatoskr_go.Base.{
  ℕ, Bool, true, false, not, ◌&&◌, ◌||◌, ◌⊎◌, inl, inr, Option, none, some, List, [], ◌∷◌, ◌++◌,
  map, Text, bytes, is_empty, text_eq, text_lt, member, contains, if◌then◌else◌,
}
use ratatoskr_go.Base.Int.{ℤ, pos}
use ratatoskr_go.Base.Sort.{sort_stable}
use ratatoskr_go.Base.Table.{find, put}
use ratatoskr_go.Catalog.Cache.{trace_scopes}
use ratatoskr_go.Catalog.Cache.Virtual.{
  Server, prom, loki, tempo, Virtual, metric_names, labels, values,
}
use ratatoskr_go.Catalog.Checker.{Lookups, LogqlLookups, TraceqlLookups, Checker}
use ratatoskr_go.Base.Calls.{Call}
use ratatoskr_go.Catalog.Entry.{is_positive}
use ratatoskr_go.Extract.{
  PromResult, Selector, LogResult, LabelMatcher, TraceResult, TraceAttribute, TraceMatcher,
  dashboard_variable_sentinel,
}

-- `PrewarmInputs`
pub record PrewarmInputs : Type 0 where
  pub promql : List PromResult
  pub logql : List LogResult
  pub traceql : List TraceResult

-- m[k] = struct{}{} on a set, and m[j][k] = … on a map of sets; the innermost maps of the code are
-- never read, so only their keys are kept.
unfoldable pub insert : Text → List Text → List Text
insert k set = if member k set then set else set ++ (k ∷ [])

abbrev pub or_nil : Option (List Text) → List Text
or_nil none = []
or_nil (some set) = set

abbrev pub set_at : Text → List (Text × List Text) → List Text
set_at j m = or_nil (find j m)

abbrev pub insert_at : Text → Text → List (Text × List Text) → List (Text × List Text)
insert_at j k m = put j (insert k (set_at j m)) m

-- `sortedKeys`, where `range` is the order in which a map is walked.
unfoldable pub sorted_keys : (List Text → List Text) → List Text → List Text
sorted_keys range keys = sort_stable text_lt (range keys)

abbrev pub keys_of : List (Text × List Text) → List Text
keys_of m = map (λ e. e.0) m

-- The maps that the PromQL part of `plan` fills.
pub record PromWanted : Type 0 where
  pub metrics : List Text
  pub labels_by_metric : List Text
  pub values_by_metric_label : List (Text × List Text)

abbrev pub has_metric_and_label : Selector → Bool
has_metric_and_label s = not (is_empty s.metric || is_empty s.label)

abbrev pub asks_value : Selector → Bool
asks_value s = text_eq s.op (bytes "=") && not (is_empty s.value)

unfoldable pub want_selector : Selector → PromWanted → PromWanted
want_selector s w =
    if has_metric_and_label s
    then record {
      metrics = insert s.metric w.metrics;
      labels_by_metric = insert s.metric w.labels_by_metric;
      values_by_metric_label =
          if asks_value s
          then insert_at s.metric s.label w.values_by_metric_label
          else w.values_by_metric_label;
    }
    else w

unfoldable pub want_selectors : List Selector → PromWanted → PromWanted
want_selectors [] w = w
want_selectors (s ∷ sels) w = want_selectors sels (want_selector s w)

unfoldable pub want_metrics : List Text → PromWanted → PromWanted
want_metrics [] w = w
want_metrics (m ∷ refs) w = want_metrics refs (record w { metrics = insert m w.metrics })

unfoldable pub want_promql : List PromResult → PromWanted → PromWanted
want_promql [] w = w
want_promql (r ∷ rs) w = want_promql rs (want_selectors r.selectors (want_metrics r.metric_refs w))

abbrev pub is_nil : List Text → Bool
is_nil [] = true
is_nil (a ∷ rest) = false

-- The tasks for the values: for each key of a map of sets, each element of its set.
unfoldable pub value_tasks :
    (List Text → List Text) → Server → List (Text × List Text) → List Text → List Virtual
value_tasks range p m [] = []
value_tasks range p m (k ∷ ks) =
    map (values p k) (sorted_keys range (set_at k m)) ++ value_tasks range p m ks

unfoldable pub plan_promql : (List Text → List Text) → List PromResult → List Virtual
plan_promql range rs =
    let w : PromWanted =
      want_promql rs
        (record { metrics = []; labels_by_metric = []; values_by_metric_label = [] }) in
    (if not (is_nil w.metrics) || not (is_nil w.labels_by_metric) then metric_names ∷ [] else [])
    ++ (map (labels prom) (sorted_keys range w.labels_by_metric)
        ++ value_tasks range prom w.values_by_metric_label
            (sorted_keys range (keys_of w.values_by_metric_label)))

-- The maps of the LogQL part.
pub record LokiWanted : Type 0 where
  pub labels : List Text
  pub values_by_label : List Text

unfoldable pub want_stream : LabelMatcher → LokiWanted → LokiWanted
want_stream s w = if is_empty s.label then w else record {
  labels = insert s.label w.labels;
  values_by_label =
      if text_eq s.op (bytes "=") && not (is_empty s.value)
      then insert s.label w.values_by_label
      else w.values_by_label;
}

unfoldable pub want_streams : List LabelMatcher → LokiWanted → LokiWanted
want_streams [] w = w
want_streams (s ∷ sels) w = want_streams sels (want_stream s w)

unfoldable pub want_logql : List LogResult → LokiWanted → LokiWanted
want_logql [] w = w
want_logql (r ∷ rs) w = want_logql rs (want_streams r.stream_selectors w)

unfoldable pub plan_logql : (List Text → List Text) → List LogResult → List Virtual
plan_logql range rs =
    let w : LokiWanted = want_logql rs (record { labels = []; values_by_label = [] }) in
    (if not (is_nil w.labels) then labels loki [] ∷ [] else [])
    ++ map (values loki []) (sorted_keys range w.values_by_label)

-- The maps of the TraceQL part.
pub record TempoWanted : Type 0 where
  pub scopes : List Text
  pub values_by_scope_name : List (Text × List Text)

unfoldable pub want_scopes : List Text → List Text → List Text
want_scopes [] scopes = scopes
want_scopes (s ∷ more) scopes = want_scopes more (insert s scopes)

unfoldable pub want_attributes : List TraceAttribute → TempoWanted → TempoWanted
want_attributes [] w = w
want_attributes (a ∷ attributes) w =
    want_attributes attributes (record w { scopes = want_scopes (trace_scopes a.scope) w.scopes })

unfoldable pub want_names : Text → List Text → List (Text × List Text) → List (Text × List Text)
want_names name [] m = m
want_names name (s ∷ more) m = want_names name more (insert_at s name m)

abbrev pub asks_trace_value : TraceMatcher → Bool
asks_trace_value m = not (is_empty m.value || contains dashboard_variable_sentinel m.value)

unfoldable pub want_matchers : List TraceMatcher → TempoWanted → TempoWanted
want_matchers [] w = w
want_matchers (m ∷ matchers) w = want_matchers matchers (
    if asks_trace_value m
    then record w {
      values_by_scope_name =
          want_names m.attribute.name (trace_scopes m.attribute.scope) w.values_by_scope_name;
    }
    else w)

unfoldable pub want_traceql : List TraceResult → TempoWanted → TempoWanted
want_traceql [] w = w
want_traceql (r ∷ rs) w =
    want_traceql rs (want_matchers r.matchers (want_attributes r.attributes w))

unfoldable pub plan_traceql : (List Text → List Text) → List TraceResult → List Virtual
plan_traceql range rs =
    let w : TempoWanted = want_traceql rs (record { scopes = []; values_by_scope_name = [] }) in
    map (labels tempo) (sorted_keys range w.scopes)
    ++ value_tasks range tempo w.values_by_scope_name
        (sorted_keys range (keys_of w.values_by_scope_name))

unfoldable pub plan : (List Text → List Text) → Checker → PrewarmInputs → List Virtual
plan range c inputs =
    (if c.has_prom then plan_promql range inputs.promql else [])
    ++ ((if c.has_loki then plan_logql range inputs.logql else [])
        ++ (if c.has_tempo then plan_traceql range inputs.traceql else []))

-- The lookups of a checker, over one state.
pub record AllLookups (S : Type 0) : Type 0 where
  pub in_prom : Lookups S
  pub in_loki : LogqlLookups S
  pub in_tempo : TraceqlLookups S

-- What a task calls; its value is dropped.
abbrev pub task_call : {S : Type 0} → AllLookups S → Virtual → Call S (List Text)
task_call x metric_names = x.in_prom.prom_metric_names
task_call x (labels prom m) = x.in_prom.prom_metric_labels m
task_call x (labels loki m) = x.in_loki.loki_label_names
task_call x (labels tempo s) = x.in_tempo.trace_attribute_names s
task_call x (values prom m l) = x.in_prom.prom_metric_label_values m l
task_call x (values loki m l) = x.in_loki.loki_label_values l
task_call x (values tempo s n) = x.in_tempo.trace_attribute_values s n

-- The errors of the tasks that run, in the order in which they end, and the state that is left.
abbrev pub note_error : {S : Type 0} → (Text ⊎ List Text) × S → (S → List Text × S) → List Text × S
note_error (inl err, t) rest = let (errs, u) = rest t in (err ∷ errs, u)
note_error (inr names, t) rest = rest t

unfoldable pub run_tasks : {S : Type 0} → AllLookups S → List Virtual → S → List Text × S
run_tasks x [] s = ([], s)
run_tasks x (q ∷ qs) s = note_error (task_call x q s) (run_tasks x qs)

-- The text of errors.Join: the errors, with an end of line between them.
unfoldable pub join_errors : List Text → Text
join_errors [] = []
join_errors (e ∷ []) = e
join_errors (e ∷ f ∷ errs) = e ++ (bytes "\n" ++ join_errors (f ∷ errs))

abbrev pub joined : {S : Type 0} → List Text × S → (Text ⊎ Unit {0}) × S
joined ([], t) = (inr tt, t)
joined (e ∷ errs, t) = (inl (join_errors (e ∷ errs)), t)

unfoldable pub parallelism_or_default : ℤ → ℤ
parallelism_or_default n = if is_positive n then n else pos 4

-- `schedule` gives the tasks that run, in the order in which they end, for so many at a time: all of
-- them unless the context is cancelled. A task is one step.
unfoldable pub prewarm :
    {S : Type 0}
    → (List Text → List Text)
    → (ℤ → List Virtual → List Virtual)
    → Checker
    → AllLookups S
    → PrewarmInputs
    → ℤ
    → S
    → (Text ⊎ Unit {0}) × S
prewarm range schedule c x inputs parallelism s =
    joined (run_tasks x (schedule (parallelism_or_default parallelism) (plan range c inputs)) s)
