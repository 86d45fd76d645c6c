-- ===== src/Catalog/Prewarm/Planned.antt =====
-- pkg/catalog/prewarm.go: which lookups `plan` has.
use mathlib.Core.List.{Perm}
use ratatoskr_go.Base.{
  ◌≡◌, refl, ap, ◌∙◌, Bool, true, false, not, ◌&&◌, ◌||◌, List, [], ◌∷◌, ◌++◌, map, any, Text,
  text_eq, text_eq_iff, member, if◌then◌else◌, arith,
}
use ratatoskr_go.Base.Any.{any-append}
use ratatoskr_go.Base.Table.{find}
use ratatoskr_go.Catalog.Cache.Virtual.{prom, loki, tempo, Virtual, metric_names, labels, values}
use ratatoskr_go.Catalog.Checker.{Checker}
use ratatoskr_go.Catalog.Prewarm.{
  insert, set_at, insert_at, sorted_keys, keys_of, PromWanted, has_metric_and_label, asks_value,
  want_selector, want_selectors, want_metrics, want_promql, is_nil, value_tasks, plan_promql,
  LokiWanted, TempoWanted, want_logql, want_traceql, plan_logql, plan_traceql, PrewarmInputs, plan,
}
use ratatoskr_go.Extract.{PromResult, Selector, LogResult, TraceResult}
use ratatoskr_go.Catalog.Prewarm.Sets.{
  same_virtual, is_planned, member-insert, set_at-insert_at, keys-set_at, same_virtual_none,
  any-labels, member-sorted_keys, value_tasks_lem, value_tasks_none,
}

-- What a fold over the inputs does to a test of what is wanted.
module _ (f : PromWanted → Bool) (g : Selector → Bool)
    (step : (s : Selector) (w : PromWanted) → f (want_selector s w) ≡ (g s || f w))
    (keep : (m : Text) (w : PromWanted) → f (record w { metrics = insert m w.metrics }) ≡ f w) where
  want_selectors_lem :
      (sels : List Selector) (w : PromWanted) → f (want_selectors sels w) ≡ (any g sels || f w)
  unfolding want_selectors
  want_selectors_lem [] w = refl
  want_selectors_lem (s ∷ sels) w =
      want_selectors_lem sels (want_selector s w) ∙ ground (arith, step s w)

  want_metrics_lem : (refs : List Text) (w : PromWanted) → f (want_metrics refs w) ≡ f w
  unfolding want_metrics
  want_metrics_lem [] w = refl
  want_metrics_lem (m ∷ refs) w =
      want_metrics_lem refs (record w { metrics = insert m w.metrics }) ∙ keep m w

  want_promql_lem :
      (rs : List PromResult) (w : PromWanted)
      → f (want_promql rs w) ≡ (any (λ r. any g r.selectors) rs || f w)
  unfolding want_promql
  want_promql_lem [] w = refl
  want_promql_lem (r ∷ rs) w =
      let v : PromWanted = want_metrics r.metric_refs w in
      want_promql_lem rs (want_selectors r.selectors v)
      ∙ ground (arith, want_selectors_lem r.selectors v, want_metrics_lem r.metric_refs w)

abbrev pub wants_labels : Text → Selector → Bool
wants_labels m s = has_metric_and_label s && text_eq m s.metric

abbrev pub wants_values : Text → Text → Selector → Bool
wants_values m l s =
    has_metric_and_label s && (asks_value s && (text_eq m s.metric && text_eq l s.label))

labels_step :
    (m : Text) (s : Selector) (w : PromWanted)
    → member m (want_selector s w).labels_by_metric
      ≡ (wants_labels m s || member m w.labels_by_metric)
unfolding want_selector
labels_step m s w = ground (arith, member-insert m s.metric w.labels_by_metric)

text_eq_sym : (a b : Text) → text_eq a b ≡ text_eq b a
text_eq_sym a b = ground (arith, text_eq_iff a b, text_eq_iff b a)

chosen :
    (h a e f : Bool) (new old : List (Text × List Text)) (m l : Text)
    → member l (set_at m new) ≡ ((e && f) || member l (set_at m old))
    → member l (set_at m (if h then (if a then new else old) else old))
      ≡ ((h && (a && (e && f))) || member l (set_at m old))
chosen true true e f new old m l k = k
chosen true false e f new old m l k = refl
chosen false a e f new old m l k = refl

values_if :
    (h : Bool) (u w : PromWanted)
    → (if h then u else w).values_by_metric_label
      ≡ (if h then u.values_by_metric_label else w.values_by_metric_label)
values_if true u w = refl
values_if false u w = refl

values_step :
    (m l : Text) (s : Selector) (w : PromWanted)
    → member l (set_at m (want_selector s w).values_by_metric_label)
      ≡ (wants_values m l s || member l (set_at m w.values_by_metric_label))
unfolding want_selector
values_step m l s w =
    let old : List (Text × List Text) = w.values_by_metric_label in
    let written = set_at-insert_at m s.metric s.label l old in
    let turned = text_eq_sym s.metric m in
    ap (λ v. member l (set_at m v)) (values_if (has_metric_and_label s) _ w)
    ∙ chosen (has_metric_and_label s) (asks_value s) (text_eq m s.metric) (text_eq l s.label)
        (insert_at s.metric s.label old) old m l
        (written ∙ ap (λ b. (b && text_eq l s.label) || member l (set_at m old)) turned)

-- In the PromQL part of a plan.
module _ (range : List Text → List Text) (walk : (ks : List Text) → Perm (range ks) ks)
    (rs : List PromResult) where
  wanted : PromWanted
  wanted =
      want_promql rs (record { metrics = []; labels_by_metric = []; values_by_metric_label = [] })

  names_part : List Virtual
  names_part =
      if not (is_nil wanted.metrics) || not (is_nil wanted.labels_by_metric)
      then metric_names ∷ []
      else []

  names_part_none :
      (q : Virtual) → same_virtual q metric_names ≡ false → is_planned q names_part ≡ false
  unfolding names_part
  names_part_none q h = ground (arith, h)

  -- A test on a plan in three parts, of which it fails on the first.
  three_parts :
      (q : Virtual)
      → same_virtual q metric_names ≡ false
      → is_planned q (plan_promql range rs) ≡ (
          is_planned q (map (labels prom) (sorted_keys range wanted.labels_by_metric))
          || is_planned q (
              value_tasks range prom wanted.values_by_metric_label
                (sorted_keys range (keys_of wanted.values_by_metric_label))))
  unfolding plan_promql wanted names_part
  three_parts q h =
      let second : List Virtual = map (labels prom) (sorted_keys range wanted.labels_by_metric) in
      let third : List Virtual =
        value_tasks range prom wanted.values_by_metric_label
          (sorted_keys range (keys_of wanted.values_by_metric_label)) in
      any-append (same_virtual q) names_part (second ++ third)
      ∙ ((λ i. names_part_none q h i || any-append (same_virtual q) second third i))

  planned_labels :
      (m : Text)
      → is_planned (labels prom m) (plan_promql range rs)
        ≡ any (λ r. any (wants_labels m) r.selectors) rs
  unfolding wanted member
  planned_labels m =
      three_parts (labels prom m) refl
      ∙ ((λ i.
            any-labels prom m (sorted_keys range wanted.labels_by_metric) refl i
            || value_tasks_none range walk prom (labels prom m) wanted.values_by_metric_label
                (sorted_keys range (keys_of wanted.values_by_metric_label)) (λ k l. refl) i)
          ∙ ground (
            arith,
            member-sorted_keys range walk m wanted.labels_by_metric,
            want_promql_lem (λ w. member m w.labels_by_metric) (wants_labels m) (labels_step m)
                (λ k w. refl) rs
                (record { metrics = []; labels_by_metric = []; values_by_metric_label = [] }),
          ))

  planned_values :
      (m l : Text)
      → is_planned (values prom m l) (plan_promql range rs)
        ≡ any (λ r. any (wants_values m l) r.selectors) rs
  unfolding wanted member find
  planned_values m l =
      let sets : List (Text × List Text) = wanted.values_by_metric_label in
      let ks : List Text = sorted_keys range (keys_of sets) in
      let starts : PromWanted = record {
        metrics = [];
        labels_by_metric = [];
        values_by_metric_label = [];
      } in
      let none_in_labels =
        same_virtual_none (values prom m l) (labels prom)
          (sorted_keys range wanted.labels_by_metric) (λ k. refl) in
      let asked =
        want_promql_lem (λ w. member l (set_at m w.values_by_metric_label)) (wants_values m l)
          (values_step m l) (λ k w. refl) rs starts in
      three_parts (values prom m l) refl
      ∙ ((λ i. none_in_labels i || value_tasks_lem range walk prom m l sets ks refl i)
          ∙ (ap (λ b. b && member l (set_at m sets))
                (member-sorted_keys range walk m (keys_of sets))
              ∙ (keys-set_at m l sets ∙ (asked ∙ ground arith))))

logql_none :
    (range : List Text → List Text) (rs : List LogResult) (q : Virtual)
    → ((m : Text) → same_virtual q (labels loki m) ≡ false)
    → ((m l : Text) → same_virtual q (values loki m l) ≡ false)
    → is_planned q (plan_logql range rs) ≡ false
unfolding plan_logql
logql_none range rs q h k =
    let w : LokiWanted = want_logql rs (record { labels = []; values_by_label = [] }) in
    let first : List Virtual = if not (is_nil w.labels) then labels loki [] ∷ [] else [] in
    any-append (same_virtual q) first (map (values loki []) (sorted_keys range w.values_by_label))
    ∙ ground (
      arith,
      h [],
      same_virtual_none q (values loki []) (sorted_keys range w.values_by_label) (k []),
    )

traceql_none :
    (range : List Text → List Text) (walk : (ks : List Text) → Perm (range ks) ks)
    (rs : List TraceResult) (q : Virtual)
    → ((m : Text) → same_virtual q (labels tempo m) ≡ false)
    → ((m l : Text) → same_virtual q (values tempo m l) ≡ false)
    → is_planned q (plan_traceql range rs) ≡ false
unfolding plan_traceql
traceql_none range walk rs q h k =
    let w : TempoWanted = want_traceql rs (record { scopes = []; values_by_scope_name = [] }) in
    let ks : List Text = sorted_keys range (keys_of w.values_by_scope_name) in
    any-append (same_virtual q) (map (labels tempo) (sorted_keys range w.scopes))
      (value_tasks range tempo w.values_by_scope_name ks)
    ∙ (λ i.
        same_virtual_none q (labels tempo) (sorted_keys range w.scopes) h i
        || value_tasks_none range walk tempo q w.values_by_scope_name ks k i)

planned_part :
    (c : Checker) (range : List Text → List Text) (walk : (ks : List Text) → Perm (range ks) ks)
    (inputs : PrewarmInputs) (q : Virtual) (b : Bool)
    → is_planned q (plan_promql range inputs.promql) ≡ b
    → is_planned q (plan_logql range inputs.logql) ≡ false
    → is_planned q (plan_traceql range inputs.traceql) ≡ false
    → is_planned q (plan range c inputs) ≡ (c.has_prom && b)
unfolding plan
planned_part c range walk inputs q b h k l =
    let one : List Virtual = if c.has_prom then plan_promql range inputs.promql else [] in
    let two : List Virtual = if c.has_loki then plan_logql range inputs.logql else [] in
    let three : List Virtual = if c.has_tempo then plan_traceql range inputs.traceql else [] in
    any-append (same_virtual q) one (two ++ three)
    ∙ (ap (λ x. is_planned q one || x) (any-append (same_virtual q) two three)
        ∙ ground (arith, h, k, l))

-- With a walk of a map that meets each of its keys, a prewarm of a checker with a Prometheus client
-- looks up the labels of a metric exactly if some selector of the inputs has this metric and a label,
-- both not empty, and the values of a label of it exactly if such a selector has that label and is an
-- equality with a value that is not empty; a checker without the client looks up neither.
pub plan_exact :
    (range : List Text → List Text)
    → ((ks : List Text) → Perm (range ks) ks)
    → (c : Checker) (inputs : PrewarmInputs) (m l : Text)
    → (is_planned (labels prom m) (plan range c inputs)
        ≡ (c.has_prom && any (λ r. any (wants_labels m) r.selectors) inputs.promql))
      × (is_planned (values prom m l) (plan range c inputs)
          ≡ (c.has_prom && any (λ r. any (wants_values m l) r.selectors) inputs.promql))
plan_exact range walk c inputs m l = (
  planned_part c range walk inputs (labels prom m) _ (planned_labels range walk inputs.promql m)
      (logql_none range inputs.logql (labels prom m) (λ k. refl) (λ k j. refl))
      (traceql_none range walk inputs.traceql (labels prom m) (λ k. refl) (λ k j. refl)),
  planned_part c range walk inputs (values prom m l) _ (planned_values range walk inputs.promql m l)
      (logql_none range inputs.logql (values prom m l) (λ k. refl) (λ k j. refl))
      (traceql_none range walk inputs.traceql (values prom m l) (λ k. refl) (λ k j. refl)),
)
