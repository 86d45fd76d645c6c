-- ===== src/Catalog/Prewarm/Done.antt =====
-- pkg/catalog/prewarm.go: a prewarm whose lookups succeed.
use ratatoskr_go.Base.Calls.{Gives}
use ratatoskr_go.Base.Int.{ℤ}
use ratatoskr_go.Base.{◌≡◌, refl, ◌⊎◌, inl, inr, List, [], ◌∷◌, Text, arith}
use ratatoskr_go.Catalog.Cache.Virtual.{prom, loki, tempo, Virtual, metric_names, labels, values}
use ratatoskr_go.Catalog.Checker.Known
use ratatoskr_go.Catalog.Checker.Known.{Catalog}
use ratatoskr_go.Catalog.Checker.LogsKnown
use ratatoskr_go.Catalog.Checker.LogsKnown.{Streams}
use ratatoskr_go.Catalog.Checker.TracesKnown
use ratatoskr_go.Catalog.Checker.TracesKnown.{Spans}
use ratatoskr_go.Catalog.Checker.{Checker}
use ratatoskr_go.Catalog.Prewarm.{
  PrewarmInputs, AllLookups, task_call, note_error, run_tasks, joined, parallelism_or_default, plan,
  prewarm,
}

-- The lookups of each of the three checks succeed with what its server knows.
pub record AllServe {S : Type 0} (I : S → Type 0) (k : Catalog) (l : Streams) (t : Spans)
    (x : AllLookups S) : Type 0 where
  pub proms : Known.Serves I k x.in_prom
  pub lokis : LogsKnown.Serves I l x.in_loki
  pub tempos : TracesKnown.Serves I t x.in_tempo

note_lem :
    {S : Type 0} (I : S → Type 0) (r : (Text ⊎ List Text) × S) (v : List Text)
    (rest : S → List Text × S)
    → r.0 ≡ inr v
    → I r.1
    → ((t : S) → I t → ((rest t).0 ≡ []) × I (rest t).1)
    → ((note_error r rest).0 ≡ []) × I (note_error r rest).1
note_lem I (inl err, t) v rest e h k = absurd (ground arith)
note_lem I (inr names, t) v rest e h k = k t h

joined_lem :
    {S : Type 0} (I : S → Type 0) (r : List Text × S)
    → r.0 ≡ []
    → I r.1
    → ((joined r).0 ≡ inr tt) × I (joined r).1
joined_lem I ([], t) e h = (refl, h)
joined_lem I (err ∷ errs, t) e h = absurd (ground arith)

module _ {S : Type 0} (I : S → Type 0) (k : Catalog) (l : Streams) (t : Spans) (x : AllLookups S)
    (serves : AllServe I k l t x) where
  task-Gives : (q : Virtual) → (v : List Text) × Gives I (task_call x q) v
  task-Gives metric_names = (_, serves.proms.names)
  task-Gives (labels prom m) = (_, serves.proms.labels m)
  task-Gives (labels loki m) = (_, serves.lokis.labels)
  task-Gives (labels tempo s) = (_, serves.tempos.names s)
  task-Gives (values prom m n) = (_, serves.proms.values m n)
  task-Gives (values loki m n) = (_, serves.lokis.values n)
  task-Gives (values tempo s n) = (_, serves.tempos.values s n)

  run_tasks_lem :
      (qs : List Virtual) (s : S) → I s → ((run_tasks x qs s).0 ≡ []) × I (run_tasks x qs s).1
  unfolding run_tasks
  run_tasks_lem [] s h = (refl, h)
  run_tasks_lem (q ∷ qs) s h =
      let (v, g) = task-Gives q in
      note_lem I (task_call x q s) v (run_tasks x qs) (g s h).0 (g s h).1 (run_tasks_lem qs)

  pub prewarm-Gives :
      (range : List Text → List Text) (schedule : ℤ → List Virtual → List Virtual) (c : Checker)
      (inputs : PrewarmInputs) (parallelism : ℤ)
      → Gives I (prewarm range schedule c x inputs parallelism) tt
  unfolding prewarm
  prewarm-Gives range schedule c inputs parallelism s h =
      let tasks : List Virtual =
        schedule (parallelism_or_default parallelism) (plan range c inputs) in
      let done = run_tasks_lem tasks s h in joined_lem I (run_tasks x tasks s) done.0 done.1
