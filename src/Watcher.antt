-- ===== src/Watcher.antt =====
-- internal/watcher/watcher.go: the configuration's defaults, one pass with its backoff, and the event
-- loop as a step function on the events that the runtime delivers.
pub mod Backoff
pub mod Retry
use ratatoskr_go.Base.{
  ℕ, ◌+◌, ◌*◌, ◌/◌, ◌<◌, ◌≡◌, ◌≢◌, Bool, true, false, not, ◌||◌, Option, none, some, List, [], ◌∷◌,
  ◌++◌, map, Text, bytes, member, ltb, ◌&&◌, ◌⊎◌, inl, inr, leb, ◌==◌, if◌then◌else◌,
}
use ratatoskr_go.Base.Paths.{to_lower, ext}

-- The settings that are used here, with durations in nanoseconds, none of them negative. `has_ready` says that OnReady
-- was given.
pub record Config : Type 0 where
  pub has_run : Bool
  pub has_on_result : Bool
  pub has_ready : Bool
  pub debounce : ℕ
  pub catalog_refresh : ℕ
  pub retry_initial : ℕ
  pub retry_max : ℕ

pub data NewError : Type 0 where
  run_required on_result_required : NewError
  watch_dirs_failed : Text → NewError

abbrev pub or_default : ℕ → ℕ → ℕ
or_default value fallback = if value == 0 then fallback else value

-- The defaults that `New` fills in: 500ms, 1s, 1m, and a cap of at least the first wait.
unfoldable pub with_defaults : Config → Config
with_defaults cfg =
    let initial : ℕ = or_default cfg.retry_initial 1_000_000_000 in
    let cap : ℕ = or_default cfg.retry_max 60_000_000_000 in
    record cfg {
      debounce = or_default cfg.debounce 500_000_000;
      retry_initial = initial;
      retry_max = if ltb cap initial then initial else cap;
    }

-- What the callbacks see: the outcome of a pass, readiness, an fsnotify error.
pub data Output : Type 0 where
  result : Bool → Output
  ready : Output
  fs_failure : Output

-- `readyOnce` and `retryWait`, and the calls of the callbacks so far, the last one first.
pub record Watcher : Type 0 where
  pub ready_done : Bool
  pub retry_wait : ℕ
  pub calls : List Output

-- The outcome of `New`; the directories come from `watchDirs`.
unfoldable pub new : Config → (Text ⊎ List Text) → NewError ⊎ (Config × Watcher × List Text)
new cfg dirs =
    if not cfg.has_run
    then inl run_required
    else if not cfg.has_on_result
    then inl on_result_required
    else elim dirs [
      | inl err ↦ inl (watch_dirs_failed err)
      | inr ds ↦
          inr (with_defaults cfg, record { ready_done = false; retry_wait = 0; calls = [] }, ds)
    ]

unfoldable pub next_wait : Config → ℕ → ℕ
next_wait cfg wait =
    if wait == 0
    then cfg.retry_initial
    else if leb (cfg.retry_max / 2) wait
    then cfg.retry_max
    else wait * 2

abbrev pub call_ready : Config → Bool → List Output → List Output
call_ready cfg ready_done calls = if cfg.has_ready && not ready_done then ready ∷ calls else calls

-- One pass, given whether RunFunc failed: the new state and the wait before a retry.
unfoldable pub run_once : Config → Watcher → Bool → Watcher × ℕ
run_once cfg w true =
    let wait : ℕ = next_wait cfg w.retry_wait in
    (record w { retry_wait = wait; calls = result true ∷ w.calls }, wait)
run_once cfg w false = (
  record {
    ready_done = if cfg.has_ready then true else w.ready_done;
    retry_wait = 0;
    calls = call_ready cfg w.ready_done (result false ∷ w.calls);
  },
  0,
)

-- The loop's timers: is the debounce timer armed, and is the retry timer, with which wait.
pub record Loop : Type 0 where
  pub watcher : Watcher
  pub debounce_armed : Bool
  pub retry_armed : Option ℕ

-- The closure `pass`.
unfoldable pub pass : Config → Loop → Bool → Loop
pass cfg s failed =
    let (w, wait) = run_once cfg s.watcher failed in
    record s { watcher = w; retry_armed = if ltb 0 wait then some wait else none }

-- An fsnotify event: its operation and its path.
pub record FsEvent : Type 0 where
  pub op : ℕ
  pub name : Text

abbrev pub watched_extensions : List Text
watched_extensions = bytes ".yaml" ∷ bytes ".yml" ∷ bytes ".json" ∷ []

-- `chmod` is fsnotify.Chmod.
unfoldable pub relevant_event : ℕ → FsEvent → Bool
relevant_event chmod ev =
    if ev.op == chmod then false else member (map to_lower (ext ev.name)) watched_extensions

-- What the `select` of the loop receives; of a pass, whether it fails.
pub data Event : Type 0 where
  cancelled : Event
  fs_event : FsEvent → Event
  fs_events_closed : Event
  fs_error : Event
  fs_errors_closed : Event
  debounce_fired : Bool → Event
  refresh_tick : Bool → Event
  retry_fired : Bool → Event

pub data Exit : Type 0 where
  clean events_closed errors_closed : Exit

pub data Next : Type 0 where
  continue : Loop → Next
  stop : Exit → Loop → Next

-- A timer's channel delivers only while the timer is armed; a refresh comes only with a ticker.
abbrev pub Enabled : Config → Loop → Event → Type 0
Enabled cfg s (debounce_fired failed) = s.debounce_armed ≡ true
Enabled cfg s (refresh_tick failed) = 0 < cfg.catalog_refresh
Enabled cfg s (retry_fired failed) = s.retry_armed ≢ none
Enabled cfg s _ = Unit

-- One round of the loop.
unfoldable pub handle : ℕ → Config → Loop → Event → Next
handle chmod cfg s cancelled = stop clean s
handle chmod cfg s (fs_event ev) =
    if not (relevant_event chmod ev)
    then continue s
    else continue (record s { debounce_armed = true })
handle chmod cfg s fs_events_closed = stop events_closed s
handle chmod cfg s fs_error =
    continue (record s { watcher = record (s.watcher) { calls = fs_failure ∷ s.watcher.calls } })
handle chmod cfg s fs_errors_closed = stop errors_closed s
handle chmod cfg s (debounce_fired failed) =
    continue (pass cfg (record s { debounce_armed = false }) failed)
handle chmod cfg s (refresh_tick failed) = continue (pass cfg s failed)
handle chmod cfg s (retry_fired failed) = continue (pass cfg s failed)

-- The state in which the loop is entered: after the eager pass.
abbrev pub start : Config → Bool → Loop
start cfg failed =
    pass cfg
      (record {
        watcher = record { ready_done = false; retry_wait = 0; calls = [] };
        debounce_armed = false;
        retry_armed = none;
      })
      failed

-- The outcome of the pass that an event starts.
abbrev pub outcome_of : Event → Option Bool
outcome_of (debounce_fired failed) = some failed
outcome_of (refresh_tick failed) = some failed
outcome_of (retry_fired failed) = some failed
outcome_of _ = none

-- The states of the loop that a run can reach, and the outcomes of its passes, the last one first.
pub data Reach (chmod : ℕ) (cfg : Config) : Loop → List Bool → Type 0 where
  entered : (failed : Bool) → Reach chmod cfg (start cfg failed) (failed ∷ [])
  quiet :
      {s t : Loop} {past : List Bool} (e : Event)
      → Reach chmod cfg s past
      → outcome_of e ≡ none
      → handle chmod cfg s e ≡ continue t
      → Reach chmod cfg t past
  passed :
      {s t : Loop} {past : List Bool} (e : Event) (failed : Bool)
      → Reach chmod cfg s past
      → Enabled cfg s e
      → outcome_of e ≡ some failed
      → handle chmod cfg s e ≡ continue t
      → Reach chmod cfg t (failed ∷ past)
