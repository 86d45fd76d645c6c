-- ===== src/Watcher/Retry.antt =====
-- internal/watcher/watcher.go: what holds in every state that the event loop reaches.
use mathlib.Core.Path.{ap, subst}
use ratatoskr_go.Base.{
  ℕ, zero, suc, ◌<◌, ◌≡◌, refl, ◌∙◌, sym, Bool, true, false, not, ◌&&◌, inl, inr, ltb, ◌==◌,
  if◌then◌else◌, Bool-cases, ==_iff, arith, Option, none, some, List, [], ◌∷◌, any,
}
use ratatoskr_go.Watcher.{
  relevant_event, Config, with_defaults, next_wait, Loop, Event, Next, Reach, Output, handle, pass,
  outcome_of, run_once, call_ready,
}
use ratatoskr_go.Watcher.Backoff.{IsFilled, wait_after, with_defaults-IsFilled, wait_after-bounds}

-- The failures since the last success.
unfoldable pub failures : List Bool → ℕ
failures [] = 0
failures (true ∷ past) = suc (failures past)
failures (false ∷ past) = 0

-- The outcomes of passes among the calls.
unfoldable pub outcomes : List Output → List Bool
outcomes [] = []
outcomes (Output.result failed ∷ calls) = failed ∷ outcomes calls
outcomes (c ∷ calls) = outcomes calls

-- The number of calls of OnReady.
unfoldable pub readies : List Output → ℕ
readies [] = 0
readies (Output.ready ∷ calls) = suc (readies calls)
readies (c ∷ calls) = readies calls

unfoldable pub succeeded : List Bool → Bool
succeeded past = any not past

-- The retry timer that a number of failures arms.
abbrev pub timer : ℕ → Option ℕ
timer wait = if ltb 0 wait then some wait else none

record Holds (cfg : Config) (s : Loop) (past : List Bool) : Type 0 where
  pub waits : s.watcher.retry_wait ≡ wait_after cfg (failures past)
  pub armed : s.retry_armed ≡ timer (wait_after cfg (failures past))
  pub reported : outcomes s.watcher.calls ≡ past
  pub once : s.watcher.ready_done ≡ (cfg.has_ready && succeeded past)
  pub counted : readies s.watcher.calls ≡ (if cfg.has_ready && succeeded past then 1 else 0)

outcomes-call_ready :
    (cfg : Config) (ready_done : Bool) (calls : List Output)
    → outcomes (call_ready cfg ready_done calls) ≡ outcomes calls
unfolding outcomes
outcomes-call_ready cfg ready_done calls = elim (Bool-cases (cfg.has_ready && not ready_done)) [
  | inl on ↦ rw (on) refl
  | inr off ↦ rw (off) refl
]

readies-call_ready :
    (cfg : Config) (ready_done : Bool) (calls : List Output)
    → readies (call_ready cfg ready_done calls)
      ≡ (if cfg.has_ready && not ready_done then suc (readies calls) else readies calls)
unfolding readies
readies-call_ready cfg ready_done calls = elim (Bool-cases (cfg.has_ready && not ready_done)) [
  | inl on ↦ rw (on) refl
  | inr off ↦ rw (off) refl
]

count_once :
    (given ready_done success : Bool) (n : ℕ)
    → ready_done ≡ (given && success)
    → n ≡ (if given && success then 1 else 0)
    → (if given && not ready_done then suc n else n) ≡ (if given && true then 1 else 0)
count_once true ready_done true n o c = ground arith
count_once true ready_done false n o c = ground arith
count_once false ready_done success n o c = ground arith

set_once :
    (given ready_done success : Bool)
    → ready_done ≡ (given && success)
    → (if given then true else ready_done) ≡ (given && true)
set_once true ready_done success o = refl
set_once false ready_done success o = o

pass-Holds :
    (cfg : Config) (s : Loop) (past : List Bool) (failed : Bool)
    → s.watcher.retry_wait ≡ wait_after cfg (failures past)
    → outcomes s.watcher.calls ≡ past
    → s.watcher.ready_done ≡ (cfg.has_ready && succeeded past)
    → readies s.watcher.calls ≡ (if cfg.has_ready && succeeded past then 1 else 0)
    → Holds cfg (pass cfg s failed) (failed ∷ past)
unfolding pass run_once outcomes readies failures succeeded wait_after
pass-Holds cfg s past true w r o c = record {
  waits = ap (next_wait cfg) w;
  armed = ap (λ x. timer (next_wait cfg x)) w;
  reported = ap (true ∷◌) r;
  once = o;
  counted = c;
}
pass-Holds cfg s past false w r o c = record {
  waits = refl;
  armed = refl;
  reported =
      outcomes-call_ready cfg s.watcher.ready_done (Output.result false ∷ s.watcher.calls)
      ∙ ap (false ∷◌) r;
  once = set_once cfg.has_ready s.watcher.ready_done (succeeded past) o;
  counted =
      readies-call_ready cfg s.watcher.ready_done (Output.result false ∷ s.watcher.calls)
      ∙ count_once cfg.has_ready s.watcher.ready_done (succeeded past) (readies s.watcher.calls) o
          c;
}

loop_of : Loop → Next → Loop
loop_of s (Next.continue t) = t
loop_of s (Next.stop x t) = s

quiet-Holds :
    (chmod : ℕ) (cfg : Config) (s : Loop) (past : List Bool) (e : Event)
    → Holds cfg s past
    → outcome_of e ≡ none
    → Holds cfg (loop_of s (handle chmod cfg s e)) past
unfolding handle loop_of outcomes readies
quiet-Holds chmod cfg s past Event.cancelled h n = h
quiet-Holds chmod cfg s past (Event.fs_event ev) h n = elim (Bool-cases (relevant_event chmod ev)) [
  | inl on ↦ rw (on) (record {
    waits = h.waits;
    armed = h.armed;
    reported = h.reported;
    once = h.once;
    counted = h.counted;
  })
  | inr off ↦ rw (off) h
]
quiet-Holds chmod cfg s past Event.fs_events_closed h n = h
quiet-Holds chmod cfg s past Event.fs_error h n = record {
  waits = h.waits;
  armed = h.armed;
  reported = h.reported;
  once = h.once;
  counted = h.counted;
}
quiet-Holds chmod cfg s past Event.fs_errors_closed h n = h
quiet-Holds chmod cfg s past (Event.debounce_fired failed) h n = absurd (ground arith)
quiet-Holds chmod cfg s past (Event.refresh_tick failed) h n = absurd (ground arith)
quiet-Holds chmod cfg s past (Event.retry_fired failed) h n = absurd (ground arith)

some_eq : (f g : Bool) → some f ≡ some g → f ≡ g
some_eq f g e = ground arith

passed-Holds :
    (chmod : ℕ) (cfg : Config) (s : Loop) (past : List Bool) (e : Event) (failed : Bool)
    → Holds cfg s past
    → outcome_of e ≡ some failed
    → Holds cfg (loop_of s (handle chmod cfg s e)) (failed ∷ past)
unfolding handle loop_of
passed-Holds chmod cfg s past (Event.debounce_fired f) failed h n =
    subst (λ b. Holds cfg (pass cfg (record s { debounce_armed = false }) b) (failed ∷ past))
      (sym (some_eq f failed n))
      (pass-Holds cfg (record s { debounce_armed = false }) past failed h.waits h.reported h.once
        h.counted)
passed-Holds chmod cfg s past (Event.refresh_tick f) failed h n =
    subst (λ b. Holds cfg (pass cfg s b) (failed ∷ past)) (sym (some_eq f failed n))
      (pass-Holds cfg s past failed h.waits h.reported h.once h.counted)
passed-Holds chmod cfg s past (Event.retry_fired f) failed h n =
    subst (λ b. Holds cfg (pass cfg s b) (failed ∷ past)) (sym (some_eq f failed n))
      (pass-Holds cfg s past failed h.waits h.reported h.once h.counted)
passed-Holds chmod cfg s past _ failed h n = absurd (ground arith)

nothing_yet : (given : Bool) → (given && false) ≡ false
nothing_yet true = refl
nothing_yet false = refl

count_nothing : (given : Bool) → ◌≡◌ {A = ℕ} (if given && false then 1 else 0) 0
count_nothing true = refl
count_nothing false = refl

Reach-Holds :
    (chmod : ℕ) (cfg : Config) (s : Loop) (past : List Bool)
    → Reach chmod cfg s past
    → Holds cfg s past
unfolding loop_of wait_after failures outcomes readies succeeded
Reach-Holds chmod cfg s past (Reach.entered failed) =
    pass-Holds cfg
      (record {
        watcher = record { ready_done = false; retry_wait = 0; calls = [] };
        debounce_armed = false;
        retry_armed = none;
      })
      [] failed refl refl (sym (nothing_yet cfg.has_ready)) (sym (count_nothing cfg.has_ready))
Reach-Holds chmod cfg s past (Reach.quiet {s = s0} e r n k) =
    subst (λ t. Holds cfg t past) (ap (loop_of s0) k)
      (quiet-Holds chmod cfg s0 past e (Reach-Holds chmod cfg s0 past r) n)
Reach-Holds chmod cfg s past (Reach.passed {s = s0} {past = past0} e failed r en n k) =
    subst (λ t. Holds cfg t (failed ∷ past0)) (ap (loop_of s0) k)
      (passed-Holds chmod cfg s0 past0 e failed (Reach-Holds chmod cfg s0 past0 r) n)

else_branch : (n : ℕ) (x : Option ℕ) → (if suc n == 0 then none else x) ≡ x
else_branch n x = ground (arith, ==_iff (suc n) 0)

timer_zero : (cfg : Config) → timer (wait_after cfg 0) ≡ none
unfolding wait_after
timer_zero cfg = refl

positive_timer : (wait : ℕ) → 0 < wait → timer wait ≡ some wait
positive_timer wait h = ground arith

timer-wait_after :
    (cfg : Config) (n : ℕ)
    → IsFilled cfg
    → timer (wait_after cfg n) ≡ (if n == 0 then none else some (wait_after cfg n))
timer-wait_after cfg zero f = timer_zero cfg
timer-wait_after cfg (suc n) f =
    positive_timer (wait_after cfg (suc n)) (ground (arith, f.0, (wait_after-bounds cfg n f).0))
    ∙ sym (else_branch n (some (wait_after cfg (suc n))))

-- In every state that the event loop reaches, for a configuration that `New` has completed: the
-- retry timer is armed exactly if the last pass failed, with the wait for the number of failures
-- since the last success; every pass was reported to OnResult, in order and once; and OnReady was
-- called once if it is given and some pass succeeded, and never otherwise.
pub Reach-calls :
    (chmod : ℕ) (given : Config) (s : Loop) (past : List Bool)
    → Reach chmod (with_defaults given) s past
    → (s.retry_armed ≡ (
        if failures past == 0
        then none
        else some (wait_after (with_defaults given) (failures past))))
      × (outcomes s.watcher.calls ≡ past)
      × (readies s.watcher.calls
          ≡ (if (with_defaults given).has_ready && succeeded past then 1 else 0))
Reach-calls chmod given s past r =
    let h : Holds (with_defaults given) s past = Reach-Holds chmod (with_defaults given) s past r in
    (
      h.armed
          ∙ timer-wait_after (with_defaults given) (failures past) (with_defaults-IsFilled given),
      h.reported,
      h.counted,
    )
