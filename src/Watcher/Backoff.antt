-- ===== src/Watcher/Backoff.antt =====
-- internal/watcher/watcher.go: the waits of `runOnce` after a run of failures.
use mathlib.Core.Path.{ap}
use ratatoskr_go.Base.{
  ℕ, zero, suc, ◌*◌, ◌/◌, ◌<◌, ◌≤◌, ◌≡◌, refl, ◌∙◌, ◌⊎◌, inl, inr, leb, if◌then◌else◌, ==_iff,
  arith,
}
use ratatoskr_go.Watcher.{Config, with_defaults, next_wait}

-- The configuration that `New` leaves: a first wait, and a cap of at least it.
abbrev pub IsFilled : Config → Type 0
IsFilled cfg = (0 < cfg.retry_initial) × (cfg.retry_initial ≤ cfg.retry_max)

-- The wait after a number of failures that follow a success or the start.
unfoldable pub wait_after : Config → ℕ → ℕ
wait_after cfg zero = 0
wait_after cfg (suc n) = next_wait cfg (wait_after cfg n)

-- 2 to the power n.
abbrev pub power : ℕ → ℕ
power zero = 1
power (suc n) = power n * 2

pub with_defaults-IsFilled : (cfg : Config) → IsFilled (with_defaults cfg)
unfolding with_defaults
with_defaults-IsFilled cfg = ground (arith, ==_iff cfg.retry_initial 0, ==_iff cfg.retry_max 0)

-- The step of the doubling.
capped : Config → ℕ → ℕ
capped cfg x = if leb (cfg.retry_max / 2) x then cfg.retry_max else x * 2

next_wait-capped : (cfg : Config) (x : ℕ) → 0 < x → next_wait cfg x ≡ capped cfg x
unfolding next_wait capped
next_wait-capped cfg x h = ground (arith, ==_iff x 0)

capped_again :
    (cfg : Config) (x : ℕ)
    → IsFilled cfg
    → 0 < x
    → next_wait cfg (capped cfg x) ≡ capped cfg (x * 2)
unfolding next_wait capped
capped_again cfg x f h = ground arith

power-positive : (n : ℕ) → 0 < power n
power-positive zero = omega arith
power-positive (suc n) = omega (arith, power-positive n)

product-positive : (a b : ℕ) → 0 < a → 0 < b → 0 < a * b
product-positive a b p q = grind arith

wait_after-second : (cfg : Config) → IsFilled cfg → wait_after cfg 2 ≡ capped cfg cfg.retry_initial
unfolding wait_after next_wait capped
wait_after-second cfg f = ground arith

wait_after-capped :
    (cfg : Config) (n : ℕ)
    → IsFilled cfg
    → wait_after cfg (suc (suc n)) ≡ capped cfg (cfg.retry_initial * power n)
unfolding wait_after
wait_after-capped cfg zero f = wait_after-second cfg f ∙ ap (capped cfg) (omega arith)
wait_after-capped cfg (suc n) f =
    ap (next_wait cfg) (wait_after-capped cfg n f)
    ∙ capped_again cfg (cfg.retry_initial * power n) f
        (product-positive cfg.retry_initial (power n) f.0 (power-positive n))
    ∙ ap (capped cfg) (grind arith)

next_wait-bounds :
    (cfg : Config) (wait : ℕ)
    → IsFilled cfg
    → (wait ≡ 0) ⊎ (cfg.retry_initial ≤ wait)
    → (cfg.retry_initial ≤ next_wait cfg wait) × (next_wait cfg wait ≤ cfg.retry_max)
unfolding next_wait
next_wait-bounds cfg wait f h = ground (arith, ==_iff wait 0)

pub wait_after-bounds :
    (cfg : Config) (n : ℕ)
    → IsFilled cfg
    → (cfg.retry_initial ≤ wait_after cfg (suc n)) × (wait_after cfg (suc n) ≤ cfg.retry_max)
unfolding wait_after
wait_after-bounds cfg zero f = next_wait-bounds cfg 0 f (inl refl)
wait_after-bounds cfg (suc n) f =
    next_wait-bounds cfg (wait_after cfg (suc n)) f (inr ((wait_after-bounds cfg n f).0))

-- With the settings that `New` leaves, the wait after the first failure of a run of failures is the initial one;
-- after failure n + 2 it is initial * 2 ^ (n + 1) as long as initial * 2 ^ n is below half the cap
-- (rounded down), and the cap from there on; no wait is below the initial one or above the cap.
pub wait_after-with_defaults :
    (given : Config) (n : ℕ)
    → let cfg : Config = with_defaults given in
      (wait_after cfg 1 ≡ cfg.retry_initial)
      × (wait_after cfg (suc (suc n)) ≡ (
          if leb (cfg.retry_max / 2) (cfg.retry_initial * power n)
          then cfg.retry_max
          else cfg.retry_initial * power (suc n)))
      × (cfg.retry_initial ≤ wait_after cfg (suc n))
      × (wait_after cfg (suc n) ≤ cfg.retry_max)
unfolding wait_after next_wait capped
wait_after-with_defaults given n =
    let f : IsFilled (with_defaults given) = with_defaults-IsFilled given in
    let cfg : Config = with_defaults given in
    (
      refl,
      wait_after-capped cfg n f
          ∙ ap
              (λ x.
                if leb (cfg.retry_max / 2) (cfg.retry_initial * power n) then cfg.retry_max else x)
              (grind arith),
      (wait_after-bounds cfg n f).0,
      (wait_after-bounds cfg n f).1,
    )
