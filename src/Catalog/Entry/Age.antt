-- ===== src/Catalog/Entry/Age.antt =====
-- pkg/catalog/entry.go: when an entry has expired.
use ratatoskr_go.Base.{
  ℕ, ◌*◌, ◌-◌, ◌^◌, ◌<◌, ◌≤◌, ◌≡◌, refl, sym, ap, ◌∙◌, ◌↔◌, true, ◌&&◌, ltb, arith,
}
use ratatoskr_go.Base.Int.{ℤ, pos, negsuc}
use ratatoskr_go.Catalog.Entry.{Entry, time_sub, to_int64, int_gt, older, expired, second}

to_int64_small : (n : ℕ) → n < 2 ^ 63 → to_int64 n ≡ pos n
to_int64_small n h = ground arith

time_sub_small : (now t : ℕ) → t ≤ now → now - t < 2 ^ 63 → time_sub now t ≡ pos (now - t)
time_sub_small now t h k = ground arith

-- A positive lifetime of n seconds that the time exceeds.
abbrev pub IsPast : Entry → ℕ → ℕ → Type 0
IsPast e now n = (e.ttl_seconds ≡ pos n) × (0 < n) × (n * second < now - e.fetched_at)

older_lem :
    (now t n : ℕ)
    → n * second < 2 ^ 63
    → t ≤ now
    → now - t < 2 ^ 63
    → older now t (pos n) ≡ (ltb 0 n && ltb (n * second) (now - t))
older_lem now t n small before near =
    ap (λ x. ltb 0 n && int_gt x (to_int64 (n * second))) (time_sub_small now t before near)
    ∙ ap (λ x. ltb 0 n && int_gt (pos (now - t)) x) (to_int64_small (n * second) small)

pos_inj : (m n : ℕ) → pos m ≡ pos n → m ≡ n
pos_inj m n h = ap (λ z. elim z [ pos k ↦ k | negsuc k ↦ 0 ]) h

expired_lem :
    (e : Entry) (now : ℕ) (t : ℤ)
    → e.ttl_seconds ≡ t
    → ((n : ℕ) → t ≡ pos n → n * second < 2 ^ 63)
    → e.fetched_at ≤ now
    → now - e.fetched_at < 2 ^ 63
    → (older now e.fetched_at t ≡ true) ↔ ((n : ℕ) × IsPast e now n)
expired_lem e now (negsuc m) ttl small before near =
    (λ h. absurd (ground arith), λ h. absurd (ground (arith, sym ttl ∙ h.1.0)))
expired_lem e now (pos n) ttl small before near =
    let value = older_lem now e.fetched_at n (small n refl) before near in
    (
      λ h. (n, (ttl, ground (arith, value, h), ground (arith, value, h))),
      λ h.
          let same : n ≡ h.0 = pos_inj n h.0 (sym ttl ∙ h.1.0) in
          value ∙ ground (arith, same, h.1.1, h.1.2),
    )

-- An entry that was fetched at or before the time, less than 2 ^ 63 nanoseconds ago, and whose
-- lifetime, if it is not negative, is below 2 ^ 63 in nanoseconds, has expired exactly if its
-- lifetime is positive and more than that many seconds have passed: an entry with a lifetime of 0,
-- or a negative one, never expires.
pub expired-iff_older :
    (e : Entry) (now : ℕ)
    → ((n : ℕ) → e.ttl_seconds ≡ pos n → n * second < 2 ^ 63)
    → e.fetched_at ≤ now
    → now - e.fetched_at < 2 ^ 63
    → (expired e now ≡ true) ↔ ((n : ℕ) × IsPast e now n)
unfolding expired
expired-iff_older e now small before near = expired_lem e now e.ttl_seconds refl small before near
