-- ===== src/Tests/Reusing.antt =====
-- A cached value that is used again, and the age of an entry, at concrete inputs.
use mathlib.Core.Option.{Option, some}
use ratatoskr_go.Tests.Checked.{servers, same, whole_seconds, no_message, tick}
use ratatoskr_go.Base.{ℕ, ◌≡◌, ◌↔◌, refl, true, false, [], ◌∷◌, bytes, ap, arith}
use ratatoskr_go.Base.Int.{pos, negsuc}
use ratatoskr_go.Catalog.Cache.{Ask}
use ratatoskr_go.Catalog.Cache.Kept.{place, entry_at}
use ratatoskr_go.Catalog.Cache.Virtual.{metric_names, ask_of}
use ratatoskr_go.Catalog.Entry.{Entry, expired}
use ratatoskr_go.Catalog.Entry.Age.{IsPast, expired-iff_older}
use ratatoskr_go.Catalog.Store.{MemoryStore}
use ratatoskr_go.Base.{none}

abbrev entry : Entry
entry = record {
  schema_version = pos 1;
  query = bytes "up";
  language = bytes "promql";
  source = bytes "http://mimir";
  fetched_at = 1;
  ttl_seconds = pos 2;
  result = none;
  error = bytes "down";
}

expired-iff_older_example :
    (expired entry 3000000000 ≡ true) ↔ ((n : ℕ) × IsPast entry 3000000000 n)
expired-iff_older_example =
    expired-iff_older entry 3000000000
      (λ n h.
        let same : 2 ≡ n = ap (λ z. elim z [ pos k ↦ k | negsuc k ↦ 0 ]) h in omega (arith, same))
      (omega arith) (omega arith)

never_old : expired (record entry { ttl_seconds = pos 0 }) 3000000000 ≡ false
unfolding expired
never_old = refl

abbrev ask : Ask ℕ
ask = ask_of same servers metric_names

abbrev kept : MemoryStore
kept =
    (
      place same whole_seconds no_message tick (pos 0) ask,
      entry_at same whole_seconds no_message tick (pos 0) ask 1 (some (bytes "up" ∷ [])),
    )
    ∷ []
