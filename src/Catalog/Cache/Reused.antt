-- ===== src/Catalog/Cache/Reused.antt =====
-- pkg/catalog/checker.go: a value that a lookup returned is returned again, with no call of a client,
-- until its entry expires.
use ratatoskr_go.Base.{ℕ, Text}
use ratatoskr_go.Base.Int.{ℤ}
use ratatoskr_go.Catalog.Cache.{Ask}
use ratatoskr_go.Catalog.Cache.Kept.{place}
use ratatoskr_go.Catalog.Entry.{Entry, Invalid}

module _ {W : Type 0} (hash : Text → Text) (seconds : ℕ → ℤ) (message : Entry → Invalid → Text)
    (clock : W → ℕ × W) (lifetime : ℤ) where
  abbrev here : Ask W → Text
  here ask = place hash seconds message clock lifetime ask
