-- ===== src/Catalog/Cache/Kept.antt =====
-- pkg/catalog/checker.go: what a cached lookup does to a memory store, errors included.
use mathlib.Core.Option
use mathlib.Core.Path.{subst}
use ratatoskr_go.Base.{
  ℕ, ◌≡◌, ◌≢◌, refl, ap, sym, ◌∙◌, ◌⊎◌, inl, inr, Option, none, some, [], ◌++◌, Text, bytes, arith,
  text_lt,
}
use ratatoskr_go.Base.Int.{ℤ}
use ratatoskr_go.Base.Sort.{sort_stable}
use ratatoskr_go.Base.Table.{put}
use ratatoskr_go.Catalog.Cache.{
  memory_store, Ask, offered, new_entry, written, fetched, found_or_fetched, cached_list,
}
use ratatoskr_go.Catalog.Entry.{Entry, Slice, Invalid, key_for, validate}
use ratatoskr_go.Catalog.Store.{MemoryStore, get, put_checked, put_entry}
use ratatoskr_go.Catalog.Store.Kept.{IsKept, put_entry-IsKept}

module _ {W : Type 0} (hash : Text → Text) (seconds : ℕ → ℤ) (message : Entry → Invalid → Text)
    (clock : W → ℕ × W) (lifetime : ℤ) where
  abbrev pub entry_at : Ask W → ℕ → Slice → Entry
  entry_at ask now v = new_entry hash seconds (memory_store hash message) clock lifetime ask now v

  abbrev pub place : Ask W → Text
  place ask = key_for hash ask.language ask.source ask.query

  -- The entry in which the values of a fetch are written, sorted.
  abbrev pub sorted_entry : Ask W → ℕ → Slice → Entry
  sorted_entry ask now v = entry_at ask now (Option.map (sort_stable text_lt) v)

  -- Why a lookup fails: the fetch fails, with its error; or the entry of what it gave is not valid.
  abbrev pub IsFailure : Ask W → ℕ → W → Text → W → Type 0
  IsFailure ask now w₁ err w =
      (ask.fetch w₁ ≡ (inl err, w))
      ⊎ ((v : Slice) × (x : Invalid) × (ask.fetch w₁ ≡ (inr v, w))
          × (validate (sorted_entry ask now v) ≡ some x)
          × (err ≡ bytes "catalog: cache write: " ++ message (sorted_entry ask now v) x))

  -- What a lookup at the time `now` may give from the store t, where the cache offers `o`, and the
  -- world is w₁ after the look at the clock.
  abbrev pub IsOutcome :
      Ask W → ℕ → W → MemoryStore → Slice → (Text ⊎ Slice) × (MemoryStore × W) → Type 0
  IsOutcome ask now w₁ t o (inl err, (u, w)) = (o ≡ none) × (u ≡ t) × IsFailure ask now w₁ err w
  IsOutcome ask now w₁ t o (inr values, (u, w)) =
      ((o ≡ values) × (values ≢ none) × (u ≡ t) × (w ≡ w₁))
      ⊎ ((o ≡ none)
          × (validate (entry_at ask now values) ≡ none)
          × (u ≡ put (place ask) (entry_at ask now values) t)
          × ((v : Slice) × (ask.fetch w₁ ≡ (inr v, w))
              × (values ≡ Option.map (sort_stable text_lt) v)))

  written-IsOutcome :
      (ask : Ask W) (t : MemoryStore) (w₁ w : W) (now : ℕ) (got : Slice) (r : Option Invalid)
      → ask.fetch w₁ ≡ (inr got, w)
      → validate (sorted_entry ask now got) ≡ r
      → IsOutcome ask now w₁ t none (
          written hash seconds
            (memory_store hash message)
            clock
            lifetime
            (Option.map (sort_stable text_lt) got)
            w
            (
              Option.map
                  (message (sorted_entry ask now got))
                  (put_checked hash (sorted_entry ask now got) t r).0,
              (put_checked hash (sorted_entry ask now got) t r).1,
            ))
  unfolding new_entry
  written-IsOutcome ask t w₁ w now got (some x) f h = (refl, refl, inr (got, x, f, h, refl))
  written-IsOutcome ask t w₁ w now got none f h = inr (refl, h, refl, (got, f, refl))

  fetched-IsOutcome :
      (ask : Ask W) (t : MemoryStore) (now : ℕ) (w₁ : W) (r : (Text ⊎ Slice) × W)
      → ask.fetch w₁ ≡ r
      → IsOutcome ask now w₁ t none
          (fetched hash seconds (memory_store hash message) clock lifetime ask now t r)
  unfolding put_entry
  fetched-IsOutcome ask t now w₁ (inl err, w) f = (refl, refl, inl f)
  fetched-IsOutcome ask t now w₁ (inr values, w) f =
      written-IsOutcome ask t w₁ w now values (validate (sorted_entry ask now values)) f refl

  found_or_fetched-IsOutcome :
      (ask : Ask W) (t : MemoryStore) (now : ℕ) (w : W) (o : Slice)
      → IsOutcome ask now w t o
          (found_or_fetched hash seconds (memory_store hash message) clock lifetime ask now t w o)
  found_or_fetched-IsOutcome ask t now w none = fetched-IsOutcome ask t now w (ask.fetch w) refl
  found_or_fetched-IsOutcome ask t now w (some values) =
      inl (refl, λ e. absurd (ground (arith, e)), refl, refl)

  abbrev pub lookup : Ask W → MemoryStore → W → (Text ⊎ Slice) × (MemoryStore × W)
  lookup ask t w = cached_list hash seconds (memory_store hash message) clock lifetime ask (t, w)

  pub cached_list-IsOutcome :
      (ask : Ask W) (t : MemoryStore) (w : W)
      → IsOutcome ask
          ((clock w).0)
          ((clock w).1)
          t
          (offered ask.get ((clock w).0) (get (place ask) t))
          (lookup ask t w)
  unfolding cached_list
  cached_list-IsOutcome ask t w =
      found_or_fetched-IsOutcome ask t ((clock w).0) ((clock w).1)
        (offered ask.get ((clock w).0) (get (place ask) t))

  outcome-IsKept :
      (ask : Ask W) (now : ℕ) (w₁ : W) (t : MemoryStore) (o : Slice)
      (r : (Text ⊎ Slice) × (MemoryStore × W))
      → IsKept hash t
      → IsOutcome ask now w₁ t o r
      → IsKept hash r.1.0
  unfolding new_entry put_entry
  outcome-IsKept ask now w₁ t o (inl err, (u, w)) k h = subst (IsKept hash) (sym h.1) k
  outcome-IsKept ask now w₁ t o (inr values, (u, w)) k (inl h) = subst (IsKept hash) (sym h.2) k
  outcome-IsKept ask now w₁ t o (inr values, (u, w)) k (inr h) =
      let e : Entry = entry_at ask now values in
      let same : (put_entry hash e t).1 ≡ u = ap (λ v. (put_checked hash e t v).1) h.1 ∙ sym h.2 in
      subst (IsKept hash) same (put_entry-IsKept hash t k e []).0

-- A lookup through a memory store whose entries are valid and stand under their keys leaves such a
-- store, and gives one of three outcomes: an error, where the cache offers nothing, which is that of
-- the fetch or says that the entry of the fetched values is not valid, with the store as it was; the
-- value that the cache offers, which is not nil, with no call of the client and the store as it was;
-- or, where the cache offers nothing, the values that the client returned, sorted, with the store in
-- which their entry, which is valid, was put under the key of the query.
pub cached_list-IsKept :
    {W : Type 0} (hash : Text → Text) (seconds : ℕ → ℤ) (message : Entry → Invalid → Text)
    (clock : W → ℕ × W) (lifetime : ℤ) (ask : Ask W) (t : MemoryStore) (w : W)
    → IsKept hash t
    → IsOutcome hash seconds message clock lifetime ask
        ((clock w).0)
        ((clock w).1)
        t
        (offered ask.get ((clock w).0) (get (place hash seconds message clock lifetime ask) t))
        (lookup hash seconds message clock lifetime ask t w)
      × IsKept hash (lookup hash seconds message clock lifetime ask t w).1.0
cached_list-IsKept hash seconds message clock lifetime ask t w k =
    let outcome = cached_list-IsOutcome hash seconds message clock lifetime ask t w in
    (
      outcome,
      outcome-IsKept hash seconds message clock lifetime ask ((clock w).0) ((clock w).1) t
          (offered ask.get ((clock w).0) (get (place hash seconds message clock lifetime ask) t))
          (lookup hash seconds message clock lifetime ask t w) k outcome,
    )
