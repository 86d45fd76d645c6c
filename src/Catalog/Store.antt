-- ===== src/Catalog/Store.antt =====
-- pkg/catalog/store.go: the memory store, and the normal form of a result.
pub mod Kept
pub mod Unique
use mathlib.Core.Option
use ratatoskr_go.Base.{
  Bool, true, false, ◌⊎◌, inl, inr, Option, none, some, List, [], ◌∷◌, map, Text, text_eq, text_lt,
  if◌then◌else◌,
}
use ratatoskr_go.Base.Sort.{sort_stable}
use ratatoskr_go.Base.Table.{find, put, remove}
use ratatoskr_go.Catalog.Entry.{Entry, Result, Invalid, key, validate}

-- `MemoryStore`: its map of entries.
abbrev pub MemoryStore : Type 0
MemoryStore = List (Text × Entry)

-- none is ErrNotFound.
unfoldable pub get : Text → MemoryStore → Option Entry
get k s = find k s

-- `Put` after the outcome of `Validate`; `hash` is SHA-256 in lower-case hex.
abbrev pub put_checked :
    (Text → Text) → Entry → MemoryStore → Option Invalid → Option Invalid × MemoryStore
put_checked hash e s (some err) = (some err, s)
put_checked hash e s none = (none, put (key hash e) e s)

-- The error, if there is one, and the store.
unfoldable pub put_entry : (Text → Text) → Entry → MemoryStore → Option Invalid × MemoryStore
put_entry hash e s = put_checked hash e s (validate e)

unfoldable pub delete : Text → MemoryStore → MemoryStore
delete k s = remove k s

-- `range` is the order in which a map is walked.
unfoldable pub keys : (MemoryStore → MemoryStore) → MemoryStore → List Text
keys range s = sort_stable text_lt (map (λ e. e.0) (range s))

-- The loop of `sortedUnique` over the sorted copy, after its element `last`.
unfoldable pub unique_after : Text → List Text → List Text
unique_after last [] = []
unique_after last (v ∷ rest) =
    let kept : List Text = unique_after v rest in if text_eq v last then kept else v ∷ kept

abbrev pub unique : List Text → List Text
unique [] = []
unique (v ∷ rest) = v ∷ unique_after v rest

unfoldable pub sorted_unique : List Text → List Text
sorted_unique names = unique (sort_stable text_lt names)

unfoldable pub normalise_result : Result → Result
normalise_result r = record r {
  metric_names = Option.map sorted_unique r.metric_names;
  label_names = Option.map sorted_unique r.label_names;
  label_values = map (λ e. (e.0, Option.map sorted_unique e.1)) r.label_values;
}
