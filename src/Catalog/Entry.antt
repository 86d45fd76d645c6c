-- ===== src/Catalog/Entry.antt =====
-- pkg/catalog/entry.go: cached answers, their keys and what makes them fit to keep.
pub mod Age
use ratatoskr_go.Base.{
  ℕ, Bool, true, false, not, ◌&&◌, Option, none, some, List, [], ◌∷◌, ◌++◌, Text, bytes, is_empty,
  ltb, leb, ◌==◌, ◌+◌, ◌-◌, ◌*◌, ◌%◌, ◌^◌, min, member, if◌then◌else◌,
}
use ratatoskr_go.Base.Int.{ℤ, pos, negsuc}

abbrev pub schema_version_now : ℕ
schema_version_now = 1

abbrev pub Language : Type 0
Language = Text

abbrev pub languages : List Language
languages = bytes "promql" ∷ bytes "logql" ∷ bytes "traceql" ∷ []

unfoldable pub is_valid : Language → Bool
is_valid l = member l languages

-- A slice that may be nil: none is nil, which has no element.
abbrev pub Slice : Type 0
Slice = Option (List Text)

abbrev pub elements : Slice → List Text
elements none = []
elements (some names) = names

pub record Result : Type 0 where
  pub metric_names : Slice
  pub label_names : Slice
  pub label_values : List (Text × Slice)
  pub series_count : ℤ

-- Times are nanoseconds since the zero time; the result is a pointer, none is nil.
pub record Entry : Type 0 where
  pub schema_version : ℤ
  pub query : Text
  pub language : Language
  pub source : Text
  pub fetched_at : ℕ
  pub ttl_seconds : ℤ
  pub result : Option Result
  pub error : Text

-- `hash` is SHA-256 in lower-case hex.
unfoldable pub key_for : (Text → Text) → Language → Text → Text → Text
key_for hash lang source query = hash (lang ++ (bytes "\n" ++ (source ++ (bytes "\n" ++ query))))

abbrev pub key : (Text → Text) → Entry → Text
key hash e = key_for hash e.language e.source e.query

pub data Invalid : Type 0 where
  missing_schema_version newer_schema_version missing_query unknown_language : Invalid
  missing_source missing_fetched_at missing_payload : Invalid

abbrev pub is_positive : ℤ → Bool
is_positive (pos n) = ltb 0 n
is_positive (negsuc n) = false

abbrev pub exceeds : ℤ → ℕ → Bool
exceeds (pos n) m = ltb m n
exceeds (negsuc n) m = false

abbrev pub is_none : Option Result → Bool
is_none none = true
is_none (some r) = false

-- none is nil: the entry can be kept.
unfoldable pub validate : Entry → Option Invalid
validate e =
    if not (is_positive e.schema_version)
    then some missing_schema_version
    else if exceeds e.schema_version schema_version_now
    then some newer_schema_version
    else if is_empty e.query
    then some missing_query
    else if not (is_valid e.language)
    then some unknown_language
    else if is_empty e.source
    then some missing_source
    else if e.fetched_at == 0
    then some missing_fetched_at
    else if is_none e.result && is_empty e.error
    then some missing_payload
    else none

-- What `Validate` says of the entry; `show_int` is the verb %d and `quoted` the verb %q.
unfoldable pub invalid_message : (ℤ → Text) → (Text → Text) → Entry → Invalid → Text
invalid_message show_int quoted e missing_schema_version =
    bytes "catalog: entry missing schema_version"
invalid_message show_int quoted e newer_schema_version =
    bytes "catalog: entry schema_version "
    ++ (show_int e.schema_version
        ++ (bytes " newer than supported " ++ show_int (pos schema_version_now)))
invalid_message show_int quoted e missing_query = bytes "catalog: entry missing query"
invalid_message show_int quoted e unknown_language =
    bytes "catalog: entry has unknown language " ++ quoted e.language
invalid_message show_int quoted e missing_source = bytes "catalog: entry missing source"
invalid_message show_int quoted e missing_fetched_at = bytes "catalog: entry missing fetched_at"
invalid_message show_int quoted e missing_payload =
    bytes "catalog: entry must have either result or error"

-- now.Sub(t) of package time: the difference in nanoseconds, kept within 64 bits.
abbrev pub time_sub : ℕ → ℕ → ℤ
time_sub now t =
    if leb t now then pos (min (now - t) (2 ^ 63 - 1)) else negsuc (min (t - now - 1) (2 ^ 63 - 1))

-- A natural number as a signed integer of 64 bits.
abbrev pub to_int64 : ℕ → ℤ
to_int64 n =
    if ltb (n % 2 ^ 64) (2 ^ 63) then pos (n % 2 ^ 64) else negsuc (2 ^ 64 - 1 - n % 2 ^ 64)

-- a > b
abbrev pub int_gt : ℤ → ℤ → Bool
int_gt (pos m) (pos n) = ltb n m
int_gt (pos m) (negsuc n) = true
int_gt (negsuc m) (pos n) = false
int_gt (negsuc m) (negsuc n) = ltb m n

abbrev pub second : ℕ
second = 1000000000

abbrev pub older : ℕ → ℕ → ℤ → Bool
older now t (pos ttl) = ltb 0 ttl && int_gt (time_sub now t) (to_int64 (ttl * second))
older now t (negsuc ttl) = false

unfoldable pub expired : Entry → ℕ → Bool
expired e now = older now e.fetched_at e.ttl_seconds
