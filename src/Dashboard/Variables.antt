-- ===== src/Dashboard/Variables.antt =====
-- dashboard.go: `normalizeDashboardExpr`. Each of its four regular expressions is a function that
-- gives what follows a match at the front of a text; none of them matches the empty text.
pub mod Names
pub mod Quiet
use ratatoskr_go.Base.{
  ℕ, zero, suc, ◌-◌, Bool, true, false, not, ◌&&◌, ◌||◌, Option, none, some, List, [], ◌∷◌, ◌++◌,
  Text, bytes, is_empty, has_prefix, length, leb, ◌==◌, member, select, if◌then◌else◌,
}
use ratatoskr_go.Catalog.Store.{sorted_unique}
use ratatoskr_go.Dashboard.Calls.{is_grafana_ident_byte}
use ratatoskr_go.Extract.{dashboard_variable_sentinel}

abbrev pub dashboard_interval_sentinel : Text
dashboard_interval_sentinel = bytes "5m"

-- [A-Za-z_] and \s
abbrev pub is_ident_start : ℕ → Bool
is_ident_start b = b == b'_' || (leb b'a' b && leb b b'z') || (leb b'A' b && leb b b'Z')

abbrev pub is_white : ℕ → Bool
is_white b = b == 9 || b == 10 || b == 12 || b == 13 || b == 32

-- What follows the literal p at the front of a text.
unfoldable pub after_literal : Text → Text → Option Text
after_literal [] s = some s
after_literal (c ∷ p) [] = none
after_literal (c ∷ p) (d ∷ s) =
    let rest : Option Text = after_literal p s in if c == d then rest else none

-- \b after a word byte.
abbrev pub at_boundary : Text → Bool
at_boundary [] = true
at_boundary (c ∷ s) = not (is_grafana_ident_byte c)

abbrev pub ended : Option Text → Option Text
ended none = none
ended (some s) = if at_boundary s then some s else none

abbrev pub or_else : {A : Type 0} → Option A → Option A → Option A
or_else none o = o
or_else (some a) o = some a

-- \$__(?:rate_interval|range|interval(?:_ms)?)\b
unfoldable pub interval_match : Text → Option Text
interval_match s = or_else (ended (after_literal (bytes "$__rate_interval") s)) (
    or_else (ended (after_literal (bytes "$__range") s)) (
      or_else (ended (after_literal (bytes "$__interval_ms") s))
        (ended (after_literal (bytes "$__interval") s))))

unfoldable pub skip_white : Text → Text
skip_white [] = []
skip_white (c ∷ s) = let rest : Text = skip_white s in if is_white c then rest else c ∷ s

-- A variable that a match has: its name, and what follows the match.
abbrev pub Match : Type 0
Match = Option (Text × Text)

-- [A-Za-z0-9_]* and what follows it.
unfoldable pub word_split : Text → Text × Text
word_split [] = ([], [])
word_split (c ∷ s) =
    let rest : Text × Text = word_split s in
    if is_grafana_ident_byte c then (c ∷ rest.0, rest.1) else ([], c ∷ s)

abbrev pub named : ℕ → Text × Text → Text × Text
named c (name, rest) = (c ∷ name, rest)

-- [A-Za-z_][A-Za-z0-9_]* and what follows it.
unfoldable pub name_match : Text → Match
name_match [] = none
name_match (c ∷ s) = if is_ident_start c then some (named c (word_split s)) else none

-- [^stop]* dropped.
unfoldable pub skip_to : ℕ → Text → Text
skip_to stop [] = []
skip_to stop (c ∷ s) = let rest : Text = skip_to stop s in if c == stop then c ∷ s else rest

-- (?::[^stop]*)? dropped.
abbrev pub skip_format : ℕ → Text → Text
skip_format stop [] = []
skip_format stop (c ∷ s) = if c == b':' then skip_to stop s else c ∷ s

abbrev pub closed : Text → Option Text → Match
closed name none = none
closed name (some rest) = some (name, rest)

abbrev pub close_name : ℕ → Text → Match → Match
close_name stop end none = none
close_name stop end (some (name, rest)) =
    closed name (after_literal end (skip_white (skip_format stop rest)))

abbrev pub open_name : ℕ → Text → Option Text → Match
open_name stop end none = none
open_name stop end (some s) = close_name stop end (name_match (skip_white s))

-- \[\[\s*([A-Za-z_][A-Za-z0-9_]*)(?::[^\]]*)?\s*\]\]
unfoldable pub bracket_match : Text → Match
bracket_match s = open_name b']' (bytes "]]") (after_literal (bytes "[[") s)

-- \$\{\s*([A-Za-z_][A-Za-z0-9_]*)(?::[^}]*)?\s*\}
unfoldable pub braced_match : Text → Match
braced_match s = open_name b'}' (bytes "}") (after_literal (bytes "${") s)

abbrev pub after_dollar : Option Text → Match
after_dollar none = none
after_dollar (some s) = name_match s

-- \$([A-Za-z_][A-Za-z0-9_]*)
unfoldable pub bare_match : Text → Match
bare_match s = after_dollar (after_literal (bytes "$") s)

abbrev pub interval_variable : Text → Match
interval_variable s = elim (interval_match s) [ none ↦ none | some rest ↦ some ([], rest) ]

-- The number of bytes of a match at the front of a text, 0 if there is none.
abbrev pub match_width : Match → Text → ℕ
match_width none s = 0
match_width (some (name, rest)) s = length s - length rest

abbrev pub match_names : Match → List Text
match_names none = []
match_names (some (name, rest)) = name ∷ []

-- ReplaceAllString and ReplaceAllStringFunc: the text with each match replaced, and the names of the
-- matches. `inside` bytes of the current match are left.
abbrev pub put_front : Text → List Text → Text × List Text → Text × List Text
put_front s names (t, more) = (s ++ t, names ++ more)

-- At a byte c where a match of this width may begin; `rest` is what comes of the text after c, of
-- which so many bytes belong to the match.
abbrev pub put_match : Text → ℕ → Match → (ℕ → Text × List Text) → ℕ → Text × List Text
put_match by c found rest zero = put_front (c ∷ []) [] (rest zero)
put_match by c found rest (suc inside) = put_front by (match_names found) (rest inside)

unfoldable pub replace_all : (Text → Match) → Text → ℕ → Text → Text × List Text
replace_all find by inside [] = ([], [])
replace_all find by (suc inside) (c ∷ s) = replace_all find by inside s
replace_all find by zero (c ∷ s) =
    put_match by c (find (c ∷ s)) (λ inside. replace_all find by inside s)
      (match_width (find (c ∷ s)) (c ∷ s))

abbrev pub reserved_dashboard_vars : List Text
reserved_dashboard_vars =
    bytes "__interval"
    ∷ bytes "__interval_ms"
    ∷ bytes "__rate_interval"
    ∷ bytes "__range"
    ∷ bytes "__from"
    ∷ bytes "__to"
    ∷ bytes "__name"
    ∷ bytes "__org"
    ∷ bytes "__user"
    ∷ []

-- `record` keeps a name in a set, which is sorted at the end.
abbrev pub recorded : List Text → List Text
recorded names = sorted_unique (select (λ n. not (member n reserved_dashboard_vars)) names)

-- The three passes over the variables, after the one over the intervals.
abbrev pub replaced : (Text → Match) → Text × List Text → Text × List Text
replaced find (s, names) =
    let (t, more) = replace_all find dashboard_variable_sentinel 0 s in (t, names ++ more)

abbrev pub passes : Text → Text × List Text
passes expr = replaced bare_match (
    replaced braced_match (
      replaced bracket_match
        ((replace_all interval_variable dashboard_interval_sentinel 0 expr).0, [])))

unfoldable pub normalize_dashboard_expr : Text → Text × List Text
normalize_dashboard_expr [] = ([], [])
normalize_dashboard_expr (c ∷ s) = let (out, names) = passes (c ∷ s) in (out, recorded names)
