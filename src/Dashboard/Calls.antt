-- ===== src/Dashboard/Calls.antt =====
-- dashboard.go: `splitGrafanaVarCall` and `unwrapPromQLVariableQuery`.
pub mod Pieces
pub mod Split
pub mod Unwrap
use ratatoskr_go.Base.{
  ℕ, zero, suc, ◌+◌, ◌-◌, Bool, true, false, not, ◌&&◌, ◌||◌, Option, none, some, List, [], ◌∷◌,
  ◌++◌, Text, bytes, is_empty, leb, ltb, ◌==◌, text_eq, if◌then◌else◌,
}
use ratatoskr_go.Base.Space.{trim_space}

unfoldable pub is_grafana_ident_byte : ℕ → Bool
is_grafana_ident_byte b =
    b == b'_'
    || (leb b'a' b && leb b b'z')
    || (leb b'A' b && leb b b'Z')
    || (leb b'0' b && leb b b'9')

-- s[:i] and s[i:], where i is the number of bytes of an identifier that s begins with.
abbrev pub longer : ℕ → Text × Text → Text × Text
longer c (name, rest) = (c ∷ name, rest)

unfoldable pub ident_split : Text → Text × Text
ident_split [] = ([], [])
ident_split (c ∷ s) =
    let (name, rest) = ident_split s in
    if is_grafana_ident_byte c then longer c (name, rest) else ([], c ∷ s)

-- The state of the loop: the depths, the quote (0 outside of a string), whether the byte that comes
-- is escaped, the argument so far, and the arguments before it.
pub record Scan : Type 0 where
  pub paren_depth : ℕ
  pub brace_depth : ℕ
  pub bracket_depth : ℕ
  pub quote : ℕ
  pub escaped : Bool
  pub arg : Text
  pub args : List Text

-- One turn of the loop, but for the parenthesis that closes the call; `more` says that another byte
-- comes after c. A byte that does not separate arguments is part of the current one.
abbrev pub kept : Scan → ℕ → Scan
kept st c = record st { arg = st.arg ++ (c ∷ []) }

abbrev pub quoted_step : Scan → ℕ → Bool → Scan
quoted_step st c more =
    if c == 92 && not (st.quote == b'`') && more
    then record st { escaped = true; arg = st.arg ++ (c ∷ []) }
    else if c == st.quote
    then record st { quote = 0; arg = st.arg ++ (c ∷ []) }
    else kept st c

abbrev pub is_quote : ℕ → Bool
is_quote c = c == b'"' || c == 39 || c == b'`'

abbrev pub separates : Scan → ℕ → Bool
separates st c = c == b',' && st.paren_depth == 1 && st.brace_depth == 0 && st.bracket_depth == 0

abbrev pub open_step : Scan → ℕ → Scan
open_step st c =
    if is_quote c
    then record st { quote = c; arg = st.arg ++ (c ∷ []) }
    else if c == b'('
    then record st { paren_depth = st.paren_depth + 1; arg = st.arg ++ (c ∷ []) }
    else if c == b')'
    then record st { paren_depth = st.paren_depth - 1; arg = st.arg ++ (c ∷ []) }
    else if c == b'{'
    then record st { brace_depth = st.brace_depth + 1; arg = st.arg ++ (c ∷ []) }
    else if c == b'}'
    then record st { brace_depth = st.brace_depth - 1; arg = st.arg ++ (c ∷ []) }
    else if c == b'['
    then record st { bracket_depth = st.bracket_depth + 1; arg = st.arg ++ (c ∷ []) }
    else if c == b']'
    then record st { bracket_depth = st.bracket_depth - 1; arg = st.arg ++ (c ∷ []) }
    else if separates st c
    then record st { args = st.args ++ (st.arg ∷ []); arg = [] }
    else kept st c

unfoldable pub scan_step : Scan → ℕ → Bool → Scan
scan_step st c more =
    if st.escaped
    then record st { escaped = false; arg = st.arg ++ (c ∷ []) }
    else if not (st.quote == 0)
    then quoted_step st c more
    else open_step st c

-- The parenthesis that closes the call.
abbrev pub closes : Scan → ℕ → Bool
closes st c = not st.escaped && st.quote == 0 && c == b')' && st.paren_depth == 1

abbrev pub is_nil : List Text → Bool
is_nil [] = true
is_nil (a ∷ args) = false

abbrev pub finish : Scan → Text → Option (List Text)
finish st rest =
    if not (is_empty (trim_space rest))
    then none
    else if not (is_empty st.arg) || not (is_nil st.args)
    then some (st.args ++ (st.arg ∷ []))
    else some st.args

-- The loop, from after the parenthesis that opens the call; none is the result false.
unfoldable pub scan_args : Scan → Text → Option (List Text)
scan_args st [] = none
scan_args st (c ∷ rest) =
    let later : Option (List Text) = scan_args (scan_step st c (not (is_empty rest))) rest in
    if closes st c then finish st rest else later

abbrev pub scan_start : Scan
scan_start = record {
  paren_depth = 1;
  brace_depth = 0;
  bracket_depth = 0;
  quote = 0;
  escaped = false;
  arg = [];
  args = [];
}

abbrev pub call_of : Text → Option (List Text) → Option (Text × List Text)
call_of name none = none
call_of name (some args) = some (name, args)

abbrev pub split_after : Text × Text → Option (Text × List Text)
split_after ([], rest) = none
split_after (c ∷ name, []) = none
split_after (c ∷ name, d ∷ rest) =
    if d == b'(' then call_of (c ∷ name) (scan_args scan_start rest) else none

-- The name and the arguments; none is the result false.
unfoldable pub split_grafana_var_call : Text → Option (Text × List Text)
split_grafana_var_call s = split_after (ident_split s)

-- After the split of a call: none is the result false, which means that there is nothing to parse.
abbrev pub first_of_two : List Text → Option Text
first_of_two (a ∷ b ∷ rest) = some (trim_space a)
first_of_two args = none

abbrev pub first_of : List Text → Option Text
first_of [] = none
first_of (a ∷ rest) = some (trim_space a)

abbrev pub unwrap_call : Text → Option (Text × List Text) → Option Text
unwrap_call expr none = some expr
unwrap_call expr (some (name, args)) =
    if text_eq name (bytes "label_values")
    then first_of_two args
    else if text_eq name (bytes "query_result")
    then first_of args
    else if text_eq name (bytes "metrics") || text_eq name (bytes "label_names")
    then none
    else some expr

unfoldable pub unwrap_promql_variable_query : Text → Option Text
unwrap_promql_variable_query expr = unwrap_call expr (split_grafana_var_call (trim_space expr))
