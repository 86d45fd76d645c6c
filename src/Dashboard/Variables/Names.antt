-- ===== src/Dashboard/Variables/Names.antt =====
-- dashboard.go: the names that `normalizeDashboardExpr` reports.
use mathlib.Core.Path.{subst}
use ratatoskr_go.Base.{
  ℕ, zero, suc, ◌≡◌, refl, ap, sym, ◌∙◌, Bool, true, false, not, ◌&&◌, ◌||◌, Option, none, some,
  List, [], ◌∷◌, Text, bytes, member, select, text_eq, text_eq_iff, text_eq_refl, select_in,
  select_out, All, All-append, Bool-cases, inl, inr, arith,
}
use ratatoskr_go.Catalog.Store.Unique.{IsIncreasing, sorted_unique-IsIncreasing}
use ratatoskr_go.Extract.{dashboard_variable_sentinel}
use ratatoskr_go.Dashboard.Calls.{is_grafana_ident_byte}
use ratatoskr_go.Dashboard.Variables.{
  Match, after_literal, interval_variable, word_split, name_match, is_ident_start, close_name,
  open_name, after_dollar, closed, skip_white, skip_format, put_match, dashboard_interval_sentinel,
  bracket_match, braced_match, bare_match, match_width, match_names, replace_all, replaced,
  reserved_dashboard_vars, recorded, passes, normalize_dashboard_expr,
}

-- [A-Za-z_][A-Za-z0-9_]*
abbrev pub all_ident : Text → Bool
all_ident [] = true
all_ident (c ∷ s) = is_grafana_ident_byte c && all_ident s

abbrev pub is_identifier : Text → Bool
is_identifier [] = false
is_identifier (c ∷ s) = is_ident_start c && all_ident s

abbrev AllNames : Match → Type 0
AllNames m = All (λ n. is_identifier n ≡ true) (match_names m)

word_split_ident : (s : Text) → all_ident (word_split s).0 ≡ true
unfolding word_split
word_split_ident [] = refl
word_split_ident (c ∷ s) = ground (arith, word_split_ident s)

name_match-AllNames : (s : Text) → AllNames (name_match s)
unfolding name_match
name_match-AllNames [] = tt
name_match-AllNames (c ∷ s) = elim (Bool-cases (is_ident_start c)) [
  | inl y ↦ rw (y) (ground (arith, y, word_split_ident s), tt)
  | inr n ↦ rw (n) tt
]

closed-AllNames :
    (name : Text) (o : Option Text) → is_identifier name ≡ true → AllNames (closed name o)
closed-AllNames name none h = tt
closed-AllNames name (some rest) h = (h, tt)

close_name-AllNames :
    (stop : ℕ) (end : Text) (m : Match) → AllNames m → AllNames (close_name stop end m)
close_name-AllNames stop end none h = tt
close_name-AllNames stop end (some (name, rest)) h =
    closed-AllNames name (after_literal end (skip_white (skip_format stop rest))) h.0

open_name-AllNames : (stop : ℕ) (end : Text) (o : Option Text) → AllNames (open_name stop end o)
open_name-AllNames stop end none = tt
open_name-AllNames stop end (some s) =
    close_name-AllNames stop end (name_match (skip_white s)) (name_match-AllNames (skip_white s))

after_dollar-AllNames : (o : Option Text) → AllNames (after_dollar o)
after_dollar-AllNames none = tt
after_dollar-AllNames (some s) = name_match-AllNames s

put_match_names :
    (by : Text) (c : ℕ) (found : Match)
    → AllNames found
    → (rest : ℕ → Text × List Text)
    → ((inside : ℕ) → All (λ n. is_identifier n ≡ true) (rest inside).1)
    → (width : ℕ) → All (λ n. is_identifier n ≡ true) (put_match by c found rest width).1
put_match_names by c found h rest k zero = k zero
put_match_names by c found h rest k (suc inside) =
    All-append (λ n. is_identifier n ≡ true) (match_names found) ((rest inside).1) h (k inside)

module _ (find : Text → Match) (by : Text) where
  replace_all_names :
      ((s : Text) → AllNames (find s))
      → (inside : ℕ) (s : Text) → All (λ n. is_identifier n ≡ true) (replace_all find by inside s).1
  unfolding replace_all
  replace_all_names h inside [] = tt
  replace_all_names h (suc inside) (c ∷ s) = replace_all_names h inside s
  replace_all_names h zero (c ∷ s) =
      put_match_names by c (find (c ∷ s)) (h (c ∷ s)) (λ inside. replace_all find by inside s)
        (λ inside. replace_all_names h inside s) (match_width (find (c ∷ s)) (c ∷ s))

passes_names : (expr : Text) → All (λ n. is_identifier n ≡ true) (passes expr).1
unfolding bracket_match braced_match bare_match
passes_names expr =
    let start : Text = (replace_all interval_variable dashboard_interval_sentinel 0 expr).0 in
    let one : Text × List Text = replaced bracket_match (start, []) in
    let two : Text × List Text = replaced braced_match one in
    let names : List Text → Type 0 = All (λ n. is_identifier n ≡ true) in
    let by : Text = dashboard_variable_sentinel in
    let first =
      replace_all_names bracket_match by
        (λ s. open_name-AllNames b']' (bytes "]]") (after_literal (bytes "[[") s)) 0 start in
    let second =
      All-append (λ n. is_identifier n ≡ true) (one.1) ((replace_all braced_match by 0 (one.0)).1)
        first
        (replace_all_names braced_match by
          (λ s. open_name-AllNames b'}' (bytes "}") (after_literal (bytes "${") s)) 0 (one.0)) in
    All-append (λ n. is_identifier n ≡ true) (two.1) ((replace_all bare_match by 0 (two.0)).1)
      second
      (replace_all_names bare_match by (λ s. after_dollar-AllNames (after_literal (bytes "$") s)) 0
        (two.0))

member_in :
    (p : Text → Bool) (x n : Text) (names : List Text)
    → p n ≡ true
    → member x (select p (n ∷ names)) ≡ true
    → (text_eq x n || member x (select p names)) ≡ true
unfolding member
member_in p x n names y m = ap (member x) (sym (select_in p n names y)) ∙ m

found_member :
    (p : Text → Bool) (x n : Text) (names : List Text)
    → is_identifier n ≡ true
    → p n ≡ true
    → (member x (select p names) ≡ true → (p x ≡ true) × (is_identifier x ≡ true))
    → (text_eq x n || member x (select p names)) ≡ true
    → (p x ≡ true) × (is_identifier x ≡ true)
found_member p x n names i y ih m = elim (Bool-cases (text_eq x n)) [
  | inl e ↦
      let same : n ≡ x = sym ((text_eq_iff x n).0 e) in
      (subst (λ z. p z ≡ true) same y, subst (λ z. is_identifier z ≡ true) same i)
  | inr e ↦ ih (ground (arith, e, m))
]

select-member :
    (p : Text → Bool) (x : Text) (names : List Text)
    → All (λ n. is_identifier n ≡ true) names
    → member x (select p names) ≡ true
    → (p x ≡ true) × (is_identifier x ≡ true)
unfolding member
select-member p x [] h m = absurd (ground arith)
select-member p x (n ∷ names) h m = elim (Bool-cases (p n)) [
  | inl y ↦ found_member p x n names h.0 y (select-member p x names h.1) (member_in p x n names y m)
  | inr e ↦ select-member p x names h.1 (ap (member x) (sym (select_out p n names e)) ∙ m)
]

All-of_member :
    {P : Text → Type 0} (xs : List Text) → ((x : Text) → member x xs ≡ true → P x) → All P xs
unfolding member
All-of_member [] h = tt
All-of_member (x ∷ xs) h =
    (h x (ground (arith, text_eq_refl x)), All-of_member xs (λ y m. h y (ground (arith, m))))

recorded_fine :
    (names : List Text)
    → All (λ n. is_identifier n ≡ true) names
    → IsIncreasing (recorded names)
      × All
          (λ n. (is_identifier n ≡ true) × (member n reserved_dashboard_vars ≡ false))
          (recorded names)
recorded_fine names h =
    let kept : Text → Bool = λ n. not (member n reserved_dashboard_vars) in
    let sorted = sorted_unique-IsIncreasing (select kept names) in
    (
      sorted.0,
      All-of_member (recorded names) (λ x m.
          let fine = select-member kept x names h (sym (sorted.1 x) ∙ m) in
          (fine.1, ground (arith, fine.0))),
    )

-- The variables that are reported stand in strictly increasing order, and each is an identifier and
-- not a reserved name.
pub normalize_dashboard_expr-IsIncreasing :
    (expr : Text)
    → IsIncreasing (normalize_dashboard_expr expr).1
      × All
          (λ n. (is_identifier n ≡ true) × (member n reserved_dashboard_vars ≡ false))
          (normalize_dashboard_expr expr).1
unfolding normalize_dashboard_expr
normalize_dashboard_expr-IsIncreasing [] = (tt, tt)
normalize_dashboard_expr-IsIncreasing (c ∷ s) =
    recorded_fine ((passes (c ∷ s)).1) (passes_names (c ∷ s))
