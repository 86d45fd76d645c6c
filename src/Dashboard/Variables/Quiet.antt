-- ===== src/Dashboard/Variables/Quiet.antt =====
-- dashboard.go: the texts that `normalizeDashboardExpr` leaves alone.
use ratatoskr_go.Base.{
  ◌≡◌, refl, ap, ◌∙◌, false, none, List, [], ◌∷◌, ◌++◌, Text, bytes, has_prefix, contains, arith,
}
use ratatoskr_go.Base.Sort.{sort_stable}
use ratatoskr_go.Catalog.Store.{sorted_unique}
use ratatoskr_go.Extract.{dashboard_variable_sentinel}
use ratatoskr_go.Dashboard.Variables.{
  Match, after_literal, interval_match, interval_variable, open_name, after_dollar, put_match,
  dashboard_interval_sentinel, bracket_match, braced_match, bare_match, match_width, put_front,
  replace_all, replaced, recorded, passes, normalize_dashboard_expr,
}

module _ (find : Text → Match) (by : Text) where
  -- Where no match begins with the text p, a text without p is left as it is.
  replace_all_quiet :
      (p : Text)
      → ((s : Text) → has_prefix p s ≡ false → find s ≡ none)
      → (s : Text) → contains p s ≡ false
      → replace_all find by 0 s ≡ (s, [])
  unfolding replace_all contains
  replace_all_quiet p h [] k = refl
  replace_all_quiet p h (c ∷ s) k =
      let here : find (c ∷ s) ≡ none = h (c ∷ s) (ground arith) in
      ap (λ m. put_match by c m (λ inside. replace_all find by inside s) (match_width m (c ∷ s)))
        here
      ∙ ap (put_front (c ∷ []) []) (replace_all_quiet p h s (ground arith))

literal_quiet : (p q s : Text) → has_prefix p s ≡ false → after_literal (p ++ q) s ≡ none
unfolding after_literal has_prefix
literal_quiet [] q s h = absurd (ground arith)
literal_quiet (c ∷ p) q [] h = refl
literal_quiet (c ∷ p) q (d ∷ s) h = ground (arith, literal_quiet p q s)

abbrev dollar : Text
dollar = bytes "$"

interval_quiet : (s : Text) → has_prefix dollar s ≡ false → interval_variable s ≡ none
unfolding interval_match
interval_quiet s h = ground (
  arith,
  literal_quiet dollar (bytes "__rate_interval") s h,
  literal_quiet dollar (bytes "__range") s h,
  literal_quiet dollar (bytes "__interval_ms") s h,
  literal_quiet dollar (bytes "__interval") s h,
)

bracket_quiet : (s : Text) → has_prefix (bytes "[[") s ≡ false → bracket_match s ≡ none
unfolding bracket_match
bracket_quiet s h = ap (open_name b']' (bytes "]]")) (literal_quiet (bytes "[[") [] s h)

braced_quiet : (s : Text) → has_prefix dollar s ≡ false → braced_match s ≡ none
unfolding braced_match
braced_quiet s h = ap (open_name b'}' (bytes "}")) (literal_quiet dollar (bytes "{") s h)

bare_quiet : (s : Text) → has_prefix dollar s ≡ false → bare_match s ≡ none
unfolding bare_match
bare_quiet s h = ap after_dollar (literal_quiet dollar [] s h)

replaced_quiet :
    (find : Text → Match) (p s : Text)
    → ((t : Text) → has_prefix p t ≡ false → find t ≡ none)
    → contains p s ≡ false
    → replaced find (s, []) ≡ (s, [])
replaced_quiet find p s h k =
    ap (λ (r : Text × List Text). (r.0, r.1))
      (replace_all_quiet find dashboard_variable_sentinel p h s k)

-- An expression with no dollar sign and no two opening brackets in a row is left as it is, and has no
-- variables.
pub normalize_dashboard_expr_quiet :
    (expr : Text)
    → contains (bytes "$") expr ≡ false
    → contains (bytes "[[") expr ≡ false
    → normalize_dashboard_expr expr ≡ (expr, [])
unfolding normalize_dashboard_expr sorted_unique sort_stable
normalize_dashboard_expr_quiet [] h k = refl
normalize_dashboard_expr_quiet (c ∷ s) h k =
    let expr : Text = c ∷ s in
    let first : passes expr ≡ (expr, []) =
      ap
        (λ (r : Text × List Text).
          replaced bare_match (replaced braced_match (replaced bracket_match (r.0, []))))
        (replace_all_quiet interval_variable dashboard_interval_sentinel dollar interval_quiet expr
          h)
      ∙ (ap (λ r. replaced bare_match (replaced braced_match r))
            (replaced_quiet bracket_match (bytes "[[") expr bracket_quiet k)
          ∙ (ap (replaced bare_match) (replaced_quiet braced_match dollar expr braced_quiet h)
              ∙ replaced_quiet bare_match dollar expr bare_quiet h)) in
    ap (λ (r : Text × List Text). (r.0, recorded r.1)) first
