-- ===== src/Dashboard/Walk/Languages.antt =====
-- dashboard.go: the language of each query, and which extraction it has.
use ratatoskr_go.Base.{
  ◌≡◌, refl, Bool, true, false, ◌&&◌, Option, none, some, List, [], ◌∷◌, Text, bytes, text_eq,
  text_eq_iff, member, arith,
}
use ratatoskr_go.Dashboard.Calls.{unwrap_promql_variable_query}
use ratatoskr_go.Dashboard.Variables.{normalize_dashboard_expr}
use ratatoskr_go.Dashboard.Walk.{
  Extractors, language_for, classify_expr, language_of, fill_target, extract_target, fill_variable,
  extract_variable,
}
use ratatoskr_go.Extract.{DashboardTarget, DashboardVariable}

abbrev pub is_some : {A : Type 0} → Option A → Bool
is_some none = false
is_some (some a) = true

abbrev pub query_languages : List Text
query_languages = bytes "promql" ∷ bytes "logql" ∷ bytes "traceql" ∷ []

language_of_lem : (ds norm : Text) → member (language_of ds norm) query_languages ≡ true
unfolding language_for classify_expr member text_eq
language_of_lem ds norm = ground arith

-- The language is one of the three, and the extraction in a language is there exactly if it is the
-- language.
pub record HasItsLanguage (t : DashboardTarget) : Type 0 where
  pub one_of : member t.language query_languages ≡ true
  pub has_promql : is_some t.promql ≡ text_eq t.language (bytes "promql")
  pub has_logql : is_some t.logql ≡ text_eq t.language (bytes "logql")
  pub has_traceql : is_some t.traceql ≡ text_eq t.language (bytes "traceql")

-- A text is one of two different texts at most.
text_eq-one : (l a b : Text) → text_eq a b ≡ false → text_eq l a ≡ true → text_eq l b ≡ false
text_eq-one l a b h k = ground (arith, h, text_eq_iff l a, k)

text_eq_languages :
    (l : Text)
    → (text_eq l (bytes "promql") ≡ true → text_eq l (bytes "logql") ≡ false)
      × (text_eq l (bytes "promql") ≡ true → text_eq l (bytes "traceql") ≡ false)
      × (text_eq l (bytes "logql") ≡ true → text_eq l (bytes "traceql") ≡ false)
unfolding text_eq
text_eq_languages l = (
  text_eq-one l (bytes "promql") (bytes "logql") refl,
  text_eq-one l (bytes "promql") (bytes "traceql") refl,
  text_eq-one l (bytes "logql") (bytes "traceql") refl,
)

fill_target-HasItsLanguage :
    (x : Extractors) (norm : Text) (t : DashboardTarget)
    → member t.language query_languages ≡ true
    → t.promql ≡ none
    → t.logql ≡ none
    → t.traceql ≡ none
    → HasItsLanguage (fill_target x norm t)
fill_target-HasItsLanguage x norm t h p l r =
    let apart = text_eq_languages t.language in ground (arith, apart.0, apart.1, apart.2)

-- The same of a variable, whose PromQL extraction is there only if its query leaves something to
-- parse.
pub record VariableHasItsLanguage (norm : Text) (v : DashboardVariable) : Type 0 where
  pub one_of : member v.language query_languages ≡ true
  pub has_promql :
      is_some v.promql
      ≡ (text_eq v.language (bytes "promql") && is_some (unwrap_promql_variable_query norm))
  pub has_logql : is_some v.logql ≡ text_eq v.language (bytes "logql")
  pub has_traceql : is_some v.traceql ≡ text_eq v.language (bytes "traceql")

fill_variable-HasItsLanguage :
    (x : Extractors) (norm : Text) (v : DashboardVariable)
    → member v.language query_languages ≡ true
    → v.promql ≡ none
    → v.logql ≡ none
    → v.traceql ≡ none
    → VariableHasItsLanguage norm (fill_variable x norm v)
fill_variable-HasItsLanguage x norm v h p l r =
    let apart = text_eq_languages v.language in ground (arith, apart.0, apart.1, apart.2)

-- Every target and every variable with a query gets one of the three languages, never "unknown"; a
-- target has an extraction in its language and in no other, and so has a variable, except that in
-- PromQL it has none if its query leaves nothing to parse.
pub extract-HasItsLanguage :
    (x : Extractors) (ref_id name kind ds expr : Text)
    → HasItsLanguage (extract_target x ref_id ds expr)
      × VariableHasItsLanguage
          (normalize_dashboard_expr expr).0
          (extract_variable x name kind ds expr)
unfolding extract_target extract_variable
extract-HasItsLanguage x ref_id name kind ds expr =
    let norm : Text = (normalize_dashboard_expr expr).0 in
    (
      fill_target-HasItsLanguage x norm _ (language_of_lem ds norm) refl refl refl,
      fill_variable-HasItsLanguage x norm _ (language_of_lem ds norm) refl refl refl,
    )
