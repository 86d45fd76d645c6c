-- ===== src/Dashboard/Calls/Unwrap.antt =====
-- dashboard.go: what is left to parse of the query of a variable.
use mathlib.Core.List.{append_assoc}
use ratatoskr_go.Base.{
  ℕ, ◌≡◌, refl, ap, sym, ◌∙◌, Bool, true, false, ◌&&◌, ◌||◌, Option, none, some, List, [], ◌∷◌,
  ◌++◌, map, Text, bytes, is_empty, text_eq, All, if◌then◌else◌, arith,
}
use ratatoskr_go.Base.Space.{trim_space, is_solid, trim_space-solid}
use ratatoskr_go.Dashboard.Calls.{
  is_nil, is_grafana_ident_byte, unwrap_call, split_grafana_var_call, unwrap_promql_variable_query,
}
use ratatoskr_go.Dashboard.Calls.Pieces.{Pieces, show, IsFine}
use ratatoskr_go.Dashboard.Calls.Split.{show_rest, split_grafana_var_call-show}

ident-is_solid : (c : ℕ) → is_grafana_ident_byte c ≡ true → is_solid c ≡ true
unfolding is_grafana_ident_byte
ident-is_solid c h = ground arith

-- The end of a call is a parenthesis.
all_but_end : List Pieces → Text
all_but_end [] = []
all_but_end (p ∷ ps) = b',' ∷ (show p ++ all_but_end ps)

show_rest-end : (ps : List Pieces) → show_rest ps [] ≡ all_but_end ps ++ (b')' ∷ [])
unfolding all_but_end
show_rest-end [] = refl
show_rest-end (p ∷ ps) =
    ap (λ x. b',' ∷ (show p ++ x)) (show_rest-end ps)
    ∙ ap (λ x. b',' ∷ x) (sym (append_assoc (show p) (all_but_end ps) (b')' ∷ [])))

abbrev pub written_call : ℕ → Text → Pieces → List Pieces → Text
written_call c name p ps = c ∷ (name ++ (b'(' ∷ (show p ++ show_rest ps [])))

call_end :
    (c : ℕ) (name : Text) (p : Pieces) (ps : List Pieces)
    → written_call c name p ps ≡ c ∷ ((name ++ (b'(' ∷ (show p ++ all_but_end ps))) ++ (b')' ∷ []))
call_end c name p ps =
    ap (λ x. c ∷ (name ++ (b'(' ∷ (show p ++ x)))) (show_rest-end ps)
    ∙ (ap (λ x. c ∷ (name ++ (b'(' ∷ x))) (sym (append_assoc (show p) (all_but_end ps) (b')' ∷ [])))
        ∙ ap (λ x. c ∷ x) (sym (append_assoc name (b'(' ∷ (show p ++ all_but_end ps)) (b')' ∷ []))))

call-trimmed :
    (c : ℕ) (name : Text) (p : Pieces) (ps : List Pieces)
    → is_grafana_ident_byte c ≡ true
    → trim_space (written_call c name p ps) ≡ written_call c name p ps
call-trimmed c name p ps h =
    ap trim_space (call_end c name p ps)
    ∙ (trim_space-solid c b')' (name ++ (b'(' ∷ (show p ++ all_but_end ps))) (ident-is_solid c h)
          refl
        ∙ sym (call_end c name p ps))

-- What is to be parsed of a call with the first argument `first`; `one` says that it is the only one.
abbrev pub inner_query : Text → Text → Bool → Text → Option Text
inner_query name first one whole =
    if text_eq name (bytes "label_values")
    then (if one then none else some (trim_space first))
    else if text_eq name (bytes "query_result")
    then (if one && is_empty first then none else some (trim_space first))
    else if text_eq name (bytes "metrics") || text_eq name (bytes "label_names")
    then none
    else some whole

inner_query_lem :
    (whole name first : Text) (rest : List Text)
    → unwrap_call whole (some (name, if is_empty first && is_nil rest then [] else first ∷ rest))
      ≡ inner_query name first (is_nil rest) whole
inner_query_lem whole name [] [] = ground arith
inner_query_lem whole name [] (b ∷ rest) = ground arith
inner_query_lem whole name (a ∷ first) [] = ground arith
inner_query_lem whole name (a ∷ first) (b ∷ rest) = ground arith

-- Of a written call with fine arguments: `label_values` with two or more arguments leaves the first,
-- trimmed, and with one nothing; `query_result` leaves its first argument, trimmed, and nothing if it
-- has none; `metrics` and `label_names` leave nothing; every other call is left as a whole.
pub unwrap_promql_variable_query-show :
    (c : ℕ) (name : Text) (p : Pieces) (ps : List Pieces)
    → All (λ d. is_grafana_ident_byte d ≡ true) (c ∷ name)
    → All (IsFine false) (p ∷ ps)
    → unwrap_promql_variable_query (written_call c name p ps)
      ≡ inner_query (c ∷ name) (show p) (is_nil (map show ps)) (written_call c name p ps)
unfolding unwrap_promql_variable_query trim_space
unwrap_promql_variable_query-show c name p ps h f =
    let whole : Text = written_call c name p ps in
    ap (λ x. unwrap_call whole (split_grafana_var_call x)) (call-trimmed c name p ps h.0)
    ∙ (ap (unwrap_call whole) (split_grafana_var_call-show c name p ps [] h f refl)
        ∙ inner_query_lem whole (c ∷ name) (show p) (map show ps))
