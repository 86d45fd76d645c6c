-- ===== src/Tests/Panels.antt =====
-- The extraction of dashboards at concrete inputs.
use ratatoskr_go.Base.{
  ◌≡◌, refl, true, false, none, some, [], ◌∷◌, ◌++◌, map, Text, bytes, is_empty, text_eq, text_lt,
  member, contains, has_prefix, All,
}
use ratatoskr_go.Base.Int.{pos}
use ratatoskr_go.Base.Sort.{sort_stable}
use ratatoskr_go.Base.Space.{trim_space}
use ratatoskr_go.Catalog.Store.{sorted_unique, unique_after}
use ratatoskr_go.Catalog.Store.Unique.{IsIncreasing}
use ratatoskr_go.Dashboard.Calls.{
  is_grafana_ident_byte, split_grafana_var_call, unwrap_promql_variable_query,
}
use ratatoskr_go.Dashboard.Calls.Pieces.{Pieces, done, byte, string, group, plain, curly, IsFine}
use ratatoskr_go.Dashboard.Calls.Split.{split_grafana_var_call-show}
use ratatoskr_go.Dashboard.Calls.Unwrap.{unwrap_promql_variable_query-show}
use ratatoskr_go.Dashboard.Variables.{
  after_literal, interval_match, skip_white, word_split, name_match, skip_to, bracket_match,
  braced_match, bare_match, replace_all, reserved_dashboard_vars, normalize_dashboard_expr,
}
use ratatoskr_go.Dashboard.Variables.Names.{is_identifier, normalize_dashboard_expr-IsIncreasing}
use ratatoskr_go.Dashboard.Variables.Quiet.{normalize_dashboard_expr_quiet}
use ratatoskr_go.Dashboard.Walk.{
  GrafanaPanels, no_panels, panel, Json, Extractors, walk, extract_target, extract_variable,
}
use ratatoskr_go.Dashboard.Walk.Languages.{
  HasItsLanguage, VariableHasItsLanguage, extract-HasItsLanguage,
}
use ratatoskr_go.Dashboard.Walk.Leaves.{is_row, leaves, leaf_panel, walk-leaves}

-- up{a="x,y"} and job
abbrev first_argument : Pieces
first_argument = byte b'u' (
    byte b'p' (
      group curly
        (byte b'a' (byte b'=' (string b'"' (plain b'x' ∷ plain b',' ∷ plain b'y' ∷ []) done)))
        done))

abbrev second_argument : Pieces
second_argument = byte b' ' (byte b'j' done)

abbrev call : Text
call = bytes "label_values(up{a=\"x,y\"}, j)"

arguments-IsFine : All (IsFine false) (first_argument ∷ second_argument ∷ [])
arguments-IsFine = (
  (
    refl,
    refl,
    (refl, refl, ((refl, refl, (refl, refl, (refl, (refl, (refl, (refl, tt))), tt))), tt)),
  ),
  ((refl, refl, (refl, refl, tt)), tt),
)

name_ident : All (λ d. is_grafana_ident_byte d ≡ true) (bytes "label_values")
unfolding is_grafana_ident_byte
name_ident = (
  refl,
  (refl, (refl, (refl, (refl, (refl, (refl, (refl, (refl, (refl, (refl, (refl, tt))))))))))),
)

split_grafana_var_call-show_example :
    split_grafana_var_call (call ++ bytes " ")
    ≡ some (bytes "label_values", bytes "up{a=\"x,y\"}" ∷ bytes " j" ∷ [])
unfolding is_grafana_ident_byte trim_space
split_grafana_var_call-show_example =
    split_grafana_var_call-show b'l' (bytes "abel_values") first_argument (second_argument ∷ [])
      (bytes " ") name_ident arguments-IsFine refl

unwrap_promql_variable_query-show_example :
    unwrap_promql_variable_query call ≡ some (bytes "up{a=\"x,y\"}")
unfolding is_grafana_ident_byte trim_space text_eq unwrap_promql_variable_query has_prefix
unwrap_promql_variable_query-show_example =
    unwrap_promql_variable_query-show b'l' (bytes "abel_values") first_argument
      (second_argument ∷ []) name_ident arguments-IsFine

normalize_dashboard_expr_quiet_example :
    normalize_dashboard_expr (bytes "rate(up[5m])") ≡ (bytes "rate(up[5m])", [])
unfolding contains has_prefix
normalize_dashboard_expr_quiet_example =
    normalize_dashboard_expr_quiet (bytes "rate(up[5m])") refl refl

abbrev templated : Text
templated = bytes "rate(x{a=~\"$b\"}[$__rate_interval]) [[ job:raw ]] ${b:x} $$d ${__from}"

normalized : normalize_dashboard_expr templated ≡ (
  bytes "rate(x{a=~\"__ratatoskr_dashboard_var__\"}[5m]) __ratatoskr_dashboard_var__ "
      ++ bytes
          "__ratatoskr_dashboard_var__ $__ratatoskr_dashboard_var__ __ratatoskr_dashboard_var__",
  bytes "b" ∷ bytes "d" ∷ bytes "job" ∷ [],
)
unfolding normalize_dashboard_expr replace_all bare_match braced_match bracket_match skip_to
    name_match word_split skip_white interval_match after_literal sorted_unique unique_after
    sort_stable member text_eq text_lt is_grafana_ident_byte
normalized = refl

normalize_dashboard_expr-IsIncreasing_example :
    IsIncreasing (normalize_dashboard_expr templated).1
    × All
        (λ n. (is_identifier n ≡ true) × (member n reserved_dashboard_vars ≡ false))
        (normalize_dashboard_expr templated).1
normalize_dashboard_expr-IsIncreasing_example = normalize_dashboard_expr-IsIncreasing templated

-- Raw messages that hold a string each.
abbrev strings : Json Text
strings = record {
  is_blank = is_empty;
  as_string = some;
  type_of = λ s. none;
  query_of = λ s. none;
  lower = λ s. s;
}

abbrev extractors : Extractors
extractors = record {
  extract_promql = λ s. (
    record { expr = s; metric_refs = []; selectors = []; at_modifiers = []; functions = [] },
    none,
  );
  extract_logql = λ s. (
    record {
      expr = s;
      stream_selectors = [];
      line_filters = [];
      label_filters = [];
      parsers = [];
      functions = [];
    },
    none,
  );
  extract_traceql = λ s. (
    record { expr = s; attributes = []; intrinsics = []; functions = []; matchers = [] },
    some (bytes "no"),
  );
}

-- A row with a panel, and a panel after it.
abbrev tree : GrafanaPanels Text
tree =
    panel
      (record {
        id = pos 1;
        title = [];
        kind = bytes "row";
        datasource = bytes "loki";
        targets = [];
      })
      (panel (record { id = pos 2; title = []; kind = bytes "logs"; datasource = []; targets = [] })
        no_panels no_panels)
      (panel
        (record {
          id = pos 3;
          title = [];
          kind = bytes "graph";
          datasource = bytes "mimir";
          targets =
              record {
                ref_id = bytes "A";
                datasource = [];
                expr = bytes "up";
                query = [];
                query_type = [];
              }
              ∷ [];
        })
        no_panels no_panels)

walk-leaves_example :
    (walk extractors strings tree []
      ≡ map (leaf_panel extractors strings) (leaves extractors strings [] tree))
    × All (λ e. is_row extractors strings e.0 ≡ false) (leaves extractors strings [] tree)
walk-leaves_example = walk-leaves extractors strings tree

extract-HasItsLanguage_example :
    HasItsLanguage (extract_target extractors (bytes "A") (bytes "tempo") (bytes "{}"))
    × VariableHasItsLanguage
        (normalize_dashboard_expr (bytes "{}")).0
        (extract_variable extractors (bytes "v") (bytes "query") (bytes "tempo") (bytes "{}"))
extract-HasItsLanguage_example =
    extract-HasItsLanguage extractors (bytes "A") (bytes "v") (bytes "query") (bytes "tempo")
      (bytes "{}")
