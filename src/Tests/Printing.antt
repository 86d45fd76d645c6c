-- ===== src/Tests/Printing.antt =====
-- The subcommands on a standard input of three lines.
use ratatoskr_go.Base.{
  ◌≡◌, refl, inl, inr, none, some, List, [], ◌∷◌, Text, bytes, text_eq, if◌then◌else◌,
}
use ratatoskr_go.Base.Calls.{◌>>=◌}
use ratatoskr_go.Extract.{PromResult}
use ratatoskr_go.Main.Lines.{
  promql_language, object_of, moved, expressions, without_empty, main-expr,
}
use ratatoskr_go.Main.{
  Process, Tools, error_line, main, run, run_dashboard, run_file_subcommand, encode_paths,
  encode_path,
}

abbrev result_for : Text → PromResult
result_for e = record {
  expr = e;
  metric_refs = e ∷ [];
  selectors = [];
  at_modifiers = [];
  functions = [];
}

-- Every PromQL expression but "b(" parses, and no other query does. A reader is its lines.
abbrev tools : Tools (List Text)
tools = record {
  parse_args = λ args. inr args;
  open_file = λ path. inl (bytes "no such file");
  quoted = λ s. s;
  encode_error = λ out o. none;
  scan = λ lines. ((lines, none), []);
  extractors = record {
    extract_promql =
        λ e. (result_for e, if text_eq e (bytes "b(") then some (bytes "unclosed") else none);
    extract_logql = λ e. (
      record {
        expr = e;
        stream_selectors = [];
        line_filters = [];
        label_filters = [];
        parsers = [];
        functions = [];
      },
      some (bytes "syntax error"),
    );
    extract_traceql = λ e. (
      record { expr = e; attributes = []; intrinsics = []; functions = []; matchers = [] },
      some (bytes "syntax error"),
    );
  };
  extract_promql_rule_file = λ r. ((record { path = []; groups = [] }, none), []);
  extract_logql_rule_file = λ r. ((record { path = []; groups = [] }, none), []);
  extract_dashboard =
      λ r. ((record { path = []; title = []; uid = []; panels = []; variables = [] }, none), []);
}

abbrev process : Process (List Text)
process = record { stdin = bytes "b(" ∷ [] ∷ bytes "c" ∷ []; stdout = []; stderr = [] }

main-expr_example :
    main tools
      (λ args. 0)
      (bytes "promql" ∷ bytes "expr" ∷ bytes "a" ∷ bytes "-" ∷ bytes "d" ∷ bytes "-" ∷ [])
      process
    ≡ (
      0,
      moved tools
          (object_of tools.extractors promql_language)
          process
          (expressions tools (bytes "a" ∷ bytes "-" ∷ bytes "d" ∷ bytes "-" ∷ []) process.stdin),
    )
main-expr_example =
    main-expr tools (λ args. 0) promql_language (bytes "a" ∷ bytes "-" ∷ bytes "d" ∷ bytes "-" ∷ [])
      (bytes "a") (bytes "-" ∷ bytes "d" ∷ bytes "-" ∷ []) process (λ out o. refl) (λ r. refl) refl

-- The second "-" finds nothing left.
read_once :
    expressions tools (bytes "a" ∷ bytes "-" ∷ bytes "d" ∷ bytes "-" ∷ []) process.stdin
    ≡ (bytes "a" ∷ bytes "b(" ∷ bytes "c" ∷ bytes "d" ∷ [], [])
unfolding expressions without_empty text_eq
read_once = refl

missing_file :
    main tools (λ args. 0) (bytes "dashboard" ∷ bytes "x" ∷ []) process
    ≡ (1, record process { stderr = error_line (bytes "ratatoskr: open x: no such file") ∷ [] })
unfolding main run run_dashboard run_file_subcommand encode_paths encode_path ◌>>=◌ text_eq
missing_file = refl

refused_command : main tools (λ args. 2) (bytes "lint" ∷ []) process ≡ (2, process)
unfolding main run text_eq
refused_command = refl
