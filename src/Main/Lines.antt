-- ===== src/Main/Lines.antt =====
-- The lines that an extraction of expressions prints.
use mathlib.Core.List.{append_assoc, append-nil, map-append}
use ratatoskr_go.Base.{
  ℕ, Bool, true, false, ◌≡◌, refl, sym, ap, ◌∙◌, inr, none, List, [], ◌∷◌, ◌++◌, map, Text, bytes,
  is_empty, text_eq, if◌then◌else◌,
}
use ratatoskr_go.Base.Calls.{continue, ◌>>=◌, ◌>>◌}
use ratatoskr_go.Dashboard.Walk.{Extractors}
use ratatoskr_go.Main.{
  Object, promql, logql, traceql, Printed, json_line, Process, Tools, dash, Action, encode_line,
  emit_promql, emit_logql, emit_traceql, emit_lines, stream_exprs, emit_args, run_expr_subcommand,
  run_promql, run_logql, run_traceql, run, main, failed, exited,
}

-- The languages of the subcommands `expr`.
pub data Language : Type 0 where
  promql_language logql_language traceql_language : Language

abbrev pub command_of : Language → Text
command_of promql_language = bytes "promql"
command_of logql_language = bytes "logql"
command_of traceql_language = bytes "traceql"

-- What is printed for an expression, whether it parses or not.
abbrev pub object_of : Extractors → Language → Text → Object
object_of x promql_language e = promql (x.extract_promql e)
object_of x logql_language e = logql (x.extract_logql e)
object_of x traceql_language e = traceql (x.extract_traceql e)

unfoldable pub without_empty : List Text → List Text
without_empty [] = []
without_empty (line ∷ lines) =
    if is_empty line then without_empty lines else line ∷ without_empty lines

module _ {In : Type 0} (tools : Tools In) where
  abbrev pub expressions_of : Text → In → List Text × In
  expressions_of arg s =
      if text_eq arg dash
      then (without_empty (tools.scan s).0.0, (tools.scan s).1)
      else (arg ∷ [], s)

  -- The expressions that the arguments name, and what is left of standard input.
  unfoldable pub expressions : List Text → In → List Text × In
  expressions [] s = ([], s)
  expressions (arg ∷ args) s =
      let (here, t) = expressions_of arg s in
      let (later, rest) = expressions args t in (here ++ later, rest)

  abbrev pub printed : (Text → Object) → List Text → Process In → Process In
  printed g es p = record p { stdout = p.stdout ++ map (λ e. json_line (g e)) es }

  -- The process after lines for the first of the pair, with the second left of standard input.
  abbrev pub moved : (Text → Object) → Process In → List Text × In → Process In
  moved g p (es, rest) = record p {
    stdin = rest;
    stdout = p.stdout ++ map (λ e. json_line (g e)) es;
  }

  then_lem : (m n : Action tools) (p q : Process In) → m p ≡ (inr tt, q) → (m >> n) p ≡ n q
  unfolding ◌>>=◌
  then_lem m n p q h = ap (continue (λ _. n)) h

  module _ (encodes : (out : List Printed) (o : Object) → tools.encode_error out o ≡ none)
      (scans : (r : In) → (tools.scan r).0.1 ≡ none) (g : Text → Object) where
    abbrev emit : Text → Action tools
    emit e = encode_line tools (g e)

    emit_one : (e : Text) (p : Process In) → emit e p ≡ (inr tt, printed g (e ∷ []) p)
    unfolding encode_line
    emit_one e p = rw (encode_line, encodes p.stdout (g e)) refl

    printed-printed :
        (es fs : List Text) (p : Process In)
        → printed g fs (printed g es p) ≡ printed g (es ++ fs) p
    printed-printed es fs p =
        ap (λ out. record p { stdout = out })
          (append_assoc p.stdout (map (λ e. json_line (g e)) es) (map (λ e. json_line (g e)) fs)
            ∙ ap (λ out. p.stdout ++ out) (sym (map-append (λ e. json_line (g e)) es fs)))

    printed-none : (p : Process In) → p ≡ printed g [] p
    printed-none p = ap (λ out. record p { stdout = out }) (sym (append-nil p.stdout))

    line_step :
        (skip : Bool) (line : Text) (rest : Action tools) (es : List Text)
        → ((p : Process In) → rest p ≡ (inr tt, printed g es p))
        → (p : Process In)
        → (if skip then rest else (emit line >> rest)) p
          ≡ (inr tt, printed g (if skip then es else line ∷ es) p)
    line_step true line rest es h p = h p
    line_step false line rest es h p =
        then_lem (emit line) rest p _ (emit_one line p)
        ∙ h (printed g (line ∷ []) p)
        ∙ ap (λ q. (inr tt, q)) (printed-printed (line ∷ []) es p)

    emit_lines_lem :
        (lines : List Text) (p : Process In)
        → emit_lines tools emit lines none p ≡ (inr tt, printed g (without_empty lines) p)
    unfolding emit_lines without_empty
    emit_lines_lem [] p = ap (λ q. (inr tt, q)) (printed-none p)
    emit_lines_lem (line ∷ lines) p =
        line_step (is_empty line) line (emit_lines tools emit lines none) (without_empty lines)
          (emit_lines_lem lines) p

    arg_step :
        (stream : Bool) (arg : Text) (p : Process In)
        → (if stream then stream_exprs tools emit else emit arg) p ≡ (
          inr tt,
          moved g p (
              if stream
              then (without_empty (tools.scan p.stdin).0.0, (tools.scan p.stdin).1)
              else (arg ∷ [], p.stdin)),
        )
    unfolding stream_exprs
    arg_step true arg p =
        let (lines, err) = (tools.scan p.stdin).0 in
        let q : Process In = record p { stdin = (tools.scan p.stdin).1 } in
        ap (λ e. emit_lines tools emit lines e q) (scans p.stdin) ∙ emit_lines_lem lines q
    arg_step false arg p = emit_one arg p

    emit_args_lem :
        (args : List Text) (p : Process In)
        → emit_args tools emit args p ≡ (inr tt, moved g p (expressions args p.stdin))
    unfolding emit_args expressions
    emit_args_lem [] p = ap (λ q. (inr tt, q)) (printed-none p)
    emit_args_lem (arg ∷ args) p =
        let here : List Text × In = expressions_of arg p.stdin in
        let later : List Text × In = expressions args here.1 in
        then_lem (if text_eq arg dash then stream_exprs tools emit else emit arg)
          (emit_args tools emit args) p (moved g p here) (arg_step (text_eq arg dash) arg p)
        ∙ emit_args_lem args (moved g p here)
        ∙ ap (λ q. (inr tt, q)) (printed-printed here.0 later.0 (record p { stdin = later.1 }))

    run_expr_lem :
        (name : Text) (args : List Text) (arg : Text) (rest : List Text) (p : Process In)
        → tools.parse_args args ≡ inr (arg ∷ rest)
        → run_expr_subcommand tools name args emit p
          ≡ (inr tt, moved g p (expressions (arg ∷ rest) p.stdin))
    unfolding run_expr_subcommand
    run_expr_lem name args arg rest p h = rw (run_expr_subcommand, h) (emit_args_lem (arg ∷ rest) p)

  -- Where the encoder and the scanner meet no error, a subcommand `expr` prints one line for each
  -- expression that its arguments name, in order, whether the expression parses or not, and exits
  -- with 0.
  pub main-expr :
      (cli_run : List Text → ℕ) (l : Language) (args : List Text) (arg : Text) (rest : List Text)
      (p : Process In)
      → ((out : List Printed) (o : Object) → tools.encode_error out o ≡ none)
      → ((r : In) → (tools.scan r).0.1 ≡ none)
      → tools.parse_args args ≡ inr (arg ∷ rest)
      → main tools cli_run (command_of l ∷ bytes "expr" ∷ args) p
        ≡ (0, moved (object_of tools.extractors l) p (expressions (arg ∷ rest) p.stdin))
  unfolding main run run_promql run_logql run_traceql emit_promql emit_logql emit_traceql text_eq
  main-expr cli_run promql_language args arg rest p encodes scans h =
      ap (λ r. exited tools cli_run (failed tools r))
        (run_expr_lem encodes scans (object_of tools.extractors promql_language)
          (bytes "promql expr") args arg rest p h)
  main-expr cli_run logql_language args arg rest p encodes scans h =
      ap (λ r. exited tools cli_run (failed tools r))
        (run_expr_lem encodes scans (object_of tools.extractors logql_language) (bytes "logql expr")
          args arg rest p h)
  main-expr cli_run traceql_language args arg rest p encodes scans h =
      ap (λ r. exited tools cli_run (failed tools r))
        (run_expr_lem encodes scans (object_of tools.extractors traceql_language)
          (bytes "traceql expr") args arg rest p h)
