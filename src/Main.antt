-- ===== src/Main.antt =====
-- cmd/ratatoskr/main.go: the subcommands that extract, their loops over arguments, lines and files,
-- and the exit status.
pub mod Lines
use ratatoskr_go.Base.{
  ℕ, ◌||◌, ◌==◌, ◌⊎◌, inl, inr, Option, none, some, List, [], ◌∷◌, ◌++◌, Text, bytes, is_empty,
  text_eq, if◌then◌else◌,
}
use ratatoskr_go.Base.Calls.{Call, pure, fail, ◌>>=◌, ◌>>◌}
use ratatoskr_go.Dashboard.Walk.{Extractors}
use ratatoskr_go.Extract.{PromResult, LogResult, TraceResult, RuleFileResult, DashboardResult}

-- What one line of JSON encodes: a result and an error, if there is one.
pub data Object : Type 0 where
  promql : PromResult × Option Text → Object
  logql : LogResult × Option Text → Object
  traceql : TraceResult × Option Text → Object
  prom_rules : RuleFileResult PromResult × Option Text → Object
  loki_rules : RuleFileResult LogResult × Option Text → Object
  dashboard : DashboardResult × Option Text → Object

pub data Printed : Type 0 where
  json_line : Object → Printed
  help_text version_line : Printed
  error_line : Text → Printed

-- The readers are of a type In: `stdin` is what is left of standard input, and an opened file is a
-- reader too. The two lists are what was printed, in order.
pub record Process (In : Type 0) : Type 0 where
  pub stdin : In
  pub stdout : List Printed
  pub stderr : List Printed

-- What the subcommands call: a flag set without flags, os.Open, the error that the encoder meets
-- after what was printed, and the extractors, of files from a reader. `scan` is a bufio.Scanner with
-- its buffer of 4 MB: the lines, the error at their end, and what is left of the reader. `quoted` is
-- the verb %q.
pub record Tools (In : Type 0) : Type 0 where
  pub parse_args : List Text → Text ⊎ List Text
  pub open_file : Text → Text ⊎ In
  pub quoted : Text → Text
  pub encode_error : List Printed → Object → Option Text
  pub scan : In → (List Text × Option Text) × In
  pub extractors : Extractors
  pub extract_promql_rule_file : In → (RuleFileResult PromResult × Option Text) × In
  pub extract_logql_rule_file : In → (RuleFileResult LogResult × Option Text) × In
  pub extract_dashboard : In → (DashboardResult × Option Text) × In

-- An error that `run` returns: an exitCodeErr, or a message.
pub data Failure : Type 0 where
  exit_code_err : ℕ → Failure
  message : Text → Failure

abbrev pub dash : Text
dash = bytes "-"

module _ {In : Type 0} (tools : Tools In) where
  -- A call that only prints or fails.
  abbrev pub Action : Type 0
  Action = Call (Process In) (Unit {0})

  unfoldable pub encode_line : Object → Action
  encode_line o p = elim (tools.encode_error p.stdout o) [
    | some err ↦ (inl err, p)
    | none ↦ (inr tt, record p { stdout = p.stdout ++ (json_line o ∷ []) })
  ]

  unfoldable pub emit_promql : Text → Action
  emit_promql expr = encode_line (promql (tools.extractors.extract_promql expr))

  unfoldable pub emit_logql : Text → Action
  emit_logql expr = encode_line (logql (tools.extractors.extract_logql expr))

  unfoldable pub emit_traceql : Text → Action
  emit_traceql expr = encode_line (traceql (tools.extractors.extract_traceql expr))

  -- The three encoders of a file, with the reader as it is left; `src` is the path.
  unfoldable pub encode_promql_rule_file : In → Text → Action × In
  encode_promql_rule_file r src =
      let ((res, err), rest) = tools.extract_promql_rule_file r in
      (encode_line (prom_rules (record res { path = src }, err)), rest)

  unfoldable pub encode_logql_rule_file : In → Text → Action × In
  encode_logql_rule_file r src =
      let ((res, err), rest) = tools.extract_logql_rule_file r in
      (encode_line (loki_rules (record res { path = src }, err)), rest)

  unfoldable pub encode_dashboard : In → Text → Action × In
  encode_dashboard r src =
      let ((res, err), rest) = tools.extract_dashboard r in
      (encode_line (dashboard (record res { path = src }, err)), rest)

  abbrev pub scan_error : Option Text → Action
  scan_error none = pure tt
  scan_error (some err) = fail err

  -- The loop of `streamExprs` over the lines, with the scanner's error after it.
  unfoldable pub emit_lines : (Text → Action) → List Text → Option Text → Action
  emit_lines emit [] err = scan_error err
  emit_lines emit (line ∷ lines) err =
      if is_empty line then emit_lines emit lines err else do emit line; emit_lines emit lines err

  -- Standard input is taken as read to its end: after an error nothing reads it.
  unfoldable pub stream_exprs : (Text → Action) → Action
  stream_exprs emit p =
      let ((lines, err), rest) = tools.scan p.stdin in
      emit_lines emit lines err (record p { stdin = rest })

  unfoldable pub emit_args : (Text → Action) → List Text → Action
  emit_args emit [] = pure tt
  emit_args emit (arg ∷ args) = do
    if text_eq arg dash then stream_exprs emit else emit arg
    emit_args emit args

  unfoldable pub run_expr_subcommand : Text → List Text → (Text → Action) → Action
  run_expr_subcommand name args emit = elim (tools.parse_args args) [
    | inl err ↦ fail err
    | inr [] ↦ fail (name ++ bytes ": expected expression or '-' to read stdin")
    | inr (arg ∷ rest) ↦ emit_args emit (arg ∷ rest)
  ]

  unfoldable pub encode_path : (In → Text → Action × In) → Text → Action
  encode_path enc path p =
      if text_eq path dash
      then ((enc p.stdin []).0 (record p { stdin = (enc p.stdin []).1 }))
      else elim (tools.open_file path) [
        | inl err ↦ (inl (bytes "open " ++ path ++ bytes ": " ++ err), p)
        | inr r ↦ (enc r path).0 p
      ]

  unfoldable pub encode_paths : (In → Text → Action × In) → List Text → Action
  encode_paths enc [] = pure tt
  encode_paths enc (path ∷ paths) = do encode_path enc path; encode_paths enc paths

  unfoldable pub run_file_subcommand : Text → List Text → (In → Text → Action × In) → Action
  run_file_subcommand name args enc = elim (tools.parse_args args) [
    | inl err ↦ fail err
    | inr [] ↦ fail (name ++ bytes ": expected path or '-' to read stdin")
    | inr (path ∷ rest) ↦ encode_paths enc (path ∷ rest)
  ]

  abbrev pub unknown_subcommand : Text → Text → Text
  unknown_subcommand command name = command ++ bytes ": unknown subcommand " ++ tools.quoted name

  unfoldable pub run_promql : List Text → Action
  run_promql [] = fail (bytes "promql: expected subcommand (expr, rule-file)")
  run_promql (name ∷ args) =
      if text_eq name (bytes "expr")
      then run_expr_subcommand (bytes "promql expr") args emit_promql
      else if text_eq name (bytes "rule-file")
      then run_file_subcommand (bytes "promql rule-file") args encode_promql_rule_file
      else fail (unknown_subcommand (bytes "promql") name)

  unfoldable pub run_logql : List Text → Action
  run_logql [] = fail (bytes "logql: expected subcommand (expr, rule-file)")
  run_logql (name ∷ args) =
      if text_eq name (bytes "expr")
      then run_expr_subcommand (bytes "logql expr") args emit_logql
      else if text_eq name (bytes "rule-file")
      then run_file_subcommand (bytes "logql rule-file") args encode_logql_rule_file
      else fail (unknown_subcommand (bytes "logql") name)

  unfoldable pub run_traceql : List Text → Action
  run_traceql [] = fail (bytes "traceql: expected subcommand (expr)")
  run_traceql (name ∷ args) =
      if text_eq name (bytes "expr")
      then run_expr_subcommand (bytes "traceql expr") args emit_traceql
      else fail (unknown_subcommand (bytes "traceql") name)

  unfoldable pub run_dashboard : List Text → Action
  run_dashboard args = run_file_subcommand (bytes "dashboard") args encode_dashboard

  abbrev pub failed : (Text ⊎ Unit {0}) × Process In → Option Failure × Process In
  failed (inl err, p) = (some (message err), p)
  failed (inr u, p) = (none, p)

  abbrev pub validated : ℕ → Option Failure
  validated code = if code == 0 then none else some (exit_code_err code)

  -- `cli_run` is the exit code of `cli.Run`, run_command of Cli/Command, whose output is left out.
  module _ (cli_run : List Text → ℕ) where
    unfoldable pub run : List Text → Process In → Option Failure × Process In
    run [] p =
        (some (message (bytes "no command")), record p { stderr = p.stderr ++ (help_text ∷ []) })
    run (name ∷ args) p =
        if text_eq name (bytes "promql")
        then failed (run_promql args p)
        else if text_eq name (bytes "logql")
        then failed (run_logql args p)
        else if text_eq name (bytes "traceql")
        then failed (run_traceql args p)
        else if text_eq name (bytes "dashboard")
        then failed (run_dashboard args p)
        else if text_eq name (bytes "lint")
            || text_eq name (bytes "check")
            || text_eq name (bytes "validate")
        then (validated (cli_run (name ∷ args)), p)
        else if text_eq name (bytes "-h")
            || text_eq name (bytes "--help")
            || text_eq name (bytes "help")
        then (none, record p { stdout = p.stdout ++ (help_text ∷ []) })
        else if text_eq name (bytes "-v")
            || text_eq name (bytes "--version")
            || text_eq name (bytes "version")
        then (none, record p { stdout = p.stdout ++ (version_line ∷ []) })
        else (some (message (bytes "unknown command " ++ tools.quoted name)), p)

    abbrev pub exited : Option Failure × Process In → ℕ × Process In
    exited (none, p) = (0, p)
    exited (some (exit_code_err code), p) = (code, p)
    exited (some (message err), p) =
        (1, record p { stderr = p.stderr ++ (error_line (bytes "ratatoskr: " ++ err) ∷ []) })

    -- `main`: the exit status, and the process at its end.
    unfoldable pub main : List Text → Process In → ℕ × Process In
    main args p = exited (run args p)
