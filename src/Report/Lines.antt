-- ===== src/Report/Lines.antt =====
-- pkg/report/text.go: the text, GitHub Actions and TSV writers, as the text that they write.
use ratatoskr_go.Base.{
  ℕ, ◌-◌, Bool, true, false, not, ◌&&◌, ◌||◌, List, [], ◌∷◌, ◌++◌, map, Text, bytes, text_eq,
  is_empty, ltb, leb, ◌==◌, if◌then◌else◌,
}
use ratatoskr_go.Finding.{
  Finding, Source, Severity, severity_error, severity_warning, severity_info,
}

-- strings.ReplaceAll of one byte.
unfoldable pub replace_byte : ℕ → Text → Text → Text
replace_byte c by [] = []
replace_byte c by (x ∷ s) = (if x == c then by else x ∷ []) ++ replace_byte c by s

unfoldable pub tsv_escape : Text → Text
tsv_escape s = replace_byte b'\r' (bytes "\\r") (
    replace_byte b'\n' (bytes "\\n")
      (replace_byte b'\t' (bytes "\\t") (replace_byte b'\\' (bytes "\\\\") s)))

unfoldable pub ga_escape : Text → Text
ga_escape s =
    replace_byte b'\n' (bytes "%0A")
      (replace_byte b'\r' (bytes "%0D") (replace_byte b'%' (bytes "%25") s))

unfoldable pub ga_command : Severity → Text
ga_command s =
    if text_eq s severity_error
    then bytes "error"
    else if text_eq s severity_warning
    then bytes "warning"
    else if text_eq s severity_info
    then bytes "notice"
    else []

-- strings.Join
unfoldable pub join : Text → List Text → Text
join sep [] = []
join sep (x ∷ []) = x
join sep (x ∷ y ∷ rest) = x ++ (sep ++ join sep (y ∷ rest))

-- strings.ToUpper on ASCII, which severities are.
abbrev pub to_upper : ℕ → ℕ
to_upper c = if leb 97 c && leb c 122 then c - 32 else c

unfoldable pub upper_severity : Severity → Text
upper_severity s = map to_upper s

abbrev pub given_parts : Source → List Text
given_parts s =
    (if is_empty s.group then [] else s.group ∷ [])
    ++ ((if is_empty s.rule then [] else s.rule ∷ [])
        ++ (if is_empty s.panel then [] else (bytes "panel=" ++ s.panel) ∷ []))

abbrev pub no_texts : List Text → Bool
no_texts [] = true
no_texts (x ∷ xs) = false

-- `show` is the decimal form of a number.
module _ (show : ℕ → Text) where
  unfoldable pub format_location : Source → Text
  format_location s =
      (if not (is_empty s.file)
        then s.file ++ (if ltb 0 s.line then bytes ":" ++ show s.line else [])
        else if ltb 0 s.line
        then bytes "line " ++ show s.line
        else [])
      ++ (if not (is_empty s.group) || not (is_empty s.rule) || not (is_empty s.panel)
          then bytes " (" ++ (join (bytes "/") (given_parts s) ++ bytes ")")
          else [])

  unfoldable pub text_block : Finding → Text
  text_block f =
      let loc : Text = format_location f.source in
      upper_severity f.severity
      ++ (bytes " " ++ (f.code ++ (bytes ": " ++ (f.message ++ bytes "\n"))))
      ++ ((if is_empty loc then [] else bytes "  at " ++ (loc ++ bytes "\n"))
          ++ (if no_texts f.suggestions
              then []
              else bytes "  suggestions: " ++ (join (bytes ", ") f.suggestions ++ bytes "\n")))

  unfoldable pub write_text : List Finding → Text
  write_text findings = join (bytes "\n") (map text_block findings)

  unfoldable pub ga_line : Finding → Text
  ga_line f =
      let params : List Text =
        (if is_empty f.source.file then [] else (bytes "file=" ++ f.source.file) ∷ [])
        ++ ((if ltb 0 f.source.line then (bytes "line=" ++ show f.source.line) ∷ [] else [])
            ++ (bytes "title=" ++ f.code) ∷ []) in
      if is_empty (ga_command f.severity)
      then []
      else bytes "::"
        ++ (ga_command f.severity
            ++ (bytes " "
                ++ (join (bytes ",") params
                    ++ (bytes "::" ++ (ga_escape f.message ++ bytes "\n")))))

  unfoldable pub write_github_actions : List Finding → Text
  write_github_actions [] = []
  write_github_actions (f ∷ findings) = ga_line f ++ write_github_actions findings

  unfoldable pub tsv_row : Finding → Text
  tsv_row f =
      join (bytes "\t") (
        f.severity
        ∷ f.code
        ∷ f.category
        ∷ f.source.file
        ∷ show f.source.line
        ∷ f.source.group
        ∷ f.source.rule
        ∷ tsv_escape f.message
        ∷ [])
      ++ bytes "\n"

  unfoldable pub write_tsv : List Finding → Text
  write_tsv [] = []
  write_tsv (f ∷ findings) = tsv_row f ++ write_tsv findings
