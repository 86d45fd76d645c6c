-- ===== src/Report/Escapes.antt =====
-- pkg/report/text.go: the escapes can be undone, and leave nothing that would end a field or a line.
use mathlib.Core.List.{append_assoc}
use ratatoskr_go.Base.{
  ℕ, ◌≡◌, refl, sym, ap, ◌∙◌, Bool, true, false, inl, inr, [], ◌∷◌, ◌++◌, Text, bytes, any, ◌==◌,
  ==_iff, ◌||◌, if◌then◌else◌, Bool-cases, arith,
}
use ratatoskr_go.Base.Any.{any-append}
use ratatoskr_go.Report.Lines.{replace_byte, tsv_escape}

replace_byte-append :
    (c : ℕ) (by s t : Text)
    → replace_byte c by (s ++ t) ≡ replace_byte c by s ++ replace_byte c by t
unfolding replace_byte
replace_byte-append c by [] t = refl
replace_byte-append c by (x ∷ s) t =
    rw
      (
        replace_byte-append c by s t,
        append_assoc (if x == c then by else x ∷ []) (replace_byte c by s) (replace_byte c by t),
      )
      refl

-- The readings of one escape.
abbrev pub tsv_meaning : ℕ → ℕ
tsv_meaning c =
    if c == b't' then b'\t' else if c == b'n' then b'\n' else if c == b'r' then b'\r' else c

-- Undoes tsv_escape.
unfoldable pub tsv_unescape : Text → Text
tsv_unescape [] = []
tsv_unescape (c ∷ []) = c ∷ []
tsv_unescape (c ∷ d ∷ rest) = elim (c == b'\\') [
  | true ↦ tsv_meaning d ∷ tsv_unescape rest
  | false ↦ c ∷ tsv_unescape (d ∷ rest)
]

tsv_escape-append : (s t : Text) → tsv_escape (s ++ t) ≡ tsv_escape s ++ tsv_escape t
unfolding tsv_escape
tsv_escape-append s t =
    ap
      (λ x.
        replace_byte b'\r' (bytes "\\r")
          (replace_byte b'\n' (bytes "\\n") (replace_byte b'\t' (bytes "\\t") x)))
      (replace_byte-append b'\\' (bytes "\\\\") s t)
    ∙ ap (λ x. replace_byte b'\r' (bytes "\\r") (replace_byte b'\n' (bytes "\\n") x))
        (replace_byte-append b'\t' (bytes "\\t") _ _)
    ∙ ap (replace_byte b'\r' (bytes "\\r")) (replace_byte-append b'\n' (bytes "\\n") _ _)
    ∙ replace_byte-append b'\r' (bytes "\\r") _ _

-- What tsv_escape makes of one byte.
tsv_escape_byte : ℕ → Text
tsv_escape_byte x =
    if x == b'\\'
    then bytes "\\\\"
    else if x == b'\t'
    then bytes "\\t"
    else if x == b'\n'
    then bytes "\\n"
    else if x == b'\r'
    then bytes "\\r"
    else x ∷ []

tsv_escape-one : (x : ℕ) → tsv_escape (x ∷ []) ≡ tsv_escape_byte x
unfolding tsv_escape replace_byte tsv_escape_byte
tsv_escape-one x = elim (Bool-cases (x == b'\\')) [
  | inl e ↦ rw (e) refl
  | inr e ↦ elim (Bool-cases (x == b'\t')) [
    | inl f ↦ rw (e, f) refl
    | inr f ↦ elim (Bool-cases (x == b'\n')) [
      | inl g ↦ rw (e, f, g) refl
      | inr g ↦ elim (Bool-cases (x == b'\r')) [
        | inl h ↦ rw (e, f, g, h) refl
        | inr h ↦ rw (e, f, g, h) refl
      ]
    ]
  ]
]

unescape_other :
    (x : ℕ) (rest : Text) → (x == b'\\') ≡ false → tsv_unescape (x ∷ rest) ≡ x ∷ tsv_unescape rest
unfolding tsv_unescape
unescape_other x [] e = refl
unescape_other x (d ∷ rest) e = ground arith

tsv_unescape-one :
    (x : ℕ) (rest : Text) → tsv_unescape (tsv_escape_byte x ++ rest) ≡ x ∷ tsv_unescape rest
unfolding tsv_escape_byte tsv_unescape
tsv_unescape-one x rest = elim (Bool-cases (x == b'\\')) [
  | inl e ↦ rw (e) (ap (◌∷ tsv_unescape rest) (sym ((==_iff x b'\\').0 e)))
  | inr e ↦ elim (Bool-cases (x == b'\t')) [
    | inl f ↦ rw (e, f) (ap (◌∷ tsv_unescape rest) (sym ((==_iff x b'\t').0 f)))
    | inr f ↦ elim (Bool-cases (x == b'\n')) [
      | inl g ↦ rw (e, f, g) (ap (◌∷ tsv_unescape rest) (sym ((==_iff x b'\n').0 g)))
      | inr g ↦ elim (Bool-cases (x == b'\r')) [
        | inl h ↦ rw (e, f, g, h) (ap (◌∷ tsv_unescape rest) (sym ((==_iff x b'\r').0 h)))
        | inr h ↦ rw (e, f, g, h) (unescape_other x rest e)
      ]
    ]
  ]
]

tsv_escape-nil : tsv_escape [] ≡ []
unfolding tsv_escape replace_byte
tsv_escape-nil = refl

unescaped : (s : Text) → tsv_unescape (tsv_escape s) ≡ s
unfolding tsv_unescape
unescaped [] = rw (tsv_escape-nil) refl
unescaped (x ∷ s) =
    ap tsv_unescape (tsv_escape-append (x ∷ []) s)
    ∙ ap (λ e. tsv_unescape (e ++ tsv_escape s)) (tsv_escape-one x)
    ∙ tsv_unescape-one x (tsv_escape s)
    ∙ ap (x ∷◌) (unescaped s)

-- A tab or an end of line.
abbrev pub is_break : ℕ → Bool
is_break c = c == b'\t' || c == b'\n' || c == b'\r'

byte_unbroken : (x : ℕ) → any is_break (tsv_escape_byte x) ≡ false
unfolding tsv_escape_byte
byte_unbroken x = ground arith

unbroken : (s : Text) → any is_break (tsv_escape s) ≡ false
unbroken [] = rw (tsv_escape-nil) refl
unbroken (x ∷ s) =
    ap (any is_break) (tsv_escape-append (x ∷ []) s ∙ ap (◌++ tsv_escape s) (tsv_escape-one x))
    ∙ any-append is_break (tsv_escape_byte x) (tsv_escape s)
    ∙ ground (arith, byte_unbroken x, unbroken s)

-- An escaped TSV field has no tab and no end of line, and undoing the escape gives the field back.
pub tsv_unescape-tsv_escape :
    (s : Text) → (tsv_unescape (tsv_escape s) ≡ s) × (any is_break (tsv_escape s) ≡ false)
tsv_unescape-tsv_escape s = (unescaped s, unbroken s)
