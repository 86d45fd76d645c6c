-- ===== src/Dashboard/Calls/Split.antt =====
-- dashboard.go: a call that is written out is split into its arguments.
use mathlib.Core.List.{append_assoc}
use ratatoskr_go.Base.{
  ℕ, ◌≡◌, refl, ap, ◌∙◌, true, false, not, ◌&&◌, ◌||◌, some, List, [], ◌∷◌, ◌++◌, map, Text,
  is_empty, All, if◌then◌else◌, arith,
}
use ratatoskr_go.Base.Space.{trim_space}
use ratatoskr_go.Dashboard.Calls.{
  Scan, is_nil, scan_step, scan_args, is_grafana_ident_byte, ident_split, longer, scan_start,
  finish, call_of, split_after, split_grafana_var_call,
}
use ratatoskr_go.Dashboard.Calls.Pieces.{Pieces, show, IsFine, IsOpen, scan_show}

-- The rest of a call after its first argument: the other arguments, the parenthesis, and what stands
-- after it.
abbrev pub show_rest : List Pieces → Text → Text
show_rest [] rest = b')' ∷ rest
show_rest (p ∷ ps) rest = b',' ∷ (show p ++ show_rest ps rest)

abbrev base : List Text → Text → Scan
base acc arg = record scan_start { args = acc; arg = arg }

base-IsOpen : (acc : List Text) (arg : Text) → IsOpen false (base acc arg)
base-IsOpen acc arg = record {
  unquoted = refl;
  unescaped = refl;
  in_call = omega arith;
  at_top = λ h. absurd (ground arith);
}

finish_lem :
    (acc : List Text) (arg rest : Text)
    → is_empty (trim_space rest) ≡ true
    → (not (is_empty arg) || not (is_nil acc)) ≡ true
    → finish (base acc arg) rest ≡ some (acc ++ (arg ∷ []))
finish_lem acc arg rest h k = ground arith

is_nil-append : (acc : List Text) (x : Text) → is_nil (acc ++ (x ∷ [])) ≡ false
is_nil-append [] x = refl
is_nil-append (a ∷ acc) x = refl

scan_rest :
    (acc : List Text) (arg : Text) (ps : List Pieces) (rest : Text)
    → is_empty (trim_space rest) ≡ true
    → All (IsFine false) ps
    → (not (is_empty arg) || (not (is_nil acc) || not (is_nil (map show ps)))) ≡ true
    → scan_args (base acc arg) (show_rest ps rest) ≡ some (acc ++ (arg ∷ map show ps))
unfolding scan_args scan_step
scan_rest acc arg [] rest h f k = finish_lem acc arg rest h (ground arith)
scan_rest acc arg (p ∷ ps) rest h f k =
    let more : List Text = acc ++ (arg ∷ []) in
    scan_show false p (base more []) (show_rest ps rest) (base-IsOpen more []) f.0
    ∙ (scan_rest more (show p) ps rest h f.1 (ground (arith, is_nil-append acc arg))
        ∙ ap some (append_assoc acc (arg ∷ []) (show p ∷ map show ps)))

ident_split-append :
    (name s : Text)
    → All (λ c. is_grafana_ident_byte c ≡ true) name
    → ident_split (name ++ (b'(' ∷ s)) ≡ (name, b'(' ∷ s)
unfolding ident_split is_grafana_ident_byte
ident_split-append [] s h = refl
ident_split-append (c ∷ name) s h =
    ap
      (λ b.
        if b then longer c (ident_split (name ++ (b'(' ∷ s))) else ([], c ∷ (name ++ (b'(' ∷ s))))
      h.0
    ∙ ap (longer c) (ident_split-append name s h.1)

scan_first :
    (arg : Text) (ps : List Pieces) (rest : Text)
    → is_empty (trim_space rest) ≡ true
    → All (IsFine false) ps
    → scan_args (base [] arg) (show_rest ps rest)
      ≡ some (if is_empty arg && is_nil (map show ps) then [] else arg ∷ map show ps)
unfolding scan_args
scan_first [] [] rest h f = ground arith
scan_first [] (p ∷ ps) rest h f = scan_rest [] [] (p ∷ ps) rest h f refl
scan_first (a ∷ arg) ps rest h f = scan_rest [] (a ∷ arg) ps rest h f refl

-- A call is a name of one or more identifier bytes, a parenthesis, arguments that are fine (quotes
-- closed, brackets matched, commas in strings and brackets only) with commas between them, a
-- parenthesis, and spaces. It is split into the name and the arguments as they were written; where
-- there is one argument, which is empty, into the name and no argument.
pub split_grafana_var_call-show :
    (c : ℕ) (name : Text) (p : Pieces) (ps : List Pieces) (rest : Text)
    → All (λ d. is_grafana_ident_byte d ≡ true) (c ∷ name)
    → All (IsFine false) (p ∷ ps)
    → is_empty (trim_space rest) ≡ true
    → split_grafana_var_call (c ∷ (name ++ (b'(' ∷ (show p ++ show_rest ps rest))))
      ≡ some
          (c ∷ name, if is_empty (show p) && is_nil (map show ps) then [] else show p ∷ map show ps)
unfolding split_grafana_var_call
split_grafana_var_call-show c name p ps rest h f spaces =
    ap split_after (ident_split-append (c ∷ name) (show p ++ show_rest ps rest) h)
    ∙ ap (call_of (c ∷ name)) (
        scan_show false p (base [] []) (show_rest ps rest) (base-IsOpen [] []) f.0
        ∙ scan_first (show p) ps rest spaces f.1)
