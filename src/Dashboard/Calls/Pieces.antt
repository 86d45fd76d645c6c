-- ===== src/Dashboard/Calls/Pieces.antt =====
-- dashboard.go: the text of an argument of a call, and how the loop of `splitGrafanaVarCall` reads it.
use mathlib.Core.List.{append_assoc, append-nil}
use ratatoskr_go.Base.{
  ℕ, ◌+◌, ◌<◌, ◌≡◌, refl, ap, sym, ◌∙◌, Bool, true, false, not, ◌&&◌, ◌||◌, List, [], ◌∷◌, ◌++◌,
  Text, is_empty, ◌==◌, All, if◌then◌else◌, arith,
}
use ratatoskr_go.Dashboard.Calls.{Scan, is_quote, closes, scan_step, scan_args, finish}

-- The text of an argument: bytes, strings, and groups in brackets of three kinds.
pub data Bracket : Type 0 where
  round curly square : Bracket

pub data StringByte : Type 0 where
  plain escape : ℕ → StringByte

pub data Pieces : Type 0 where
  done : Pieces
  byte : ℕ → Pieces → Pieces
  string : ℕ → List StringByte → Pieces → Pieces
  group : Bracket → Pieces → Pieces → Pieces

abbrev pub opening : Bracket → ℕ
opening round = b'('
opening curly = b'{'
opening square = b'['

abbrev pub closing : Bracket → ℕ
closing round = b')'
closing curly = b'}'
closing square = b']'

abbrev pub show_string : List StringByte → Text
show_string [] = []
show_string (plain c ∷ body) = c ∷ show_string body
show_string (escape c ∷ body) = 92 ∷ c ∷ show_string body

abbrev pub show : Pieces → Text
show done = []
show (byte c p) = c ∷ show p
show (string q body p) = q ∷ (show_string body ++ (q ∷ show p))
show (group b inner p) = opening b ∷ (show inner ++ (closing b ∷ show p))

abbrev pub is_special : ℕ → Bool
is_special c =
    is_quote c || c == b'(' || c == b')' || c == b'{' || c == b'}' || c == b'[' || c == b']'

-- A byte of a string in the quotes q: an escape stands in strings that are not raw only.
abbrev pub byte_fits : ℕ → StringByte → Bool
byte_fits q (plain c) = not (c == q) && (not (c == 92) || q == b'`')
byte_fits q (escape c) = not (q == b'`')

-- Commas stand in groups and strings only; `inside` says that the pieces stand in a group.
abbrev pub IsFine : Bool → Pieces → Type 0
IsFine inside done = Unit
IsFine inside (byte c p) =
    (is_special c ≡ false) × ((inside || not (c == b',')) ≡ true) × IsFine inside p
IsFine inside (string q body p) =
    (is_quote q ≡ true) × All (λ c. byte_fits q c ≡ true) body × IsFine inside p
IsFine inside (group b inner p) = IsFine true inner × IsFine inside p

-- The state is outside of strings, in the call, and in a group of it exactly if `inside` says so.
pub record IsOpen (inside : Bool) (st : Scan) : Type 0 where
  pub unquoted : st.quote ≡ 0
  pub unescaped : st.escaped ≡ false
  pub in_call : 0 < st.paren_depth
  pub at_top : inside ≡ true → 1 < st.paren_depth + (st.brace_depth + st.bracket_depth)

abbrev pub after : Scan → Text → Scan
after st s = record st { arg = st.arg ++ s }

scan_one :
    (st st' : Scan) (c : ℕ) (s : Text)
    → closes st c ≡ false
    → scan_step st c (not (is_empty s)) ≡ st'
    → scan_args st (c ∷ s) ≡ scan_args st' s
unfolding scan_args
scan_one st st' c s h e =
    ap (λ b. if b then finish st s else scan_args (scan_step st c (not (is_empty s))) s) h
    ∙ ap (λ x. scan_args x s) e

after-after : (st : Scan) (s t : Text) → after (after st s) t ≡ after st (s ++ t)
after-after st s t = ap (λ x. record st { arg = x }) (append_assoc st.arg s t)

byte_step :
    (inside : Bool) (st : Scan) (c : ℕ) (more : Bool)
    → IsOpen inside st
    → is_special c ≡ false
    → (inside || not (c == b',')) ≡ true
    → (closes st c ≡ false) × (scan_step st c more ≡ after st (c ∷ []))
unfolding scan_step
byte_step true st c more o h k =
    let deep : 1 < st.paren_depth + (st.brace_depth + st.bracket_depth) = o.at_top refl in
    (ground arith, ground arith)
byte_step false st c more o h k = (ground arith, ground arith)

in_string : Scan → ℕ → Scan
in_string st q = record st { quote = q }

string_byte :
    (st : Scan) (q c : ℕ) (s : Text)
    → st.escaped ≡ false
    → is_quote q ≡ true
    → byte_fits q (plain c) ≡ true
    → scan_args (in_string st q) (c ∷ s) ≡ scan_args (in_string (after st (c ∷ [])) q) s
unfolding scan_step in_string
string_byte st q c s u h k = scan_one (record st { quote = q }) _ c s (ground arith) (ground arith)

string_escape :
    (st : Scan) (q c : ℕ) (s : Text)
    → st.escaped ≡ false
    → is_quote q ≡ true
    → byte_fits q (escape c) ≡ true
    → scan_args (in_string st q) (92 ∷ c ∷ s)
      ≡ scan_args (in_string (after (after st (92 ∷ [])) (c ∷ [])) q) s
unfolding scan_step in_string
string_escape st q c s u h k =
    let st' : Scan = record (after st (92 ∷ [])) { quote = q; escaped = true } in
    scan_one (record st { quote = q }) st' 92 (c ∷ s) (ground arith) (ground arith)
    ∙ scan_one st' _ c s (ground arith) (ground arith)

string_close :
    (st : Scan) (q : ℕ) (s : Text)
    → st.escaped ≡ false
    → st.quote ≡ 0
    → is_quote q ≡ true
    → scan_args (in_string st q) (q ∷ s) ≡ scan_args (after st (q ∷ [])) s
unfolding scan_step in_string
string_close st q s u z h =
    scan_one (record st { quote = q }) (after st (q ∷ [])) q s (ground arith) (ground arith)

string_open :
    (inside : Bool) (st : Scan) (q : ℕ) (s : Text)
    → IsOpen inside st
    → is_quote q ≡ true
    → scan_args st (q ∷ s) ≡ scan_args (in_string (after st (q ∷ [])) q) s
unfolding scan_step in_string
string_open inside st q s o h =
    let a = o.unquoted in
    let b = o.unescaped in
    scan_one st (record (after st (q ∷ [])) { quote = q }) q s (ground arith) (ground arith)

scan_string :
    (st : Scan) (q : ℕ) (body : List StringByte) (rest : Text)
    → st.escaped ≡ false
    → st.quote ≡ 0
    → is_quote q ≡ true
    → All (λ c. byte_fits q c ≡ true) body
    → scan_args (in_string st q) (show_string body ++ (q ∷ rest))
      ≡ scan_args (after st (show_string body ++ (q ∷ []))) rest
scan_string st q [] rest u z h k = string_close st q rest u z h
scan_string st q (plain c ∷ body) rest u z h k =
    string_byte st q c (show_string body ++ (q ∷ rest)) u h k.0
    ∙ (scan_string (after st (c ∷ [])) q body rest u z h k.1
        ∙ ap (λ x. scan_args x rest) (after-after st (c ∷ []) (show_string body ++ (q ∷ []))))
scan_string st q (escape c ∷ body) rest u z h k =
    string_escape st q c (show_string body ++ (q ∷ rest)) u h k.0
    ∙ (scan_string (after (after st (92 ∷ [])) (c ∷ [])) q body rest u z h k.1
        ∙ ap (λ x. scan_args x rest)
            (after-after (after st (92 ∷ [])) (c ∷ []) (show_string body ++ (q ∷ []))
              ∙ after-after st (92 ∷ []) (c ∷ (show_string body ++ (q ∷ [])))))

entered : Bracket → Scan → Scan
entered round st = record st { paren_depth = st.paren_depth + 1; arg = st.arg ++ (b'(' ∷ []) }
entered curly st = record st { brace_depth = st.brace_depth + 1; arg = st.arg ++ (b'{' ∷ []) }
entered square st = record st { bracket_depth = st.bracket_depth + 1; arg = st.arg ++ (b'[' ∷ []) }

group_open :
    (b : Bracket) (inside : Bool) (st : Scan) (s : Text)
    → IsOpen inside st
    → scan_args st (opening b ∷ s) ≡ scan_args (entered b st) s
unfolding scan_step entered
group_open round inside st s o =
    let z = o.unquoted in
    let u = o.unescaped in
    scan_one st (entered round st) (opening round) s (ground arith) (ground arith)
group_open curly inside st s o =
    let z = o.unquoted in
    let u = o.unescaped in
    scan_one st (entered curly st) (opening curly) s (ground arith) (ground arith)
group_open square inside st s o =
    let z = o.unquoted in
    let u = o.unescaped in
    scan_one st (entered square st) (opening square) s (ground arith) (ground arith)

entered-IsOpen :
    (b : Bracket) (inside : Bool) (st : Scan) → IsOpen inside st → IsOpen true (entered b st)
unfolding entered
entered-IsOpen round inside st o = record {
  unquoted = o.unquoted;
  unescaped = o.unescaped;
  in_call = omega arith;
  at_top = λ h. let c = o.in_call in omega arith;
}
entered-IsOpen curly inside st o = record {
  unquoted = o.unquoted;
  unescaped = o.unescaped;
  in_call = o.in_call;
  at_top = λ h. let c = o.in_call in omega arith;
}
entered-IsOpen square inside st o = record {
  unquoted = o.unquoted;
  unescaped = o.unescaped;
  in_call = o.in_call;
  at_top = λ h. let c = o.in_call in omega arith;
}

wrap_append :
    (c d : ℕ) (a t : Text) → ((a ++ (c ∷ [])) ++ t) ++ (d ∷ []) ≡ a ++ (c ∷ (t ++ (d ∷ [])))
wrap_append c d a t =
    append_assoc (a ++ (c ∷ [])) t (d ∷ []) ∙ append_assoc a (c ∷ []) (t ++ (d ∷ []))

group_close :
    (b : Bracket) (inside : Bool) (st : Scan) (t s : Text)
    → IsOpen inside st
    → scan_args (after (entered b st) t) (closing b ∷ s)
      ≡ scan_args (after st (opening b ∷ (t ++ (closing b ∷ [])))) s
unfolding scan_step entered
group_close round inside st t s o =
    let z = o.unquoted in
    let u = o.unescaped in
    let c = o.in_call in
    let same = wrap_append (opening round) (closing round) st.arg t in
    scan_one (after (entered round st) t) (after st (opening round ∷ (t ++ (closing round ∷ []))))
      (closing round) s (ground arith) (ground (arith, same))
group_close curly inside st t s o =
    let z = o.unquoted in
    let u = o.unescaped in
    let c = o.in_call in
    let same = wrap_append (opening curly) (closing curly) st.arg t in
    scan_one (after (entered curly st) t) (after st (opening curly ∷ (t ++ (closing curly ∷ []))))
      (closing curly) s (ground arith) (ground (arith, same))
group_close square inside st t s o =
    let z = o.unquoted in
    let u = o.unescaped in
    let c = o.in_call in
    let same = wrap_append (opening square) (closing square) st.arg t in
    scan_one (after (entered square st) t)
      (after st (opening square ∷ (t ++ (closing square ∷ [])))) (closing square) s (ground arith)
      (ground (arith, same))

after-IsOpen :
    (inside : Bool) (st : Scan) (s : Text) → IsOpen inside st → IsOpen inside (after st s)
after-IsOpen inside st s o = record {
  unquoted = o.unquoted;
  unescaped = o.unescaped;
  in_call = o.in_call;
  at_top = o.at_top;
}

-- The pieces of an argument are read as they stand.
pub scan_show :
    (inside : Bool) (p : Pieces) (st : Scan) (rest : Text)
    → IsOpen inside st
    → IsFine inside p
    → scan_args st (show p ++ rest) ≡ scan_args (after st (show p)) rest
scan_show inside done st rest o h =
    ap (λ x. scan_args (record st { arg = x }) rest) (sym (append-nil st.arg))
scan_show inside (byte c p) st rest o h =
    let (b, e) = byte_step inside st c (not (is_empty (show p ++ rest))) o h.0 h.1 in
    scan_one st (after st (c ∷ [])) c (show p ++ rest) b e
    ∙ (scan_show inside p (after st (c ∷ [])) rest (after-IsOpen inside st (c ∷ []) o) h.2
        ∙ ap (λ x. scan_args x rest) (after-after st (c ∷ []) (show p)))
scan_show inside (string q body p) st rest o h =
    let text : Text = show_string body ++ (q ∷ show p) in
    let st' : Scan = after st (q ∷ []) in
    let shown : Text = show_string body ++ (q ∷ []) in
    ap (λ x. scan_args st (q ∷ x)) (append_assoc (show_string body) (q ∷ show p) rest)
    ∙ (string_open inside st q (show_string body ++ (q ∷ (show p ++ rest))) o h.0
        ∙ (scan_string st' q body (show p ++ rest) o.unescaped o.unquoted h.0 h.1
            ∙ (scan_show inside p (after st' shown) rest
                  (after-IsOpen inside st' shown (after-IsOpen inside st (q ∷ []) o)) h.2
                ∙ ap (λ x. scan_args x rest)
                    (after-after st' shown (show p)
                      ∙ (after-after st (q ∷ []) (shown ++ show p)
                          ∙ ap (λ x. after st (q ∷ x))
                              (append_assoc (show_string body) (q ∷ []) (show p)))))))
scan_show inside (group b inner p) st rest o h =
    let whole : Text = opening b ∷ (show inner ++ (closing b ∷ [])) in
    ap (λ x. scan_args st (opening b ∷ x)) (append_assoc (show inner) (closing b ∷ show p) rest)
    ∙ (group_open b inside st (show inner ++ (closing b ∷ (show p ++ rest))) o
        ∙ (scan_show true inner (entered b st) (closing b ∷ (show p ++ rest))
              (entered-IsOpen b inside st o) h.0
            ∙ (group_close b inside st (show inner) (show p ++ rest) o
                ∙ (scan_show inside p (after st whole) rest (after-IsOpen inside st whole o) h.1
                    ∙ ap (λ x. scan_args x rest)
                        (after-after st whole (show p)
                          ∙ ap (λ x. after st (opening b ∷ x))
                              (append_assoc (show inner) (closing b ∷ []) (show p)))))))
