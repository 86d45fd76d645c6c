-- ===== src/Finding/Order.antt =====
-- The order of findings: what `Sort` keeps, and what it makes of its input.
use mathlib.Core.List.{Perm}
use mathlib.Core.Path.{subst}
use ratatoskr_go.Base.{
  ℕ, ◌↔◌, ◌⊎◌, ap, sym, ◌∙◌, Bool-cases, inl, inr, Bool, true, false, not, ◌&&◌, ◌==◌, ltb,
  if◌then◌else◌, All, [], ◌∷◌, arith, Text, text_eq, text_lt, text_eq_iff, ◌≡◌, List, select,
}
use ratatoskr_go.Base.Order.{
  IsWeakOrder, by_key-IsWeakOrder, last_key-IsWeakOrder, nat-IsKeyOrder, text-IsKeyOrder, ties,
}
use ratatoskr_go.Base.Sort.{IsSorted, sort_stable-perm, sort_stable-IsSorted, sort_stable-select}
use ratatoskr_go.Finding.{Finding, before, sort_findings}

pub before-IsWeakOrder : IsWeakOrder before
unfolding before
before-IsWeakOrder =
    by_key-IsWeakOrder text-IsKeyOrder (λ f. f.source.file)
      (by_key-IsWeakOrder nat-IsKeyOrder (λ f. f.source.line)
        (by_key-IsWeakOrder text-IsKeyOrder (λ f. f.source.group)
          (by_key-IsWeakOrder text-IsKeyOrder (λ f. f.source.rule)
            (by_key-IsWeakOrder text-IsKeyOrder (λ f. f.code)
              (last_key-IsWeakOrder text-IsKeyOrder (λ f. f.message))))))

text_key :
    (s t : Text)
    → (text_eq s t ≡ text_eq t s)
      × ((text_eq s t ≡ true) ↔ (s ≡ t))
      × (text_lt s t ≡ false → text_lt t s ≡ false → s ≡ t)
text_key s t =
    (ground (arith, text_eq_iff s t, text_eq_iff t s), text_eq_iff s t, text-IsKeyOrder.connex s t)

-- Findings that tie agree on every field that the order reads.
pub before_ties :
    (a b : Finding)
    → before a b ≡ false
    → before b a ≡ false
    → (a.source.file ≡ b.source.file)
      × (a.source.line ≡ b.source.line)
      × (a.source.group ≡ b.source.group)
      × (a.source.rule ≡ b.source.rule)
      × (a.code ≡ b.code)
      × (a.message ≡ b.message)
unfolding before
before_ties a b h k = ground (
  arith,
  text_key (a.source.file) (b.source.file),
  text_key (a.source.group) (b.source.group),
  text_key (a.source.rule) (b.source.rule),
  text_key a.code b.code,
  text_key a.message b.message,
)

-- The order of the keys, written out: `first` says that the key of a finding is less than that of
-- another, `same` that the two are equal, and `rest` compares the further keys.
abbrev pub ByKey : Bool → Type 0 → Type 0 → Type 0
ByKey first same rest = (first ≡ true) ⊎ (same × rest)

-- The finding a may stand before the finding b: by file, line, group, rule, code and message.
abbrev pub InOrder : Finding → Finding → Type 0
InOrder a b = ByKey (text_lt a.source.file b.source.file) (a.source.file ≡ b.source.file) (
    ByKey (ltb a.source.line b.source.line) (a.source.line ≡ b.source.line) (
      ByKey (text_lt a.source.group b.source.group) (a.source.group ≡ b.source.group) (
        ByKey (text_lt a.source.rule b.source.rule) (a.source.rule ≡ b.source.rule)
          (ByKey (text_lt a.code b.code) (a.code ≡ b.code) (text_lt b.message a.message ≡ false)))))

abbrev pub IsOrdered : List Finding → Type 0
IsOrdered [] = Unit
IsOrdered (f ∷ fs) = All (InOrder f) fs × IsOrdered fs

-- Do two findings agree on the six keys?
abbrev pub same_keys : Finding → Finding → Bool
same_keys f g =
    text_eq f.source.file g.source.file
    && (f.source.line == g.source.line
        && (text_eq f.source.group g.source.group
            && (text_eq f.source.rule g.source.rule
                && (text_eq f.code g.code && text_eq f.message g.message))))

text_step :
    (x y : Text) (r : Bool)
    → (if not (text_eq y x) then text_lt y x else r) ≡ false
    → (text_lt x y ≡ true) ⊎ ((x ≡ y) × (r ≡ false))
text_step x y r h = ground (arith, text_eq_iff y x, (text_key x y).2)

line_step :
    (x y : ℕ) (r : Bool)
    → (if not (y == x) then ltb y x else r) ≡ false
    → (ltb x y ≡ true) ⊎ ((x ≡ y) × (r ≡ false))
line_step x y r h = ground arith

further :
    {first : Bool} {same : Type 0} {r : Bool} {rest : Type 0}
    → (first ≡ true) ⊎ (same × (r ≡ false))
    → (r ≡ false → rest)
    → ByKey first same rest
further (inl h) k = inl h
further (inr h) k = inr (h.0, k h.1)

before-InOrder : (a b : Finding) → before b a ≡ false → InOrder a b
unfolding before
before-InOrder a b h = further (text_step a.source.file b.source.file _ h) (λ h.
    further (line_step a.source.line b.source.line _ h) (λ h.
      further (text_step a.source.group b.source.group _ h) (λ h.
        further (text_step a.source.rule b.source.rule _ h)
          (λ h. further (text_step a.code b.code _ h) (λ h. h)))))

All-InOrder :
    (a : Finding) (fs : List Finding) → All (λ b. before b a ≡ false) fs → All (InOrder a) fs
All-InOrder a [] h = tt
All-InOrder a (b ∷ fs) h = (before-InOrder a b h.0, All-InOrder a fs h.1)

IsSorted-IsOrdered : (fs : List Finding) → IsSorted before fs → IsOrdered fs
IsSorted-IsOrdered [] h = tt
IsSorted-IsOrdered (f ∷ fs) h = (All-InOrder f fs h.0, IsSorted-IsOrdered fs h.1)

pub sort_findings-IsOrdered : (findings : List Finding) → IsOrdered (sort_findings findings)
unfolding sort_findings
sort_findings-IsOrdered findings =
    IsSorted-IsOrdered _ (sort_stable-IsSorted before before-IsWeakOrder findings)

-- Neither of two keys is less than the other exactly if they are equal.
tie_last : (x y : Text) → (not (text_lt x y) && not (text_lt y x)) ≡ text_eq x y
tie_last x y = elim (Bool-cases (text_eq x y)) [
  | inl e ↦
      let same : x ≡ y = (text_eq_iff x y).0 e in
      let less : text_lt x y ≡ text_lt y x =
        ap (λ z. text_lt z y) same ∙ ap (text_lt y) (sym same) in
      ground (arith, e, less, text-IsKeyOrder.asym x y)
  | inr n ↦ ground (arith, n, text_eq_iff x y, (text_key x y).2)
]

text_tie :
    (x y : Text) (r r' s : Bool)
    → (not r && not r') ≡ s
    → (not (if not (text_eq x y) then text_lt x y else r)
        && not (if not (text_eq y x) then text_lt y x else r'))
      ≡ (text_eq x y && s)
text_tie x y r r' s h = elim (Bool-cases (text_eq x y)) [
  | inl e ↦ ground (arith, e, h, (text_key x y).0)
  | inr n ↦ ground (arith, n, tie_last x y, (text_key x y).0)
]

line_tie :
    (x y : ℕ) (r r' s : Bool)
    → (not r && not r') ≡ s
    → (not (if not (x == y) then ltb x y else r) && not (if not (y == x) then ltb y x else r'))
      ≡ (x == y && s)
line_tie x y r r' s h = ground (arith, h)

ties_same : (f g : Finding) → ties before f g ≡ same_keys f g
unfolding before
ties_same f g = text_tie f.source.file g.source.file _ _ _ (
    line_tie f.source.line g.source.line _ _ _ (
      text_tie f.source.group g.source.group _ _ _ (
        text_tie f.source.rule g.source.rule _ _ _
          (text_tie f.code g.code _ _ _ (tie_last f.message g.message)))))

-- Sort keeps every finding as often as it is given, puts them in the order of file, line, group,
-- rule, code and message, each text compared byte by byte, and keeps findings that agree on all six
-- in the order they came in.
pub sort_findings_stable :
    (findings : List Finding)
    → Perm (sort_findings findings) findings
      × IsOrdered (sort_findings findings)
      × ((f : Finding)
          → select (same_keys f) (sort_findings findings) ≡ select (same_keys f) findings)
unfolding sort_findings
sort_findings_stable findings = (
  sort_stable-perm before findings,
  sort_findings-IsOrdered findings,
  λ f.
      let same : ties before f ≡ same_keys f = λ i g. ties_same f g i in
      subst (λ p. select p (sort_findings findings) ≡ select p findings) same
        (sort_stable-select before before-IsWeakOrder f findings),
)
