-- ===== src/Base/Space.antt =====
-- strings.TrimSpace on the bytes of a UTF-8 text.
use mathlib.Core.List.{reverse, reverse-append, reverse-reverse}
use ratatoskr_go.Base.Lists.{any, All}
use ratatoskr_go.Base.Tests.{leb, ◌==◌, if◌then◌else◌}
use ratatoskr_go.Base.Texts.{Text, has_prefix}
use Prim.Native.Nat.{ℕ, zero, suc}
use mathlib.Core.Bool.{Bool, true, false, ◌&&◌, ◌||◌}
use mathlib.Core.Path.{◌≡◌, refl, sym, ap, ◌∙◌}
use native.Mathlib.Omega.{arith}
use mathlib.Core.List.{List, [], ◌∷◌, ◌++◌}

-- '\t' to '\r', and ' '
abbrev pub is_ascii_space : ℕ → Bool
is_ascii_space c = (leb 9 c && leb c 13) || c == 32

-- U+0085, U+00A0
abbrev spaces2 : List Text
spaces2 = (0xc2 ∷ 0x85 ∷ []) ∷ (0xc2 ∷ 0xa0 ∷ []) ∷ []

-- U+1680, U+2000 to U+200A, U+2028, U+2029, U+202F, U+205F, U+3000
abbrev spaces3 : List Text
spaces3 =
    (0xe1 ∷ 0x9a ∷ 0x80 ∷ [])
    ∷ (0xe2 ∷ 0x80 ∷ 0x80 ∷ [])
    ∷ (0xe2 ∷ 0x80 ∷ 0x81 ∷ [])
    ∷ (0xe2 ∷ 0x80 ∷ 0x82 ∷ [])
    ∷ (0xe2 ∷ 0x80 ∷ 0x83 ∷ [])
    ∷ (0xe2 ∷ 0x80 ∷ 0x84 ∷ [])
    ∷ (0xe2 ∷ 0x80 ∷ 0x85 ∷ [])
    ∷ (0xe2 ∷ 0x80 ∷ 0x86 ∷ [])
    ∷ (0xe2 ∷ 0x80 ∷ 0x87 ∷ [])
    ∷ (0xe2 ∷ 0x80 ∷ 0x88 ∷ [])
    ∷ (0xe2 ∷ 0x80 ∷ 0x89 ∷ [])
    ∷ (0xe2 ∷ 0x80 ∷ 0x8a ∷ [])
    ∷ (0xe2 ∷ 0x80 ∷ 0xa8 ∷ [])
    ∷ (0xe2 ∷ 0x80 ∷ 0xa9 ∷ [])
    ∷ (0xe2 ∷ 0x80 ∷ 0xaf ∷ [])
    ∷ (0xe2 ∷ 0x81 ∷ 0x9f ∷ [])
    ∷ (0xe3 ∷ 0x80 ∷ 0x80 ∷ [])
    ∷ []

-- The number of bytes of the space that a text begins with, 0 if it begins with none.
space_width : Text → ℕ
space_width [] = 0
space_width (c ∷ s) =
    if is_ascii_space c
    then 1
    else if any (λ p. has_prefix p (c ∷ s)) spaces2
    then 2
    else if any (λ p. has_prefix p (c ∷ s)) spaces3
    then 3
    else 0

-- The same from the end: the text and the spaces are reversed.
space_width_end : Text → ℕ
space_width_end [] = 0
space_width_end (c ∷ s) =
    if is_ascii_space c
    then 1
    else if any (λ p. has_prefix (reverse p) (c ∷ s)) spaces2
    then 2
    else if any (λ p. has_prefix (reverse p) (c ∷ s)) spaces3
    then 3
    else 0

-- Drops spaces from the front; `inside` bytes of the current one are left.
trim_from : (Text → ℕ) → ℕ → Text → Text
trim_from width inside [] = []
trim_from width (suc inside) (c ∷ s) = trim_from width inside s
trim_from width zero (c ∷ s) = elim (width (c ∷ s)) [
  | zero ↦ c ∷ s
  | suc inside ↦ trim_from width inside s
]

unfoldable pub trim_space : Text → Text
unfolding trim_from space_width space_width_end
trim_space s = reverse (trim_from space_width_end 0 (reverse (trim_from space_width 0 s)))

keeps :
    (width : Text → ℕ) (c : ℕ) (s : Text) → width (c ∷ s) ≡ 0 → trim_from width 0 (c ∷ s) ≡ c ∷ s
unfolding trim_from
keeps width c s h = rw (h, trim_from) refl

ends :
    (a b d : Bool)
    → a ≡ false
    → b ≡ false
    → d ≡ false
    → ◌≡◌ {A = ℕ} (if a then 1 else if b then 2 else if d then 3 else 0) 0
ends a b d h k l = ground arith

-- A byte that is neither a space nor a part of one.
abbrev pub is_solid : ℕ → Bool
is_solid c = leb 33 c && leb c 127

space_width-solid : (c : ℕ) (s : Text) → is_solid c ≡ true → space_width (c ∷ s) ≡ 0
unfolding space_width has_prefix
space_width-solid c s h = ground arith

-- The first byte is not ASCII.
abbrev starts_high : Text → Bool
starts_high [] = false
starts_high (k ∷ p) = leb 128 k

has_prefix-high :
    (p s : Text) (c : ℕ) → starts_high p ≡ true → is_solid c ≡ true → has_prefix p (c ∷ s) ≡ false
unfolding has_prefix
has_prefix-high [] s c h k = absurd (ground arith)
has_prefix-high (d ∷ p) s c h k = ground arith

any-high :
    (ps : List Text) (s : Text) (c : ℕ)
    → All (λ p. starts_high (reverse p) ≡ true) ps
    → is_solid c ≡ true
    → any (λ p. has_prefix (reverse p) (c ∷ s)) ps ≡ false
any-high [] s c h k = refl
any-high (p ∷ ps) s c h k =
    ground (arith, has_prefix-high (reverse p) s c h.0 k, any-high ps s c h.1 k)

spaces3-high : All (λ p. starts_high (reverse p) ≡ true) spaces3
spaces3-high = (
  refl,
  (
    refl,
    (
      refl,
      (
        refl,
        (
          refl,
          (
            refl,
            (
              refl,
              (refl, (refl, (refl, (refl, (refl, (refl, (refl, (refl, (refl, (refl, tt)))))))))),
            ),
          ),
        ),
      ),
    ),
  ),
)

space_width_end-solid : (c : ℕ) (s : Text) → is_solid c ≡ true → space_width_end (c ∷ s) ≡ 0
unfolding space_width_end
space_width_end-solid c s h =
    let two = any-high spaces2 s c (refl, (refl, tt)) h in
    let three = any-high spaces3 s c spaces3-high h in
    ends (is_ascii_space c) _ _ (ground arith) two three

-- A text that begins and ends with such bytes is trimmed to itself.
pub trim_space-solid :
    (c d : ℕ) (s : Text)
    → is_solid c ≡ true
    → is_solid d ≡ true
    → trim_space (c ∷ (s ++ (d ∷ []))) ≡ c ∷ (s ++ (d ∷ []))
unfolding trim_space trim_from
trim_space-solid c d s h k =
    let text : Text = c ∷ (s ++ (d ∷ [])) in
    let front : trim_from space_width 0 text ≡ text =
      keeps space_width c (s ++ (d ∷ [])) (space_width-solid c (s ++ (d ∷ [])) h) in
    let turned : reverse text ≡ d ∷ reverse (c ∷ s) = reverse-append (c ∷ s) (d ∷ []) in
    let back : trim_from space_width_end 0 (reverse text) ≡ reverse text =
      ap (trim_from space_width_end 0) turned
      ∙ (keeps space_width_end d (reverse (c ∷ s)) (space_width_end-solid d (reverse (c ∷ s)) k)
          ∙ sym turned) in
    ap (λ x. reverse (trim_from space_width_end 0 (reverse x))) front
    ∙ (ap reverse back ∙ reverse-reverse text)
