-- ===== src/Catalog/Suggest/Rows.antt =====
-- The table of `levenshtein`, row by row, against the edit distance.
use mathlib.Core.List.{reverse, reverse_aux}
use native.Mathlib.Nat.{le_refl}
use native.Mathlib.Numerals.{add-one}
use ratatoskr_go.Base.{
  ℕ, suc, ◌+◌, ◌≤◌, ◌≡◌, refl, ap, Option, none, some, List, [], ◌∷◌, Text, length, leb, ltb, ◌==◌,
  if◌then◌else◌, arith, text_eq_sound,
}
use ratatoskr_go.Catalog.Suggest.{min3, fill_row, last_cell, rows, first_row, levenshtein}
use ratatoskr_go.Catalog.Suggest.Edits.{
  distance, distance-reverse, distance-length, distance_self, distance-nil,
}

-- The row of the prefix `ra` over the bytes `ys` that are left, after the cell of `rb`; the
-- prefixes are reversed.
abbrev tail_cells : Text → Text → Text → List ℕ
tail_cells ra rb [] = []
tail_cells ra rb (y ∷ ys) = distance ra (y ∷ rb) ∷ tail_cells ra (y ∷ rb) ys

abbrev cells : Text → Text → Text → List ℕ
cells ra rb ys = distance ra rb ∷ tail_cells ra rb ys

-- k is at most the distance from `s` to each suffix of `t`.
abbrev IsBelow : ℕ → Text → Text → Type 0
IsBelow k s [] = k ≤ distance s []
IsBelow k s (d ∷ t) = (k ≤ distance s (d ∷ t)) × IsBelow k s t

IsBelow-head : (k : ℕ) (s t : Text) → IsBelow k s t → k ≤ distance s t
IsBelow-head k s [] h = h
IsBelow-head k s (d ∷ t) h = h.0

IsBelow-cons : (k c : ℕ) (s t : Text) → IsBelow k s t → IsBelow k (c ∷ s) t
unfolding distance
IsBelow-cons k c s [] h = omega (arith, distance-nil s)
IsBelow-cons k c s (d ∷ t) h =
    let rest = IsBelow-cons k c s t h.1 in
    (ground (arith, IsBelow-head k (c ∷ s) t rest, IsBelow-head k s t h.1), rest)

IsBelow-weaken : (j k : ℕ) (s t : Text) → j ≤ k → IsBelow k s t → IsBelow j s t
IsBelow-weaken j k s [] l h = omega arith
IsBelow-weaken j k s (d ∷ t) l h = (omega arith, IsBelow-weaken j k s t l h.1)

IsBelow-reverse_aux : (k : ℕ) (cs s t : Text) → IsBelow k s t → IsBelow k (reverse_aux cs s) t
IsBelow-reverse_aux k [] s t h = h
IsBelow-reverse_aux k (c ∷ cs) s t h = IsBelow-reverse_aux k cs (c ∷ s) t (IsBelow-cons k c s t h)

-- One cell from its three neighbours.
cell-distance :
    (c y : ℕ) (ra rb : Text)
    → min3
        (distance ra (y ∷ rb) + 1)
        (distance (c ∷ ra) rb + 1)
        (distance ra rb + (if c == y then 0 else 1))
      ≡ distance (c ∷ ra) (y ∷ rb)
unfolding distance
cell-distance c y ra rb = ground arith

-- The inner loop turns the row of a prefix into the row of the next one, and its minimum is at
-- most every cell.
fill_row-cells :
    (c m : ℕ) (ra rb ys : Text)
    → IsBelow m (c ∷ ra) rb
    → ((fill_row c (cells ra rb ys) ys (distance (c ∷ ra) rb) m).0 ≡ tail_cells (c ∷ ra) rb ys)
      × IsBelow
          (fill_row c (cells ra rb ys) ys (distance (c ∷ ra) rb) m).1
          (c ∷ ra)
          (reverse_aux ys rb)
unfolding fill_row
fill_row-cells c m ra rb [] h = (refl, h)
fill_row-cells c m ra rb (y ∷ ys) h =
    let cell = distance (c ∷ ra) (y ∷ rb) in
    let least = if ltb cell m then cell else m in
    let below : IsBelow least (c ∷ ra) (y ∷ rb) =
      (ground arith, IsBelow-weaken least m (c ∷ ra) rb (ground arith) h) in
    let (row, min_below) = fill_row-cells c least ra (y ∷ rb) ys below in
    rw cell-distance (ap (◌∷◌ cell) row, min_below)

-- A distance above the cutoff is reported as none.
abbrev pub within : ℕ → ℕ → Option ℕ
within cutoff d = if leb d cutoff then some d else none

last_cell-cells : (ra rb ys : Text) → last_cell (cells ra rb ys) ≡ distance ra (reverse_aux ys rb)
last_cell-cells ra rb [] = refl
last_cell-cells ra rb (y ∷ ys) = last_cell-cells ra (y ∷ rb) ys

first_row-cells : (j : ℕ) (rb ys : Text) → j ≡ length rb → first_row j ys ≡ cells [] rb ys
unfolding first_row distance
first_row-cells j rb [] h = rw h refl
first_row-cells j rb (y ∷ ys) h = rw (first_row-cells (j + 1) (y ∷ rb) ys (omega arith)) (rw h refl)

-- To give up on a row loses nothing.
cutoff_early :
    (cutoff least d : ℕ)
    → least ≤ d
    → (if ltb cutoff least then none else within cutoff d) ≡ within cutoff d
cutoff_early cutoff least d h = ground arith

-- The outer loop, from any row on, ends with the distance of the whole texts.
rows-within :
    (cutoff : ℕ) (b cs ra : Text)
    → rows cutoff b (suc (length ra)) cs (cells ra [] b)
      ≡ within cutoff (distance (reverse_aux cs ra) (reverse b))
unfolding rows distance
rows-within cutoff b [] ra = ground (arith, last_cell-cells ra [] b)
rows-within cutoff b (c ∷ cs) ra =
    let i = suc (length ra) in
    let least = (fill_row c (cells ra [] b) b i i).1 in
    let (row, below) = fill_row-cells c i ra [] b (le_refl i) in
    let bound =
      IsBelow-head least (reverse_aux cs (c ∷ ra)) (reverse b)
        (IsBelow-reverse_aux least cs (c ∷ ra) (reverse b) below) in
    rw (row, add-one i, rows-within cutoff b cs (c ∷ ra))
      (cutoff_early cutoff least (distance (reverse_aux cs (c ∷ ra)) (reverse b)) bound)

-- Where one text is empty, the distance is the length of the other.
distance-short :
    (a b : Text)
    → (length a ≡ 0 → distance a b ≡ length b) × (length b ≡ 0 → distance a b ≡ length a)
unfolding distance
distance-short [] b = (λ h. refl, λ h. omega arith)
distance-short (c ∷ a) [] = (λ h. absurd (omega arith), λ h. refl)
distance-short (c ∷ a) (d ∷ b) = (λ h. absurd (omega arith), λ h. absurd (omega arith))

rows-start :
    (cutoff : ℕ) (a b : Text) → rows cutoff b 1 a (first_row 0 b) ≡ within cutoff (distance a b)
rows-start cutoff a b =
    rw (first_row-cells 0 [] b refl, ← distance-reverse a b) (rows-within cutoff b a [])

-- The result is the edit distance, unless that exceeds the cutoff.
pub levenshtein-within :
    (a b : Text) (cutoff : ℕ) → levenshtein a b cutoff ≡ within cutoff (distance a b)
unfolding levenshtein
levenshtein-within a b cutoff = ground (
  arith,
  text_eq_sound a b,
  distance_self a,
  distance-length a b,
  rows-start cutoff a b,
  distance-short a b,
)
