-- ===== src/Catalog/Suggest.antt =====
-- pkg/catalog/suggest.go: the edit distance with a cutoff, and the ranking of suggestions.
pub mod Edits
pub mod Rows
pub mod Ranking
use ratatoskr_go.Base.{
  ℕ, zero, suc, ◌+◌, ◌-◌, Bool, true, false, not, Option, none, some, List, [], ◌∷◌, map, Text,
  text_eq, text_lt, is_empty, length, take, ltb, leb, ◌==◌, if◌then◌else◌,
}
use ratatoskr_go.Base.Int.{ℤ, pos, negsuc, pos_part}
use ratatoskr_go.Base.Sort.{sort_stable}

-- |a - b|, as `abs(la-lb)` computes it.
abbrev pub abs_diff : ℕ → ℕ → ℕ
abs_diff a b = if ltb a b then b - a else a - b

abbrev pub min3 : ℕ → ℕ → ℕ → ℕ
min3 a b c = let m = if ltb b a then b else a in if ltb c m then c else m

-- The inner loop: the cells of the current row after its first, and the row's minimum. The row
-- above is read from cell j-1 on, `left` is curr[j-1].
pub fill_row : ℕ → List ℕ → Text → ℕ → ℕ → List ℕ × ℕ
fill_row c (diag ∷ up ∷ above) (y ∷ ys) left row_min =
    let cell : ℕ = min3 (up + 1) (left + 1) (diag + (if c == y then 0 else 1)) in
    let (row, least) =
      fill_row c (up ∷ above) ys cell (if ltb cell row_min then cell else row_min) in
    (cell ∷ row, least)
fill_row c above ys left row_min = ([], row_min)

-- prev[lb]
abbrev pub last_cell : List ℕ → ℕ
last_cell [] = 0
last_cell (d ∷ []) = d
last_cell (d ∷ e ∷ row) = last_cell (e ∷ row)

-- The outer loop from row i on: `cs` are the bytes of a that are left, `prev` the row above.
pub rows : ℕ → Text → ℕ → Text → List ℕ → Option ℕ
rows cutoff b i [] prev = if ltb cutoff (last_cell prev) then none else some (last_cell prev)
rows cutoff b i (c ∷ cs) prev =
    let (row, least) = fill_row c prev b i i in
    if ltb cutoff least then none else rows cutoff b (i + 1) cs (i ∷ row)

-- prev[j] = j, from j on, for the cells over `ys`.
pub first_row : ℕ → Text → List ℕ
first_row j [] = j ∷ []
first_row j (y ∷ ys) = j ∷ first_row (j + 1) ys

-- `none` is the result -1.
unfoldable pub levenshtein : Text → Text → ℕ → Option ℕ
levenshtein a b cutoff =
    if text_eq a b
    then some 0
    else if ltb cutoff (abs_diff (length a) (length b))
    then none
    else if length a == 0
    then (if leb (length b) cutoff then some (length b) else none)
    else if length b == 0
    then (if leb (length a) cutoff then some (length a) else none)
    else rows cutoff b 1 a (first_row 0 b)

pub record Scored : Type 0 where
  pub name : Text
  pub dist : ℕ

abbrev pub scored_less : Scored → Scored → Bool
scored_less a b = if not (a.dist == b.dist) then ltb a.dist b.dist else text_lt a.name b.name

-- The loop over the corpus.
unfoldable pub score_all : Text → List Text → ℕ → List Scored
score_all query [] cutoff = []
score_all query (c ∷ corpus) cutoff =
    let rest = score_all query corpus cutoff in
    elim (levenshtein query c cutoff) [
      | none ↦ rest
      | some d ↦ record { name = c; dist = d } ∷ rest
    ]

abbrev pub no_corpus : List Text → Bool
no_corpus [] = true
no_corpus (c ∷ cs) = false

-- maxResults <= 0
abbrev pub not_positive : ℤ → Bool
not_positive (pos zero) = true
not_positive (pos (suc n)) = false
not_positive (negsuc n) = true

-- A nil result and an empty one are both [].
unfoldable pub suggest : Text → List Text → ℤ → ℤ → List Text
suggest query corpus max_results max_distance = elim (is_empty query) [
  | true ↦ []
  | false ↦ elim (no_corpus corpus) [
    | true ↦ []
    | false ↦ elim (not_positive max_results) [
      | true ↦ []
      | false ↦
          map (λ s. s.name)
            (take (pos_part max_results)
              (sort_stable scored_less (score_all query corpus (pos_part max_distance))))
    ]
  ]
]
