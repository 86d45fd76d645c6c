-- ===== src/Catalog/Suggest/Ranking.antt =====
-- What `levenshtein` and `suggest` return, in terms of the least number of edits.
use mathlib.Core.List.{Perm}
use ratatoskr_go.Base.{
  ℕ, zero, suc, ◌≡◌, refl, ◌∙◌, none, some, List, [], ◌∷◌, map, Text, is_empty, take, select, leb,
  if◌then◌else◌, arith, false,
}
use ratatoskr_go.Base.Int.{ℤ, pos_part, pos, negsuc}
use ratatoskr_go.Base.Order.{
  IsWeakOrder, by_key-IsWeakOrder, last_key-IsWeakOrder, nat-IsKeyOrder, text-IsKeyOrder,
}
use ratatoskr_go.Base.Sort.{sort_stable, IsSorted, sort_stable-perm, sort_stable-IsSorted}
use ratatoskr_go.Catalog.Suggest.{levenshtein, Scored, scored_less, score_all, suggest}
use ratatoskr_go.Catalog.Suggest.Edits.{distance, distance-IsDistance, IsDistance}
use ratatoskr_go.Catalog.Suggest.Rows.{levenshtein-within}

-- For all texts there is a least number d of byte insertions, deletions and substitutions that turn
-- one into the other, and levenshtein returns d if it is at most the cutoff, and -1 if not.
pub levenshtein-IsDistance :
    (a b : Text) (cutoff : ℕ)
    → (d : ℕ) × IsDistance a b d
      × (levenshtein a b cutoff ≡ (if leb d cutoff then some d else none))
levenshtein-IsDistance a b cutoff =
    (distance a b, distance-IsDistance a b, levenshtein-within a b cutoff)

-- The corpus, each entry with its distance from the query.
abbrev pub measured : Text → List Text → List Scored
measured query = map (λ c. record { name = c; dist = distance query c })

-- The entries within the cutoff, in the order of the corpus.
abbrev pub near : Text → List Text → ℕ → List Scored
near query corpus cutoff = select (λ s. leb s.dist cutoff) (measured query corpus)

score_all-near :
    (query : Text) (corpus : List Text) (cutoff : ℕ)
    → score_all query corpus cutoff ≡ near query corpus cutoff
unfolding score_all
score_all-near query [] cutoff = refl
score_all-near query (c ∷ corpus) cutoff =
    ground (arith, levenshtein-within query c cutoff, score_all-near query corpus cutoff)

scored_less-IsWeakOrder : IsWeakOrder scored_less
scored_less-IsWeakOrder =
    by_key-IsWeakOrder nat-IsKeyOrder (λ s. s.dist)
      (last_key-IsWeakOrder text-IsKeyOrder (λ s. s.name))

take-nil {ℓ} : {A : Type ℓ} (n : ℕ) → take n (let e : List A = [] in e) ≡ []
take-nil zero = refl
take-nil (suc n) = refl

-- The early returns give what the ranking would.
suggest_guards :
    (query : Text) (corpus : List Text) (max_results max_distance : ℤ)
    → is_empty query ≡ false
    → suggest query corpus max_results max_distance
      ≡ map
          (λ s. s.name)
          (take
            (pos_part max_results)
            (sort_stable scored_less (score_all query corpus (pos_part max_distance))))
unfolding suggest score_all sort_stable
suggest_guards [] corpus m n h = cc
suggest_guards (q ∷ query) [] m n h = rw take-nil refl
suggest_guards (q ∷ query) (c ∷ corpus) (pos zero) n h = refl
suggest_guards (q ∷ query) (c ∷ corpus) (pos (suc m)) n h = refl
suggest_guards (q ∷ query) (c ∷ corpus) (negsuc m) n h = refl

-- For a query that is not empty, suggest returns the names of the first maxResults entries of a
-- list that holds exactly the corpus entries within maxDistance edits of the query (a negative
-- maxDistance counts as 0, a negative maxResults gives none), ordered by distance and then by name.
pub suggest_ranked :
    (query : Text) (corpus : List Text) (max_results max_distance : ℤ)
    → is_empty query ≡ false
    → (ranked : List Scored) × Perm ranked (near query corpus (pos_part max_distance))
      × IsSorted scored_less ranked
      × (suggest query corpus max_results max_distance
          ≡ map (λ s. s.name) (take (pos_part max_results) ranked))
unfolding suggest
suggest_ranked query corpus max_results max_distance h =
    let found = near query corpus (pos_part max_distance) in
    (
      sort_stable scored_less found,
      sort_stable-perm scored_less found,
      sort_stable-IsSorted scored_less scored_less-IsWeakOrder found,
      suggest_guards query corpus max_results max_distance h
          ∙ rw (score_all-near query corpus (pos_part max_distance)),
    )
