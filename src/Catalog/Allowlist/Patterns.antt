-- ===== src/Catalog/Allowlist/Patterns.antt =====
-- pkg/catalog/allowlist.go: what `matchPattern` matches.
use ratatoskr_go.Base.{
  ℕ, ◌≡◌, refl, ◌↔◌, true, false, some, [], ◌∷◌, ◌++◌, Text, bytes, text_eq, has_prefix, ==_iff,
  arith,
}
use ratatoskr_go.Catalog.Allowlist.{before_star, match_pattern}

before_star-append : (stem : Text) → before_star (stem ++ bytes "*") ≡ some stem
unfolding before_star
before_star-append [] = refl
before_star-append (c ∷ []) = refl
before_star-append (c ∷ d ∷ stem) = ground (arith, before_star-append (d ∷ stem))

has_prefix_iff : (stem s : Text) → (has_prefix stem s ≡ true) ↔ ((rest : Text) × (s ≡ stem ++ rest))
unfolding has_prefix
has_prefix_iff [] s = (λ h. (s, refl), λ h. refl)
has_prefix_iff (c ∷ stem) [] = (λ h. absurd (ground arith), λ h. absurd (ground (arith, h.1)))
has_prefix_iff (c ∷ stem) (d ∷ s) = (
  λ h. let e = (has_prefix_iff stem s).0 (ground arith) in (e.0, ground (arith, ==_iff c d, e.1)),
  λ h. ground (arith, ==_iff c d, h.1, (has_prefix_iff stem s).1 (h.0, ground (arith, h.1))),
)

not_bare : (c : ℕ) (stem : Text) → text_eq (c ∷ stem ++ bytes "*") (bytes "*") ≡ false
unfolding text_eq
not_bare c [] = ground arith
not_bare c (d ∷ stem) = ground arith

star-has_prefix : (stem s : Text) → match_pattern (stem ++ bytes "*") s ≡ has_prefix stem s
unfolding match_pattern has_prefix text_eq
star-has_prefix [] s = refl
star-has_prefix (c ∷ stem) s = rw (not_bare c stem, before_star-append (c ∷ stem)) refl

-- A pattern that ends in a star matches exactly the texts that begin with what stands before it.
pub match_pattern-star :
    (stem s : Text)
    → (match_pattern (stem ++ bytes "*") s ≡ true) ↔ ((rest : Text) × (s ≡ stem ++ rest))
match_pattern-star stem s = rw (star-has_prefix stem s) (has_prefix_iff stem s)
