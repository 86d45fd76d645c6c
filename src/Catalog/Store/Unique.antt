-- ===== src/Catalog/Store/Unique.antt =====
-- pkg/catalog/store.go: `sortedUnique`.
use mathlib.Core.Path.{subst}
use ratatoskr_go.Base.{
  ◌≡◌, refl, ◌∙◌, true, ◌||◌, inl, inr, List, [], ◌∷◌, Text, text_eq, text_eq_iff, text_lt, member,
  All, Bool-cases, arith,
}
use ratatoskr_go.Base.Any.{member-perm}
use ratatoskr_go.Base.Order.{text-IsKeyOrder, last_key-IsWeakOrder}
use ratatoskr_go.Base.Sort.{sort_stable, IsSorted, sort_stable-perm, sort_stable-IsSorted}
use ratatoskr_go.Catalog.Store.{unique_after, unique, sorted_unique}

-- Each name stands before all that follow it, and so no name stands twice.
abbrev pub IsIncreasing : List Text → Type 0
IsIncreasing [] = Unit
IsIncreasing (v ∷ rest) = All (λ z. text_lt v z ≡ true) rest × IsIncreasing rest

lt_trans : (a b c : Text) → text_lt a b ≡ true → text_lt b c ≡ true → text_lt a c ≡ true
lt_trans a b c h k = ground (arith, text-IsKeyOrder.trans b c a, text-IsKeyOrder.asym b c)

All-lt :
    (a b : Text)
    → text_lt a b ≡ true
    → (ys : List Text) → All (λ z. text_lt b z ≡ true) ys
    → All (λ z. text_lt a z ≡ true) ys
All-lt a b h [] k = tt
All-lt a b h (y ∷ ys) k = (lt_trans a b y h k.0, All-lt a b h ys k.1)

unique_after-IsIncreasing :
    (last : Text) (xs : List Text)
    → IsSorted text_lt (last ∷ xs)
    → IsIncreasing (last ∷ unique_after last xs)
unfolding unique_after
unique_after-IsIncreasing last [] h = (tt, tt)
unique_after-IsIncreasing last (v ∷ rest) h = elim (Bool-cases (text_eq v last)) [
  | inl e ↦ rw (e) (
      subst (λ w. IsIncreasing (w ∷ unique_after v rest)) ((text_eq_iff v last).0 e)
        (unique_after-IsIncreasing v rest h.1))
  | inr e ↦
      let kept = unique_after-IsIncreasing v rest h.1 in
      let less : text_lt last v ≡ true =
        ground (arith, text_eq_iff v last, text-IsKeyOrder.connex v last h.0.0) in
      rw (e) ((less, All-lt last v less (unique_after v rest) kept.0), kept)
]

unique_after-member :
    (x last : Text) (xs : List Text)
    → (text_eq x last || member x (unique_after last xs)) ≡ (text_eq x last || member x xs)
unfolding unique_after member
unique_after-member x last [] = refl
unique_after-member x last (v ∷ rest) =
    ground
      (arith, text_eq_iff v last, text_eq_iff x v, text_eq_iff x last, unique_after-member x v rest)

unique-IsIncreasing : (xs : List Text) → IsSorted text_lt xs → IsIncreasing (unique xs)
unique-IsIncreasing [] h = tt
unique-IsIncreasing (v ∷ rest) h = unique_after-IsIncreasing v rest h

unique-member : (x : Text) (xs : List Text) → member x (unique xs) ≡ member x xs
unfolding member
unique-member x [] = refl
unique-member x (v ∷ rest) = unique_after-member x v rest

-- sortedUnique returns the names in strictly increasing order, and exactly the names it is given.
pub sorted_unique-IsIncreasing :
    (names : List Text)
    → IsIncreasing (sorted_unique names)
      × ((x : Text) → member x (sorted_unique names) ≡ member x names)
unfolding sorted_unique
sorted_unique-IsIncreasing names = (
  unique-IsIncreasing (sort_stable text_lt names)
      (sort_stable-IsSorted text_lt (last_key-IsWeakOrder text-IsKeyOrder (λ x. x)) names),
  λ x. unique-member x (sort_stable text_lt names) ∙ member-perm x (sort_stable-perm text_lt names),
)
