-- ===== src/Base/Sort.antt =====
-- Stable sorting by a Boolean less-than, as sort.SliceStable does it. On elements that the order
-- tells apart, any sorting function (sort.Slice, sort.Strings) returns the same list.
use mathlib.Core.Path.{◌≡◌, refl, ap, ◌∙◌}
use mathlib.Core.Bool.{Bool, true, false}
use mathlib.Core.List.{List, [], ◌∷◌, ◌++◌, Perm, Permᴰ, is_set}
use mathlib.Core.List.Perm
use mathlib.Core.Logic.{inl, inr, ∥∥₁_elim}
use native.Mathlib.Omega.{arith}
use ratatoskr_go.Base.Tests.{Bool-cases, if◌then◌else◌}
use ratatoskr_go.Base.Lists.{All, select}
use ratatoskr_go.Base.Order.{IsWeakOrder, ties}

module _ {ℓ} {A : Type ℓ} (less : A → A → Bool) where
  unfoldable pub insert : A → List A → List A
  insert x [] = x ∷ []
  insert x (y ∷ ys) = if less y x then y ∷ insert x ys else x ∷ y ∷ ys

  unfoldable pub sort_stable : List A → List A
  unfolding insert
  sort_stable [] = []
  sort_stable (x ∷ xs) = insert x (sort_stable xs)

  -- Each element may stand before all that follow it.
  abbrev pub IsSorted : List A → Type ℓ
  IsSorted [] = Unit
  IsSorted (x ∷ xs) = All (λ y. less y x ≡ false) xs × IsSorted xs

  insert-perm : (x : A) (xs : List A) → Perm (insert x xs) (x ∷ xs)
  unfolding insert
  insert-perm x [] = Perm.refl (x ∷ [])
  insert-perm x (y ∷ ys) = elim (Bool-cases (less y x)) [
    | inl h ↦ rw h (Perm.trans (Perm.cons y (insert-perm x ys)) (Perm.swap x y ys))
    | inr h ↦ rw h (Perm.refl (x ∷ y ∷ ys))
  ]

  -- Sorting keeps every element, as often as it stands in the list.
  pub sort_stable-perm : (xs : List A) → Perm (sort_stable xs) xs
  unfolding sort_stable
  sort_stable-perm [] = Perm.refl []
  sort_stable-perm (x ∷ xs) =
      Perm.trans (insert-perm x (sort_stable xs)) (Perm.cons x (sort_stable-perm xs))

  -- Sorting sees the tail of a list only sorted.
  pub sort_stable-append :
      (xs ys zs : List A)
      → sort_stable ys ≡ sort_stable zs
      → sort_stable (xs ++ ys) ≡ sort_stable (xs ++ zs)
  unfolding sort_stable
  sort_stable-append [] ys zs h = h
  sort_stable-append (x ∷ xs) ys zs h = ap (insert x) (sort_stable-append xs ys zs h)

  module _ {κ} (P : A → Type κ) where
    insert-All : (x : A) (xs : List A) → P x → All P xs → All P (insert x xs)
    unfolding insert
    insert-All x [] p h = (p, tt)
    insert-All x (y ∷ ys) p h = elim (Bool-cases (less y x)) [
      | inl e ↦ rw e (h.0, insert-All x ys p h.1)
      | inr e ↦ rw e (p, h)
    ]

    pub sort_stable-All : (xs : List A) → All P xs → All P (sort_stable xs)
    unfolding sort_stable
    sort_stable-All [] h = tt
    sort_stable-All (x ∷ xs) h = insert-All x (sort_stable xs) h.0 (sort_stable-All xs h.1)

  module _ (o : IsWeakOrder less) where
    All-before :
        (x y : A) (ys : List A)
        → less y x ≡ false
        → All (λ z. less z y ≡ false) ys
        → All (λ z. less z x ≡ false) ys
    All-before x y [] h a = tt
    All-before x y (z ∷ zs) h a = (o.trans x y z h a.0, All-before x y zs h a.1)

    insert-IsSorted : (x : A) (xs : List A) → IsSorted xs → IsSorted (insert x xs)
    unfolding insert
    insert-IsSorted x [] h = (tt, tt)
    insert-IsSorted x (y ∷ ys) h = elim (Bool-cases (less y x)) [
      | inl e ↦
          rw e
            (insert-All (λ z. less z y ≡ false) x ys (o.asym y x e) h.0, insert-IsSorted x ys h.1)
      | inr e ↦ rw e ((e, All-before x y ys e h.0), h)
    ]

    pub sort_stable-IsSorted : (xs : List A) → IsSorted (sort_stable xs)
    unfolding sort_stable
    sort_stable-IsSorted [] = tt
    sort_stable-IsSorted (x ∷ xs) = insert-IsSorted x (sort_stable xs) (sort_stable-IsSorted xs)

    ties_not_less : (a x y : A) → less y x ≡ true → ties less a x ≡ true → ties less a y ≡ false
    ties_not_less a x y h t = ground (arith, o.trans x a y, o.trans y a x, o.asym y x)

    insert-select :
        (a x : A) (xs : List A) → select (ties less a) (insert x xs) ≡ select (ties less a) (x ∷ xs)
    unfolding insert
    insert-select a x [] = refl
    insert-select a x (y ∷ ys) = elim (Bool-cases (less y x)) [
      | inl e ↦ ground (arith, insert-select a x ys, ties_not_less a x y e)
      | inr e ↦ rw e refl
    ]

    -- Elements that tie keep the order they came in.
    pub sort_stable-select :
        (a : A) (xs : List A) → select (ties less a) (sort_stable xs) ≡ select (ties less a) xs
    unfolding sort_stable
    sort_stable-select a [] = refl
    sort_stable-select a (x ∷ xs) =
        insert-select a x (sort_stable xs) ∙ ground (arith, sort_stable-select a xs)

    module _ {κ} (P : A → Type κ)
        (agree : (a b : A) → P a → P b → less a b ≡ false → less b a ≡ false → a ≡ b) where
      insert_comm :
          (x y : A) (zs : List A)
          → P x
          → P y
          → All P zs
          → insert x (insert y zs) ≡ insert y (insert x zs)
      unfolding insert
      insert_comm x y [] px py h = ground (arith, agree x y px py, o.asym x y)
      insert_comm x y (z ∷ zs) px py h = ground (
        arith,
        insert_comm x y zs px py h.1,
        agree x y px py,
        o.asym x y,
        o.trans x y z,
        o.trans y x z,
      )

      sort_stable_eqᴰ :
          {xs ys : List A} → Permᴰ xs ys → All P xs → All P ys × (sort_stable xs ≡ sort_stable ys)
      unfolding sort_stable
      sort_stable_eqᴰ Permᴰ.nil h = (tt, refl)
      sort_stable_eqᴰ (Permᴰ.cons {a = x} e p) h =
          let (t, s) = sort_stable_eqᴰ p h.1 in ((rw (← e) h.0, t), rw (e, s) refl)
      sort_stable_eqᴰ (Permᴰ.swap {a = x} {b = y} {l = l} d e) h = (
        (rw (← e) h.1.0, (rw (← d) h.0, h.1.1)),
        rw (← d, ← e) (insert_comm x y (sort_stable l) h.0 h.1.0 (sort_stable-All P l h.1.1)),
      )
      sort_stable_eqᴰ (Permᴰ.trans p q) h =
          let (t, s) = sort_stable_eqᴰ p h in let (u, r) = sort_stable_eqᴰ q t in (u, s ∙ r)

      -- Where the order tells the elements apart, the sorted list does not depend on the order
      -- of the input.
      pub sort_stable-eq_of_perm :
          IsSet A → {xs ys : List A} → Perm xs ys → All P xs → sort_stable xs ≡ sort_stable ys
      sort_stable-eq_of_perm set p h = ∥∥₁_elim p (is_set set _ _) (λ d. (sort_stable_eqᴰ d h).1)
