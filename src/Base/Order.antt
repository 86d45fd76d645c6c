-- ===== src/Base/Order.antt =====
-- Strict weak orders as Boolean tests, and their lexicographic composition: the ladders
-- `if a.k != b.k { return a.k < b.k }` of the program's comparison functions.
use mathlib.Core.Path.{◌≡◌, refl}
use mathlib.Core.Bool.{Bool, true, false, ◌&&◌, not}
use mathlib.Core.Logic.{◌↔◌}
use mathlib.Core.List.{[], ◌∷◌}
use native.Mathlib.Omega.{arith}
use ratatoskr_go.Base.Tests.{ltb, ◌==◌, ==_iff, if◌then◌else◌}
use ratatoskr_go.Base.Texts.{Text, text_eq, text_lt, text_eq_iff}

-- `less b a ≡ false` reads: a may stand before b.
pub record IsWeakOrder {ℓ} {A : Type ℓ} (less : A → A → Bool) : Type ℓ where
  pub asym : (a b : A) → less a b ≡ true → less b a ≡ false
  pub trans : (a b c : A) → less b a ≡ false → less c b ≡ false → less c a ≡ false

-- A total order on keys, with the equality test that goes with it.
pub record IsKeyOrder {ℓ} {K : Type ℓ} (eq lt : K → K → Bool) : Type ℓ where
  pub eq_iff : (a b : K) → (eq a b ≡ true) ↔ (a ≡ b)
  pub asym : (a b : K) → lt a b ≡ true → lt b a ≡ false
  pub trans : (a b c : K) → lt b a ≡ false → lt c b ≡ false → lt c a ≡ false
  pub connex : (a b : K) → lt a b ≡ false → lt b a ≡ false → a ≡ b

-- Two values that the order does not tell apart.
abbrev pub ties {ℓ} : {A : Type ℓ} → (A → A → Bool) → A → A → Bool
ties less a b = not (less a b) && not (less b a)

-- Compare by a key first, and by the rest where the keys are the same.
abbrev pub by_key {ℓ κ} :
    {A : Type ℓ} {K : Type κ}
    → (K → K → Bool)
    → (K → K → Bool)
    → (A → K)
    → (A → A → Bool)
    → A
    → A
    → Bool
by_key eq lt f rest a b = if not (eq (f a) (f b)) then lt (f a) (f b) else rest a b

-- The end of a ladder: `return a.k < b.k`.
abbrev pub last_key {ℓ κ} : {A : Type ℓ} {K : Type κ} → (K → K → Bool) → (A → K) → A → A → Bool
last_key lt f a b = lt (f a) (f b)

module _ {ℓ κ} {A : Type ℓ} {K : Type κ} {eq lt : K → K → Bool} (k : IsKeyOrder eq lt)
    (f : A → K) where
  pub last_key-IsWeakOrder : IsWeakOrder (last_key lt f)
  last_key-IsWeakOrder = record {
    asym = λ a b. k.asym (f a) (f b);
    trans = λ a b c. k.trans (f a) (f b) (f c);
  }

  lt_irrefl : (a : K) → lt a a ≡ false
  lt_irrefl a = ground (arith, k.asym a a)

  module _ {rest : A → A → Bool} (r : IsWeakOrder rest) where
    by_key_asym : (a b : A) → by_key eq lt f rest a b ≡ true → by_key eq lt f rest b a ≡ false
    by_key_asym a b h =
        ground (arith, k.eq_iff (f a) (f b), k.eq_iff (f b) (f a), k.asym (f a) (f b), r.asym a b)

    by_key_trans :
        (a b c : A)
        → by_key eq lt f rest b a ≡ false
        → by_key eq lt f rest c b ≡ false
        → by_key eq lt f rest c a ≡ false
    by_key_trans a b c h l = ground (
      arith,
      k.eq_iff (f b) (f a),
      k.eq_iff (f c) (f b),
      k.eq_iff (f c) (f a),
      k.trans (f a) (f b) (f c),
      k.connex (f a) (f b),
      k.connex (f b) (f c),
      k.asym (f a) (f b),
      k.asym (f b) (f c),
      r.trans a b c,
    )

    pub by_key-IsWeakOrder : IsWeakOrder (by_key eq lt f rest)
    by_key-IsWeakOrder = record { asym = by_key_asym; trans = by_key_trans }

pub nat-IsKeyOrder : IsKeyOrder ◌==◌ ltb
nat-IsKeyOrder = record {
  eq_iff = ==_iff;
  asym = λ a b h. ground arith;
  trans = λ a b c h k. ground arith;
  connex = λ a b h k. ground arith;
}

text_lt_asym : (s t : Text) → text_lt s t ≡ true → text_lt t s ≡ false
unfolding text_lt
text_lt_asym [] [] h = refl
text_lt_asym [] (b ∷ t) h = refl
text_lt_asym (a ∷ s) [] h = ground arith
text_lt_asym (a ∷ s) (b ∷ t) h = ground (arith, text_lt_asym s t)

text_lt_trans : (s t u : Text) → text_lt t s ≡ false → text_lt u t ≡ false → text_lt u s ≡ false
unfolding text_lt
text_lt_trans [] [] u h k = k
text_lt_trans [] (b ∷ t) [] h k = refl
text_lt_trans [] (b ∷ t) (c ∷ u) h k = refl
text_lt_trans (a ∷ s) [] u h k = ground arith
text_lt_trans (a ∷ s) (b ∷ t) [] h k = ground arith
text_lt_trans (a ∷ s) (b ∷ t) (c ∷ u) h k = ground (arith, text_lt_trans s t u)

text_lt_connex : (s t : Text) → text_lt s t ≡ false → text_lt t s ≡ false → s ≡ t
unfolding text_lt
text_lt_connex [] [] h k = refl
text_lt_connex [] (b ∷ t) h k = ground arith
text_lt_connex (a ∷ s) [] h k = ground arith
text_lt_connex (a ∷ s) (b ∷ t) h k = ground (arith, text_lt_connex s t)

pub text-IsKeyOrder : IsKeyOrder text_eq text_lt
text-IsKeyOrder = record {
  eq_iff = text_eq_iff;
  asym = text_lt_asym;
  trans = text_lt_trans;
  connex = text_lt_connex;
}
