-- ===== src/Base/Calls.antt =====
-- Calls that return a value or an error and change a state, in sequence, and what such
-- a call gives while an invariant of the state holds.
use mathlib.Core.Path.{subst}
use mathlib.Core.Path.{◌≡◌, refl, sym, ap}
use mathlib.Core.Logic.{◌⊎◌, inl, inr}
use mathlib.Core.Bool.{Bool, true, false}
use mathlib.Core.List.{List, [], ◌∷◌, ◌++◌}
use native.Mathlib.Omega.{arith}
use ratatoskr_go.Base.Tests.{if◌then◌else◌}
use ratatoskr_go.Base.Lists.{All}
use ratatoskr_go.Base.Texts.{Text}

-- A call in a state S. The state comes back after an error too.
abbrev pub Call : Type 0 → Type 0 → Type 0
Call S A = S → (Text ⊎ A) × S

abbrev pub found_by : {A B : Type 0} → (A → List B) → List A → List B
found_by g [] = []
found_by g (a ∷ rest) = g a ++ found_by g rest

module _ {S : Type 0} where
  abbrev pub pure : {A : Type 0} → A → Call S A
  pure a s = (inr a, s)

  abbrev pub fail : {A : Type 0} → Text → Call S A
  fail err s = (inl err, s)

  abbrev pub continue : {A B : Type 0} → (A → Call S B) → (Text ⊎ A) × S → (Text ⊎ B) × S
  continue f (inl err, t) = (inl err, t)
  continue f (inr a, t) = f a t

  infixl 5 ◌>>=◌
  unfoldable pub ◌>>=◌ : {A B : Type 0} → Call S A → (A → Call S B) → Call S B
  ◌>>=◌ m f s = continue f (m s)

  infixl 5 ◌>>◌
  abbrev pub ◌>>◌ : {A B : Type 0} → Call S A → Call S B → Call S B
  m >> n = m >>= λ _. n

  -- An error of the call with a text before it: fmt.Errorf("...%w", err).
  abbrev pub prefixed : {A : Type 0} → Text → (Text ⊎ A) × S → (Text ⊎ A) × S
  prefixed p (inl err, t) = (inl (p ++ err), t)
  prefixed p (inr a, t) = (inr a, t)

  unfoldable pub with_prefix : {A : Type 0} → Text → Call S A → Call S A
  with_prefix p m s = prefixed p (m s)

  -- A loop that appends what the calls return, and stops at the first error.
  unfoldable pub each : {A B : Type 0} → (A → Call S (List B)) → List A → Call S (List B)
  each check [] = pure []
  each check (a ∷ rest) = do found ← check a; others ← each check rest; pure (found ++ others)

  -- From each state of the invariant the call returns `a`, and leaves a state of the invariant.
  abbrev pub Gives : (S → Type 0) → {A : Type 0} → Call S A → A → Type 0
  Gives I m a = (s : S) → I s → ((m s).0 ≡ inr a) × I (m s).1

module _ {S : Type 0} (I : S → Type 0) where
  pub pure-Gives : {A : Type 0} (a : A) → Gives I (pure a) a
  pure-Gives a s h = (refl, h)

  continue_lem :
      {A B : Type 0} (f : A → Call S B) (a : A) (b : B) (r : (Text ⊎ A) × S)
      → r.0 ≡ inr a
      → I r.1
      → Gives I (f a) b
      → ((continue f r).0 ≡ inr b) × I (continue f r).1
  continue_lem f a b (inl err, t) e h g = absurd (ground arith)
  continue_lem {A} f a b (inr x, t) e h g =
      let value : (Text ⊎ A) → A = λ y. elim y [ inl err ↦ x | inr z ↦ z ] in
      let same : x ≡ a = ap value e in
      subst (λ y. ((f y t).0 ≡ inr b) × I (f y t).1) (sym same) (g t h)

  pub bind-Gives :
      {A B : Type 0} (m : Call S A) (f : A → Call S B) (a : A) (b : B)
      → Gives I m a
      → Gives I (f a) b
      → Gives I (m >>= f) b
  unfolding ◌>>=◌
  bind-Gives m f a b g k s h = continue_lem f a b (m s) (g s h).0 (g s h).1 k

  pub if-Gives :
      {A : Type 0} (c : Bool) (m n : Call S A) (a b : A)
      → Gives I m a
      → Gives I n b
      → Gives I (if c then m else n) (if c then a else b)
  if-Gives true m n a b g k = g
  if-Gives false m n a b g k = k

  pub each-Gives_all :
      {A B : Type 0} (check : A → Call S (List B)) (g : A → List B) (xs : List A)
      → All (λ a. Gives I (check a) (g a)) xs
      → Gives I (each check xs) (found_by g xs)
  unfolding each
  each-Gives_all check g [] h = pure-Gives []
  each-Gives_all check g (a ∷ rest) h =
      bind-Gives _ _ _ _ h.0
        (bind-Gives _ _ _ _ (each-Gives_all check g rest h.1) (pure-Gives (g a ++ found_by g rest)))

  every :
      {A B : Type 0} (check : A → Call S (List B)) (g : A → List B)
      → ((a : A) → Gives I (check a) (g a))
      → (xs : List A) → All (λ a. Gives I (check a) (g a)) xs
  every check g h [] = tt
  every check g h (a ∷ rest) = (h a, every check g h rest)

  pub each-Gives :
      {A B : Type 0} (check : A → Call S (List B)) (g : A → List B)
      → ((a : A) → Gives I (check a) (g a))
      → (xs : List A) → Gives I (each check xs) (found_by g xs)
  each-Gives check g h xs = each-Gives_all check g xs (every check g h xs)

  prefixed_lem :
      {A : Type 0} (p : Text) (r : (Text ⊎ A) × S) (a : A)
      → r.0 ≡ inr a
      → I r.1
      → ((prefixed p r).0 ≡ inr a) × I (prefixed p r).1
  prefixed_lem p (inl err, t) a e h = absurd (ground arith)
  prefixed_lem p (inr x, t) a e h = (e, h)

  pub with_prefix-Gives :
      {A : Type 0} (p : Text) (m : Call S A) (a : A) → Gives I m a → Gives I (with_prefix p m) a
  unfolding with_prefix
  with_prefix-Gives p m a g s h = prefixed_lem p (m s) a (g s h).0 (g s h).1
