-- ===== src/Base/Any.antt =====
-- A test for some element of a list, and the order of the list.
use mathlib.Core.List.{Perm, Permᴰ}
use mathlib.Core.Logic.{∥∥₁_elim}
use mathlib.Core.Path.{◌≡◌, refl, ◌∙◌}
use mathlib.Core.Bool.{Bool, ◌||◌}
use mathlib.Core.List.{List, [], ◌∷◌, ◌++◌}
use native.Mathlib.Omega.{arith}
use ratatoskr_go.Base.Lists.{any}
use ratatoskr_go.Base.Texts.{Text, text_eq, member}

bool_set : IsSet Bool
bool_set = hlevel

module _ {ℓ} {A : Type ℓ} (p : A → Bool) where
  pub any-append : (xs ys : List A) → any p (xs ++ ys) ≡ (any p xs || any p ys)
  any-append [] ys = refl
  any-append (x ∷ xs) ys = ground (arith, any-append xs ys)

  any-permᴰ : {xs ys : List A} → Permᴰ xs ys → any p xs ≡ any p ys
  any-permᴰ Permᴰ.nil = refl
  any-permᴰ (Permᴰ.cons {a = x} e q) = rw (e, any-permᴰ q) refl
  any-permᴰ (Permᴰ.swap {a = x} {b = y} {l = l} d e) = rw (d, e) (ground arith)
  any-permᴰ (Permᴰ.trans q r) = any-permᴰ q ∙ any-permᴰ r

  pub any-perm : {xs ys : List A} → Perm xs ys → any p xs ≡ any p ys
  any-perm {xs = xs} {ys = ys} q = ∥∥₁_elim q (bool_set (any p xs) (any p ys)) any-permᴰ

member-any : (x : Text) (xs : List Text) → member x xs ≡ any (text_eq x) xs
unfolding member
member-any x [] = refl
member-any x (y ∷ ys) = ground (arith, member-any x ys)

pub member-perm : (x : Text) {xs ys : List Text} → Perm xs ys → member x xs ≡ member x ys
member-perm x {xs = xs} {ys = ys} p = rw (member-any x xs, member-any x ys) (any-perm (text_eq x) p)
