-- ===== src/Catalog/Checker/Silent.antt =====
-- pkg/catalog/checker.go: when a list of findings that is put together and sorted is empty, and the
-- guards that the three checks share.
use mathlib.Core.List.{Perm}
use mathlib.Core.List.Perm
use mathlib.Core.Path.{subst}
use ratatoskr_go.Base.Sort.{sort_stable, sort_stable-perm}
use ratatoskr_go.Base.{
  ◌≡◌, refl, sym, ◌↔◌, Bool, true, false, not, List, [], ◌∷◌, ◌++◌, All, if◌then◌else◌, arith,
}
use ratatoskr_go.Finding.{Finding, before, sort_findings}
use ratatoskr_go.Base.Calls.{Call, Gives, found_by}

pub append_nil_iff : (xs ys : List Finding) → (xs ++ ys ≡ []) ↔ ((xs ≡ []) × (ys ≡ []))
append_nil_iff [] ys = (λ h. (refl, h), λ h. h.1)
append_nil_iff (x ∷ xs) ys = (λ h. absurd (ground arith), λ h. absurd (ground (arith, h.0)))

-- Nothing is found in a list exactly if nothing is found by any element of it.
pub found_by_fits :
    {A : Type 0} (g : A → List Finding) (fits : A → Bool)
    → ((a : A) → (g a ≡ []) ↔ (fits a ≡ true))
    → (xs : List A) → (found_by g xs ≡ []) ↔ All (λ a. fits a ≡ true) xs
found_by_fits g fits h [] = (λ e. tt, λ e. refl)
found_by_fits g fits h (x ∷ xs) =
    let split = append_nil_iff (g x) (found_by g xs) in
    let rest = found_by_fits g fits h xs in
    (λ e. ((h x).0 (split.0 e).0, rest.0 (split.0 e).1), λ e. split.1 ((h x).1 e.0, rest.1 e.1))

pub sort_nil_iff : (out : List Finding) → (sort_findings out ≡ []) ↔ (out ≡ [])
unfolding sort_findings sort_stable
sort_nil_iff out = (
  λ h. sym (Perm.nil-eq (subst (λ x. Perm x out) h (sort_stable-perm before out))),
  λ h. rw (h) refl,
)

pub guard-Gives :
    {S : Type 0} (I : S → Type 0) {A : Type 0} (b d : Bool) (x y z : Call S A) (a : A)
    → b ≡ true
    → d ≡ false
    → Gives I z a
    → Gives I (if not b then x else if d then y else z) a
guard-Gives I true false x y z a h k g = g
guard-Gives I true true x y z a h k g = absurd (ground arith)
guard-Gives I false d x y z a h k g = absurd (ground arith)
