-- ===== src/Catalog/Suggest/Edits.antt =====
-- Edit scripts, and the least number of edits between two texts: the specification of the
-- edit distance, independent of how the program computes it.
use mathlib.Core.List.{reverse, reverse-cons, reverse-reverse, append-nil}
use ratatoskr_go.Base.{
  ℕ, suc, ◌+◌, ◌≤◌, min, ◌≡◌, refl, sym, ◌⊎◌, inl, inr, [], ◌∷◌, ◌++◌, Text, length, ◌==◌,
  if◌then◌else◌, arith, ==_iff, Bool-cases,
}
use mathlib.Core.Path.{subst}

-- n insertions, deletions and substitutions of a byte turn the first text into the second.
pub data Edits : Text → Text → ℕ → Type 0 where
  done : Edits [] [] 0
  keep : {s t : Text} {n : ℕ} (c : ℕ) → Edits s t n → Edits (c ∷ s) (c ∷ t) n
  change : {s t : Text} {n : ℕ} (c d : ℕ) → Edits s t n → Edits (c ∷ s) (d ∷ t) (suc n)
  delete : {s t : Text} {n : ℕ} (c : ℕ) → Edits s t n → Edits (c ∷ s) t (suc n)
  add : {s t : Text} {n : ℕ} (d : ℕ) → Edits s t n → Edits s (d ∷ t) (suc n)

-- d is the least length of an edit script.
pub record IsDistance (s t : Text) (d : ℕ) : Type 0 where
  pub script : Edits s t d
  pub least : (n : ℕ) → Edits s t n → d ≤ n

unfoldable pub distance : Text → Text → ℕ
distance [] t = length t
distance (c ∷ s) [] = suc (length s)
distance (c ∷ s) (d ∷ t) =
    min (distance s (d ∷ t) + 1)
      (min (distance (c ∷ s) t + 1) (distance s t + (if c == d then 0 else 1)))

add_all : (t : Text) → Edits [] t (length t)
add_all [] = done
add_all (d ∷ t) = add d (add_all t)

delete_all : (s : Text) → Edits s [] (length s)
delete_all [] = done
delete_all (c ∷ s) = delete c (delete_all s)

of_length : {s t : Text} {n m : ℕ} → Edits s t n → n ≡ m → Edits s t m
of_length {s} {t} e h = subst (Edits s t) h e

-- The last column of a matching pair costs nothing, of another pair one.
match_or_change :
    (c d : ℕ) {s t : Text} {n : ℕ}
    → Edits s t n
    → Edits (c ∷ s) (d ∷ t) (n + (if c == d then 0 else 1))
match_or_change c d {s} {t} {n} e = elim (Bool-cases (c == d)) [
  | inl same ↦
      let h : c ≡ d = (==_iff c d).0 same in
      of_length (subst (λ x. Edits (c ∷ s) (x ∷ t) n) h (keep c e)) (ground arith)
  | inr other ↦ of_length (change c d e) (ground arith)
]

min_cases : (x y z : ℕ) → (min x (min y z) ≡ x) ⊎ (min x (min y z) ≡ y) ⊎ (min x (min y z) ≡ z)
min_cases x y z = grind arith

distance-Edits : (s t : Text) → Edits s t (distance s t)
unfolding distance
distance-Edits [] t = add_all t
distance-Edits (c ∷ s) [] = delete_all (c ∷ s)
distance-Edits (c ∷ s) (d ∷ t) =
    elim (min_cases (distance s (d ∷ t) + 1) (distance (c ∷ s) t + 1)
      (distance s t + (if c == d then 0 else 1))) [
        | inl h ↦ of_length (delete c (distance-Edits s (d ∷ t))) (omega arith)
        | inr (inl h) ↦ of_length (add d (distance-Edits (c ∷ s) t)) (omega arith)
        | inr (inr h) ↦ of_length (match_or_change c d (distance-Edits s t)) (sym h)
      ]

pub distance-nil : (s : Text) → distance s [] ≡ length s
unfolding distance
distance-nil [] = refl
distance-nil (c ∷ s) = refl

distance-delete : (c : ℕ) (s t : Text) → distance (c ∷ s) t ≤ distance s t + 1
unfolding distance
distance-delete c s [] = omega (arith, distance-nil s)
distance-delete c s (d ∷ t) = ground arith

distance-add : (d : ℕ) (s t : Text) → distance s (d ∷ t) ≤ distance s t + 1
unfolding distance
distance-add d [] t = omega arith
distance-add d (c ∷ s) t = ground arith

distance-change : (c d : ℕ) (s t : Text) → distance (c ∷ s) (d ∷ t) ≤ distance s t + 1
unfolding distance
distance-change c d s t = ground arith

distance-keep : (c : ℕ) (s t : Text) → distance (c ∷ s) (c ∷ t) ≤ distance s t
unfolding distance
distance-keep c s t = ground arith

-- No edit script is shorter.
distance-le : {s t : Text} {n : ℕ} → Edits s t n → distance s t ≤ n
distance-le done = omega (arith, distance-nil [])
distance-le (keep {s} {t} c e) = omega (arith, distance-keep c s t, distance-le e)
distance-le (change {s} {t} c d e) = omega (arith, distance-change c d s t, distance-le e)
distance-le (delete {s} {t} c e) = omega (arith, distance-delete c s t, distance-le e)
distance-le (add {s} {t} d e) = omega (arith, distance-add d s t, distance-le e)

-- `distance` is the least number of edits.
pub distance-IsDistance : (s t : Text) → IsDistance s t (distance s t)
distance-IsDistance s t = record { script = distance-Edits s t; least = λ n e. distance-le e }

pub distance-eq : (s t : Text) (d : ℕ) → IsDistance s t d → d ≡ distance s t
distance-eq s t d h =
    omega (arith, h.least (distance s t) (distance-Edits s t), distance-le h.script)

Edits-append :
    {s t u v : Text} {n m : ℕ} → Edits s t n → Edits u v m → Edits (s ++ u) (t ++ v) (n + m)
Edits-append done f = of_length f (omega arith)
Edits-append (keep c e) f = keep c (Edits-append e f)
Edits-append (change c d e) f = of_length (change c d (Edits-append e f)) (omega arith)
Edits-append (delete c e) f = of_length (delete c (Edits-append e f)) (omega arith)
Edits-append (add d e) f = of_length (add d (Edits-append e f)) (omega arith)

Edits-length :
    {s t : Text} {n : ℕ} → Edits s t n → (length s ≤ length t + n) × (length t ≤ length s + n)
Edits-length done = omega arith
Edits-length (keep c e) = omega (arith, Edits-length e)
Edits-length (change c d e) = omega (arith, Edits-length e)
Edits-length (delete c e) = omega (arith, Edits-length e)
Edits-length (add d e) = omega (arith, Edits-length e)

-- The difference of the lengths is a lower bound.
pub distance-length :
    (s t : Text) → (length s ≤ length t + distance s t) × (length t ≤ length s + distance s t)
distance-length s t = Edits-length (distance-Edits s t)

Edits-reverse : {s t : Text} {n : ℕ} → Edits s t n → Edits (reverse s) (reverse t) n
Edits-reverse done = done
Edits-reverse (keep {s} {t} {n} c e) =
    rw (reverse-cons c s, reverse-cons c t)
      (of_length (Edits-append (Edits-reverse e) (keep c done)) (omega arith))
Edits-reverse (change {s} {t} {n} c d e) =
    rw (reverse-cons c s, reverse-cons d t)
      (of_length (Edits-append (Edits-reverse e) (change c d done)) (omega arith))
Edits-reverse (delete {s} {t} {n} c e) =
    rw (reverse-cons c s, ← append-nil (reverse t))
      (of_length (Edits-append (Edits-reverse e) (delete c done)) (omega arith))
Edits-reverse (add {s} {t} {n} d e) =
    rw (reverse-cons d t, ← append-nil (reverse s))
      (of_length (Edits-append (Edits-reverse e) (add d done)) (omega arith))

-- The distance from the ends of the texts is the distance from their starts.
pub distance-reverse : (s t : Text) → distance (reverse s) (reverse t) ≡ distance s t
distance-reverse s t =
    let there = distance-le (Edits-reverse (distance-Edits s t)) in
    let back = distance-le (
      rw (reverse-reverse s, reverse-reverse t) at
        (Edits-reverse (distance-Edits (reverse s) (reverse t)))) in
    omega arith

keep_all : (s : Text) → Edits s s 0
keep_all [] = done
keep_all (c ∷ s) = keep c (keep_all s)

pub distance_self : (s : Text) → distance s s ≡ 0
distance_self s = omega (arith, distance-le (keep_all s))
