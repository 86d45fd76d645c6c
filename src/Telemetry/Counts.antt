-- ===== src/Telemetry/Counts.antt =====
-- internal/telemetry/telemetry.go: what the metrics count.
use mathlib.Core.List.{Perm, Permᴰ}
use mathlib.Core.Logic.{∥∥₁_elim}
use ratatoskr_go.Base.{
  ℕ, ◌+◌, ◌≤◌, ◌≡◌, refl, ◌∙◌, ◌↔◌, Bool, true, ◌||◌, ◌&&◌, List, [], ◌∷◌, any, Text, text_eq,
  text_eq_iff, ◌==◌, ==_iff, if◌then◌else◌, arith,
}
use ratatoskr_go.Finding.{Finding, severity_error, severity_warning, severity_info}
use ratatoskr_go.Telemetry.{
  Vector, add_to, set_to, value_of, Labels, labels_eq, Telemetry, count_findings, record_findings,
  count_severities, no_counts, set_each, record_last_run_findings,
}

unfoldable pub sum_by {ℓ} : {A : Type ℓ} → (A → ℕ) → List A → ℕ
sum_by f [] = 0
sum_by f (x ∷ xs) = f x + sum_by f xs

sum_by-permᴰ {ℓ} :
    {A : Type ℓ} (f : A → ℕ) {xs ys : List A} → Permᴰ xs ys → sum_by f xs ≡ sum_by f ys
unfolding sum_by
sum_by-permᴰ f Permᴰ.nil = refl
sum_by-permᴰ f (Permᴰ.cons {a = x} {b = y} e p) = rw (e, sum_by-permᴰ f p) refl
sum_by-permᴰ f (Permᴰ.swap {a = x} {b = y} {l = l} d e) = rw (d, e) (omega arith)
sum_by-permᴰ f (Permᴰ.trans p q) = sum_by-permᴰ f p ∙ sum_by-permᴰ f q

nat_set : IsSet ℕ
nat_set = hlevel

pub sum_by-perm {ℓ} :
    {A : Type ℓ} (f : A → ℕ) {xs ys : List A} → Perm xs ys → sum_by f xs ≡ sum_by f ys
sum_by-perm f {xs = xs} {ys = ys} p =
    ∥∥₁_elim p (nat_set (sum_by f xs) (sum_by f ys)) (sum_by-permᴰ f)

module _ {K : Type 0} (eq : K → K → Bool) (law : (a b : K) → (eq a b ≡ true) ↔ (a ≡ b)) where
  value_of-add_to :
      (k j : K) (n : ℕ) (v : Vector K)
      → value_of eq j (add_to eq k n v) ≡ value_of eq j v + (if eq j k then n else 0)
  unfolding value_of add_to
  value_of-add_to k j n [] = ground arith
  value_of-add_to k j n ((i, m) ∷ v) =
      ground (arith, law k i, law j i, law j k, value_of-add_to k j n v)

  value_of-set_to :
      (k j : K) (n : ℕ) (v : Vector K)
      → value_of eq j (set_to eq k n v) ≡ (if eq j k then n else value_of eq j v)
  unfolding value_of set_to
  value_of-set_to k j n [] = ground arith
  value_of-set_to k j n ((i, m) ∷ v) =
      ground (arith, law k i, law j i, law j k, value_of-set_to k j n v)

  copy : K → K × ℕ → ℕ
  copy j e = if eq j e.0 then 1 else 0

  share : K → K × ℕ → ℕ
  share j e = if eq j e.0 then e.1 else 0

  share_absent : (j : K) (v : Vector K) → sum_by (copy j) v ≡ 0 → sum_by (share j) v ≡ 0
  unfolding sum_by copy share
  share_absent j [] h = refl
  share_absent j ((i, m) ∷ v) h = ground (arith, share_absent j v (ground arith))

  value_of-sum_by :
      (j : K) (v : Vector K) → sum_by (copy j) v ≤ 1 → value_of eq j v ≡ sum_by (share j) v
  unfolding value_of sum_by copy share
  value_of-sum_by j [] h = refl
  value_of-sum_by j ((i, m) ∷ v) h = ground (arith, share_absent j v, value_of-sum_by j v)

  copies-add_to :
      (k j : K) (n : ℕ) (v : Vector K)
      → sum_by (copy j) (add_to eq k n v)
        ≡ (if eq j k && sum_by (copy j) v == 0 then 1 else sum_by (copy j) v)
  unfolding sum_by copy add_to
  copies-add_to k j n [] = ground (arith, ==_iff 0 0)
  copies-add_to k j n ((i, m) ∷ v) =
      ground (arith, law k i, law j i, law j k, ==_iff (sum_by (copy j) v) 0, copies-add_to k j n v)

text_copies : Text → Vector Text → ℕ
text_copies j v = sum_by (copy text_eq text_eq_iff j) v

abbrev pub of_severity : Text → Finding → Bool
of_severity sev f = text_eq sev f.severity

-- The number of elements that pass a test.
unfoldable pub count {ℓ} : {A : Type ℓ} → (A → Bool) → List A → ℕ
count p xs = sum_by (λ x. if p x then 1 else 0) xs

count_severities-value :
    (sev : Text) (findings : List Finding) (counts : Vector Text)
    → value_of text_eq sev (count_severities findings counts)
      ≡ value_of text_eq sev counts + count (of_severity sev) findings
unfolding count_severities count sum_by
count_severities-value sev [] counts = omega arith
count_severities-value sev (f ∷ findings) counts = ground (
  arith,
  count_severities-value sev findings (add_to text_eq f.severity 1 counts),
  value_of-add_to text_eq text_eq_iff f.severity sev 1 counts,
)

text_copies-add_to :
    (k sev : Text) (counts : Vector Text)
    → text_copies sev counts ≤ 1
    → text_copies sev (add_to text_eq k 1 counts)
      ≡ (if text_eq sev k then 1 else text_copies sev counts)
unfolding text_copies
text_copies-add_to k sev counts h = ground (
  arith,
  ==_iff (sum_by (copy text_eq text_eq_iff sev) counts) 0,
  copies-add_to text_eq text_eq_iff k sev 1 counts,
)

count_severities-copies :
    (sev : Text) (findings : List Finding) (counts : Vector Text)
    → text_copies sev counts ≤ 1
    → text_copies sev (count_severities findings counts)
      ≡ (if any (of_severity sev) findings then 1 else text_copies sev counts)
unfolding count_severities
count_severities-copies sev [] counts h = refl
count_severities-copies sev (f ∷ findings) counts h =
    let e = text_copies-add_to f.severity sev counts h in
    ground (
      arith,
      e,
      count_severities-copies sev findings (add_to text_eq f.severity 1 counts) (ground (arith, e)),
    )

set_each-value :
    (sev : Text) (counts gauge : Vector Text)
    → text_copies sev counts ≤ 1
    → value_of text_eq sev (set_each counts gauge) ≡ (
        if text_copies sev counts == 0
        then value_of text_eq sev gauge
        else sum_by (share text_eq text_eq_iff sev) counts)
unfolding set_each text_copies sum_by copy share
set_each-value sev [] gauge h = ground (arith, ==_iff 0 0)
set_each-value sev ((k, n) ∷ counts) gauge h = ground (
  arith,
  ==_iff (text_copies sev counts) 0,
  set_each-value sev counts (set_to text_eq k n gauge) (ground arith),
  value_of-set_to text_eq text_eq_iff k sev n gauge,
  share_absent text_eq text_eq_iff sev counts,
)

labels_eq_iff : (a b : Labels) → (labels_eq a b ≡ true) ↔ (a ≡ b)
labels_eq_iff (c, s, k) (d, t, l) = (
  λ h. ground (arith, text_eq_iff c d, text_eq_iff s t, text_eq_iff k l),
  λ e. ground (arith, text_eq_iff c d, text_eq_iff s t, text_eq_iff k l),
)

two_steps : (a b c d : ℕ) → b ≡ a + d → b + c ≡ a + (d + c)
two_steps a b c d e = omega arith

count_findings-value :
    (labels : Labels) (findings : List Finding) (v : Vector Labels)
    → value_of labels_eq labels (count_findings findings v)
      ≡ value_of labels_eq labels v
        + count (λ f. labels_eq labels (f.code, f.severity, f.category)) findings
unfolding count_findings count sum_by
count_findings-value labels [] v = omega arith
count_findings-value labels (f ∷ findings) v =
    count_findings-value labels findings (add_to labels_eq (f.code, f.severity, f.category) 1 v)
    ∙ two_steps (value_of labels_eq labels v) _
        (sum_by (λ g. if labels_eq labels (g.code, g.severity, g.category) then 1 else 0) findings)
        _ (value_of-add_to labels_eq labels_eq_iff (f.code, f.severity, f.category) labels 1 v)

-- A series of the findings counter goes up by the number of findings with its code, severity and
-- category.
pub record_findings-value :
    (labels : Labels) (findings : List Finding) (t : Telemetry)
    → value_of labels_eq labels (record_findings findings t).findings_total
      ≡ value_of labels_eq labels t.findings_total
        + count (λ f. labels_eq labels (f.code, f.severity, f.category)) findings
unfolding record_findings
record_findings-value labels findings t = count_findings-value labels findings t.findings_total

abbrev pub is_known : Text → Bool
is_known sev =
    text_eq sev severity_error || text_eq sev severity_warning || text_eq sev severity_info

no_counts-copies :
    (sev : Text)
    → (text_copies sev no_counts ≡ (if is_known sev then 1 else 0))
      × (text_copies sev no_counts ≤ 1)
unfolding text_copies sum_by copy
no_counts-copies sev = ground (
  arith,
  text_eq_iff sev severity_error,
  text_eq_iff sev severity_warning,
  text_eq_iff sev severity_info,
)

no_counts-value : (sev : Text) → value_of text_eq sev no_counts ≡ 0
unfolding value_of
no_counts-value sev = ground arith

ranged-copies :
    (range : Vector Text → Vector Text)
    → ((m : Vector Text) → Perm (range m) m)
    → (sev : Text) (counts : Vector Text) → text_copies sev (range counts) ≡ text_copies sev counts
unfolding text_copies
ranged-copies range walk sev counts = sum_by-perm (copy text_eq text_eq_iff sev) (walk counts)

ranged-share :
    (range : Vector Text → Vector Text)
    → ((m : Vector Text) → Perm (range m) m)
    → (sev : Text) (counts : Vector Text)
    → sum_by (share text_eq text_eq_iff sev) (range counts)
      ≡ sum_by (share text_eq text_eq_iff sev) counts
ranged-share range walk sev counts = sum_by-perm (share text_eq text_eq_iff sev) (walk counts)

text_value :
    (sev : Text) (counts : Vector Text)
    → text_copies sev counts ≤ 1
    → value_of text_eq sev counts ≡ sum_by (share text_eq text_eq_iff sev) counts
unfolding text_copies
text_value sev counts h = value_of-sum_by text_eq text_eq_iff sev counts h

-- After a run, whatever the order in which the map of the counts is walked, the gauge reads the
-- number of the run's findings of a severity for error, warning and info, and for every severity
-- that the run found; any other series keeps its value.
pub record_last_run_findings-value :
    (range : Vector Text → Vector Text)
    → ((m : Vector Text) → Perm (range m) m)
    → (sev : Text) (findings : List Finding) (t : Telemetry)
    → value_of text_eq sev (record_last_run_findings range findings t).last_run_findings ≡ (
        if is_known sev || any (of_severity sev) findings
        then count (of_severity sev) findings
        else value_of text_eq sev t.last_run_findings)
unfolding record_last_run_findings
record_last_run_findings-value range walk sev findings t =
    let counts : Vector Text = count_severities findings no_counts in
    let copies = count_severities-copies sev findings no_counts (no_counts-copies sev).1 in
    let bound : text_copies sev counts ≤ 1 = ground (arith, copies, no_counts-copies sev) in
    ground (
      arith,
      copies,
      no_counts-copies sev,
      no_counts-value sev,
      ranged-copies range walk sev counts,
      ranged-share range walk sev counts,
      text_value sev counts bound,
      count_severities-value sev findings no_counts,
      ==_iff (text_copies sev (range counts)) 0,
      set_each-value sev (range counts) t.last_run_findings
          (ground (arith, bound, ranged-copies range walk sev counts)),
    )
