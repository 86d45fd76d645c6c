-- ===== src/Runner/Pipeline/Order.antt =====
-- internal/runner/runner.go: neither the order of the paths that are given nor the order in which a
-- map is walked shows in a run.
use mathlib.Core.List.{Perm, Permᴰ, append_assoc, perm_append_comm}
use mathlib.Core.List.Perm
use mathlib.Core.Logic.{∥∥₁_elim}
use ratatoskr_go.Base.{
  ℕ, ◌≡◌, refl, ap, ◌∙◌, Bool, ◌⊎◌, inl, inr, Option, none, some, List, [], ◌∷◌, ◌++◌, Text,
  text_lt, All, arith,
}
use ratatoskr_go.Base.Int.{ℤ}
use ratatoskr_go.Base.Order.{text-IsKeyOrder, last_key-IsWeakOrder}
use ratatoskr_go.Base.Sort.{sort_stable, sort_stable-eq_of_perm}
use ratatoskr_go.Finding.{Finding}
use ratatoskr_go.Finding.Order.{IsOrdered, sort_findings-IsOrdered}
use ratatoskr_go.Lint.{Seen}
use ratatoskr_go.Lint.Duplicates.{lint_all_deterministic}
use ratatoskr_go.Runner.Expand.{Entry, both, expand_all, expand}
use ratatoskr_go.Runner.Load.{Files, Inputs, Loaded, load}
use ratatoskr_go.Runner.Gather.{Checker, gather, run_catalog}
use ratatoskr_go.Runner.Pipeline.{Config, Result, run, run_loaded, report, with_defaults}

record Halves (x y : Text ⊎ List Text) (out : List Text) : Type 0 where
  pub front : List Text
  pub back : List Text
  pub front_eq : x ≡ inr front
  pub back_eq : y ≡ inr back
  pub out_eq : front ++ back ≡ out

both-Halves : (x y : Text ⊎ List Text) (out : List Text) → both x y ≡ inr out → Halves x y out
both-Halves (inl err) y out e = absurd (ground arith)
both-Halves (inr xs) (inl err) out e = absurd (ground arith)
both-Halves (inr xs) (inr ys) out e = record {
  front = xs;
  back = ys;
  front_eq = refl;
  back_eq = refl;
  out_eq = ground arith;
}

exchange : (a b c : List Text) → Perm (a ++ (b ++ c)) (b ++ (a ++ c))
exchange a b c =
    rw (← append_assoc a b c, ← append_assoc b a c) (Perm.append_right c (perm_append_comm a b))

listing_set : IsSet (Text ⊎ List Text)
listing_set = hlevel

text_set : IsSet Text
text_set = hlevel

every_text : (xs : List Text) → All (λ x. Unit {0}) xs
every_text [] = tt
every_text (x ∷ xs) = (tt, every_text xs)

text_sort-perm : {xs ys : List Text} → Perm xs ys → sort_stable text_lt xs ≡ sort_stable text_lt ys
text_sort-perm {xs = xs} p =
    sort_stable-eq_of_perm text_lt (last_key-IsWeakOrder text-IsKeyOrder (λ x. x)) (λ x. Unit {0})
      (λ a b ha hb. text-IsKeyOrder.connex a b) text_set p (every_text xs)

sorted_of :
    (x : Text ⊎ List Text) (out : List Text)
    → elim x [ inl err ↦ inl err | inr found ↦ inr (sort_stable text_lt found) ] ≡ inr out
    → (found : List Text) × (x ≡ inr found) × (sort_stable text_lt found ≡ out)
sorted_of (inl err) out e = absurd (ground arith)
sorted_of (inr found) out e = (found, refl, ground arith)

module _ (join : Text → Text → Text) (stat : Text → Text ⊎ Bool) (walk : Text → Text ⊎ Entry)
    (allowed_ext : List Text) where
  all_of : List Text → Text ⊎ List Text
  all_of ps = expand_all join stat walk allowed_ext ps

  record Listed (ps : List Text) (out : List Text) : Type 0 where
    pub found : List Text
    pub found_eq : all_of ps ≡ inr found
    pub found_perm : Perm out found

  expand_all-perm :
      {ps qs : List Text} → Permᴰ ps qs → (out : List Text) → all_of ps ≡ inr out → Listed qs out
  unfolding all_of expand_all
  expand_all-perm Permᴰ.nil out e = record { found = out; found_eq = e; found_perm = Perm.refl out }
  expand_all-perm (Permᴰ.cons {a = a} {b = b} {l₁ = l} {l₂ = m} d p) out e =
      let h = both-Halves _ _ out e in
      let rest = expand_all-perm p h.back h.back_eq in
      record {
        found = h.front ++ rest.found;
        found_eq = rw (← d, h.front_eq, rest.found_eq) refl;
        found_perm = rw (← h.out_eq) (Perm.append_left h.front rest.found_perm);
      }
  expand_all-perm (Permᴰ.swap {a = a} {b = b} {l = l} d c) out e =
      let h = both-Halves _ _ out e in
      let k = both-Halves _ _ h.back h.back_eq in
      record {
        found = k.front ++ (h.front ++ k.back);
        found_eq = rw (← d, ← c, h.front_eq, k.front_eq, k.back_eq) refl;
        found_perm = rw (← h.out_eq, ← k.out_eq) (exchange h.front k.front k.back);
      }
  expand_all-perm (Permᴰ.trans p q) out e =
      let first = expand_all-perm p out e in
      let second = expand_all-perm q first.found first.found_eq in
      record {
        found = second.found;
        found_eq = second.found_eq;
        found_perm = Perm.trans first.found_perm second.found_perm;
      }

  sorted-perm :
      {ps qs : List Text}
      → Permᴰ ps qs
      → (out : List Text) → expand join stat walk ps allowed_ext ≡ inr out
      → expand join stat walk qs allowed_ext ≡ inr out
  unfolding expand all_of
  sorted-perm {ps = ps} {qs = qs} p out e =
      let r = sorted_of (all_of ps) out e in
      let l = expand_all-perm p r.0 r.1 in
      rw (expand, l.found_eq) (ap inr (text_sort-perm (Perm.symm l.found_perm) ∙ r.2))

  -- If the expansion of a list of paths succeeds, then that of the same paths in any other order
  -- succeeds with the same list of files, in the same order.
  pub expand_order :
      {ps qs : List Text}
      → Perm ps qs
      → (out : List Text) → expand join stat walk ps allowed_ext ≡ inr out
      → expand join stat walk qs allowed_ext ≡ inr out
  expand_order p out e = ∥∥₁_elim p (listing_set _ _) (λ d. sorted-perm d out e)

module _ (range range' : Seen → Seen) (r : (m : Seen) → Perm (range m) m)
    (r' : (m : Seen) → Perm (range' m) m) (parse_model : Text → Option ℕ) (show_duration : ℕ → Text)
    {S : Type 0} (cfg : Config S) where
  report_deterministic :
      (files : Loaded) (found : List Finding)
      → report range parse_model show_duration cfg files found
        ≡ report range' parse_model show_duration cfg files found
  report_deterministic files found =
      rw
        (lint_all_deterministic range range' r r' parse_model show_duration cfg.lint
          files.prom_files files.loki_files)
        refl

  run_loaded_deterministic :
      (show_int : ℤ → Text) (files : Loaded) (s : S)
      → run_loaded range parse_model show_duration cfg show_int files s
        ≡ run_loaded range' parse_model show_duration cfg show_int files s
  unfolding run_loaded
  run_loaded_deterministic show_int files s = λ i. elim (cfg.checker) [
    | none ↦ (inr (report_deterministic files [] i), s)
    | some checker ↦
        let (found, t) =
          run_catalog checker cfg.prewarm cfg.prewarm_parallelism
            (gather show_int files.prom_files files.loki_files files.dashboards) s in
        elim found [ inl err ↦ (inl err, t) | inr fs ↦ (inr (report_deterministic files fs i), t) ]
  ]

-- The findings of a result are in order; an error has none.
abbrev pub IsReported : Text ⊎ Result → Type 0
IsReported (inl err) = Unit
IsReported (inr res) = IsOrdered res.findings

module _ (range : Seen → Seen) (parse_model : Text → Option ℕ) (show_duration : ℕ → Text)
    {S : Type 0} (cfg : Config S) (show_int : ℤ → Text) where
  checked-IsReported :
      (files : Loaded) (r : (Text ⊎ List Finding) × S)
      → IsReported
          (elim (r.0) as (λ x. (Text ⊎ Result) × S) [
            | inl err ↦ (inl err, r.1)
            | inr fs ↦ (inr (report range parse_model show_duration cfg files fs), r.1)
          ]).0
  checked-IsReported files (inl err, t) = tt
  checked-IsReported files (inr fs, t) = sort_findings-IsOrdered _

  run_loaded-IsReported :
      (files : Loaded) (s : S) (c : Option (Checker S))
      → cfg.checker ≡ c
      → IsReported (run_loaded range parse_model show_duration cfg show_int files s).0
  unfolding run_loaded
  run_loaded-IsReported files s none h = rw (run_loaded, h) (sort_findings-IsOrdered _)
  run_loaded-IsReported files s (some checker) h = rw (run_loaded, h) (checked-IsReported files _)

module _ (range : Seen → Seen) (parse_model : Text → Option ℕ) (show_duration : ℕ → Text)
    {S : Type 0} (fs : Files) (cfg : Config S) (given : Inputs) where
  run-IsReported :
      (s : S) (l : Text ⊎ Loaded)
      → load fs given ≡ l
      → IsReported (run range parse_model show_duration fs cfg given s).0
  unfolding run
  run-IsReported s (inl err) h = rw (run, h) tt
  run-IsReported s (inr files) h =
      rw (run, h)
        (run_loaded-IsReported range parse_model show_duration (with_defaults cfg) fs.show_int files
          s _ refl)

-- With two orders of walking the map of alert names, a run with the same files, configuration,
-- inputs and state of the catalog has the same outcome, findings and their order included, and
-- leaves the same state; and the findings of a run that succeeds are in the order of file, line,
-- group, rule, code and message.
pub run_deterministic :
    (range range' : Seen → Seen)
    → ((m : Seen) → Perm (range m) m)
    → ((m : Seen) → Perm (range' m) m)
    → (parse_model : Text → Option ℕ) (show_duration : ℕ → Text) {S : Type 0} (fs : Files)
    → (cfg : Config S) (given : Inputs) (s : S)
    → (run range parse_model show_duration fs cfg given s
        ≡ run range' parse_model show_duration fs cfg given s)
      × IsReported (run range parse_model show_duration fs cfg given s).0
unfolding run
run_deterministic range range' r r' parse_model show_duration fs cfg given s = (
  λ i. elim (load fs given) [
    | inl err ↦ (inl err, s)
    | inr files ↦
        run_loaded_deterministic range range' r r' parse_model show_duration (with_defaults cfg)
          fs.show_int files s i
  ],
  run-IsReported range parse_model show_duration fs cfg given s _ refl,
)
