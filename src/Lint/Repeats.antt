-- ===== src/Lint/Repeats.antt =====
-- Which alerts `detectDuplicateAlerts` reports: of each name, every occurrence after the first.
use mathlib.Core.List.{Perm, Permᴰ, append-nil}
use mathlib.Core.List.Perm
use mathlib.Core.Logic.{∥∥₁_elim}
use ratatoskr_go.Base.{
  ◌≡◌, refl, ap, sym, ◌∙◌, inl, inr, Bool, true, false, List, [], ◌∷◌, ◌++◌, map, Text, text_eq,
  text_eq_iff, All, select, select-append, select-All, arith, if◌then◌else◌, Bool-cases,
}
use mathlib.Core.Path.{subst}
use ratatoskr_go.Finding.{Finding, Source}
use ratatoskr_go.Extract.{PromResult, LogResult}
use ratatoskr_go.Lint.{
  RuleFile, Seen, has_name, extend, add, add_all, duplicate, duplicates_at, duplicates_in,
  alerts_of_files, detect_duplicate_alerts,
}
use ratatoskr_go.Lint.Duplicates.{
  named, Entry, seen-Tracks, first_of, has_name-extend, has_name-append,
}

-- No two entries have one name.
abbrev Distinct : Seen → Type 0
Distinct [] = Unit
Distinct (e ∷ seen) = (has_name e.0 seen ≡ false) × Distinct seen

extend-Distinct : (at : Source) (seen : Seen) → Distinct seen → Distinct (map (extend at) seen)
extend-Distinct at [] h = tt
extend-Distinct at (e ∷ seen) h =
    (ground (arith, has_name-extend at e.0 seen, h.0), extend-Distinct at seen h.1)

append-Distinct :
    (seen : Seen) (e : Text × List Source)
    → has_name e.0 seen ≡ false
    → Distinct seen
    → Distinct (seen ++ e ∷ [])
append-Distinct [] e n h = (refl, tt)
append-Distinct (f ∷ seen) e n h = (
  ground (arith, has_name-append f.0 seen e, text_eq_iff f.0 e.0, text_eq_iff e.0 f.0, h.0),
  append-Distinct seen e (ground arith) h.1,
)

add-Distinct : (seen : Seen) (at : Source) → Distinct seen → Distinct (add seen at)
unfolding add
add-Distinct seen at h = elim (Bool-cases (has_name at.rule seen)) [
  | inl old ↦ rw (old, add) (extend-Distinct at seen h)
  | inr new ↦ rw (new, add) (append-Distinct seen (at.rule, at ∷ []) new h)
]

add_all-Distinct : (seen : Seen) (rest : List Source) → Distinct seen → Distinct (add_all seen rest)
unfolding add_all
add_all-Distinct seen [] h = h
add_all-Distinct seen (at ∷ rest) h = add_all-Distinct (add seen at) rest (add-Distinct seen at h)

abbrev pub about : Text → Finding → Bool
about name f = text_eq name f.source.rule

-- All but the first.
abbrev pub tail {ℓ} : {A : Type ℓ} → List A → List A
tail [] = []
tail (x ∷ xs) = xs

about_own :
    (name : Text) (first : Source) (locs : List Source)
    → All (λ at. named name at ≡ true) locs
    → select (about name) (map (duplicate name first) locs) ≡ map (duplicate name first) locs
unfolding duplicate
about_own name first [] h = refl
about_own name first (at ∷ locs) h = ground (arith, about_own name first locs h.1, h.0)

about_other :
    (name other : Text) (first : Source) (locs : List Source)
    → text_eq other name ≡ false
    → All (λ at. named other at ≡ true) locs
    → select (about name) (map (duplicate other first) locs) ≡ []
unfolding duplicate
about_other name other first [] n h = refl
about_other name other first (at ∷ locs) n h = ground (
  arith,
  text_eq_iff other name,
  text_eq_iff other at.rule,
  text_eq_iff name at.rule,
  about_other name other first locs n,
  h.0,
  h.1,
)

about_entry :
    (alerts : List Source) (name : Text) (e : Text × List Source)
    → Entry alerts e
    → select (about name) (duplicates_at e) ≡ (
        if text_eq e.0 name
        then map (duplicate name (first_of alerts name)) (tail (select (named name) alerts))
        else [])
about_entry alerts name (other, []) h = elim (Bool-cases (text_eq other name)) [
  | inl same ↦
      let e : other ≡ name = (text_eq_iff other name).0 same in rw same (rw (← e, ← h) refl)
  | inr differ ↦ rw differ refl
]
about_entry alerts name (other, first ∷ rest) h =
    let names : All (λ at. named other at ≡ true) (first ∷ rest) =
      subst (All (λ at. named other at ≡ true)) (sym h) (select-All (named other) alerts) in
    elim (Bool-cases (text_eq other name)) [
      | inl same ↦
          let e : other ≡ name = (text_eq_iff other name).0 same in
          rw same (rw (← e, ← h) (about_own other first rest names.1))
      | inr differ ↦ rw differ (about_other name other first rest differ names.1)
    ]

-- Of each name, the findings on it are those of its entry.
about_seen :
    (alerts : List Source) (name : Text) (seen : Seen)
    → All (Entry alerts) seen
    → Distinct seen
    → select (about name) (duplicates_in seen) ≡ (
        if has_name name seen
        then map (duplicate name (first_of alerts name)) (tail (select (named name) alerts))
        else [])
unfolding duplicates_in
about_seen alerts name [] h d = refl
about_seen alerts name (e ∷ seen) h d =
    select-append (about name) (duplicates_at e) (duplicates_in seen)
    ∙ ground (
      arith,
      about_entry alerts name e h.0,
      about_seen alerts name seen h.1 d.1,
      text_eq_iff e.0 name,
      append-nil (map (duplicate name (first_of alerts name)) (tail (select (named name) alerts))),
      d.0,
    )

-- The entries of a map in any order: what holds of the map holds of them.
record Walked (alerts : List Source) (m n : Seen) : Type 0 where
  pub entries : All (Entry alerts) n
  pub distinct : Distinct n
  pub names : (name : Text) → has_name name n ≡ has_name name m

walkedᴰ :
    (alerts : List Source) {m n : Seen}
    → Permᴰ m n
    → All (Entry alerts) m
    → Distinct m
    → Walked alerts m n
walkedᴰ alerts Permᴰ.nil h d = record { entries = tt; distinct = tt; names = λ name. refl }
walkedᴰ alerts (Permᴰ.cons {a = a} {b = b} {l₁ = l₁} {l₂ = l₂} e p) h d =
    let w = walkedᴰ alerts p h.1 d.1 in
    record {
      entries = (subst (Entry alerts) e h.0, w.entries);
      distinct = (ap (λ x. has_name x.0 l₂) (sym e) ∙ w.names a.0 ∙ d.0, w.distinct);
      names = λ name. rw (← e) (ap (λ b. if text_eq a.0 name then true else b) (w.names name));
    }
walkedᴰ alerts (Permᴰ.swap {a = a} {b = b} {l = l} e f) h d =
    rw (← e, ← f)
      (record {
        entries = (h.1.0, (h.0, h.1.1));
        distinct = (
          ground (arith, d.0, d.1.0, text_eq_iff a.0 b.0, text_eq_iff b.0 a.0),
          (ground (arith, d.0), d.1.1),
        );
        names = λ name. ground arith;
      })
walkedᴰ alerts (Permᴰ.trans p q) h d =
    let v = walkedᴰ alerts p h d in
    let w = walkedᴰ alerts q v.entries v.distinct in
    record {
      entries = w.entries;
      distinct = w.distinct;
      names = λ name. w.names name ∙ v.names name;
    }

finding_list-set : IsSet (List Finding)
finding_list-set = hlevel

-- For every name and every order in which the map of names is walked, the findings of
-- detectDuplicateAlerts on alerts of that name are one E303 for each alert of the two corpora with
-- that name after the first, in document order, each naming the place of the first.
pub detect_duplicate_alerts_exact :
    (range : Seen → Seen)
    → ((m : Seen) → Perm (range m) m)
    → (prom_files : List (RuleFile PromResult)) (loki_files : List (RuleFile LogResult))
    → (name : Text)
    → let alerts = alerts_of_files prom_files ++ alerts_of_files loki_files in
      select (about name) (detect_duplicate_alerts range prom_files loki_files)
      ≡ map (duplicate name (first_of alerts name)) (tail (select (named name) alerts))
unfolding detect_duplicate_alerts
detect_duplicate_alerts_exact range r prom_files loki_files name =
    let alerts = alerts_of_files prom_files ++ alerts_of_files loki_files in
    let seen : Seen = add_all [] alerts in
    let t = seen-Tracks alerts in
    ∥∥₁_elim (Perm.symm (r seen)) (finding_list-set _ _) (λ p.
      let w = walkedᴰ alerts p t.entries (add_all-Distinct [] alerts tt) in
      ground (
        arith,
        about_seen alerts name (range seen) w.entries w.distinct,
        w.names name,
        t.missing name,
      ))
