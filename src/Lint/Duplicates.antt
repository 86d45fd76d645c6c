-- ===== src/Lint/Duplicates.antt =====
-- Duplicate alerts: what `detectDuplicateAlerts` reports, and that the order in which Go walks its
-- map does not show.
use mathlib.Core.List.{Perm, Permᴰ, append_assoc, append-nil, perm_append_comm, Perm-prop}
use mathlib.Core.List.Perm
use mathlib.Core.Logic.{∥∥₁_elim}
use mathlib.Core.Path.{subst}
use ratatoskr_go.Base.{
  ℕ, ◌≡◌, refl, sym, ap, ◌∙◌, Bool, true, false, inl, inr, List, [], ◌∷◌, ◌++◌, map, Option,
  is_empty, Text, text_eq, text_eq_iff, All, All-append, select, select-append, select-All,
  select_keeps, arith, if◌then◌else◌, Bool-cases,
}
use ratatoskr_go.Base.Sort.{sort_stable, sort_stable-append, sort_stable-eq_of_perm}
use ratatoskr_go.Finding.{Finding, Source, no_source, before, sort_findings}
use ratatoskr_go.Finding.Order.{before_ties, before-IsWeakOrder}
use ratatoskr_go.Extract.{RuleExtraction, RuleGroup, PromResult, LogResult}
use ratatoskr_go.Lint.{
  Config, RuleFile, Seen, has_name, extend, add, add_all, duplicate, duplicates_at, duplicates_in,
  alerts_of_files, alerts_of_groups, alerts_of_rules, detect_duplicate_alerts, lint_files, lint_all,
}

abbrev pub named : Text → Source → Bool
named name at = text_eq name at.rule

-- The entry of a name holds its locations among those read so far, in order.
abbrev pub Entry : List Source → Text × List Source → Type 0
Entry read e = e.1 ≡ select (named e.0) read

pub record Tracks (read : List Source) (seen : Seen) : Type 0 where
  pub entries : All (Entry read) seen
  pub missing : (name : Text) → has_name name seen ≡ false → select (named name) read ≡ []

pub has_name-extend :
    (at : Source) (name : Text) (seen : Seen)
    → has_name name (map (extend at) seen) ≡ has_name name seen
has_name-extend at name [] = refl
has_name-extend at name (e ∷ seen) = ground (arith, has_name-extend at name seen)

pub has_name-append :
    (name : Text) (seen : Seen) (e : Text × List Source)
    → has_name name (seen ++ e ∷ []) ≡ (if has_name name seen then true else text_eq e.0 name)
has_name-append name [] e = ground arith
has_name-append name (f ∷ seen) e = ground (arith, has_name-append name seen e)

-- One more location, and what it adds to an entry.
named_step :
    (read : List Source) (at : Source) (name : Text)
    → select (named name) (read ++ at ∷ []) ≡ (
        if text_eq name at.rule
        then select (named name) read ++ at ∷ []
        else select (named name) read)
named_step read at name =
    select-append (named name) read (at ∷ [])
    ∙ ground (arith, append-nil (select (named name) read))

extend_entry :
    (read : List Source) (at : Source) (e : Text × List Source)
    → Entry read e
    → Entry (read ++ at ∷ []) (extend at e)
extend_entry read at e h = elim (Bool-cases (text_eq e.0 at.rule)) [
  | inl same ↦ rw (same, named_step read at e.0, same) (ap (λ l. l ++ at ∷ []) h)
  | inr other ↦ rw (other, named_step read at e.0, other) h
]

extend-Entry :
    (read : List Source) (at : Source) (seen : Seen)
    → All (Entry read) seen
    → All (Entry (read ++ at ∷ [])) (map (extend at) seen)
extend-Entry read at [] h = tt
extend-Entry read at (e ∷ seen) h = (extend_entry read at e h.0, extend-Entry read at seen h.1)

keep-Entry :
    (read : List Source) (at : Source) (seen : Seen)
    → has_name at.rule seen ≡ false
    → All (Entry read) seen
    → All (Entry (read ++ at ∷ [])) seen
keep-Entry read at [] n h = tt
keep-Entry read at (e ∷ seen) n h =
    (ground (arith, named_step read at e.0, h.0), keep-Entry read at seen (ground arith) h.1)

add-Tracks :
    (read : List Source) (seen : Seen) (at : Source)
    → Tracks read seen
    → Tracks (read ++ at ∷ []) (add seen at)
unfolding add
add-Tracks read seen at t = elim (Bool-cases (has_name at.rule seen)) [
  | inl old ↦
      rw (old, add)
        (record {
          entries = extend-Entry read at seen t.entries;
          missing = λ name h. ground (
            arith,
            has_name-extend at name seen,
            named_step read at name,
            t.missing name,
            text_eq_iff name at.rule,
          );
        })
  | inr new ↦
      rw (new, add)
        (record {
          entries =
              All-append (Entry (read ++ at ∷ [])) seen ((at.rule, at ∷ []) ∷ [])
                (keep-Entry read at seen new t.entries)
                (
                  ground (
                    arith,
                    named_step read at at.rule,
                    t.missing at.rule,
                    text_eq_iff at.rule at.rule,
                  ),
                  tt,
                );
          missing = λ name h. ground (
            arith,
            has_name-append name seen (at.rule, at ∷ []),
            named_step read at name,
            t.missing name,
            text_eq_iff name at.rule,
            text_eq_iff at.rule name,
          );
        })
]

add_all-Tracks :
    (read : List Source) (seen : Seen) (rest : List Source)
    → Tracks read seen
    → Tracks (read ++ rest) (add_all seen rest)
unfolding add_all
add_all-Tracks read seen [] t = rw append-nil t
add_all-Tracks read seen (at ∷ rest) t =
    subst (λ r. Tracks r (add_all (add seen at) rest)) (append_assoc read (at ∷ []) rest)
      (add_all-Tracks (read ++ at ∷ []) (add seen at) rest (add-Tracks read seen at t))

-- What a location from `add` carries.
abbrev IsPlain : Source → Type 0
IsPlain at = at ≡ record no_source { file = at.file; group = at.group; rule = at.rule }

abbrev pub head_or : List Source → Source
head_or [] = no_source
head_or (s ∷ ss) = s

-- Where the alerts of a name are first defined.
abbrev pub first_of : List Source → Text → Source
first_of alerts name = head_or (select (named name) alerts)

-- A finding about one of the alerts after the first of its name.
IsRepeat : List Source → Finding → Type 0
IsRepeat alerts f =
    (at : Source) × IsPlain at × (f ≡ duplicate at.rule (first_of alerts at.rule) at)

repeat_agree :
    (alerts : List Source) (a b : Finding)
    → IsRepeat alerts a
    → IsRepeat alerts b
    → before a b ≡ false
    → before b a ≡ false
    → a ≡ b
unfolding IsRepeat duplicate
repeat_agree alerts a b (at, plain, e) (bt, plain', e') h k = ground (arith, before_ties a b)

module _ {R : Type 0} where
  alerts_of_rules-IsPlain :
      (path group : Text) (rs : List (RuleExtraction R))
      → All IsPlain (alerts_of_rules path group rs)
  unfolding alerts_of_rules
  alerts_of_rules-IsPlain path group [] = tt
  alerts_of_rules-IsPlain path group (r ∷ rs) = elim (Bool-cases (is_empty r.alert)) [
    | inl none_here ↦ rw none_here (alerts_of_rules-IsPlain path group rs)
    | inr an_alert ↦ rw an_alert (refl, alerts_of_rules-IsPlain path group rs)
  ]

  alerts_of_groups-IsPlain :
      (path : Text) (gs : List (RuleGroup R)) → All IsPlain (alerts_of_groups path gs)
  unfolding alerts_of_groups
  alerts_of_groups-IsPlain path [] = tt
  alerts_of_groups-IsPlain path (g ∷ gs) =
      All-append IsPlain (alerts_of_rules path g.name g.rules) (alerts_of_groups path gs)
        (alerts_of_rules-IsPlain path g.name g.rules) (alerts_of_groups-IsPlain path gs)

  alerts_of_files-IsPlain : (fs : List (RuleFile R)) → All IsPlain (alerts_of_files fs)
  unfolding alerts_of_files
  alerts_of_files-IsPlain [] = tt
  alerts_of_files-IsPlain (f ∷ fs) =
      All-append IsPlain (alerts_of_groups f.path f.result.groups) (alerts_of_files fs)
        (alerts_of_groups-IsPlain f.path f.result.groups) (alerts_of_files-IsPlain fs)

repeats_of_name :
    (alerts : List Source) (name : Text) (first : Source) (rest : List Source)
    → first_of alerts name ≡ first
    → All (λ at. named name at ≡ true) rest
    → All IsPlain rest
    → All (IsRepeat alerts) (map (duplicate name first) rest)
unfolding IsRepeat
repeats_of_name alerts name first [] e n p = tt
repeats_of_name alerts name first (at ∷ rest) e n p =
    let same : name ≡ at.rule = (text_eq_iff name at.rule).0 n.0 in
    ((at, p.0, rw (← same, e) refl), repeats_of_name alerts name first rest e n.1 p.1)

duplicates_at-IsRepeat :
    (alerts : List Source) (name : Text) (locs : List Source)
    → All IsPlain alerts
    → locs ≡ select (named name) alerts
    → All (IsRepeat alerts) (duplicates_at (name, locs))
duplicates_at-IsRepeat alerts name [] p e = tt
duplicates_at-IsRepeat alerts name (first ∷ rest) p e =
    let names : All (λ at. named name at ≡ true) (first ∷ rest) =
      subst (All (λ at. named name at ≡ true)) (sym e) (select-All (named name) alerts) in
    let plain : All IsPlain (first ∷ rest) =
      subst (All IsPlain) (sym e) (select_keeps (named name) IsPlain alerts p) in
    repeats_of_name alerts name first rest (ap head_or (sym e)) names.1 plain.1

duplicates_in-IsRepeat :
    (alerts : List Source) (seen : Seen)
    → All IsPlain alerts
    → All (Entry alerts) seen
    → All (IsRepeat alerts) (duplicates_in seen)
unfolding duplicates_in
duplicates_in-IsRepeat alerts [] p h = tt
duplicates_in-IsRepeat alerts (e ∷ seen) p h =
    All-append (IsRepeat alerts) (duplicates_at e) (duplicates_in seen)
      (duplicates_at-IsRepeat alerts e.0 e.1 p h.0) (duplicates_in-IsRepeat alerts seen p h.1)

duplicates_in-permᴰ : {m n : Seen} → Permᴰ m n → Perm (duplicates_in m) (duplicates_in n)
unfolding duplicates_in
duplicates_in-permᴰ Permᴰ.nil = Perm.refl []
duplicates_in-permᴰ (Permᴰ.cons {a = d} {b = e} h p) =
    rw h (Perm.append_left (duplicates_at e) (duplicates_in-permᴰ p))
duplicates_in-permᴰ (Permᴰ.swap {a = d} {b = e} {l = l} h k) =
    rw (← h, ← k)
      (rw
        (
          ← append_assoc (duplicates_at d) (duplicates_at e) (duplicates_in l),
          ← append_assoc (duplicates_at e) (duplicates_at d) (duplicates_in l),
        )
        (Perm.append_right (duplicates_in l)
          (perm_append_comm (duplicates_at d) (duplicates_at e))))
duplicates_in-permᴰ (Permᴰ.trans p q) = Perm.trans (duplicates_in-permᴰ p) (duplicates_in-permᴰ q)

duplicates_in-perm : {m n : Seen} → Perm m n → Perm (duplicates_in m) (duplicates_in n)
duplicates_in-perm p = ∥∥₁_elim p Perm-prop duplicates_in-permᴰ

pub seen-Tracks : (alerts : List Source) → Tracks alerts (add_all [] alerts)
seen-Tracks alerts = add_all-Tracks [] [] alerts (record { entries = tt; missing = λ name h. refl })

Finding-set : IsSet Finding
Finding-set = hlevel

detect-sorted :
    (range : Seen → Seen)
    → ((m : Seen) → Perm (range m) m)
    → (ps : List (RuleFile PromResult)) (ls : List (RuleFile LogResult))
    → sort_stable before (detect_duplicate_alerts range ps ls)
      ≡ sort_stable before (duplicates_in (add_all [] (alerts_of_files ps ++ alerts_of_files ls)))
unfolding detect_duplicate_alerts
detect-sorted range r ps ls =
    let alerts = alerts_of_files ps ++ alerts_of_files ls in
    let seen = add_all [] alerts in
    let plain =
      All-append IsPlain (alerts_of_files ps) (alerts_of_files ls) (alerts_of_files-IsPlain ps)
        (alerts_of_files-IsPlain ls) in
    sym (
      sort_stable-eq_of_perm before before-IsWeakOrder (IsRepeat alerts) (repeat_agree alerts)
        Finding-set (Perm.symm (duplicates_in-perm (r seen)))
        (duplicates_in-IsRepeat alerts seen plain (seen-Tracks alerts).entries))

sort_optional :
    (b : Bool) (ds es : List Finding)
    → sort_stable before ds ≡ sort_stable before es
    → sort_stable before (if b then ds else []) ≡ sort_stable before (if b then es else [])
sort_optional true ds es h = h
sort_optional false ds es h = refl

-- The findings of LintAll, and their order, do not depend on the order in which Go iterates over the
-- map of alert names: any two orders of iteration give the same list.
pub lint_all_deterministic :
    (range range' : Seen → Seen)
    → ((m : Seen) → Perm (range m) m)
    → ((m : Seen) → Perm (range' m) m)
    → (parse_model : Text → Option ℕ) (show_duration : ℕ → Text) (cfg : Config)
    → (prom_files : List (RuleFile PromResult)) (loki_files : List (RuleFile LogResult))
    → lint_all range parse_model show_duration cfg prom_files loki_files
      ≡ lint_all range' parse_model show_duration cfg prom_files loki_files
unfolding lint_all sort_findings
lint_all_deterministic range range' r r' pm sd cfg ps ls =
    sort_stable-append before (lint_files pm sd (λ f. f.expr) cfg ps) _ _ (
      sort_stable-append before (lint_files pm sd (λ f. f.expr) cfg ls) _ _ (
        sort_optional cfg.detect_duplicate_alerts _ _
          (detect-sorted range r ps ls ∙ sym (detect-sorted range' r' ps ls))))
