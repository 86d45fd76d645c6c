-- ===== src/Lint/Rules.antt =====
-- What `lintRule` reports: nothing exactly for a rule that meets the configured requirements.
use ratatoskr_go.Base.{
  ℕ, ◌≤◌, ◌≡◌, ◌≢◌, refl, ◌↔◌, inl, inr, Bool, true, false, not, Option, some, List, [], ◌∷◌, ◌++◌,
  Text, bytes, text_eq, text_eq_iff, All, arith, Bool-cases, Option-cases, if◌then◌else◌,
}
use ratatoskr_go.Base.Table.{text_at}
use ratatoskr_go.Lint.{
  Config, Rule, is_blank, check_empty, check_severity, check_annotations, check_for, lint_rule,
  parse_duration, for_gte_interval_off,
}

append-eq-nil {ℓ} : {A : Type ℓ} (xs ys : List A) → xs ++ ys ≡ [] → (xs ≡ []) × (ys ≡ [])
append-eq-nil [] ys h = (refl, h)
append-eq-nil (x ∷ xs) ys h = cc

unguarded {ℓ} :
    {A : Type ℓ} (b : Bool) (xs : List A) → b ≡ true → (if not b then [] else xs) ≡ [] → xs ≡ []
unguarded b xs e h = ground arith

-- The rule has every annotation of the list, none of them blank.
abbrev pub HasAnnotations : List Text → Rule → Type 0
HasAnnotations required r = All (λ a. is_blank (text_at a r.annotations) ≡ false) required

module _ (parse_model : Text → Option ℕ) (show_duration : ℕ → Text) where
  -- The requirements on a rule. The last three are on alerts alone; the last holds of an alert
  -- whose `for` and whose group's interval can both be read.
  pub record IsClean (cfg : Config) (r : Rule) : Type 0 where
    pub expr_given : cfg.check_empty_expr ≡ true → is_blank r.expr ≡ false
    pub severity_given :
        r.is_alert ≡ true
        → cfg.require_severity ≡ true
        → is_blank (text_at (bytes "severity") r.labels) ≡ false
    pub annotations_given : r.is_alert ≡ true → HasAnnotations cfg.require_annotations r
    pub for_long_enough :
        r.is_alert ≡ true
        → cfg.for_gte_interval ≢ for_gte_interval_off
        → (interval for_d : ℕ) → r.group_interval ≡ some interval
        → parse_duration parse_model r.for_str ≡ some for_d
        → interval ≤ for_d

  check_annotations-nil_iff :
      (required : List Text) (r : Rule)
      → (check_annotations required r ≡ []) ↔ HasAnnotations required r
  unfolding check_annotations
  check_annotations-nil_iff [] r = (λ h. tt, λ h. refl)
  check_annotations-nil_iff (a ∷ required) r = ground (arith, check_annotations-nil_iff required r)

  check_empty-nil_iff :
      (cfg : Config) (r : Rule)
      → (check_empty cfg r ≡ []) ↔ (cfg.check_empty_expr ≡ true → is_blank r.expr ≡ false)
  unfolding check_empty
  check_empty-nil_iff cfg r = ground arith

  check_severity-nil_iff :
      (cfg : Config) (r : Rule)
      → (check_severity cfg r ≡ [])
        ↔ (cfg.require_severity ≡ true → is_blank (text_at (bytes "severity") r.labels) ≡ false)
  unfolding check_severity
  check_severity-nil_iff cfg r = ground arith

  check_for_sound :
      (cfg : Config) (r : Rule)
      → check_for parse_model show_duration cfg r ≡ []
      → cfg.for_gte_interval ≢ for_gte_interval_off
      → (interval for_d : ℕ) → r.group_interval ≡ some interval
      → parse_duration parse_model r.for_str ≡ some for_d
      → interval ≤ for_d
  unfolding check_for parse_duration
  check_for_sound cfg r h off interval for_d e p =
      ground (arith, text_eq_iff cfg.for_gte_interval for_gte_interval_off)

  check_for_complete :
      (cfg : Config) (r : Rule)
      → (cfg.for_gte_interval ≢ for_gte_interval_off
          → (interval for_d : ℕ) → r.group_interval ≡ some interval
          → parse_duration parse_model r.for_str ≡ some for_d
          → interval ≤ for_d)
      → check_for parse_model show_duration cfg r ≡ []
  unfolding check_for parse_duration
  check_for_complete cfg r h =
      elim (Bool-cases (text_eq cfg.for_gte_interval for_gte_interval_off)) [
        | inl off ↦ ground arith
        | inr on ↦
            let active : cfg.for_gte_interval ≢ for_gte_interval_off =
              λ e. ground (arith, text_eq_iff cfg.for_gte_interval for_gte_interval_off) in
            elim (Option-cases r.group_interval) [
              | inl no_interval ↦ ground arith
              | inr (interval, given) ↦ elim (Option-cases (parse_duration parse_model r.for_str)) [
                | inl no_for ↦ ground arith
                | inr (for_d, read) ↦ ground (arith, h active interval for_d given read)
              ]
            ]
      ]

  alert_checks :
      (cfg : Config) (r : Rule)
      → lint_rule parse_model show_duration cfg r ≡ []
      → r.is_alert ≡ true
      → (check_severity cfg r ≡ [])
        × (check_annotations cfg.require_annotations r ≡ [])
        × (check_for parse_model show_duration cfg r ≡ [])
  unfolding lint_rule
  alert_checks cfg r h alert =
      let checks = unguarded r.is_alert _ alert (append-eq-nil (check_empty cfg r) _ h).1 in
      let (severity, rest) = append-eq-nil (check_severity cfg r) _ checks in
      let (annotations, for_check) =
        append-eq-nil (check_annotations cfg.require_annotations r) _ rest in
      (severity, annotations, for_check)

  -- lintRule reports nothing on a rule exactly if the rule meets every requirement that the
  -- configuration switches on: an expression that is not blank and, of an alert, a severity label, the
  -- required annotations, and a `for` of at least the group's interval.
  pub lint_rule-IsClean_iff :
      (cfg : Config) (r : Rule) → (lint_rule parse_model show_duration cfg r ≡ []) ↔ IsClean cfg r
  unfolding lint_rule
  lint_rule-IsClean_iff cfg r = (to, from)
    where
      to : lint_rule parse_model show_duration cfg r ≡ [] → IsClean cfg r
      to h = record {
        expr_given = (check_empty-nil_iff cfg r).0 (append-eq-nil (check_empty cfg r) _ h).0;
        severity_given = λ alert. (check_severity-nil_iff cfg r).0 (alert_checks cfg r h alert).0;
        annotations_given = λ alert.
            (check_annotations-nil_iff cfg.require_annotations r).0 (alert_checks cfg r h alert).1;
        for_long_enough = λ alert. check_for_sound cfg r (alert_checks cfg r h alert).2;
      }

      from : IsClean cfg r → lint_rule parse_model show_duration cfg r ≡ []
      from c = ground (
        arith,
        (check_empty-nil_iff cfg r).1 c.expr_given,
        check_severity-nil_iff cfg r,
        check_annotations-nil_iff cfg.require_annotations r,
        check_for_complete cfg r,
        c.severity_given,
        c.annotations_given,
        c.for_long_enough,
      )
