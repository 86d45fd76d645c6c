-- ===== src/Runner/Gather/Coverage.antt =====
-- internal/runner/runner.go: every rule is either reported as unparsable or handed to the catalog.
use mathlib.Core.List.{Perm, append_assoc, perm_append_comm, perm_middle, map-append}
use mathlib.Core.List.Perm
use ratatoskr_go.Base.{inl, inr, List, [], ◌∷◌, ◌++◌, map, Text, is_empty, Bool-cases}
use ratatoskr_go.Extract.{RuleExtraction, RuleGroup}
use ratatoskr_go.Finding.{Finding, Source, Code}
use ratatoskr_go.Lint.{RuleFile}
use ratatoskr_go.Runner.Load.{rule_source, errors_of_rules, errors_of_groups}
use ratatoskr_go.Runner.Gather.{Tagged, rules_tagged, groups_tagged, files_tagged}

-- Where the rules of a list of files stand.
abbrev pub sources_of_rules : {R : Type 0} → Text → Text → List (RuleExtraction R) → List Source
sources_of_rules path group rules = map (rule_source path group) rules

abbrev pub sources_of_groups : {R : Type 0} → Text → List (RuleGroup R) → List Source
sources_of_groups path [] = []
sources_of_groups path (g ∷ groups) =
    sources_of_rules path g.name g.rules ++ sources_of_groups path groups

abbrev pub sources_of_files : {R : Type 0} → List (RuleFile R) → List Source
sources_of_files [] = []
sources_of_files (f ∷ files) = sources_of_groups f.path f.result.groups ++ sources_of_files files

-- The expressions of the files that do not parse, as `load` reports them.
abbrev pub errors_of_files : {R : Type 0} → Code → Text → List (RuleFile R) → List Finding
errors_of_files code language [] = []
errors_of_files code language (f ∷ files) =
    errors_of_groups code language f.path f.result.groups ++ errors_of_files code language files

abbrev pub tagged_sources : {R : Type 0} → List (Tagged R) → List Source
tagged_sources = map (λ e. e.source)

abbrev pub error_sources : List Finding → List Source
error_sources = map (λ f. f.source)

regroup {ℓ} : {A : Type ℓ} (a b c d : List A) → Perm ((a ++ b) ++ (c ++ d)) ((a ++ c) ++ (b ++ d))
regroup a b c d =
    rw (append_assoc a b (c ++ d), append_assoc a c (b ++ d))
      (Perm.append_left a (
        rw (← append_assoc b c d, ← append_assoc c b d)
          (Perm.append_right d (perm_append_comm b c))))

-- Two splits, one after the other.
join_splits :
    {X Y : Type 0} (f : X → Source) (g : Y → Source) (xs xs' : List X) (ys ys' : List Y)
    (s s' : List Source)
    → Perm (map f xs ++ map g ys) s
    → Perm (map f xs' ++ map g ys') s'
    → Perm (map f (xs ++ xs') ++ map g (ys ++ ys')) (s ++ s')
join_splits f g xs xs' ys ys' s s' p q =
    rw (map-append f xs xs', map-append g ys ys')
      (Perm.trans (regroup (map f xs) (map f xs') (map g ys) (map g ys')) (Perm.append p q))

module _ {R : Type 0} (code : Code) (language : Text) where
  rules-split :
      (path group : Text) (rules : List (RuleExtraction R))
      → Perm
          (tagged_sources (rules_tagged path group rules)
            ++ error_sources (errors_of_rules code language path group rules))
          (sources_of_rules path group rules)
  unfolding rules_tagged errors_of_rules
  rules-split path group [] = Perm.refl []
  rules-split path group (r ∷ rules) = elim (Bool-cases (is_empty r.error)) [
    | inl e ↦ rw (e) (Perm.cons (rule_source path group r) (rules-split path group rules))
    | inr e ↦ rw (e) (
        Perm.trans
          (perm_middle (tagged_sources (rules_tagged path group rules))
            (error_sources (errors_of_rules code language path group rules)))
          (Perm.cons (rule_source path group r) (rules-split path group rules)))
  ]

  groups-split :
      (path : Text) (groups : List (RuleGroup R))
      → Perm
          (tagged_sources (groups_tagged path groups)
            ++ error_sources (errors_of_groups code language path groups))
          (sources_of_groups path groups)
  unfolding groups_tagged errors_of_groups
  groups-split path [] = Perm.refl []
  groups-split path (g ∷ groups) =
      join_splits (λ e. e.source) (λ f. f.source) (rules_tagged path g.name g.rules)
        (groups_tagged path groups) _ _ _ _ (rules-split path g.name g.rules)
        (groups-split path groups)

  -- The rules of the files, each by its place, are, up to their order, the rules whose expressions
  -- go to the catalog check together with the rules that are reported as not parsing: no rule is
  -- left out, and none is in both.
  pub files_tagged-errors_of_files :
      (files : List (RuleFile R))
      → Perm
          (tagged_sources (files_tagged files)
            ++ error_sources (errors_of_files code language files))
          (sources_of_files files)
  unfolding files_tagged
  files_tagged-errors_of_files [] = Perm.refl []
  files_tagged-errors_of_files (f ∷ files) =
      join_splits (λ e. e.source) (λ g. g.source) (groups_tagged f.path f.result.groups)
        (files_tagged files) _ _ _ _ (groups-split f.path f.result.groups)
        (files_tagged-errors_of_files files)
