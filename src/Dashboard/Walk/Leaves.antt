-- ===== src/Dashboard/Walk/Leaves.antt =====
-- dashboard.go: which panels of a document are extracted, in which order and with which datasource.
use mathlib.Core.List.{map-append}
use ratatoskr_go.Base.{
  ◌≡◌, refl, ap, sym, ◌∙◌, Bool, false, Bool-cases, inl, inr, List, [], ◌∷◌, ◌++◌, map, Text, bytes,
  text_eq, All, All-append, if◌then◌else◌,
}
use ratatoskr_go.Dashboard.Walk.{
  GrafanaPanel, GrafanaPanels, no_panels, panel, Json, Extractors, datasource_type, or_parent,
  panel_of, walk,
}
use ratatoskr_go.Extract.{DashboardPanel}

module _ {R : Type 0} (x : Extractors) (j : Json R) where
  abbrev pub is_row : GrafanaPanel R → Bool
  is_row p = text_eq p.kind (bytes "row")

  -- The panels that are no rows and stand in rows only, in the order of the document, each with the
  -- datasources of the rows around it, the closest first.
  unfoldable pub leaves : List Text → GrafanaPanels R → List (GrafanaPanel R × List Text)
  leaves around no_panels = []
  leaves around (panel p nested rest) =
      let below : List (GrafanaPanel R × List Text) =
        leaves (datasource_type j p.datasource ∷ around) nested in
      let others : List (GrafanaPanel R × List Text) = leaves around rest in
      if is_row p then below ++ others else (p, around) ∷ others

  -- The first datasource that is given.
  abbrev pub first_given : List Text → Text
  first_given [] = []
  first_given (ds ∷ around) = or_parent x j ds (first_given around)

  abbrev pub leaf_panel : GrafanaPanel R × List Text → DashboardPanel
  leaf_panel (p, around) = panel_of x j (first_given (datasource_type j p.datasource ∷ around)) p

  walk-leaves_around :
      (around : List Text) (tree : GrafanaPanels R)
      → walk x j tree (first_given around) ≡ map leaf_panel (leaves around tree)
  unfolding walk leaves
  walk-leaves_around around no_panels = refl
  walk-leaves_around around (panel p nested rest) =
      let below = walk-leaves_around (datasource_type j p.datasource ∷ around) nested in
      let others = walk-leaves_around around rest in
      elim (Bool-cases (is_row p)) [
        | inl y ↦ rw (y) (
            (λ i. below i ++ others i)
            ∙ sym (
                map-append leaf_panel (leaves (datasource_type j p.datasource ∷ around) nested)
                  (leaves around rest)))
        | inr n ↦ rw (n) (ap (λ ps. leaf_panel (p, around) ∷ ps) others)
      ]

  leaves-not_row :
      (around : List Text) (tree : GrafanaPanels R)
      → All (λ e. is_row e.0 ≡ false) (leaves around tree)
  unfolding leaves
  leaves-not_row around no_panels = tt
  leaves-not_row around (panel p nested rest) = elim (Bool-cases (is_row p)) [
    | inl y ↦ rw (y) (
        All-append (λ e. is_row e.0 ≡ false)
          (leaves (datasource_type j p.datasource ∷ around) nested) (leaves around rest)
          (leaves-not_row (datasource_type j p.datasource ∷ around) nested)
          (leaves-not_row around rest))
    | inr n ↦ rw (n) (n, leaves-not_row around rest)
  ]

-- The panels that are extracted are those that are no rows and have only rows around them, in the
-- order of the document; the datasource of each is the first that is given, of its own and those of
-- the rows around it from the closest on.
pub walk-leaves :
    {R : Type 0} (x : Extractors) (j : Json R) (tree : GrafanaPanels R)
    → (walk x j tree [] ≡ map (leaf_panel x j) (leaves x j [] tree))
      × All (λ e. is_row x j e.0 ≡ false) (leaves x j [] tree)
walk-leaves x j tree = (walk-leaves_around x j [] tree, leaves-not_row x j [] tree)
