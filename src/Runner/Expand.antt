-- ===== src/Runner/Expand.antt =====
-- internal/runner/runner.go: `expand`, over a file system that `os.Stat` and `filepath.WalkDir` show.
use ratatoskr_go.Base.{
  Bool, true, false, not, ◌&&◌, ◌⊎◌, inl, inr, List, [], ◌∷◌, ◌++◌, map, Text, bytes, has_prefix,
  member, text_eq, text_lt, if◌then◌else◌,
}
use ratatoskr_go.Base.Paths.{to_lower, ext}
use ratatoskr_go.Base.Sort.{sort_stable}

-- What a walk finds, each with its name: a file, a directory with its entries in the order of the
-- walk, or a directory that cannot be listed, with the error.
mutual
  pub data Entry : Type 0 where
    plain : Text → Entry
    folder : Text → Entries → Entry
    unlisted : Text → Text → Entry

  pub data Entries : Type 0 where
    done : Entries
    also : Entry → Entries → Entries

abbrev pub entry_name : Entry → Text
entry_name (plain name) = name
entry_name (folder name entries) = name
entry_name (unlisted name err) = name

-- Both lists, or the first error.
abbrev pub both : Text ⊎ List Text → Text ⊎ List Text → Text ⊎ List Text
both (inl err) rest = inl err
both (inr xs) (inl err) = inl err
both (inr xs) (inr ys) = inr (xs ++ ys)

-- `join` is filepath.Join.
module _ (join : Text → Text → Text) where
  -- The callback of `WalkDir`, driven over what the walk finds.
  unfoldable mutual
    pub visit : List Text → Text → Text → Entry → Text ⊎ List Text
    visit allow root path (plain name) =
        if has_prefix (bytes ".") name
        then inr []
        else if member (map to_lower (ext name)) allow
        then inr (path ∷ [])
        else inr []
    visit allow root path (folder name entries) =
        let below = visit_all allow root path entries in
        if has_prefix (bytes ".") name && not (text_eq path root) then inr [] else below
    visit allow root path (unlisted name err) =
        if has_prefix (bytes ".") name && not (text_eq path root) then inr [] else inl err

    pub visit_all : List Text → Text → Text → Entries → Text ⊎ List Text
    visit_all allow root path done = inr []
    visit_all allow root path (also e es) =
        both (visit allow root (join path (entry_name e)) e) (visit_all allow root path es)

  -- `stat` tells whether a path is a directory, `walk` what WalkDir finds at it.
  module _ (stat : Text → Text ⊎ Bool) (walk : Text → Text ⊎ Entry) where
    unfoldable pub expand_one : List Text → Text → Text ⊎ List Text
    expand_one allow p = elim (stat p) [
      | inl err ↦ inl (bytes "runner: stat " ++ (p ++ (bytes ": " ++ err)))
      | inr false ↦ inr (p ∷ [])
      | inr true ↦
          let walked : Text ⊎ List Text = elim (walk p) [
            | inl err ↦ inl err
            | inr entry ↦ visit allow p p entry
          ] in
          elim walked [
            | inl err ↦ inl (bytes "runner: walk " ++ (p ++ (bytes ": " ++ err)))
            | inr found ↦ inr found
          ]
    ]

    unfoldable pub expand_all : List Text → List Text → Text ⊎ List Text
    expand_all allow [] = inr []
    expand_all allow (p ∷ ps) = both (expand_one allow p) (expand_all allow ps)

    unfoldable pub expand : List Text → List Text → Text ⊎ List Text
    expand paths allowed_ext = elim (expand_all allowed_ext paths) [
      | inl err ↦ inl err
      | inr out ↦ inr (sort_stable text_lt out)
    ]
