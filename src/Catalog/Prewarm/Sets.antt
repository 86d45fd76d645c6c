-- ===== src/Catalog/Prewarm/Sets.antt =====
-- pkg/catalog/prewarm.go: the sets that `plan` fills, and the tasks that come of them.
use mathlib.Core.List.{Perm}
use ratatoskr_go.Base.{
  ◌≡◌, refl, ap, sym, ◌∙◌, Bool, true, false, ◌&&◌, ◌||◌, some, List, [], ◌∷◌, ◌++◌, map, any, Text,
  text_eq, text_eq_iff, text_lt, member, if◌then◌else◌, Bool-cases, inl, inr, arith,
}
use ratatoskr_go.Base.Any.{any-append, member-perm}
use ratatoskr_go.Base.Sort.{sort_stable-perm}
use ratatoskr_go.Base.Table.{find, find-put}
use ratatoskr_go.Catalog.Cache.Virtual.{
  Server, prom, loki, tempo, Virtual, metric_names, labels, values,
}
use ratatoskr_go.Catalog.Prewarm.{
  insert, or_nil, set_at, insert_at, sorted_keys, keys_of, value_tasks,
}

abbrev pub same_server : Server → Server → Bool
same_server prom prom = true
same_server loki loki = true
same_server tempo tempo = true
same_server _ _ = false

abbrev pub same_virtual : Virtual → Virtual → Bool
same_virtual metric_names metric_names = true
same_virtual (labels p m) (labels q n) = same_server p q && text_eq m n
same_virtual (values p m l) (values q n k) = same_server p q && (text_eq m n && text_eq l k)
same_virtual _ _ = false

-- A query is among the tasks.
abbrev pub is_planned : Virtual → List Virtual → Bool
is_planned q = any (same_virtual q)

member-append :
    (x k : Text) (set : List Text) → member x (set ++ (k ∷ [])) ≡ (text_eq x k || member x set)
unfolding member
member-append x k [] = refl
member-append x k (s ∷ set) = ground (arith, member-append x k set)

known :
    (x k : Text) (set : List Text)
    → member k set ≡ true
    → member x set ≡ (text_eq x k || member x set)
known x k set h = elim (Bool-cases (text_eq x k)) [
  | inl y ↦
      let same : member x set ≡ true = ap (λ z. member z set) ((text_eq_iff x k).0 y) ∙ h in
      ground (arith, y, same)
  | inr n ↦ ground (arith, n)
]

pub member-insert :
    (x k : Text) (set : List Text) → member x (insert k set) ≡ (text_eq x k || member x set)
unfolding insert
member-insert x k set = elim (Bool-cases (member k set)) [
  | inl y ↦ rw (y) (known x k set y)
  | inr n ↦ rw (n) (member-append x k set)
]

pub set_at-insert_at :
    (i j k x : Text) (m : List (Text × List Text))
    → member x (set_at i (insert_at j k m))
      ≡ ((text_eq j i && text_eq x k) || member x (set_at i m))
set_at-insert_at i j k x m =
    let set : List Text = insert k (set_at j m) in
    let found = find-put j i set m in
    elim (Bool-cases (text_eq j i)) [
      | inl y ↦
          let here : member x (set_at i (insert_at j k m)) ≡ member x set =
            ap (λ o. member x (or_nil o)) (found ∙ ap (λ b. if b then some set else find i m) y) in
          let same : member x (set_at j m) ≡ member x (set_at i m) =
            ap (λ z. member x (set_at z m)) ((text_eq_iff j i).0 y) in
          here ∙ (member-insert x k (set_at j m) ∙ ground (arith, y, same))
      | inr n ↦
          let here : member x (set_at i (insert_at j k m)) ≡ member x (set_at i m) =
            ap (λ o. member x (or_nil o)) (found ∙ ap (λ b. if b then some set else find i m) n) in
          here ∙ ground (arith, n)
    ]

pub keys-set_at :
    (i x : Text) (m : List (Text × List Text))
    → (member i (keys_of m) && member x (set_at i m)) ≡ member x (set_at i m)
unfolding member find
keys-set_at i x [] = refl
keys-set_at i x ((j, set) ∷ m) = elim (Bool-cases (text_eq j i)) [
  | inl y ↦
      let turned : text_eq i j ≡ true = ground (arith, text_eq_iff i j, text_eq_iff j i, y) in
      rw (y, turned) refl
  | inr n ↦
      let turned : text_eq i j ≡ false = ground (arith, text_eq_iff i j, text_eq_iff j i, n) in
      rw (n, turned) (keys-set_at i x m)
]

pub same_virtual_none :
    (q : Virtual) (f : Text → Virtual) (ks : List Text)
    → ((k : Text) → same_virtual q (f k) ≡ false)
    → any (same_virtual q) (map f ks) ≡ false
same_virtual_none q f [] h = refl
same_virtual_none q f (k ∷ ks) h = ground (arith, h k, same_virtual_none q f ks h)

pub any-labels :
    (p : Server) (m : Text) (ks : List Text)
    → same_server p p ≡ true
    → any (same_virtual (labels p m)) (map (labels p) ks) ≡ member m ks
unfolding member
any-labels p m [] h = refl
any-labels p m (k ∷ ks) h = ground (arith, h, any-labels p m ks h)

any-values :
    (p : Server) (m l k : Text) (ks : List Text)
    → same_server p p ≡ true
    → any (same_virtual (values p m l)) (map (values p k) ks) ≡ (text_eq m k && member l ks)
unfolding member
any-values p m l k [] h = ground arith
any-values p m l k (j ∷ ks) h = ground (arith, h, any-values p m l k ks h)

pick : (e k a b : Bool) → (e ≡ true → a ≡ b) → ((e && a) || (k && b)) ≡ ((e || k) && b)
pick true true a b h = ground (arith, h refl)
pick true false a b h = ground (arith, h refl)
pick false k a b h = refl

-- A walk of a map meets each of its keys.
module _ (range : List Text → List Text) (walk : (ks : List Text) → Perm (range ks) ks) where
  pub member-sorted_keys :
      (x : Text) (ks : List Text) → member x (sorted_keys range ks) ≡ member x ks
  unfolding sorted_keys
  member-sorted_keys x ks =
      member-perm x (sort_stable-perm text_lt (range ks)) ∙ member-perm x (walk ks)

  pub value_tasks_lem :
      (p : Server) (m l : Text) (sets : List (Text × List Text)) (ks : List Text)
      → same_server p p ≡ true
      → is_planned (values p m l) (value_tasks range p sets ks)
        ≡ (member m ks && member l (set_at m sets))
  unfolding value_tasks member
  value_tasks_lem p m l sets [] h = refl
  value_tasks_lem p m l sets (k ∷ ks) h =
      let set : List Text = sorted_keys range (set_at k sets) in
      any-append (same_virtual (values p m l)) (map (values p k) set) (value_tasks range p sets ks)
      ∙ ((λ i. any-values p m l k set h i || value_tasks_lem p m l sets ks h i)
          ∙ (ap (λ b. (text_eq m k && b) || (member m ks && member l (set_at m sets)))
                (member-sorted_keys l (set_at k sets))
              ∙ pick (text_eq m k) (member m ks) (member l (set_at k sets))
                  (member l (set_at m sets))
                  (λ e. ap (λ z. member l (set_at z sets)) (sym ((text_eq_iff m k).0 e)))))

  pub value_tasks_none :
      (p : Server) (q : Virtual) (sets : List (Text × List Text)) (ks : List Text)
      → ((m l : Text) → same_virtual q (values p m l) ≡ false)
      → is_planned q (value_tasks range p sets ks) ≡ false
  unfolding value_tasks
  value_tasks_none p q sets [] h = refl
  value_tasks_none p q sets (k ∷ ks) h =
      let set : List Text = sorted_keys range (set_at k sets) in
      any-append (same_virtual q) (map (values p k) set) (value_tasks range p sets ks)
      ∙ (λ i. same_virtual_none q (values p k) set (h k) i || value_tasks_none p q sets ks h i)
