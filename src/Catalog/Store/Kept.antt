-- ===== src/Catalog/Store/Kept.antt =====
-- pkg/catalog/store.go: what the memory store keeps, and the normal form of a list of names.
use mathlib.Core.List.{Perm}
use mathlib.Core.List.Perm
use ratatoskr_go.Base.{
  ◌≡◌, refl, sym, ◌∙◌, Bool, true, false, ◌&&◌, inl, inr, Option, none, some, [], ◌∷◌, map, Text,
  text_eq, text_eq_iff, text_lt, member, All, if◌then◌else◌, Bool-cases, arith,
}
use ratatoskr_go.Base.Any.{member-perm}
use ratatoskr_go.Base.Sort.{sort_stable-perm}
use ratatoskr_go.Base.Table.{find, put, remove, find-put, find-remove}
use ratatoskr_go.Catalog.Entry.{Entry, Invalid, key, validate}
use ratatoskr_go.Catalog.Store.{MemoryStore, get, put_checked, put_entry, delete, keys}

abbrev pub is_fit : Option Invalid → Bool
is_fit none = true
is_fit (some err) = false

abbrev pub is_found : Option Entry → Bool
is_found none = false
is_found (some e) = true

put_get :
    (hash : Text → Text) (e : Entry) (s : MemoryStore) (k : Text) (v : Option Invalid)
    → get k (put_checked hash e s v).1
      ≡ (if is_fit v && text_eq (key hash e) k then some e else get k s)
unfolding get
put_get hash e s k none = find-put (key hash e) k e s
put_get hash e s k (some err) = refl

put_error :
    (hash : Text → Text) (e : Entry) (s : MemoryStore) (v : Option Invalid)
    → (put_checked hash e s v).0 ≡ v
put_error hash e s none = refl
put_error hash e s (some err) = refl

member-keys : (k : Text) (s : MemoryStore) → member k (map (λ e. e.0) s) ≡ is_found (find k s)
unfolding member find
member-keys k [] = refl
member-keys k ((j, e) ∷ s) = ground (arith, text_eq_iff j k, text_eq_iff k j, member-keys k s)

-- The memory store is a map: after a put, the key of the entry, if the entry is valid, gives the
-- entry, and every other key what it gave before; after a delete, the key gives nothing and every
-- other key what it gave before; and the keys listed are those that give an entry.
pub put_entry-get :
    (hash : Text → Text) (range : MemoryStore → MemoryStore)
    → ((m : MemoryStore) → Perm (range m) m)
    → (e : Entry) (s : MemoryStore) (j k : Text)
    → (get k (put_entry hash e s).1
        ≡ (if is_fit (validate e) && text_eq (key hash e) k then some e else get k s))
      × ((put_entry hash e s).0 ≡ validate e)
      × (get k (delete j s) ≡ (if text_eq j k then none else get k s))
      × (member k (keys range s) ≡ is_found (get k s))
unfolding put_entry get delete keys
put_entry-get hash range walk e s j k = (
  put_get hash e s k (validate e),
  put_error hash e s (validate e),
  find-remove j k s,
  member-perm k (sort_stable-perm text_lt (map (λ x. x.0) (range s)))
      ∙ member-perm k (Perm.map (λ x. x.0) (walk s))
      ∙ member-keys k s,
)

-- Each entry is valid and stands under its key.
abbrev pub IsKept : (Text → Text) → MemoryStore → Type 0
IsKept hash = All (λ x. (validate x.1 ≡ none) × (key hash x.1 ≡ x.0))

put-IsKept :
    (hash : Text → Text) (e : Entry) (s : MemoryStore)
    → validate e ≡ none
    → IsKept hash s
    → IsKept hash (put (key hash e) e s)
unfolding put
put-IsKept hash e [] v h = ((v, refl), tt)
put-IsKept hash e ((j, w) ∷ s) v h = elim (Bool-cases (text_eq j (key hash e))) [
  | inl y ↦ rw (y) ((v, sym ((text_eq_iff j (key hash e)).0 y)), h.1)
  | inr n ↦ rw (n) (h.0, put-IsKept hash e s v h.1)
]

checked-IsKept :
    (hash : Text → Text) (e : Entry) (s : MemoryStore) (v : Option Invalid)
    → validate e ≡ v
    → IsKept hash s
    → IsKept hash (put_checked hash e s v).1
checked-IsKept hash e s none v h = put-IsKept hash e s v h
checked-IsKept hash e s (some err) v h = h

remove-IsKept :
    (hash : Text → Text) (k : Text) (s : MemoryStore) → IsKept hash s → IsKept hash (remove k s)
unfolding remove
remove-IsKept hash k [] h = tt
remove-IsKept hash k ((j, w) ∷ s) h = elim (Bool-cases (text_eq j k)) [
  | inl y ↦ rw (y) (remove-IsKept hash k s h.1)
  | inr n ↦ rw (n) (h.0, remove-IsKept hash k s h.1)
]

-- Put and Delete keep a store in which every entry is valid and stands under its key such a store.
pub put_entry-IsKept :
    (hash : Text → Text) (s : MemoryStore)
    → IsKept hash s
    → (e : Entry) (k : Text) → IsKept hash (put_entry hash e s).1 × IsKept hash (delete k s)
unfolding put_entry delete
put_entry-IsKept hash s h e k =
    (checked-IsKept hash e s (validate e) refl h, remove-IsKept hash k s h)
