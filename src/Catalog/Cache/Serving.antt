-- ===== src/Catalog/Cache/Serving.antt =====
-- pkg/catalog/checker.go: the cached lookups over a memory store and over servers that do not change
-- give what the servers know.
use mathlib.Core.Option
use mathlib.Core.Path.{subst}
use ratatoskr_go.Base.{
  ℕ, ◌≡◌, ◌≢◌, refl, ap, sym, ◌∙◌, ◌⊎◌, inl, inr, true, false, ==_iff, Option, none, some, Text,
  is_empty, text_eq, text_eq_iff, text_lt, member, if◌then◌else◌, Bool-cases, arith,
}
use ratatoskr_go.Base.Int.{ℤ}
use ratatoskr_go.Base.Sort.{sort_stable}
use ratatoskr_go.Base.Table.{put, find-put}
use ratatoskr_go.Catalog.Cache.{
  memory_store, offered, new_entry, written, fetched, found_or_fetched, cached_list,
  prom_metric_names, prom_metric_labels, prom_metric_label_values, loki_label_names,
  loki_label_values, trace_attribute_names, trace_attribute_values,
}
use ratatoskr_go.Catalog.Cache.Virtual.{
  prom, loki, tempo, Virtual, metric_names, labels, values, Servers, ask_of, key_of, raw,
  IsHarmless, raw-IsHarmless,
}
use ratatoskr_go.Base.Calls.{Gives}
use ratatoskr_go.Catalog.Entry.{Entry, Slice, Invalid, key_for, expired, validate, is_valid}
use ratatoskr_go.Catalog.Store.{MemoryStore, get, put_checked, put_entry}

-- What a lookup returns where the server answers so: the names in order.
abbrev pub settled : (Virtual → Slice) → Virtual → Slice
settled answer q = Option.map (sort_stable text_lt) (answer q)

module _ {W : Type 0} (quoted : Text → Text) (servers : Servers W) where
  query_given : (q : Virtual) → is_empty (ask_of quoted servers q).query ≡ false
  unfolding prom_metric_names prom_metric_labels prom_metric_label_values loki_label_names
      loki_label_values trace_attribute_names trace_attribute_values
  query_given metric_names = refl
  query_given (labels prom m) = refl
  query_given (labels loki m) = refl
  query_given (labels tempo m) = refl
  query_given (values prom m l) = refl
  query_given (values loki m l) = refl
  query_given (values tempo m l) = refl

  language_given : (q : Virtual) → is_valid (ask_of quoted servers q).language ≡ true
  unfolding is_valid member text_eq prom_metric_names prom_metric_labels prom_metric_label_values
      loki_label_names loki_label_values trace_attribute_names trace_attribute_values
  language_given metric_names = refl
  language_given (labels prom m) = refl
  language_given (labels loki m) = refl
  language_given (labels tempo m) = refl
  language_given (values prom m l) = refl
  language_given (values loki m l) = refl
  language_given (values tempo m l) = refl

  module _ (hash : Text → Text) (seconds : ℕ → ℤ) (message : Entry → Invalid → Text)
      (clock : W → ℕ × W) (lifetime : ℤ) (answer : Virtual → Slice) (Asked : Virtual → Type 0) where
    -- The servers answer each of the asked queries alike whenever they are asked, the time is after
    -- the zero time, and no two of the asked queries share a hash unless they have the same text.
    pub record IsSteady : Type 0 where
      pub answers :
          (q : Virtual) (w : W) → Asked q → ((ask_of quoted servers q).fetch w).0 ≡ inr (answer q)
      pub after_zero : (w : W) → (clock w).0 ≢ 0
      pub no_collision :
          (q q' : Virtual)
          → Asked q
          → Asked q'
          → key_of quoted servers hash q ≡ key_of quoted servers hash q'
          → raw quoted servers q ≡ raw quoted servers q'

    -- What an entry holds for a query, expired or not.
    abbrev pub held : Virtual → Option Entry → Slice
    held q none = none
    held q (some e) = elim e.result [ none ↦ none | some r ↦ (ask_of quoted servers q).get r ]

    abbrev pub Fits : Virtual → Option Entry → Type 0
    Fits q o = (held q o ≡ none) ⊎ (held q o ≡ settled answer q)

    -- For every asked query the store holds nothing, or what the server answers.
    abbrev pub IsFaithful : MemoryStore × W → Type 0
    IsFaithful s = (q : Virtual) → Asked q → Fits q (get (key_of quoted servers hash q) s.0)

    offered_lem :
        (q : Virtual) (now : ℕ) (o : Option Entry)
        → (offered (ask_of quoted servers q).get now o ≡ none)
          ⊎ (offered (ask_of quoted servers q).get now o ≡ held q o)
    unfolding offered
    offered_lem q now none = inl refl
    offered_lem q now (some e) = elim (Bool-cases (expired e now)) [
      | inl y ↦ inl (rw (y) refl)
      | inr n ↦ inr (rw (n) refl)
    ]

    entry_of : Virtual → ℕ → Slice → Entry
    entry_of q now v =
        new_entry hash seconds (memory_store hash message) clock lifetime (ask_of quoted servers q)
          now v

    entry_valid :
        (q : Virtual) (now : ℕ) (v : Slice)
        → now ≢ 0
        → is_empty (ask_of quoted servers q).source ≡ false
        → validate (entry_of q now v) ≡ none
    unfolding validate entry_of new_entry
    entry_valid q now v h k = ground (arith, query_given q, language_given q, ==_iff now 0)

    module _ (steady : IsSteady) where
      same_answer :
          (q q' : Virtual)
          → Asked q
          → Asked q'
          → W
          → (ask_of quoted servers q).fetch ≡ (ask_of quoted servers q').fetch
          → settled answer q ≡ settled answer q'
      same_answer q q' a a' w h =
          let both : (Text ⊎ Slice) × (Text ⊎ Slice) = (inr (answer q), inr (answer q')) in
          let equal : both.0 ≡ both.1 =
            sym (steady.answers q w a) ∙ (ap (λ f. (f w).0) h ∙ steady.answers q' w a') in
          let sorted : (Text ⊎ Slice) → Slice =
            λ x. elim x [ inl err ↦ none | inr v ↦ Option.map (sort_stable text_lt) v ] in
          ap sorted equal

      get-put :
          (k j : Text) (e : Entry) (t : MemoryStore)
          → get j (put k e t) ≡ (if text_eq k j then some e else get j t)
      unfolding get
      get-put k j e t = find-put k j e t

      entry-Fits :
          (q q' : Virtual) (now : ℕ) (w : W) (v : Slice)
          → Asked q
          → Asked q'
          → v ≡ settled answer q
          → IsHarmless quoted servers q v q'
          → Fits q' (some (entry_of q now v))
      unfolding entry_of new_entry
      entry-Fits q q' now w v a a' e (inl h) = inl h
      entry-Fits q q' now w v a a' e (inr (h, f)) = inr (h ∙ (e ∙ same_answer q q' a a' w f))

      put-IsFaithful :
          (q : Virtual) (now : ℕ) (t : MemoryStore) (w : W) (v : Slice)
          → Asked q
          → v ≡ settled answer q
          → IsFaithful (t, w)
          → IsFaithful (put (key_of quoted servers hash q) (entry_of q now v) t, w)
      unfolding key_for
      put-IsFaithful q now t w v a e h q' a' =
          let k : Text = key_of quoted servers hash q in
          let k' : Text = key_of quoted servers hash q' in
          let found = get-put k k' (entry_of q now v) t in
          elim (Bool-cases (text_eq k k')) [
            | inl y ↦
                let same : raw quoted servers q ≡ raw quoted servers q' =
                  steady.no_collision q q' a a' ((text_eq_iff k k').0 y) in
                subst (Fits q')
                  (sym (found ∙ ap (λ b. if b then some (entry_of q now v) else get k' t) y))
                  (entry-Fits q q' now w v a a' e (raw-IsHarmless quoted servers q q' v same))
            | inr n ↦
                subst (Fits q')
                  (sym (found ∙ ap (λ b. if b then some (entry_of q now v) else get k' t) n))
                  (h q' a')
          ]

      -- What a lookup gives: the settled answer, in a state that is faithful.
      abbrev Settles : Virtual → (Text ⊎ Slice) × (MemoryStore × W) → Type 0
      Settles q r = (r.0 ≡ inr (settled answer q)) × IsFaithful r.1

      stored_lem :
          (q : Virtual) (now : ℕ) (t : MemoryStore) (v : Slice)
          → now ≢ 0
          → is_empty (ask_of quoted servers q).source ≡ false
          → (memory_store hash message).write (entry_of q now v) t
            ≡ (none, put (key_of quoted servers hash q) (entry_of q now v) t)
      unfolding put_entry entry_of new_entry
      stored_lem q now t v p k =
          let e : Entry = entry_of q now v in
          ap (λ x. (Option.map (message e) (put_checked hash e t x).0, (put_checked hash e t x).1))
            (entry_valid q now v p k)

      fetched_lem :
          (q : Virtual) (now : ℕ) (t : MemoryStore) (r : (Text ⊎ Slice) × W)
          → Asked q
          → now ≢ 0
          → is_empty (ask_of quoted servers q).source ≡ false
          → r.0 ≡ inr (answer q)
          → IsFaithful (t, r.1)
          → Settles q (
              fetched hash seconds
                (memory_store hash message)
                clock
                lifetime
                (ask_of quoted servers q)
                now
                t
                r)
      unfolding entry_of
      fetched_lem q now t (inl err, w) a p k e h = absurd (ground arith)
      fetched_lem q now t (inr v, w) a p k e h =
          let sorted : (Text ⊎ Slice) → Slice =
            λ x. elim x [ inl err ↦ none | inr u ↦ Option.map (sort_stable text_lt) u ] in
          let v' : Slice = Option.map (sort_stable text_lt) v in
          let same : v' ≡ settled answer q = ap sorted e in
          subst
            (λ u.
              Settles q (written hash seconds (memory_store hash message) clock lifetime v' w u))
            (sym (stored_lem q now t v' p k)) (ap inr same, put-IsFaithful q now t w v' a same h)

      found_lem :
          (q : Virtual) (now : ℕ) (t : MemoryStore) (w : W) (o : Slice)
          → Asked q
          → now ≢ 0
          → is_empty (ask_of quoted servers q).source ≡ false
          → (o ≡ none) ⊎ (o ≡ settled answer q)
          → IsFaithful (t, w)
          → Settles q (
              found_or_fetched hash seconds
                (memory_store hash message)
                clock
                lifetime
                (ask_of quoted servers q)
                now
                t
                w
                o)
      found_lem q now t w none a p k e h =
          fetched_lem q now t ((ask_of quoted servers q).fetch w) a p k (steady.answers q w a) h
      found_lem q now t w (some v) a p k (inl e) h = absurd (ground arith)
      found_lem q now t w (some v) a p k (inr e) h = (ap inr e, h)

      pub cached_list-Gives :
          (q : Virtual)
          → Asked q
          → is_empty (ask_of quoted servers q).source ≡ false
          → Gives IsFaithful
              (cached_list hash seconds
                (memory_store hash message)
                clock
                lifetime
                (ask_of quoted servers q))
              (settled answer q)
      unfolding cached_list
      cached_list-Gives q a k (t, w) h =
          let now : ℕ = (clock w).0 in
          let o : Option Entry = get (key_of quoted servers hash q) t in
          let value : Slice = offered (ask_of quoted servers q).get now o in
          let fits : (value ≡ none) ⊎ (value ≡ settled answer q) = elim (offered_lem q now o) [
            | inl e ↦ inl e
            | inr e ↦ elim (h q a) [ inl n ↦ inl (e ∙ n) | inr y ↦ inr (e ∙ y) ]
          ] in
          found_lem q now t ((clock w).1) value a (steady.after_zero w) k fits h
