-- ===== src/Catalog/Cache/Virtual.antt =====
-- pkg/catalog/checker.go: the virtual queries of the checker as data, and why two of them that share a
-- key of the store do no harm.
use mathlib.Core.Path.{subst}
use ratatoskr_go.Base.{
  ◌≡◌, refl, ap, sym, ◌∙◌, ◌⊎◌, inl, inr, ◌==◌, if◌then◌else◌, append_cancel, append_cancel_right,
  none, [], ◌∷◌, ◌++◌, Text, bytes, text_eq, text_eq_iff, Bool-cases, arith,
}
use ratatoskr_go.Base.Table.{find, put}
use ratatoskr_go.Catalog.Cache.{
  PromqlClient, LogqlClient, TraceqlClient, Ask, empty_result, prom_metric_names,
  prom_metric_labels, prom_metric_label_values, loki_label_names, loki_label_values,
  trace_attribute_names, trace_attribute_values, values_at, name_matcher,
}
use ratatoskr_go.Catalog.Entry.{Slice, Result, key_for}

pub data Server : Type 0 where
  prom loki tempo : Server

-- The label names of Loki have no argument: the text of `labels loki` is ignored, as is the first
-- text of `values loki`.
pub data Virtual : Type 0 where
  metric_names : Virtual
  labels : Server → Text → Virtual
  values : Server → Text → Text → Virtual

-- The clients and their addresses.
pub record Servers (W : Type 0) : Type 0 where
  pub prom_client : PromqlClient W
  pub loki_client : LogqlClient W
  pub tempo_client : TraceqlClient W
  pub address : Server → Text

module _ {W : Type 0} (quoted : Text → Text) (servers : Servers W) where
  abbrev pub ask_of : Virtual → Ask W
  ask_of metric_names = prom_metric_names quoted (servers.address prom) servers.prom_client
  ask_of (labels prom m) = prom_metric_labels quoted (servers.address prom) servers.prom_client m
  ask_of (labels loki m) = loki_label_names (servers.address loki) servers.loki_client
  ask_of (labels tempo s) = trace_attribute_names (servers.address tempo) servers.tempo_client s
  ask_of (values prom m l) =
      prom_metric_label_values quoted (servers.address prom) servers.prom_client m l
  ask_of (values loki m l) = loki_label_values (servers.address loki) servers.loki_client l
  ask_of (values tempo s n) =
      trace_attribute_values (servers.address tempo) servers.tempo_client s n

  abbrev pub key_of : (Text → Text) → Virtual → Text
  key_of hash q = key_for hash (ask_of q).language (ask_of q).source (ask_of q).query

  -- What is read for q' where the answer v to q was written to an empty result.
  abbrev pub read_back : Virtual → Slice → Virtual → Slice
  read_back q v q' = (ask_of q').get ((ask_of q).set v empty_result)

  -- The key before it is hashed.
  abbrev pub raw : Virtual → Text
  raw q = key_of (λ s. s) q

  get_labels : (p : Server) (m : Text) (r : Result) → (ask_of (labels p m)).get r ≡ r.label_names
  unfolding prom_metric_labels loki_label_names trace_attribute_names
  get_labels prom m r = refl
  get_labels loki m r = refl
  get_labels tempo m r = refl

  get_values :
      (p : Server) (m l : Text) (r : Result) → (ask_of (values p m l)).get r ≡ values_at l r
  unfolding prom_metric_label_values loki_label_values trace_attribute_values
  get_values prom m l r = refl
  get_values loki m l r = refl
  get_values tempo m l r = refl

  labels_written :
      (p : Server) (m : Text) (v : Slice)
      → (ask_of (labels p m)).set v empty_result ≡ record empty_result { label_names = v }
  unfolding prom_metric_labels loki_label_names trace_attribute_names
  labels_written prom m v = refl
  labels_written loki m v = refl
  labels_written tempo m v = refl

  values_written :
      (p : Server) (m l : Text) (v : Slice)
      → (ask_of (values p m l)).set v empty_result
        ≡ record empty_result { label_values = (l, v) ∷ [] }
  unfolding prom_metric_label_values loki_label_values trace_attribute_values put
  values_written prom m l v = refl
  values_written loki m l v = refl
  values_written tempo m l v = refl

  labels_fetch :
      (p : Server) (m m' : Text)
      → raw (labels p m) ≡ raw (labels p m')
      → (ask_of (labels p m)).fetch ≡ (ask_of (labels p m')).fetch
  unfolding key_for prom_metric_labels loki_label_names trace_attribute_names
  labels_fetch prom m m' h =
      let same =
        append_cancel (bytes "\n__ratatoskr_metric_labels__:") m m'
          (append_cancel (servers.address prom) _ _ (append_cancel (bytes "promql\n") _ _ h)) in
      ap (λ x. servers.prom_client.label_names (name_matcher quoted x ∷ [])) same
  labels_fetch loki m m' h = refl
  labels_fetch tempo m m' h =
      let same =
        append_cancel (bytes "\n__ratatoskr_trace_attribute_names__:") m m'
          (append_cancel (servers.address tempo) _ _ (append_cancel (bytes "traceql\n") _ _ h)) in
      ap servers.tempo_client.attribute_names same

  values_fetch :
      (p : Server) (m m' l : Text)
      → raw (values p m l) ≡ raw (values p m' l)
      → (ask_of (values p m l)).fetch ≡ (ask_of (values p m' l)).fetch
  unfolding key_for prom_metric_label_values loki_label_values trace_attribute_values
  values_fetch prom m m' l h =
      let same = append_cancel_right m m' (bytes ":" ++ l) (
        append_cancel (bytes "\n__ratatoskr_metric_label_values__:") _ _
          (append_cancel (servers.address prom) _ _ (append_cancel (bytes "promql\n") _ _ h))) in
      ap (λ x. servers.prom_client.label_values l (name_matcher quoted x ∷ [])) same
  values_fetch loki m m' l h = refl
  values_fetch tempo m m' l h =
      let same = append_cancel_right m m' (bytes ":" ++ l) (
        append_cancel (bytes "\n__ratatoskr_trace_attribute_values__:") _ _
          (append_cancel (servers.address tempo) _ _ (append_cancel (bytes "traceql\n") _ _ h))) in
      ap (λ x. servers.tempo_client.attribute_values x l) same

  -- The server whose language begins with the first byte of a key.
  server_of : Text → Server
  server_of [] = tempo
  server_of (c ∷ s) = if c == 112 then prom else if c == 108 then loki else tempo

  labels_server : (p : Server) (m : Text) → server_of (raw (labels p m)) ≡ p
  unfolding key_for server_of prom_metric_labels loki_label_names trace_attribute_names
  labels_server prom m = refl
  labels_server loki m = refl
  labels_server tempo m = refl

  values_server : (p : Server) (m l : Text) → server_of (raw (values p m l)) ≡ p
  unfolding key_for server_of prom_metric_label_values loki_label_values trace_attribute_values
  values_server prom m l = refl
  values_server loki m l = refl
  values_server tempo m l = refl

  -- What is written for q is no answer to q', or is the answer that q' would fetch.
  abbrev pub IsHarmless : Virtual → Slice → Virtual → Type 0
  IsHarmless q v q' =
      (read_back q v q' ≡ none) ⊎ ((read_back q v q' ≡ v) × ((ask_of q).fetch ≡ (ask_of q').fetch))

  labels-IsHarmless :
      (p p' : Server) (m m' : Text) (v : Slice)
      → raw (labels p m) ≡ raw (labels p' m')
      → IsHarmless (labels p m) v (labels p' m')
  labels-IsHarmless p p' m m' v h =
      let same : p ≡ p' = sym (labels_server p m) ∙ (ap server_of h ∙ labels_server p' m') in
      let fetches =
        subst
          (λ x.
            raw (labels p m) ≡ raw (labels x m')
            → (ask_of (labels p m)).fetch ≡ (ask_of (labels x m')).fetch)
          same (labels_fetch p m m') h in
      inr (get_labels p' m' _ ∙ ap (λ (r : Result). r.label_names) (labels_written p m v), fetches)

  values-IsHarmless :
      (p p' : Server) (m m' l l' : Text) (v : Slice)
      → raw (values p m l) ≡ raw (values p' m' l')
      → IsHarmless (values p m l) v (values p' m' l')
  unfolding find
  values-IsHarmless p p' m m' l l' v h =
      let read = get_values p' m' l' _ ∙ ap (values_at l') (values_written p m l v) in
      elim (Bool-cases (text_eq l l')) [
        | inl y ↦
            let same : p ≡ p' =
              sym (values_server p m l) ∙ (ap server_of h ∙ values_server p' m' l') in
            let fetches =
              subst
                (λ x.
                  raw (values p m l) ≡ raw (values x m' l)
                  → (ask_of (values p m l)).fetch ≡ (ask_of (values x m' l)).fetch)
                same (values_fetch p m m' l) in
            inr (
              read ∙ ground (arith, y),
              subst
                  (λ x.
                    raw (values p m l) ≡ raw (values p' m' x)
                    → (ask_of (values p m l)).fetch ≡ (ask_of (values p' m' x)).fetch)
                  ((text_eq_iff l l').0 y) fetches h,
            )
        | inr n ↦ inl (read ∙ ground (arith, n))
      ]

  pub raw-IsHarmless : (q q' : Virtual) (v : Slice) → raw q ≡ raw q' → IsHarmless q v q'
  unfolding find prom_metric_names
  raw-IsHarmless metric_names metric_names v h = inr (refl, refl)
  raw-IsHarmless metric_names (labels p' m') v h = inl (get_labels p' m' _)
  raw-IsHarmless metric_names (values p' m' l') v h = inl (get_values p' m' l' _)
  raw-IsHarmless (labels p m) metric_names v h =
      inl (ap (λ (r : Result). r.metric_names) (labels_written p m v))
  raw-IsHarmless (labels p m) (labels p' m') v h = labels-IsHarmless p p' m m' v h
  raw-IsHarmless (labels p m) (values p' m' l') v h =
      inl (get_values p' m' l' _ ∙ ap (values_at l') (labels_written p m v))
  raw-IsHarmless (values p m l) metric_names v h =
      inl (ap (λ (r : Result). r.metric_names) (values_written p m l v))
  raw-IsHarmless (values p m l) (labels p' m') v h =
      inl (get_labels p' m' _ ∙ ap (λ (r : Result). r.label_names) (values_written p m l v))
  raw-IsHarmless (values p m l) (values p' m' l') v h = values-IsHarmless p p' m m' l l' v h

  pub read_back_self : (q : Virtual) (v : Slice) → read_back q v q ≡ v
  unfolding find prom_metric_names
  read_back_self metric_names v = refl
  read_back_self (labels p m) v =
      get_labels p m _ ∙ ap (λ (r : Result). r.label_names) (labels_written p m v)
  read_back_self (values p m l) v =
      get_values p m l _
      ∙ (ap (values_at l) (values_written p m l v) ∙ ground (arith, text_eq_iff l l))
