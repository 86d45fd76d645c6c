-- ===== src/Catalog/Clients/Answered.antt =====
-- pkg/catalog/client.go: what a client has seen when it returns an answer.
use ratatoskr_go.Base.{
  ℕ, ◌/◌, ◌≡◌, refl, ap, sym, ◌∙◌, ◌⊎◌, inl, inr, Bool, true, false, not, none, [], ◌∷◌, Text,
  bytes, text_eq, text_eq_iff, take, ◌==◌, ==_iff, if◌then◌else◌, Bool-cases, arith,
}
use ratatoskr_go.Catalog.Clients.{
  Params, Response, PromApiResponse, Net, ClientCommon, body_cap, add_headers, full_url, failed_at,
  check_status, read_body, received, sent, get, read_data, read_envelope, decoded, get_json,
}
use ratatoskr_go.Catalog.Entry.{Slice}

inr_inj : {A : Type 0} (a b : A) → ◌≡◌ {A = Text ⊎ A} (inr a) (inr b) → a ≡ b
inr_inj {A} a b h = let value : (Text ⊎ A) → A = λ z. elim z [ inl e ↦ a | inr u ↦ u ] in ap value h

status_if : {A : Type 0} (b : Bool) (x y : A) → b ≡ true → (if not b then x else y) ≡ y
status_if true x y h = refl
status_if false x y h = absurd (ground arith)

module _ {Q W : Type 0} (net : Net Q W) where
  -- The data of an envelope that a list comes from.
  abbrev pub IsData : Text → Slice → Type 0
  IsData raw v = ((raw ≡ []) × (v ≡ none)) ⊎ (net.decode_list raw ≡ inr v)

  list_lem :
      (full : Text) (r : Text ⊎ Slice) (v : Slice)
      → elim r as (λ x. Text ⊎ Slice) [
        | inl err ↦ failed_at net full (bytes "decode data: ") err
        | inr names ↦ inr names
      ]
        ≡ inr v
      → r ≡ inr v
  list_lem full (inl err) v h = absurd (ground arith)
  list_lem full (inr names) v h = h

  data_lem : (full raw : Text) (v : Slice) → read_data net full raw ≡ inr v → IsData raw v
  data_lem full [] v h = inl (refl, sym (inr_inj none v h))
  data_lem full (d ∷ rest) v h = inr (list_lem full (net.decode_list (d ∷ rest)) v h)

  -- What stands behind an answer v to a request to the address `full`: a request q that could be
  -- made, its response, the body, of which at most the cap is read, and its envelope.
  pub record IsAnswered (full : Text) (c : ClientCommon) (w w' : W) (v : Slice) (q : Q)
      (r : Response) (body : Text) (env : PromApiResponse) : Type 0 where
    pub requested : net.new_request full ≡ inr q
    pub responded :
        net.send
          (net.set_header (bytes "Accept") (bytes "application/json") (add_headers net c.headers q))
          w
        ≡ (inr r, w')
    pub read : r.body ≡ inr body
    pub in_200s : r.status / 100 ≡ 2
    pub enveloped : net.decode_envelope (take body_cap body) ≡ inr env
    pub success : env.status ≡ bytes "success"
    pub data_of : IsData env.data_field v

  envelope_lem :
      (full : Text) (e : Text ⊎ PromApiResponse) (v : Slice)
      → read_envelope net full e ≡ inr v
      → (env : PromApiResponse) × (e ≡ inr env)
        × (env.status ≡ bytes "success")
        × IsData env.data_field v
  envelope_lem full (inl err) v h = absurd (ground arith)
  envelope_lem full (inr env) v h = elim (Bool-cases (text_eq env.status (bytes "success"))) [
    | inl y ↦
        let data_read : read_data net full env.data_field ≡ inr v =
          sym (status_if (text_eq env.status (bytes "success")) _ _ y) ∙ h in
        (
          env,
          refl,
          (text_eq_iff env.status (bytes "success")).0 y,
          data_lem full env.data_field v data_read,
        )
    | inr n ↦ absurd (ground (arith, n, h))
  ]

  status_lem :
      (full : Text) (status : ℕ) (b b' : Text)
      → check_status net full status b ≡ inr b'
      → (status / 100 ≡ 2) × (b ≡ b')
  status_lem full status b b' h = elim (Bool-cases (status / 100 == 2)) [
    | inl y ↦ (
      (==_iff (status / 100) 2).0 y,
      inr_inj b b' (sym (status_if (status / 100 == 2) _ _ y) ∙ h),
    )
    | inr n ↦ absurd (ground (arith, n, h))
  ]

  body_lem :
      (full : Text) (status : ℕ) (r : Text ⊎ Text) (b' : Text)
      → read_body net full status r ≡ inr b'
      → (body : Text) × (r ≡ inr body) × (status / 100 ≡ 2) × (take body_cap body ≡ b')
  body_lem full status (inl err) b' h = absurd (ground arith)
  body_lem full status (inr body) b' h =
      let (s, e) = status_lem full status (take body_cap body) b' h in (body, refl, s, e)

  received_lem :
      (full : Text) (x : (Text ⊎ Response) × W) (b' : Text) (w' : W)
      → received net full x ≡ (inr b', w')
      → (r : Response) × (x ≡ (inr r, w')) × (read_body net full r.status r.body ≡ inr b')
  received_lem full (inl err, u) b' w' h = absurd (ground (arith, ap (λ z. z.0) h))
  received_lem full (inr r, u) b' w' h = (r, (λ i. (inr r, (h i).1)), ap (λ z. z.0) h)

  decoded_lem :
      (read : Text → Text ⊎ Slice) (x : (Text ⊎ Text) × W) (v : Slice) (w' : W)
      → decoded net read x ≡ (inr v, w')
      → (b : Text) × (x ≡ (inr b, w')) × (read b ≡ inr v)
  decoded_lem read (inl err, u) v w' h = absurd (ground (arith, ap (λ z. z.0) h))
  decoded_lem read (inr b, u) v w' h = (b, (λ i. (inr b, (h i).1)), ap (λ z. z.0) h)

  sent_lem :
      (c : ClientCommon) (full : Text) (x : Text ⊎ Q) (w w' : W) (b : Text)
      → sent net c full x w ≡ (inr b, w')
      → (q : Q) × (x ≡ inr q)
        × (received net full (
              net.send
                (net.set_header
                  (bytes "Accept")
                  (bytes "application/json")
                  (add_headers net c.headers q))
                w)
            ≡ (inr b, w'))
  sent_lem c full (inl err) w w' b h = absurd (ground (arith, ap (λ z. z.0) h))
  sent_lem c full (inr q) w w' b h = (q, refl, h)

-- A client returns a list only from a response with a status from 200 to 299, whose body, cut at the
-- cap, is an envelope with the status "success": the list that its data decodes to, or nil where it
-- has no data.
pub get_json-IsAnswered :
    {Q W : Type 0} (net : Net Q W) (c : ClientCommon) (path : Text) (params : Params) (w w' : W)
    (v : Slice)
    → get_json net c path params w ≡ (inr v, w')
    → (q : Q) × (r : Response) × (body : Text) × (env : PromApiResponse) × IsAnswered net
        (full_url net c path params)
        c
        w
        w'
        v
        q
        r
        body
        env
unfolding get_json get
get_json-IsAnswered net c path params w w' v h =
    let full : Text = full_url net c path params in
    let (b, got, decodes) =
      decoded_lem net (λ body. read_envelope net full (net.decode_envelope body))
        (sent net c full (net.new_request full) w) v w' h in
    let (q, made, receives) = sent_lem net c full (net.new_request full) w w' b got in
    let (r, responds, reads) = received_lem net full _ b w' receives in
    let (body, is_body, fine, cut) = body_lem net full r.status r.body b reads in
    let (env, is_env, good, data_good) = envelope_lem net full (net.decode_envelope b) v decodes in
    (
      q,
      r,
      body,
      env,
      record {
        requested = made;
        responded = responds;
        read = is_body;
        in_200s = fine;
        enveloped = ap net.decode_envelope cut ∙ is_env;
        success = good;
        data_of = data_good;
      },
    )
