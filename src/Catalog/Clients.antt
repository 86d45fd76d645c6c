-- ===== src/Catalog/Clients.antt =====
-- pkg/catalog/client.go, mimir.go, loki.go and tempo.go: the clients, over the packages net/http,
-- net/url and encoding/json.
pub mod Answered
use ratatoskr_go.Base.{
  ℕ, ◌/◌, Bool, true, false, not, ◌&&◌, ◌⊎◌, inl, inr, Option, none, some, List, [], ◌∷◌, ◌++◌,
  Text, bytes, is_empty, text_eq, length, take, leb, ◌==◌, if◌then◌else◌,
}
use ratatoskr_go.Base.Calls.{Call, pure, fail, ◌>>=◌}
use ratatoskr_go.Catalog.Cache.{PromqlClient, LogqlClient, TraceqlClient}
use ratatoskr_go.Catalog.Entry.{Slice}

-- url.Values: each key with its values.
abbrev pub Params : Type 0
Params = List (Text × Text)

-- A response: its status, and its body or the error of reading it.
pub record Response : Type 0 where
  pub status : ℕ
  pub body : Text ⊎ Text

-- `promAPIResponse`; `data_field` is the raw field "data".
pub record PromApiResponse : Type 0 where
  pub status : Text
  pub data_field : Text
  pub error_type : Text
  pub error : Text

-- `tempoTagsResponse` and `tempoTagValuesResponse`
pub record TempoScope : Type 0 where
  pub name : Text
  pub tags : List Text

pub record TempoValue : Type 0 where
  pub kind : Text
  pub value : Text

-- What the clients call: the packages' functions on requests Q and the world W. The left side of a
-- sum is an error.
pub record Net (Q W : Type 0) : Type 0 where
  pub encode : Params → Text
  pub path_escape : Text → Text
  pub url_parse : Text → Option Text
  pub new_request : Text → Text ⊎ Q
  pub add_header : Text → Text → Q → Q
  pub set_header : Text → Text → Q → Q
  pub send : Q → W → (Text ⊎ Response) × W
  pub decode_envelope : Text → Text ⊎ PromApiResponse
  pub decode_list : Text → Text ⊎ Slice
  pub decode_scopes : Text → Text ⊎ List TempoScope
  pub decode_values : Text → Text ⊎ List TempoValue
  pub show_status : ℕ → Text
  pub quoted : Text → Text

-- `ClientError`
pub record ClientError : Type 0 where
  pub url : Text
  pub status_code : ℕ
  pub error_type : Text
  pub message : Text

-- `clientCommon` less the HTTP client; the headers are in the order in which their map is walked.
pub record ClientCommon : Type 0 where
  pub base_url : Text
  pub headers : List (Text × List Text)

-- strings.TrimRight(s, "/")
unfoldable pub trim_slashes : Text → Text
trim_slashes [] = []
trim_slashes (c ∷ s) =
    let rest : Text = trim_slashes s in if c == b'/' && is_empty rest then [] else c ∷ rest

-- "…"
abbrev pub ellipsis : Text
ellipsis = 0xe2 ∷ 0x80 ∷ 0xa6 ∷ []

unfoldable pub truncate : Text → ℕ → Text
truncate s n = if leb (length s) n then s else take n s ++ ellipsis

unfoldable pub match_params : List Text → Params
match_params [] = []
match_params (m ∷ matchers) =
    let rest : Params = match_params matchers in
    if is_empty m then rest else (bytes "match[]", m) ∷ rest

-- The cap on a body: 32 MiB.
abbrev pub body_cap : ℕ
body_cap = 33554432

module _ {Q W : Type 0} (net : Net Q W) where
  unfoldable pub new_client_common : Text → List (Text × List Text) → Text ⊎ ClientCommon
  new_client_common base_url headers =
      if is_empty base_url
      then inl (bytes "catalog: empty base URL")
      else elim (net.url_parse base_url) [
        | some err ↦
            inl (bytes "catalog: bad base URL " ++ (net.quoted base_url ++ (bytes ": " ++ err)))
        | none ↦ inr (record { base_url = trim_slashes base_url; headers = headers })
      ]

  unfoldable pub error_text : ClientError → Text
  error_text e =
      let at : Text = bytes "catalog: " ++ (e.url ++ bytes ": ") in
      if not (e.status_code == 0) && not (is_empty e.error_type)
      then at
        ++ (bytes "HTTP "
            ++ (net.show_status e.status_code
                ++ (bytes " " ++ (e.error_type ++ (bytes ": " ++ e.message)))))
      else if not (e.status_code == 0)
      then at ++ (bytes "HTTP " ++ (net.show_status e.status_code ++ (bytes ": " ++ e.message)))
      else at ++ (e.error_type ++ (bytes ": " ++ e.message))

  abbrev pub add_values : Text → List Text → Q → Q
  add_values k [] q = q
  add_values k (v ∷ vs) q = add_values k vs (net.add_header k v q)

  abbrev pub add_headers : List (Text × List Text) → Q → Q
  add_headers [] q = q
  add_headers ((k, vs) ∷ hs) q = add_headers hs (add_values k vs q)

  abbrev pub full_url : ClientCommon → Text → Params → Text
  full_url c path params =
      let encoded : Text = net.encode params in
      if is_empty encoded
      then c.base_url ++ path
      else (c.base_url ++ path) ++ (bytes "?" ++ encoded)

  abbrev pub failed_at : {A : Type 0} → Text → Text → Text → Text ⊎ A
  failed_at full what err = inl (bytes "catalog: " ++ (full ++ (bytes ": " ++ (what ++ err))))

  -- `get` after the body: an error for a status that is not 2xx.
  abbrev pub check_status : Text → ℕ → Text → Text ⊎ Text
  check_status full status body =
      if not (status / 100 == 2)
      then inl (
          error_text (record {
            url = full;
            status_code = status;
            error_type = [];
            message = truncate body 512;
          }))
      else inr body

  abbrev pub read_body : Text → ℕ → Text ⊎ Text → Text ⊎ Text
  read_body full status (inl err) = failed_at full (bytes "read body: ") err
  read_body full status (inr body) = check_status full status (take body_cap body)

  abbrev pub received : Text → (Text ⊎ Response) × W → (Text ⊎ Text) × W
  received full (inl err, w) = (failed_at full [] err, w)
  received full (inr r, w) = (read_body full r.status r.body, w)

  abbrev pub sent : ClientCommon → Text → Text ⊎ Q → Call W Text
  sent c full (inl err) w = (inl (bytes "catalog: build request: " ++ err), w)
  sent c full (inr q) w = received full (
      net.send
        (net.set_header (bytes "Accept") (bytes "application/json") (add_headers c.headers q)) w)

  unfoldable pub get : ClientCommon → Text → Params → Call W Text
  get c path params = sent c (full_url c path params) (net.new_request (full_url c path params))

  -- `getJSON` after the body: none of a slice where there is no data.
  abbrev pub read_data : Text → Text → Text ⊎ Slice
  read_data full [] = inr none
  read_data full (d ∷ rest) = elim (net.decode_list (d ∷ rest)) [
    | inl err ↦ failed_at full (bytes "decode data: ") err
    | inr names ↦ inr names
  ]

  abbrev pub read_envelope : Text → Text ⊎ PromApiResponse → Text ⊎ Slice
  read_envelope full (inl err) = failed_at full (bytes "decode envelope: ") err
  read_envelope full (inr env) =
      if not (text_eq env.status (bytes "success"))
      then inl (
          error_text (record {
            url = full;
            status_code = 0;
            error_type = env.error_type;
            message = env.error;
          }))
      else read_data full env.data_field

  abbrev pub decoded : {A : Type 0} → (Text → Text ⊎ A) → (Text ⊎ Text) × W → (Text ⊎ A) × W
  decoded read (inl err, w) = (inl err, w)
  decoded read (inr body, w) = (read body, w)

  unfoldable pub get_json : ClientCommon → Text → Params → Call W Slice
  get_json c path params w =
      decoded (λ body. read_envelope (full_url c path params) (net.decode_envelope body))
        (get c path params w)

  abbrev pub read_plain : {A : Type 0} → Text → Text ⊎ A → Text ⊎ A
  read_plain full (inl err) = failed_at full (bytes "decode body: ") err
  read_plain full (inr a) = inr a

  unfoldable pub get_plain_json :
      {A : Type 0} → (Text → Text ⊎ A) → ClientCommon → Text → Params → Call W A
  get_plain_json decode c path params w =
      decoded (λ body. read_plain (full_url c path params) (decode body)) (get c path params w)

  -- `MimirClient`
  unfoldable pub mimir_client : ClientCommon → PromqlClient W
  mimir_client c = record {
    metric_names = get_json c (bytes "/api/v1/label/__name__/values") [];
    label_names = λ matchers. get_json c (bytes "/api/v1/labels") (match_params matchers);
    label_values = λ name matchers.
        get_json c (bytes "/api/v1/label/" ++ (name ++ bytes "/values")) (match_params matchers);
  }

  -- `LokiClient`
  unfoldable pub loki_client : ClientCommon → LogqlClient W
  loki_client c = record {
    label_names = get_json c (bytes "/loki/api/v1/labels") [];
    label_values = λ name. get_json c (bytes "/loki/api/v1/label/" ++ (name ++ bytes "/values")) [];
  }

  -- The loops of `AttributeNames` and `AttributeValues`.
  unfoldable pub tags_in : Text → List TempoScope → List Text
  tags_in scope [] = []
  tags_in scope (s ∷ scopes) =
      let rest : List Text = tags_in scope scopes in
      if text_eq s.name scope then s.tags ++ rest else rest

  unfoldable pub string_values : List TempoValue → List Text
  string_values [] = []
  string_values (v ∷ vs) =
      let rest : List Text = string_values vs in
      if text_eq v.kind (bytes "string") then v.value ∷ rest else rest

  -- `TempoClient`
  unfoldable pub tempo_client : ClientCommon → TraceqlClient W
  tempo_client c = record {
    attribute_names = λ scope. do
      scopes ←
          get_plain_json net.decode_scopes c (bytes "/api/v2/search/tags")
            ((bytes "scope", scope) ∷ [])
      pure (some (tags_in scope scopes));
    attribute_values = λ scope name. do
      vs ←
          get_plain_json net.decode_values c
            (bytes "/api/v2/search/tag/"
              ++ (net.path_escape (scope ++ (bytes "." ++ name)) ++ bytes "/values"))
            []
      pure (some (string_values vs));
  }
