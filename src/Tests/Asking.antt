-- ===== src/Tests/Asking.antt =====
-- A client at a concrete server.
use ratatoskr_go.Base.{ℕ, suc, ◌≡◌, refl, inr, none, some, [], ◌∷◌, ◌++◌, Text, bytes, text_eq}
use ratatoskr_go.Catalog.Clients.Answered.{IsAnswered, get_json-IsAnswered}
use ratatoskr_go.Catalog.Clients.{
  Response, PromApiResponse, Net, ClientCommon, full_url, get, get_json, truncate, trim_slashes,
  match_params,
}

-- A server that answers every request with one name, the body.
abbrev net : Net Text ℕ
net = record {
  encode = λ p. [];
  path_escape = λ s. s;
  url_parse = λ s. none;
  new_request = λ url. inr url;
  add_header = λ k v q. q;
  set_header = λ k v q. q;
  send = λ q w. (inr (record { status = 204; body = inr (bytes "up") }), suc w);
  decode_envelope = λ body.
      inr (record { status = bytes "success"; data_field = body; error_type = []; error = [] });
  decode_list = λ raw. inr (some (raw ∷ []));
  decode_scopes = λ s. inr [];
  decode_values = λ s. inr [];
  show_status = λ n. [];
  quoted = λ s. s;
}

abbrev client : ClientCommon
client = record { base_url = bytes "http://mimir"; headers = [] }

answered : get_json net client (bytes "/api/v1/labels") [] 0 ≡ (inr (some (bytes "up" ∷ [])), 1)
unfolding get_json get text_eq
answered = refl

get_json-IsAnswered_example :
    (q : Text) × (r : Response) × (body : Text) × (env : PromApiResponse) × IsAnswered net
      (full_url net client (bytes "/api/v1/labels") [])
      client
      0
      1
      (some (bytes "up" ∷ []))
      q
      r
      body
      env
get_json-IsAnswered_example =
    get_json-IsAnswered net client (bytes "/api/v1/labels") [] 0 1 (some (bytes "up" ∷ [])) answered

cut : truncate (bytes "abcdef") 3 ≡ bytes "abc" ++ (0xe2 ∷ 0x80 ∷ 0xa6 ∷ [])
unfolding truncate
cut = refl

trimmed : trim_slashes (bytes "http://x//") ≡ bytes "http://x"
unfolding trim_slashes
trimmed = refl

matched :
    match_params (bytes "a" ∷ [] ∷ bytes "b" ∷ [])
    ≡ (bytes "match[]", bytes "a") ∷ (bytes "match[]", bytes "b") ∷ []
unfolding match_params
matched = refl
