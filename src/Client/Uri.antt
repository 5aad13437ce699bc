-- ===== src/Client/Uri.antt =====
-- `get_string`, `parse_uri` and `parse_requests` of src/quicsy_client.cc: the requests of the command
-- line. http-parser and `numeric_host` are parameters.
use quicsy.Prelude.{
  ℕ, Bool, true, false, Bytes, codes, Option, none, some, List, [], ◌∷◌, ◌++◌, if◌then◌else◌, take,
  drop,
}
use quicsy.Client.Download.{Request}

-- `u.field_data[f]`.
pub record Field : Type 0 where
  pub off : ℕ
  pub len : ℕ

-- A field is `none` when it is not in `field_set`.
pub record Url : Type 0 where
  pub schema : Option Field
  pub host : Option Field
  pub port : Option Field
  pub path : Option Field
  pub query : Option Field

abbrev pub get_string : Bytes → Field → Bytes
get_string uri f = take f.len (drop f.off uri)

-- A separator and a field, for a field that is set.
abbrev pub after_sep : ℕ → Bytes → Option Field → Bytes
after_sep sep uri none = []
after_sep sep uri (some f) = sep ∷ get_string uri f

abbrev pub path_part : Bytes → Option Field → Bytes
path_part uri none = codes "/"
path_part uri (some f) = get_string uri f

module _ (parse_url : Bytes → Option Url) (numeric_host : Bytes → Bool) where
  abbrev pub authority_host : Bytes → Bytes
  authority_host host = if numeric_host host then (b'[' ∷ host) ++ codes "]" else host

  abbrev pub with_parts : Option Field → Option Field → Url → Bytes → Option Request
  with_parts none host u uri = none
  with_parts (some schema) none u uri = none
  with_parts (some schema) (some host) u uri = some (record {
    scheme = get_string uri schema;
    authority = authority_host (get_string uri host) ++ after_sep b':' uri u.port;
    path = path_part uri u.path ++ after_sep b'?' uri u.query;
  })

  abbrev pub with_url : Option Url → Bytes → Option Request
  with_url none uri = none
  with_url (some u) uri = with_parts u.schema u.host u uri

  -- `none` for -1.
  unfoldable pub parse_uri : Bytes → Option Request
  parse_uri uri = with_url (parse_url uri) uri

  -- The process ends where `ok` is false.
  abbrev pub add_request :
      (List Request → Bool × List Request) → Option Request → List Request → Bool × List Request
  add_request next none requests = (false, requests)
  add_request next (some req) requests = next (requests ++ (req ∷ []))

  -- `parse_requests` on `config.requests`, with true for 0.
  unfoldable pub parse_requests : List Bytes → List Request → Bool × List Request
  unfolding parse_uri
  parse_requests [] requests = (true, requests)
  parse_requests (uri ∷ argv) requests = add_request (parse_requests argv) (parse_uri uri) requests
