-- ===== src/Server/Path.antt =====
-- `request_path` and `resolve_path` of src/quicsy_server.cc: from the target of a request to a file of
-- the document root.
pub mod Safe
pub mod Tests
use quicsy.Prelude.{
  ℕ, zero, suc, ◌+◌, Bool, true, false, not, ◌||◌, [], ◌∷◌, ◌++◌, List, Bytes, codes, Option, none,
  some, ltb, ◌==◌, if◌then◌else◌, length, take, drop,
}
use quicsy.Prelude.Assoc.{same}
use quicsy.Util.CaseCmp.{istarts_with}

pub record Request : Type 0 where
  pub path : Bytes
  pub pushes : List Bytes

-- The fields UF_PATH and UF_QUERY of an `http_parser_url`, `none` when they are not in `field_set`.
pub record Url : Type 0 where
  pub path : Option Bytes
  pub query : Option Bytes

abbrev push_prefix : Bytes
push_prefix = codes "push="

-- `std::find(p, end, '&')`: the text before it, and the text behind it when it is found.
unfoldable pub until_amp : Bytes → Bytes
until_amp [] = []
until_amp (c ∷ s) = let rest = until_amp s in if c == b'&' then [] else c ∷ rest

unfoldable pub after_amp : Bytes → Option Bytes
after_amp [] = none
after_amp (c ∷ s) = let rest = after_amp s in if c == b'&' then some s else rest

-- `if (path_start != path_end && *path_start == '/') req.pushes.emplace_back(…)`
unfoldable pub add_push : Bytes → List Bytes → List Bytes
add_push [] pushes = pushes
add_push (c ∷ s) pushes = if c == b'/' then (c ∷ s) ∷ pushes else pushes

go_on : (Bytes → List Bytes) → Option Bytes → List Bytes
go_on next none = []
go_on next (some p) = next p

-- The loop over the query. A round goes beyond one `&`, so the length of the query is fuel enough.
unfoldable pub push_loop : ℕ → Bytes → List Bytes
unfolding until_amp after_amp add_push go_on
push_loop zero p = []
push_loop (suc fuel) [] = []
push_loop (suc fuel) (c ∷ s) =
    if istarts_with (c ∷ s) push_prefix
    then add_push (until_amp (drop 5 (c ∷ s))) (go_on (push_loop fuel) (after_amp (drop 5 (c ∷ s))))
    else go_on (push_loop fuel) (after_amp (c ∷ s))

-- `req.path.back() == '/'`.
unfoldable pub ends_in_slash : Bytes → Bool
ends_in_slash [] = false
ends_in_slash (c ∷ []) = c == b'/'
ends_in_slash (c ∷ d ∷ s) = ends_in_slash (d ∷ s)

unfoldable pub path_of : Option Bytes → Bytes
unfolding ends_in_slash
path_of none = codes "/index.html"
path_of (some path) = if ends_in_slash path then path ++ codes "index.html" else path

unfoldable pub pushes_of : Option Bytes → List Bytes
unfolding push_loop
pushes_of none = []
pushes_of (some q) = push_loop (length q) q

unfoldable pub request_of : Option Url → Request
unfolding path_of pushes_of
request_of none = record { path = []; pushes = [] }
request_of (some u) = record { path = path_of u.path; pushes = pushes_of u.query }

-- `parse_url` is `http_parser_parse_url`, `none` for an error.
unfoldable pub request_path : (Bytes → Bool → Option Url) → Bytes → Bool → Request
unfolding request_of
request_path parse_url uri is_connect = request_of (parse_url uri is_connect)

-- Behind `realpath`; the empty text is the refusal.
unfoldable pub confine : Bytes → Option Bytes → Bytes
confine htdocs none = []
confine htdocs (some path) =
    if ltb (length path) (length htdocs) || not (same (take (length htdocs) path) htdocs)
    then []
    else path

unfoldable pub resolve_path : (Bytes → Option Bytes) → Bytes → Bytes → Bytes
unfolding confine
resolve_path realpath htdocs req_path = confine htdocs (realpath (htdocs ++ req_path))
