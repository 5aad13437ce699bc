-- ===== src/Server/Path/Tests.antt =====
-- The theorems on request paths at concrete inputs.
use quicsy.Prelude.{◌≡◌, ◌⊎◌, refl, Bool, false, [], ◌∷◌, ◌++◌, Bytes, codes, Option, some, All}
use quicsy.Util.CaseCmp.{istarts_with, lowcase}
use quicsy.Server.Path.{Url, request_path, resolve_path}
use quicsy.Server.Path.Safe.{BeginsWithSlash, resolve_path-Within, request_path-pushes}

-- The answer of the parser to "/a/?push=/b.css&x=1&push=c".
abbrev parse_url : Bytes → Bool → Option Url
parse_url uri is_connect =
    some (record { path = some (codes "/a/"); query = some (codes "push=/b.css&x=1&push=c") })

pushed : (request_path parse_url [] false).pushes ≡ codes "/b.css" ∷ []
unfolding request_path istarts_with lowcase
pushed = refl

request_path-pushes_example :
    All BeginsWithSlash (request_path parse_url (codes "/a/?push=/b.css&x=1&push=c") false).pushes
request_path-pushes_example =
    request_path-pushes parse_url (codes "/a/?push=/b.css&x=1&push=c") false

resolve_path-Within_example :
    (resolve_path (λ p. some (codes "/etc/passwd")) (codes "/srv/www/") (codes "/../../etc/passwd")
      ≡ [])
    ⊎ ((rest : Bytes) × (resolve_path
            (λ p. some (codes "/etc/passwd"))
            (codes "/srv/www/")
            (codes "/../../etc/passwd")
          ≡ codes "/srv/www/" ++ rest))
resolve_path-Within_example =
    resolve_path-Within (λ p. some (codes "/etc/passwd")) (codes "/srv/www/")
      (codes "/../../etc/passwd")
