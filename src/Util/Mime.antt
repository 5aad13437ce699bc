-- ===== src/Util/Mime.antt =====
-- `read_mime_types` of src/util.cc: a file of media types, each with the extensions that it is for.
pub mod Words
use quicsy.Prelude.{
  ℕ, zero, suc, Bool, true, false, ◌||◌, [], ◌∷◌, List, Bytes, Option, none, some, ◌==◌,
  if◌then◌else◌, length,
}
use quicsy.Prelude.Assoc.{Table, emplace}

-- `c == '\t' || c == ' '`.
unfoldable pub rws : ℕ → Bool
rws c = c == 9 || c == 32

-- `std::find_if(p, end, rws)`: the text before the position and the text from it on.
unfoldable pub word_at : Bytes → Bytes
word_at [] = []
word_at (c ∷ s) = let rest = word_at s in if rws c then [] else c ∷ rest

unfoldable pub from_space : Bytes → Bytes
from_space [] = []
from_space (c ∷ s) = let rest = from_space s in if rws c then c ∷ s else rest

-- `std::find_if_not(p, end, rws)`.
unfoldable pub skip_spaces : Bytes → Bytes
skip_spaces [] = []
skip_spaces (c ∷ s) = let rest = skip_spaces s in if rws c then rest else c ∷ s

extension_round : (Bytes → Table Bytes → Table Bytes) → Bytes → Table Bytes → Bytes → Table Bytes
unfolding word_at from_space
extension_round next media_type dest [] = dest
extension_round next media_type dest (c ∷ ext) =
    next (from_space (c ∷ ext)) (emplace (word_at (c ∷ ext)) media_type dest)

-- The loop over the extensions from position `p` on. Each round takes an extension off the line, so
-- its length is fuel enough.
unfoldable pub extension_loop : ℕ → Bytes → Bytes → Table Bytes → Table Bytes
unfolding extension_round skip_spaces
extension_loop zero p media_type dest = dest
extension_loop (suc fuel) p media_type dest =
    extension_round (λ q d. extension_loop fuel q media_type d) media_type dest (skip_spaces p)

-- `p == std::begin(line) || p == std::end(line)`, and the loop.
unfoldable pub add_extensions : Bytes → Bytes → Table Bytes → Table Bytes
unfolding extension_loop
add_extensions [] p dest = dest
add_extensions (c ∷ media_type) [] dest = dest
add_extensions (c ∷ media_type) (d ∷ p) dest =
    extension_loop (length (d ∷ p)) (d ∷ p) (c ∷ media_type) dest

-- One line of the file.
unfoldable pub read_line : Bytes → Table Bytes → Table Bytes
unfolding add_extensions word_at from_space
read_line [] dest = dest
read_line (c ∷ line) dest =
    if c == b'#' then dest else add_extensions (word_at (c ∷ line)) (from_space (c ∷ line)) dest

unfoldable pub read_lines : List Bytes → Table Bytes → Table Bytes
unfolding read_line
read_lines [] dest = dest
read_lines (line ∷ lines) dest = read_lines lines (read_line line dest)

-- The lines are those that `std::getline` takes from the file, and there are none, with -1, when it
-- cannot be opened.
unfoldable pub read_mime_types : Option (List Bytes) → Table Bytes → Option (Table Bytes)
unfolding read_lines
read_mime_types none dest = none
read_mime_types (some lines) dest = some (read_lines lines dest)
