-- ===== src/Client/Download.antt =====
-- `Stream::open_file` of src/quicsy_client.cc: the file that a downloaded path is written to.
pub mod Inside
use quicsy.Prelude.{
  ℕ, Bool, true, false, ◌||◌, Bytes, codes, Option, none, some, [], ◌∷◌, ◌++◌, ◌==◌, if◌then◌else◌,
}
use quicsy.Prelude.Assoc.{same}

pub record Request : Type 0 where
  pub scheme : Bytes
  pub authority : Bytes
  pub path : Bytes

-- `fd` is `none` for -1.
pub record Stream : Type 0 where
  pub req : Request
  pub stream_id : ℕ
  pub fd : Option ℕ

abbrev pub new_stream : Request → ℕ → Stream
new_stream req stream_id = record { req = req; stream_id = stream_id; fd = none }

unfoldable pub has_slash : Bytes → Bool
has_slash [] = false
has_slash (c ∷ s) = (c == b'/') || has_slash s

-- `std::find(std::rbegin(path), std::rend(path), '/').base()` up to the end.
unfoldable pub base_name : Bytes → Bytes
unfolding has_slash
base_name [] = []
base_name (c ∷ s) =
    let rest = base_name s in if has_slash s then rest else if c == b'/' then s else c ∷ s

abbrev pub is_dots : Bytes → Bool
is_dots b = same b (codes "..") || same b (codes ".")

-- The name that is opened for the base name `b`.
abbrev pub name_of : Bytes → Bytes → Option Bytes
name_of download [] = none
name_of download (c ∷ s) = if is_dots (c ∷ s) then none else some (download ++ (b'/' ∷ c ∷ s))

-- `already_open`: the assertion that no file is open fails.
pub data Opened : Type 0 where
  opened : Stream → Opened
  not_opened : Stream → Opened
  already_open : Opened

module _ (open_fd : Bytes → Option ℕ) (download : Bytes) where
  abbrev pub with_fd : Option ℕ → Stream → Opened
  with_fd none stream = not_opened stream
  with_fd (some n) stream = opened (record stream { fd = some n })

  abbrev pub with_name : Option Bytes → Stream → Opened
  with_name none stream = not_opened stream
  with_name (some fname) stream = with_fd (open_fd fname) stream

  abbrev pub unless_open : Option ℕ → Bytes → Stream → Opened
  unless_open (some n) path stream = already_open
  unless_open none path stream = with_name (name_of download (base_name path)) stream

  unfoldable pub open_file : Bytes → Stream → Opened
  unfolding base_name same
  open_file path stream = unless_open stream.fd path stream
