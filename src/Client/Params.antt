-- ===== src/Client/Params.antt =====
-- The transport parameters that the client keeps for early data: `write_transport_params` and
-- `read_transport_params` of src/quicsy_client.cc, over the contents of the file.
pub mod RoundTrip
use quicsy.Prelude.{
  ℕ, ◌+◌, ◌-◌, ◌*◌, ◌^◌, ◌%◌, ◌&&◌, ◌||◌, Bool, true, false, Bytes, codes, Option, none, some, List,
  [], ◌∷◌, ◌++◌, ltb, leb, ◌==◌, if◌then◌else◌, length, drop,
}
use Prim.Native.Nat.{min}
use quicsy.Util.Number.{format_uint, u64_max}
use quicsy.Util.CaseCmp.{istarts_with}

-- The fields of `ngtcp2_transport_params` that are kept.
pub record Params : Type 0 where
  pub initial_max_streams_bidi : ℕ
  pub initial_max_streams_uni : ℕ
  pub initial_max_stream_data_bidi_local : ℕ
  pub initial_max_stream_data_bidi_remote : ℕ
  pub initial_max_stream_data_uni : ℕ
  pub initial_max_data : ℕ

abbrev pub streams_bidi_key : Bytes
streams_bidi_key = codes "initial_max_streams_bidi="

abbrev pub streams_uni_key : Bytes
streams_uni_key = codes "initial_max_streams_uni="

abbrev pub bidi_local_key : Bytes
bidi_local_key = codes "initial_max_stream_data_bidi_local="

abbrev pub bidi_remote_key : Bytes
bidi_remote_key = codes "initial_max_stream_data_bidi_remote="

abbrev pub data_uni_key : Bytes
data_uni_key = codes "initial_max_stream_data_uni="

abbrev pub max_data_key : Bytes
max_data_key = codes "initial_max_data="

-- `f << key << value << '\n'`.
abbrev pub line_before : Bytes → ℕ → Bytes → Bytes
line_before key value rest = (key ++ format_uint value) ++ (10 ∷ rest)

-- What the file holds; a file that cannot be written is the caller's.
unfoldable pub write_transport_params : Params → Bytes
write_transport_params p = line_before streams_bidi_key p.initial_max_streams_bidi (
    line_before streams_uni_key p.initial_max_streams_uni (
      line_before bidi_local_key p.initial_max_stream_data_bidi_local (
        line_before bidi_remote_key p.initial_max_stream_data_bidi_remote (
          line_before data_uni_key p.initial_max_stream_data_uni
            (line_before max_data_key p.initial_max_data [])))))

-- A byte comes before the first line.
abbrev pub push_front : ℕ → List Bytes → List Bytes
push_front c [] = (c ∷ []) ∷ []
push_front c (l ∷ ls) = (c ∷ l) ∷ ls

-- The lines that `std::getline` gives in turn.
unfoldable pub get_lines : Bytes → List Bytes
get_lines [] = []
get_lines (c ∷ s) = let rest = get_lines s in if c == 10 then [] ∷ rest else push_front c rest

-- `isspace` in the C locale.
abbrev pub is_space : ℕ → Bool
is_space c = (c == b' ') || (leb 9 c && leb c 13)

unfoldable pub skip_space : Bytes → Bytes
skip_space [] = []
skip_space (c ∷ s) = let rest = skip_space s in if is_space c then rest else c ∷ s

-- The digits that come first, unbounded.
unfoldable pub leading_number : Bytes → ℕ → ℕ
leading_number [] n = n
leading_number (c ∷ s) n =
    let rest = leading_number s (n * 10 + (c - b'0')) in
    if ltb c b'0' || ltb b'9' c then n else rest

-- The negative of a number that fits; ULONG_MAX otherwise.
abbrev pub negate : ℕ → ℕ
negate n = if leb n u64_max then (2 ^ 64 - n) % 2 ^ 64 else u64_max

abbrev pub with_sign : Bytes → ℕ
with_sign [] = 0
with_sign (c ∷ s) =
    if c == b'-'
    then negate (leading_number s 0)
    else if c == b'+'
    then min (leading_number s 0) u64_max
    else min (leading_number (c ∷ s) 0) u64_max

-- `strtoul(s, nullptr, 10)` of the standard library, with 64 bits.
unfoldable pub strtoul : Bytes → ℕ
unfolding skip_space leading_number
strtoul s = with_sign (skip_space s)

-- The value behind a key.
abbrev pub value_of : Bytes → Bytes → ℕ
value_of key line = strtoul (drop (length key) line)

-- One round of the loop.
unfoldable pub read_param : Bytes → Params → Params
unfolding strtoul
read_param line p =
    if istarts_with line streams_bidi_key
    then record p { initial_max_streams_bidi = value_of streams_bidi_key line }
    else if istarts_with line streams_uni_key
    then record p { initial_max_streams_uni = value_of streams_uni_key line }
    else if istarts_with line bidi_local_key
    then record p { initial_max_stream_data_bidi_local = value_of bidi_local_key line }
    else if istarts_with line bidi_remote_key
    then record p { initial_max_stream_data_bidi_remote = value_of bidi_remote_key line }
    else if istarts_with line data_uni_key
    then record p { initial_max_stream_data_uni = value_of data_uni_key line }
    else if istarts_with line max_data_key
    then record p { initial_max_data = value_of max_data_key line }
    else p

unfoldable pub read_params : List Bytes → Params → Params
unfolding read_param
read_params [] p = p
read_params (line ∷ ls) p = read_params ls (read_param line p)

-- `none` for -1: the file cannot be opened.
unfoldable pub read_transport_params : Option Bytes → Params → Option Params
unfolding get_lines read_params
read_transport_params none p = none
read_transport_params (some contents) p = some (read_params (get_lines contents) p)
