-- ===== src/Abr/Segments.antt =====
-- The end of `parse_mpd` (src/abr/mpd_parse.c): from the templates of a manifest to the names of the
-- segments of each level. `none` is a write beyond `segnum` or beyond a name's buffer. `malloc` gives memory.
pub mod Names
use quicsy.Prelude.{
  ℕ, zero, suc, ◌+◌, ◌-◌, Bool, true, false, [], ◌∷◌, List, Bytes, codes, Option, none, some, ltb,
  if◌then◌else◌, ◌>>=◌, length,
}
use quicsy.Util.Number.{format_uint}
use quicsy.Abr.Replace.{Replacement, null, text, str_replace}

-- MAXURLLENGTH and the size of `segnum`.
abbrev pub max_url_length : ℕ
max_url_length = 512

abbrev pub segnum_size : ℕ
segnum_size = 5

abbrev pub keyword_id : Bytes
keyword_id = codes "$id$"

abbrev pub keyword_bw : Bytes
keyword_bw = codes "$Bandwidth$"

abbrev pub keyword_num : Bytes
keyword_num = codes "$Number$"

-- What `str_replace` answers to three strings, `none` for NULL.
abbrev pub text_of : Option Replacement → Option Bytes
text_of none = none
text_of (some null) = none
text_of (some (text size t)) = some t

unfoldable pub replaced : Bytes → Bytes → Bytes → Option Bytes
replaced orig keyword value = text_of (str_replace true (some orig) (some keyword) (some value))

abbrev pub or_else : Option Bytes → Bytes → Bytes
or_else none t = t
or_else (some u) t = u

-- `if (newurl == NULL) strcpy(…, tmp); else strcpy(…, newurl);`
unfoldable pub with_number : Bytes → Bytes → Bytes
unfolding replaced
with_number segnum tmp = or_else (replaced tmp keyword_num segnum) tmp

-- The two attempts at a template, by its bandwidth and by its id, and the template itself.
unfoldable pub with_level : Bytes → Bytes → Bytes → Bytes
unfolding replaced
with_level bandwidth id url =
    or_else (replaced url keyword_bw bandwidth) (or_else (replaced url keyword_id id) url)

unfoldable pub segment_name : Bytes → Bytes → Bytes → Bytes → Bytes
segment_name bandwidth id media_url segnum = with_number segnum (with_level bandwidth id media_url)

-- `strcpy` into a buffer of MAXURLLENGTH bytes.
unfoldable pub store_url : Bytes → Option Bytes
store_url t = if ltb (length t) max_url_length then some t else none

-- `sprintf(segnum, "%d", sn)`, for a number that is not negative.
unfoldable pub print_segnum : ℕ → Option Bytes
print_segnum sn = if ltb (length (format_uint sn)) segnum_size then some (format_uint sn) else none

-- The inner loop, `count` rounds from the number `sn` on.
unfoldable pub name_segments : Bytes → Bytes → Bytes → ℕ → ℕ → Option (List Bytes)
unfolding segment_name store_url print_segnum
name_segments bandwidth id media_url zero sn = some []
name_segments bandwidth id media_url (suc count) sn = do
  segnum ← print_segnum sn
  name ← store_url (segment_name bandwidth id media_url segnum)
  names ← name_segments bandwidth id media_url count (sn + 1)
  some (name ∷ names)

-- `segments[0]` when there is an init template; `none` inside stands for memory that is not written.
unfoldable pub name_init : Bytes → Bytes → Bytes → Option (Option Bytes)
unfolding with_level store_url
name_init bandwidth id [] = some none
name_init bandwidth id (c ∷ init_url) = do
  name ← store_url (with_level bandwidth id (c ∷ init_url))
  some (some name)
