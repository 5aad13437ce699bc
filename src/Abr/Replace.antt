-- ===== src/Abr/Replace.antt =====
-- `str_replace` of src/abr/utils.c. A C string is the list of its bytes without the final NUL, and a
-- pointer into a string is the text from there on.
pub mod Search
pub mod Correct
use mathlib.Core.Option
use quicsy.Prelude.{
  ℕ, zero, suc, ◌+◌, ◌-◌, ◌%◌, ◌^◌, ltb, ◌≡◌, refl, Bool, true, false, ◌&&◌, [], ◌∷◌, ◌++◌, Bytes,
  codes, Option, none, some, ◌==◌, if◌then◌else◌, length, take, drop, ◌>>=◌,
}
use quicsy.Prelude.Int.{ℤ, pos, negsuc, ◌+ℤ◌, ◌-ℤ◌, ◌*ℤ◌}

unfoldable pub is_prefix : Bytes → Bytes → Bool
is_prefix [] s = true
is_prefix (y ∷ r) [] = false
is_prefix (y ∷ r) (x ∷ s) = x == y && is_prefix r s

-- The C library's `strstr(s, rep)`: the text from the first occurrence on, `none` for NULL.
unfoldable pub strstr : Bytes → Bytes → Option Bytes
unfolding is_prefix
strstr [] rep = if is_prefix rep [] then some [] else none
strstr (x ∷ s) rep = if is_prefix rep (x ∷ s) then some (x ∷ s) else strstr s rep

-- `for (count = 0; tmp; ++count) { ins = tmp + len_rep; tmp = strstr(ins, rep); }`
unfoldable pub count_loop : Bytes → ℕ → Option Bytes → ℕ → ℕ
count_loop rep zero tmp count = count
count_loop rep (suc f) none count = count
count_loop rep (suc f) (some tmp) count =
    count_loop rep f (strstr (drop (length rep) tmp) rep) (count + 1)

-- `while (count--)` and the `strcpy` behind it; `out` is what is written. `none` would be a use of a
-- null `ins`.
unfoldable pub splice : Bytes → Bytes → ℕ → Bytes → Bytes → Option Bytes
splice rep new zero orig out = some (out ++ orig)
splice rep new (suc count) orig out = do
  ins ← strstr orig rep
  let len_front = length orig - length ins
  splice rep new count (drop (len_front + length rep) orig) (out ++ take len_front orig ++ new)

-- NULL, or a buffer of `allocated` bytes with the text that is written into it.
pub data Replacement : Type 0 where
  null : Replacement
  text : ℤ → Bytes → Replacement

-- A number of 32 bits read as an `int`, whose conversions and products wrap around.
abbrev pub int_of : ℕ → ℤ
int_of n = if ltb n (2 ^ 31) then pos n else negsuc (2 ^ 32 - 1 - n)

unfoldable pub to_int : ℤ → ℤ
to_int (pos n) = int_of (n % 2 ^ 32)
to_int (negsuc n) = int_of (2 ^ 32 - 1 - n % 2 ^ 32)

-- As a `size_t`.
unfoldable pub to_size : ℤ → ℤ
to_size (pos n) = pos (n % 2 ^ 64)
to_size (negsuc n) = pos (2 ^ 64 - 1 - n % 2 ^ 64)

-- The size given to `malloc`: strlen(orig) + (len_with - len_rep) * count + 1, where the lengths of the
-- two texts and `count` are `int`, and so are their difference and its product.
unfoldable pub alloc_size : ℕ → ℕ → ℕ → ℕ → ℤ
unfolding to_int to_size
alloc_size len_orig len_with len_rep count = to_size (
    pos len_orig
    +ℤ to_int (to_int (to_int (pos len_with) -ℤ to_int (pos len_rep)) *ℤ to_int (pos count))
    +ℤ pos 1)

-- From `tmp = strstr(ins, rep)` on. `malloc_ok` tells whether `malloc` gives memory.
unfoldable pub replace_found : Bool → Bytes → Bytes → Bytes → Bytes → Option Replacement
unfolding strstr count_loop splice alloc_size
replace_found malloc_ok orig rep new ins =
    let count = count_loop rep (length orig + 1) (strstr ins rep) 0 in
    if malloc_ok
    then Option.map (text (alloc_size (length orig) (length new) (length rep) count))
        (splice rep new count orig [])
    else some null

-- `with[0] = '\0'` with a null `with` is the fault `none`.
unfoldable pub replace_with :
    Bool → Bytes → Bytes → Option Bytes → Option Bytes → Option Replacement
unfolding replace_found
replace_with malloc_ok orig rep new none = some null
replace_with malloc_ok orig rep none (some ins) = none
replace_with malloc_ok orig rep (some new) (some ins) = replace_found malloc_ok orig rep new ins

unfoldable pub str_replace : Bool → Option Bytes → Option Bytes → Option Bytes → Option Replacement
unfolding replace_with
str_replace malloc_ok none rep new = some null
str_replace malloc_ok (some orig) none new = some null
str_replace malloc_ok (some orig) (some []) new = some null
str_replace malloc_ok (some orig) (some (r ∷ rep)) new =
    replace_with malloc_ok orig (r ∷ rep) new (strstr orig (r ∷ rep))

two_keywords :
    str_replace true (some (codes "s-$n$-$n$.m4s")) (some (codes "$n$")) (some (codes "12"))
    ≡ some (text (pos 12) (codes "s-12-12.m4s"))
unfolding str_replace ◌+ℤ◌ ◌-ℤ◌ ◌*ℤ◌
two_keywords = refl
