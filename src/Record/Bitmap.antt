-- ===== src/Record/Bitmap.antt =====
-- src/record/bitmap.h: the slot bitmap of a record page. A bitmap is its list of bytes, each below
-- 256; bit `pos` is bit 7 - pos % 8 of byte pos / 8. A `char` is read as the byte that it holds.
mod Bytes
pub mod Bits
pub mod Scan
use Prim.Native.Nat.{bit_and, bit_or}
use grmdb.Base.{
  ℕ, zero, suc, ◌+◌, ◌-◌, ◌/◌, ◌%◌, ◌^◌, Bool, not, List, ◌==◌, eq_bool, if◌then◌else◌, get_or,
  set as write, replicate,
}
use grmdb.Base.Int.{ℤ, negsuc, incr, pos_part}

abbrev pub bitmap_width : ℕ
bitmap_width = 8

abbrev pub bitmap_highest_bit : ℕ
bitmap_highest_bit = 0x80

unfoldable pub get_bucket : ℕ → ℕ
get_bucket pos = pos / bitmap_width

-- `BITMAP_HIGHEST_BIT >> (pos % BITMAP_WIDTH)`
unfoldable pub get_bit : ℕ → ℕ
get_bit pos = bitmap_highest_bit / 2 ^ (pos % bitmap_width)

unfoldable pub init : ℕ → List ℕ
init size = replicate size 0

unfoldable pub set : List ℕ → ℕ → List ℕ
unfolding get_bucket get_bit
set bm pos = write bm (get_bucket pos) (bit_or (get_or bm (get_bucket pos) 0) (get_bit pos))

-- `~b` of a byte is 255 - b.
unfoldable pub reset : List ℕ → ℕ → List ℕ
unfolding get_bucket get_bit
reset bm pos =
    write bm (get_bucket pos) (bit_and (get_or bm (get_bucket pos) 0) (255 - get_bit pos))

unfoldable pub is_set : List ℕ → ℕ → Bool
unfolding get_bucket get_bit
is_set bm pos = not (bit_and (get_or bm (get_bucket pos) 0) (get_bit pos) == 0)

-- The loop of `next_bit`, with the rounds that are left: `max_n - i`.
unfoldable pub next_bit_loop : Bool → List ℕ → ℕ → ℕ → ℕ → ℕ
next_bit_loop bit bm max_n zero i = max_n
next_bit_loop bit bm max_n (suc rounds) i =
    let rest = next_bit_loop bit bm max_n rounds (i + 1) in
    if eq_bool (is_set bm i) bit then i else rest

-- `curr` is -1 or a position, so `curr + 1` is never negative.
unfoldable pub next_bit : Bool → List ℕ → ℕ → ℤ → ℕ
unfolding next_bit_loop
next_bit bit bm max_n curr =
    let i = pos_part (incr curr) in next_bit_loop bit bm max_n (max_n - i) i

unfoldable pub first_bit : Bool → List ℕ → ℕ → ℕ
unfolding next_bit
first_bit bit bm max_n = next_bit bit bm max_n (negsuc 0)
