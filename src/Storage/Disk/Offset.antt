-- ===== src/Storage/Disk/Offset.antt =====
-- Where a page lies in its file: `off_t offset_in_file = page_no * PAGE_SIZE`, a product of two
-- `int`s that is taken modulo 2^32 before it is widened.
use grmdb.Base.{
  Option, none, some, refl, ◌+◌, ◌-◌, ◌*◌, ◌%◌, ◌^◌, ◌<◌, ◌≡◌, ℕ, arith, ltb, if◌then◌else◌,
}
use grmdb.Base.Int.{ℤ, pos, negsuc}

abbrev pub page_size : ℕ
page_size = 4096

-- The `int` that a 32-bit pattern stands for.
abbrev pub int_of_bits : ℕ → ℤ
int_of_bits n = if ltb n (2 ^ 31) then pos n else negsuc (2 ^ 32 - n - 1)

-- For a page number that is not negative.
unfoldable pub offset_in_file : ℕ → ℤ
offset_in_file page_no = int_of_bits (page_no * page_size % 2 ^ 32)

-- That of any page number.
abbrev pub page_offset : ℤ → ℤ
page_offset (pos n) = offset_in_file n
page_offset (negsuc n) = int_of_bits ((2 ^ 32 - (n + 1) * page_size % 2 ^ 32) % 2 ^ 32)

-- The position after `lseek`, which fails on a negative offset.
unfoldable pub seek : ℤ → Option ℕ
unfolding offset_in_file
seek page_no = elim (page_offset page_no) [ pos offset ↦ some offset | negsuc _ ↦ none ]

-- Below page 2^19 the pages lie one after another and do not overlap.
pub offset_in_file-lt : (n : ℕ) → n < 2 ^ 19 → offset_in_file n ≡ pos (n * page_size)
unfolding offset_in_file
offset_in_file-lt n h = ground arith

-- At page 2^19, the first one past 2 GiB, the offset is negative, and from page 2^20 on the pages
-- lie over the first ones.
pub offset_in_file_wraps :
    (n : ℕ)
    → n < 2 ^ 19
    → (offset_in_file (2 ^ 19 + n) ≡ negsuc (2 ^ 31 - n * page_size - 1))
      × (offset_in_file (2 ^ 20 + n) ≡ offset_in_file n)
unfolding offset_in_file
offset_in_file_wraps n h = (ground arith, ground arith)

pub seek-lt : (n : ℕ) → n < 2 ^ 19 → seek (pos n) ≡ some (n * page_size)
unfolding seek offset_in_file
seek-lt n h = rw (seek, offset_in_file-lt n h) refl
