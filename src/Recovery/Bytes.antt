-- ===== src/Recovery/Bytes.antt =====
-- The bytes of integers in a log record, least significant byte first, as `memcpy` writes them and
-- `reinterpret_cast` reads them on the x86 that the program runs on. A reader takes the bytes from
-- its offset on, and returns those after what it has read.
use native.Mathlib.Nat.{pow-suc}
use grmdb.Base.{
  ℕ, zero, suc, ◌+◌, ◌-◌, ◌*◌, ◌/◌, ◌%◌, ◌^◌, ◌<◌, ◌≡◌, refl, ap, List, [], ◌∷◌, ◌++◌, arith,
  length, take, drop, ltb, if◌then◌else◌,
}
use grmdb.Base.Int.{ℤ, pos, negsuc}

-- The low n bytes of a number.
unfoldable pub encode_le : ℕ → ℕ → List ℕ
encode_le zero x = []
encode_le (suc n) x = x % 256 ∷ encode_le n (x / 256)

unfoldable pub decode_le : List ℕ → ℕ
decode_le [] = 0
decode_le (b ∷ bs) = b + 256 * decode_le bs

-- The two's complement pattern of an `int`, and the `int` of a pattern.
unfoldable pub int_bits : ℤ → ℕ
int_bits (pos n) = n
int_bits (negsuc n) = 2 ^ 32 - 1 - n

unfoldable pub bits_int : ℕ → ℤ
bits_int n = if ltb n (2 ^ 31) then pos n else negsuc (2 ^ 32 - 1 - n)

abbrev pub FitsInt : ℤ → Type 0
FitsInt (pos n) = n < 2 ^ 31
FitsInt (negsuc n) = n < 2 ^ 31

unfoldable pub encode_int : ℤ → List ℕ
encode_int z = encode_le 4 (int_bits z)

unfoldable pub read_bytes : ℕ → List ℕ → List ℕ × List ℕ
read_bytes n src = (take n src, drop n src)

-- `int`, and also `lsn_t`, `txn_id_t` and the enumeration `LogType`.
unfoldable pub read_int : List ℕ → ℤ × List ℕ
read_int src = let (bytes, rest) = read_bytes 4 src in (bits_int (decode_le bytes), rest)

-- `uint32_t` for n = 4, `size_t` for n = 8.
unfoldable pub read_unsigned : ℕ → List ℕ → ℕ × List ℕ
read_unsigned n src = let (bytes, rest) = read_bytes n src in (decode_le bytes, rest)

pub length-encode_le : (n x : ℕ) → length (encode_le n x) ≡ n
unfolding encode_le
length-encode_le zero x = refl
length-encode_le (suc n) x = ap suc (length-encode_le n (x / 256))

pub length-encode_int : (z : ℤ) → length (encode_int z) ≡ 4
unfolding encode_int
length-encode_int z = length-encode_le 4 _

decode_le-encode_le : (n x : ℕ) → x < 256 ^ n → decode_le (encode_le n x) ≡ x
unfolding decode_le encode_le
decode_le-encode_le zero x h = omega arith
decode_le-encode_le (suc n) x h =
    let bound : x < 256 ^ n * 256 = (rw pow-suc at h) in
    omega (arith, decode_le-encode_le n (x / 256) (omega arith))

pub read_bytes-append :
    (n : ℕ) (bytes rest : List ℕ) → length bytes ≡ n → read_bytes n (bytes ++ rest) ≡ (bytes, rest)
unfolding read_bytes
read_bytes-append zero [] rest h = refl
read_bytes-append zero (b ∷ bytes) rest h = absurd (omega arith)
read_bytes-append (suc n) [] rest h = absurd (omega arith)
read_bytes-append (suc n) (b ∷ bytes) rest h =
    let ih = read_bytes-append n bytes rest (omega arith) in cc

bits_int-int_bits : (z : ℤ) → FitsInt z → bits_int (int_bits z) ≡ z
unfolding bits_int int_bits
bits_int-int_bits (pos n) h = ground arith
bits_int-int_bits (negsuc n) h = ground arith

int_bits-lt : (z : ℤ) → FitsInt z → int_bits z < 256 ^ 4
unfolding int_bits
int_bits-lt (pos n) h = omega arith
int_bits-lt (negsuc n) h = omega arith

int_value : (z : ℤ) → FitsInt z → bits_int (decode_le (encode_int z)) ≡ z
unfolding encode_int
int_value z h = rw (decode_le-encode_le 4 (int_bits z) (int_bits-lt z h)) (bits_int-int_bits z h)

pub read_int-encode_int :
    (z : ℤ) (rest : List ℕ) → FitsInt z → read_int (encode_int z ++ rest) ≡ (z, rest)
unfolding read_int
read_int-encode_int z rest h =
    rw (read_bytes-append 4 (encode_int z) rest (length-encode_int z), read_int, int_value z h)

pub read_unsigned-encode_le :
    (n x : ℕ) (rest : List ℕ) → x < 256 ^ n → read_unsigned n (encode_le n x ++ rest) ≡ (x, rest)
unfolding read_unsigned
read_unsigned-encode_le n x rest h = rw (
  read_bytes-append n (encode_le n x) rest (length-encode_le n x),
  read_unsigned,
  decode_le-encode_le n x h,
)
