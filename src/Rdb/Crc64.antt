-- ===== src/Rdb/Crc64.antt =====
-- src/rdb/crc64.rs: the checksum at the end of a snapshot, table-driven.
use meebis.Base.{
  ℕ, zero, suc, ◌+◌, ◌*◌, ◌/◌, ◌%◌, ◌^◌, ◌≡◌, refl, bit_and, bit_or, bit_xor, [], ◌∷◌, List, ◌++◌,
  ◌==◌, if◌then◌else◌, get_or,
}
use meebis.Base.Bytes.{Bytes}

abbrev pub poly : ℕ
poly = 0xad93_d235_94c9_35a9

-- The loop of `reverse` with `n` rounds left; `<<` drops what passes 64 bits.
reverse_loop : ℕ → ℕ → ℕ → ℕ
reverse_loop zero v r = r
reverse_loop (suc n) v r = reverse_loop n (v / 2) (bit_or (r * 2 % 2 ^ 64) (bit_and v 1))

pub reverse : ℕ → ℕ
unfolding reverse_loop
reverse v = reverse_loop 64 v 0

-- One bit of the remainder: shift out the lowest and subtract the reflected polynomial.
pub shift_bit : ℕ → ℕ → ℕ
shift_bit rev crc = if bit_and crc 1 == 1 then bit_xor (crc / 2) rev else crc / 2

pub shift_bits : ℕ → ℕ → ℕ → ℕ
unfolding shift_bit
shift_bits rev zero crc = crc
shift_bits rev (suc n) crc = shift_bits rev n (shift_bit rev crc)

-- `TABLE[n..]`, `k` entries.
table_from : ℕ → ℕ → ℕ → List ℕ
unfolding shift_bits
table_from rev zero n = []
table_from rev (suc k) n = shift_bits rev 8 n ∷ table_from rev k (n + 1)

pub table : List ℕ
unfolding table_from reverse
table = table_from (reverse poly) 256 0

pub update_byte : ℕ → ℕ → ℕ
update_byte crc b = bit_xor (get_or table (bit_and (bit_xor crc b) 0xff) 0) (crc / 256)

pub update : ℕ → Bytes → ℕ
unfolding update_byte
update crc [] = crc
update crc (b ∷ rest) = update (update_byte crc b) rest

unfoldable pub checksum : Bytes → ℕ
unfolding update
checksum bytes = update 0 bytes

-- The published check value.
check_value :
    checksum (0x31 ∷ 0x32 ∷ 0x33 ∷ 0x34 ∷ 0x35 ∷ 0x36 ∷ 0x37 ∷ 0x38 ∷ 0x39 ∷ [])
    ≡ 0xe9c6_d914_c4b8_d9ca
unfolding checksum table
check_value = refl

-- A checksum may be taken in parts.
pub update-append : (crc : ℕ) (xs ys : Bytes) → update crc (xs ++ ys) ≡ update (update crc xs) ys
unfolding update
update-append crc [] ys = refl
update-append crc (x ∷ xs) ys = update-append (update_byte crc x) xs ys
