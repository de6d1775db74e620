-- ===== src/Commands/Bits.antt =====
-- src/commands/bitops.rs: the bitmap commands. Bit 0 is the top bit of byte 0.
pub mod Bytewise
pub mod Counting
pub mod Outcome
mod Tests
use meebis.Base.{
  ℕ, zero, suc, ◌+◌, ◌-◌, ◌*◌, ◌/◌, ◌%◌, ◌^◌, min, Bool, true, false, not, ◌&&◌, ◌||◌, List, [],
  ◌∷◌, ◌++◌, Option, none, some, ltb, leb, ◌==◌, if◌then◌else◌, length, get_or, set, drop, bit_and,
  bit_or, bit_xor, map,
}
use meebis.Base.Bytes.{Bytes}
use meebis.Base.Int.{ℤ, pos, negsuc, pos_part}
use meebis.Resp.Frame.{Frame, integer, err, wrongtype, count}
use meebis.Db
use meebis.Db.{Db, string}
use meebis.Db.Typed.{Typed, typed, wrong_type, get_str}
use meebis.Commands.Args.{
  Checked, go, fail, ◌>>=◌, wrong_args, parse_int, norm_index, is_word, or_reply, or_wrongtype,
}
use meebis.Commands.Strings.{bytes_or_empty}
use meebis.Commands.Strings.Range.{pad_to}

-- `(byte >> (7 - i)) & 1`
pub bit_of : ℕ → ℕ → ℕ
bit_of byte i = byte / 2 ^ (7 - i) % 2

pub get_bit : Bytes → ℕ → ℕ
unfolding bit_of
get_bit bytes bit =
    if leb (length bytes) (bit / 8) then 0 else bit_of (get_or bytes (bit / 8) 0) (bit % 8)

pub bad_offset : Frame
bad_offset = err "bit offset is not an integer or out of range"

-- `MAX_BIT_OFFSET`
abbrev pub max_bit_offset : ℕ
max_bit_offset = 2 ^ 32

-- A parse error has the same reply as a number out of range.
pub offset_arg : Checked ℤ → Checked ℕ
unfolding bad_offset
offset_arg (go (pos n)) = if ltb n max_bit_offset then go n else fail bad_offset
offset_arg _ = fail bad_offset

pub bit_arg : Frame → Checked ℤ → Checked ℕ
bit_arg e (go (pos n)) = if ltb n 2 then go n else fail e
bit_arg e _ = fail e

-- The byte with its bit `i` written: `|= mask` or `&= !mask`.
pub with_bit : ℕ → ℕ → ℕ → ℕ
with_bit byte i v =
    let mask = 2 ^ (7 - i) in if v == 1 then bit_or byte mask else bit_and byte (255 - mask)

pub set_bit : Bytes → ℕ → ℕ → Bytes
unfolding with_bit pad_to
set_bit buf offset v =
    let padded = pad_to (offset / 8 + 1) buf in
    set padded (offset / 8) (with_bit (get_or padded (offset / 8) 0) (offset % 8) v)

-- `(buf[byte] & mask != 0) as i64`
pub old_bit : Bytes → ℕ → ℕ
unfolding pad_to
old_bit buf offset =
    let byte = get_or (pad_to (offset / 8 + 1) buf) (offset / 8) 0 in
    if bit_and byte (2 ^ (7 - offset % 8)) == 0 then 0 else 1

pub write_bit : ℕ → Db → Bytes → ℕ → ℕ → Db × Frame
unfolding set_bit old_bit bytes_or_empty
write_bit now db key offset v =
    let (db', s) = get_str now db key in
    or_wrongtype db' s λ o. (
      Db.set_keep_ttl db' key (string (set_bit (bytes_or_empty o) offset v)),
      count (old_bit (bytes_or_empty o) offset),
    )

unfoldable pub setbit : ℕ → Db → List Bytes → Db × Frame
unfolding offset_arg bit_arg write_bit
setbit now db (_ ∷ key ∷ a ∷ b ∷ []) = or_reply db (offset_arg (parse_int a)) λ offset.
    or_reply db (bit_arg (err "bit is not an integer or out of range") (parse_int b))
      λ v. write_bit now db key offset v
setbit now db _ = (db, wrong_args "setbit")

pub bit_reply : Option Bytes → ℕ → Frame
unfolding get_bit
bit_reply none offset = count 0
bit_reply (some s) offset = count (get_bit s offset)

unfoldable pub getbit : ℕ → Db → List Bytes → Db × Frame
unfolding offset_arg bit_reply
getbit now db (_ ∷ key ∷ a ∷ []) =
    or_reply db (offset_arg (parse_int a)) λ offset.
      let (db', s) = get_str now db key in or_wrongtype db' s λ o. (db', bit_reply o offset)
getbit now db _ = (db, wrong_args "getbit")

-- `clamp`, from the indices that count from the end. The last one is cut.
clamp_to : ℤ → ℤ → ℕ → Option (ℕ × ℕ)
clamp_to s (negsuc e) len = none
clamp_to s (pos e) len =
    let last = if leb len e then len - 1 else e in
    if ltb last (pos_part s) || leb len (pos_part s) then none else some (pos_part s, last)

pub clamp : ℤ → ℤ → ℕ → Option (ℕ × ℕ)
unfolding clamp_to
clamp start end len =
    if len == 0 then none else clamp_to (norm_index start len) (norm_index end len) len

-- `(lo..lo + n).filter(|&b| get_bit(&s, b) == 1).count()`
pub count_bits : Bytes → ℕ → ℕ → ℕ
unfolding get_bit
count_bits s lo zero = 0
count_bits s lo (suc n) =
    let rest = count_bits s (suc lo) n in if get_bit s lo == 1 then suc rest else rest

-- `u8::count_ones`
pub count_ones : ℕ → ℕ
unfolding bit_of
count_ones byte =
    bit_of byte 0
    + (bit_of byte 1
        + (bit_of byte 2
            + (bit_of byte 3
                + (bit_of byte 4 + (bit_of byte 5 + (bit_of byte 6 + bit_of byte 7))))))

-- The sum is a `u32`, which wraps around in a release build.
pub sum_ones : Bytes → ℕ
unfolding count_ones
sum_ones [] = 0
sum_ones (b ∷ s) = (count_ones b + sum_ones s) % 2 ^ 32

-- The bits of a range of bits, or of bytes.
abbrev pub bit_range : Bool → Option (ℕ × ℕ) → Option (ℕ × ℕ)
bit_range bits none = none
bit_range true (some (a, b)) = some (a, b)
bit_range false (some (a, b)) = some (a * 8, b * 8 + 7)

pub count_range : Bytes → Option (ℕ × ℕ) → ℕ
unfolding count_bits
count_range s none = 0
count_range s (some (lo, hi)) = count_bits s lo (min hi (length s * 8 - 1) + 1 - lo)

pub bitcount_range : Bytes → ℤ → ℤ → Bool → Frame
unfolding clamp count_range
bitcount_range s start end bits =
    count
      (count_range s (bit_range bits (clamp start end (if bits then length s * 8 else length s))))

-- The unit, where it is given.
unit_arg : List Bytes → Checked Bool
unit_arg [] = go false
unit_arg (u ∷ _) =
    if is_word u "BIT"
    then go true
    else if is_word u "BYTE"
    then go false
    else fail (err "syntax error")

bitcount_args : Db → Bytes → Bytes → Bytes → List Bytes → Db × Frame
unfolding unit_arg bitcount_range
bitcount_args db s a b unit = or_reply db (parse_int a) λ start.
    or_reply db (parse_int b)
      λ end. or_reply db (unit_arg unit) λ bits. (db, bitcount_range s start end bits)

-- A missing key counts as none before the other arguments are read.
bitcount_of : Db → Option Bytes → List Bytes → Db × Frame
unfolding bitcount_args sum_ones
bitcount_of db none rest = (db, count 0)
bitcount_of db (some s) (a ∷ b ∷ unit) = bitcount_args db s a b unit
bitcount_of db (some s) _ = (db, count (sum_ones s))

read_bitcount : Db × Typed (Option Bytes) → List Bytes → Db × Frame
unfolding bitcount_of
read_bitcount (db, v) rest = or_wrongtype db v λ o. bitcount_of db o rest

unfoldable pub bitcount : ℕ → Db → List Bytes → Db × Frame
unfolding read_bitcount
bitcount now db (_ ∷ key ∷ rest) =
    if length rest == 0 || length rest == 2 || length rest == 3
    then read_bitcount (get_str now db key) rest
    else (db, err "syntax error")
bitcount now db _ = (db, err "syntax error")

-- The loop `for b in lo..=hi` of BITPOS: the first of `n` bits from `lo` on that is the target.
pub find_bit : Bytes → ℕ → ℕ → ℕ → Option ℕ
unfolding get_bit
find_bit s target lo zero = none
find_bit s target lo (suc n) =
    let rest = find_bit s target (suc lo) n in if get_bit s lo == target then some lo else rest

-- What stands behind the loop: past the end there are zeros, unless an end was given.
pub not_found : Bytes → ℕ → Bool → Frame
not_found s target end_given =
    if target == 0 && not end_given then count (length s * 8) else integer (negsuc 0)

pub found_reply : Bytes → ℕ → Bool → Option ℕ → Frame
unfolding not_found
found_reply s target end_given none = not_found s target end_given
found_reply s target end_given (some b) = count b

pub search_bits : Bytes → ℕ → Bool → Option (ℕ × ℕ) → Frame
unfolding find_bit found_reply
search_bits s target end_given none = integer (negsuc 0)
search_bits s target end_given (some (lo, hi)) =
    found_reply s target end_given (find_bit s target lo (min hi (length s * 8 - 1) + 1 - lo))

-- The end is the last one where it is not given. Any word but BIT stands for bytes.
end_arg : List Bytes → Checked ℤ
end_arg [] = go (negsuc 0)
end_arg (b ∷ _) = parse_int b

in_bits : List Bytes → Bool
in_bits (_ ∷ u ∷ []) = is_word u "BIT"
in_bits _ = false

window : Bytes → ℤ → ℤ → Bool → Option (ℕ × ℕ)
unfolding clamp
window s start end bits = bit_range bits (clamp start end (if bits then length s * 8 else length s))

bitpos_from : Db → Bytes → ℕ → Bytes → List Bytes → Db × Frame
unfolding end_arg in_bits window search_bits
bitpos_from db s target a rest = or_reply db (parse_int a) λ start.
    or_reply db (end_arg rest)
      λ end. (db, search_bits s target (not (length rest == 0)) (window s start end (in_bits rest)))

pub bitpos_of : Db → ℕ → Option Bytes → List Bytes → Db × Frame
unfolding bitpos_from
bitpos_of db target none rest = (db, if target == 0 then count 0 else integer (negsuc 0))
bitpos_of db target (some s) [] = (db, search_bits s target false (some (0, length s * 8 - 1)))
bitpos_of db target (some s) (a ∷ rest) = bitpos_from db s target a rest

pub read_bitpos : Db × Typed (Option Bytes) → ℕ → List Bytes → Db × Frame
unfolding bitpos_of
read_bitpos (db, v) target rest = or_wrongtype db v λ o. bitpos_of db target o rest

unfoldable pub bitpos : ℕ → Db → List Bytes → Db × Frame
unfolding bit_arg read_bitpos
bitpos now db (_ ∷ key ∷ b ∷ rest) =
    if ltb 3 (length rest)
    then (db, err "syntax error")
    else or_reply db (bit_arg (err "The bit argument must be 1 or 0.") (parse_int b))
        λ target. read_bitpos (get_str now db key) target rest
bitpos now db _ = (db, err "syntax error")

-- `s.get(i).copied().unwrap_or(0)`, folded over the sources at one index.
fold_at : (ℕ → ℕ → ℕ) → ℕ → List Bytes → ℕ → ℕ
fold_at f acc [] i = acc
fold_at f acc (s ∷ sources) i = fold_at f (f acc (get_or s i 0)) sources i

-- The indices from `i` on, `n` of them.
pub combine : (ℕ → ℕ → ℕ) → ℕ → List Bytes → ℕ → ℕ → Bytes
unfolding fold_at
combine f acc sources i zero = []
combine f acc sources i (suc n) = fold_at f acc sources i ∷ combine f acc sources (suc i) n

pub max_length : List Bytes → ℕ
max_length [] = 0
max_length (s ∷ sources) =
    let rest = max_length sources in if ltb rest (length s) then length s else rest

pub first_or_empty : List Bytes → Bytes
first_or_empty [] = []
first_or_empty (s ∷ _) = s

pub bitop_result : Bytes → List Bytes → Checked Bytes
unfolding combine max_length first_or_empty
bitop_result op sources =
    if is_word op "AND"
    then go (combine bit_and 255 sources 0 (max_length sources))
    else if is_word op "OR"
    then go (combine bit_or 0 sources 0 (max_length sources))
    else if is_word op "XOR"
    then go (combine bit_xor 0 sources 0 (max_length sources))
    else if is_word op "NOT"
    then go (map (λ b. 255 - b) (first_or_empty sources))
    else fail (err "syntax error")

pub read_source :
    Db → Typed (Option Bytes) → (Bytes → Db × Checked (List Bytes)) → Db × Checked (List Bytes)
unfolding bytes_or_empty
read_source db wrong_type k = (db, fail wrongtype)
read_source db (typed o) k = k (bytes_or_empty o)

pub with_source : Bytes → Db × Checked (List Bytes) → Db × Checked (List Bytes)
with_source s (db, go sources) = (db, go (s ∷ sources))
with_source s (db, fail f) = (db, fail f)

pub read_sources : ℕ → Db → List Bytes → Db × Checked (List Bytes)
unfolding read_source with_source
read_sources now db [] = (db, go [])
read_sources now db (key ∷ keys) =
    let (db', v) = get_str now db key in
    read_source db' v λ s. with_source s (read_sources now db' keys)

pub store_bits : ℕ → Db → Bytes → Bytes → Db × Frame
store_bits now db dest [] = ((Db.remove now db dest).0, count 0)
store_bits now db dest (b ∷ bs) = (Db.set db dest (string (b ∷ bs)), count (length (b ∷ bs)))

pub bitop_on : ℕ → Bytes → Bytes → Db × Checked (List Bytes) → Db × Frame
unfolding bitop_result store_bits
bitop_on now op dest (db, sources) =
    or_reply db (sources >>= bitop_result op) λ result. store_bits now db dest result

unfoldable pub bitop : ℕ → Db → List Bytes → Db × Frame
unfolding read_sources bitop_on
bitop now db (_ ∷ op ∷ dest ∷ key ∷ keys) =
    if is_word op "NOT" && not (length keys == 0)
    then (db, err "BITOP NOT must be called with a single source key.")
    else bitop_on now op dest (read_sources now db (key ∷ keys))
bitop now db _ = (db, wrong_args "bitop")
