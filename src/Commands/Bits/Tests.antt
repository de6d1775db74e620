-- ===== src/Commands/Bits/Tests.antt =====
-- The bitmap commands on concrete inputs.
use meebis.Base.{◌≡◌, refl, [], ◌∷◌, none, some, arith, if◌then◌else◌, ◌==◌}
use meebis.Base.Bytes.{Bytes, codes, bytes_eq, to_ascii_uppercase}
use meebis.Base.HashMap
use meebis.Base.Decimal.{parse_i64}
use meebis.Base.Int.{pos, negsuc}
use meebis.Resp.Frame.{count}
use meebis.Db.{Db, string, value_of, is_expired, get, set, purge_if_expired}
use meebis.Db.Typed.{as_str, typed, get_str}
use meebis.Commands.Args.{parse_int, go, is_word}
use meebis.Db.View.{view}
use meebis.Commands.Strings.{bytes_or_empty}
use meebis.Commands.Bits.{
  get_bit, setbit, getbit, bitcount, bitpos, bitop, bit_of, bit_arg, read_bitpos, bitpos_of,
  search_bits, find_bit, found_reply, bitop_on, read_sources, read_source, with_source,
  bitop_result, first_or_empty, store_bits,
}
use meebis.Commands.Bits.Bytewise.{AllBytes}
use meebis.Commands.Bits.Outcome.{setbit_lem, bit_entry}
use meebis.Commands.Bits.Counting.{bitcount_lem, IsShort}

abbrev store : Db
store = record {
  table = (codes "k", record { value = string (codes "a"); expire_at = some 9 }) ∷ [];
}

letter-AllBytes : AllBytes (codes "a")
unfolding AllBytes
letter-AllBytes = (omega arith, tt)

six_parses : parse_int (codes "6") ≡ go (pos 6)
unfolding parse_int parse_i64
six_parses = refl

one_parses : parse_int (codes "1") ≡ go (pos 1)
unfolding parse_int parse_i64
one_parses = refl

seven_parses : parse_int (codes "7") ≡ go (pos 7)
unfolding parse_int parse_i64
seven_parses = refl

zero_parses : parse_int (codes "0") ≡ go (pos 0)
unfolding parse_int parse_i64
zero_parses = refl

last_parses : parse_int (codes "-1") ≡ go (negsuc 0)
unfolding parse_int parse_i64
last_parses = refl

holds_letter : as_str (value_of (view 5 store (codes "k"))) ≡ typed (some (codes "a"))
unfolding view HashMap.get bytes_eq value_of is_expired
holds_letter = refl

setbit_lem_example :
    let (db', reply) = setbit 5 store (codes "SETBIT" ∷ codes "k" ∷ codes "6" ∷ codes "1" ∷ []) in
    (reply ≡ count (get_bit (codes "a") 6))
    × ((j : Bytes)
        → view 5 db' j ≡ (
            if bytes_eq (codes "k") j
            then bit_entry (codes "a") 6 1 (view 5 store (codes "k"))
            else view 5 store j))
    × ((getbit 5 db' (codes "SETBIT" ∷ codes "k" ∷ codes "7" ∷ [])).1
        ≡ count (if 6 == 7 then 1 else get_bit (codes "a") 7))
unfolding bytes_or_empty
setbit_lem_example =
    setbit_lem 5 store (codes "SETBIT") (codes "k") (codes "6") (codes "1") (codes "7") 6 1 7
      (some (codes "a")) six_parses (omega arith) one_parses (omega arith) seven_parses
      (omega arith) holds_letter letter-AllBytes

store-IsShort : IsShort (as_str (value_of (view 5 store (codes "k"))))
unfolding view HashMap.get bytes_eq is_expired value_of
store-IsShort = omega arith

bitcount_lem_example :
    bitcount 5 store (codes "BITCOUNT" ∷ codes "k" ∷ codes "0" ∷ codes "-1" ∷ [])
    ≡ bitcount 5 store (codes "BITCOUNT" ∷ codes "k" ∷ [])
bitcount_lem_example =
    bitcount_lem 5 store (codes "BITCOUNT") (codes "k") (codes "0") (codes "-1") store-IsShort
      zero_parses last_parses

-- The first set bit of 'a', and the first clear one from byte 1 on, which is past the end.
bitpos_run : (bitpos 5 store (codes "BITPOS" ∷ codes "k" ∷ codes "1" ∷ [])).1 ≡ count 1
unfolding bitpos bit_arg read_bitpos bitpos_of search_bits find_bit get_bit bit_of found_reply
    get_str get purge_if_expired is_expired value_of parse_int parse_i64 HashMap.get bytes_eq
bitpos_run = refl

bitop_run :
    view 5 (bitop 5 store (codes "BITOP" ∷ codes "not" ∷ codes "d" ∷ codes "k" ∷ [])).0 (codes "d")
    ≡ some (record { value = string (158 ∷ []); expire_at = none })
unfolding bitop bitop_on read_sources read_source with_source bitop_result first_or_empty store_bits
    get_str get set purge_if_expired is_expired value_of HashMap.get HashMap.insert bytes_eq is_word
    to_ascii_uppercase view bytes_or_empty
bitop_run = refl
