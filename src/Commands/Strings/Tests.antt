-- ===== src/Commands/Strings/Tests.antt =====
-- Runs of the string commands.
use meebis.Base.{◌≡◌, refl, List, [], ◌∷◌, String, map, true, if◌then◌else◌, drop, get_elem?, some}
use meebis.Base.Bytes.{Bytes, codes, bytes_eq, to_ascii_uppercase}
use meebis.Base.HashMap
use meebis.Base.Int.{ℤ, pos, negsuc, ◌+ℤ◌}
use meebis.Base.Decimal.{parse_i64, to_string, nat_to_string}
use meebis.Resp.Frame.{integer, count, ok}
use meebis.Db
use meebis.Db.View.{view}
use meebis.Db.{
  Db, value_of, get, contains, set, set_keep_ttl, purge_if_expired, set_expire, is_expired,
}
use meebis.Db.Typed.{as_str, get_str}
use meebis.Commands.Args.{Checked, norm_index, parse_int, is_word, as_u64, checked_add}
use meebis.Commands.Strings
use meebis.Commands.Strings.Set
use meebis.Commands.Strings.Set.{SetOptions, no_options, run_set}
use meebis.Commands.Strings.Set.Outcome.{set_answer, readable, set_view, run_set_lem}
use meebis.Commands.Strings.Counter.{incremented, reply_of, stored, do_incr_lem}
use meebis.Commands.Strings.Pairs.{overlay, last_value, present_among, mset_lem, msetnx_lem}
use meebis.Commands.Strings.Range.{patch_at, range_of}
use meebis.Commands.Strings.Range.Bytewise.{get_elem?-patch_at, get_elem?-range_of}

abbrev args : List String → List Bytes
args ws = map codes ws

abbrev after_set : Db
after_set = (Strings.Set.set 100 Db.new (args ("SET" ∷ "k" ∷ "41" ∷ "ex" ∷ "10" ∷ []))).0

incr_run : (Strings.incr 200 after_set (args ("INCR" ∷ "k" ∷ [])) (pos 1)).1 ≡ integer (pos 42)
unfolding Strings.incr Strings.Set.set Db.set get_str get parse_int is_word checked_add ◌+ℤ◌
    set_keep_ttl contains set_expire is_expired HashMap.get HashMap.insert HashMap.remove bytes_eq
    parse_i64 to_string nat_to_string to_ascii_uppercase purge_if_expired as_u64
incr_run = refl

abbrev key : Bytes
key = codes "k"

abbrev keep : SetOptions
keep = record no_options { keepttl = true; get = true }

-- SET k 7 KEEPTTL GET, over a key with an expiry.
run_set_lem_example :
    ((run_set 200 after_set key (codes "7") keep).1
      ≡ set_answer 200 after_set key keep (readable true (view 200 after_set key)))
    × ((j : Bytes)
        → view 200 (run_set 200 after_set key (codes "7") keep).0 j
          ≡ set_view 200 after_set key (codes "7") keep (readable true (view 200 after_set key)) j)
run_set_lem_example = run_set_lem 200 after_set key (codes "7") keep

abbrev bumped : Checked ℤ
bumped = incremented (as_str (value_of (view 200 after_set key))) (pos 1)

do_incr_lem_example :
    ((Strings.do_incr 200 after_set key (pos 1)).1 ≡ reply_of bumped)
    × ((j : Bytes)
        → view 200 (Strings.do_incr 200 after_set key (pos 1)).0 j ≡ (
            if bytes_eq key j
            then stored bumped (view 200 after_set key)
            else view 200 after_set j))
do_incr_lem_example = do_incr_lem 200 after_set key (pos 1)

abbrev twice : List Bytes
twice = args ("MSET" ∷ "a" ∷ "1" ∷ "a" ∷ "2" ∷ [])

mset_lem_example :
    ((Strings.mset 200 after_set twice).1 ≡ ok)
    × ((j : Bytes)
        → view 200 (Strings.mset 200 after_set twice).0 j
          ≡ overlay (last_value (drop 1 twice) j) (view 200 after_set j))
mset_lem_example = mset_lem 200 after_set twice refl

abbrev some_there : List Bytes
some_there = args ("MSETNX" ∷ "a" ∷ "1" ∷ "k" ∷ "2" ∷ [])

msetnx_lem_example :
    ((Strings.msetnx 200 after_set some_there).1
      ≡ count (if present_among 200 after_set (drop 1 some_there) then 0 else 1))
    × ((j : Bytes)
        → view 200 (Strings.msetnx 200 after_set some_there).0 j ≡ (
            if present_among 200 after_set (drop 1 some_there)
            then view 200 after_set j
            else overlay (last_value (drop 1 some_there) j) (view 200 after_set j)))
msetnx_lem_example = msetnx_lem 200 after_set some_there refl

get_elem?-patch_at_example : get_elem? (patch_at 4 (5 ∷ []) (7 ∷ 8 ∷ [])) 3 ≡ some 0
get_elem?-patch_at_example = get_elem?-patch_at 4 (5 ∷ []) (7 ∷ 8 ∷ []) 3

-- GETRANGE k -2 -1
get_elem?-range_of_example : get_elem? (range_of (7 ∷ 8 ∷ 9 ∷ []) (negsuc 1) (negsuc 0)) 1 ≡ some 9
unfolding norm_index ◌+ℤ◌
get_elem?-range_of_example = get_elem?-range_of (7 ∷ 8 ∷ 9 ∷ []) (negsuc 1) (negsuc 0) 1
