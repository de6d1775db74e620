-- ===== src/Commands/Strings/Range.antt =====
-- src/commands/string.rs: GETRANGE and SETRANGE.
pub mod Bytewise
pub mod Limit
use meebis.Base.{
  ℕ, zero, suc, ◌+◌, ◌-◌, ◌^◌, ◌≤◌, ◌<◌, ◌≡◌, refl, Bool, true, false, List, [], ◌∷◌, ◌++◌, Option,
  none, some, ltb, leb, ◌==◌, if◌then◌else◌, length, take, drop, replicate, min, arith,
  length-append, length-take, length-drop, length-replicate, get_elem?,
}
use meebis.Base.Bytes.{Bytes}
use meebis.Base.Int.{ℤ, pos, negsuc, pos_part}
use meebis.Resp.Frame.{Frame, bulk, err, wrongtype, count}
use meebis.Db
use meebis.Db.{Db, string}
use meebis.Db.Typed.{Typed, typed, wrong_type, get_str}
use meebis.Commands.Args.{
  Checked, go, fail, ◌>>=◌, wrong_args, parse_int, norm_index, or_reply, or_wrongtype,
}
use meebis.Commands.Strings.{bytes_or_empty}

-- `s.slice(start..=end)`
abbrev pub slice : Bytes → ℕ → ℕ → Bytes
slice s start end = take (end + 1 - start) (drop start s)

-- From the index that a negative `start` counts from the end; the end is cut to the last byte.
pub range_to : Bytes → ℕ → ℤ → Bytes
range_to s start (negsuc n) = []
range_to s start (pos n) =
    let last = if leb (length s) n then length s - 1 else n in
    if ltb last start then [] else slice s start last

pub range_of : Bytes → ℤ → ℤ → Bytes
unfolding range_to
range_of s start end =
    if length s == 0
    then []
    else range_to s (pos_part (norm_index start (length s))) (norm_index end (length s))

unfoldable pub getrange : ℕ → Db → List Bytes → Db × Frame
unfolding range_of bytes_or_empty
getrange now db (_ ∷ key ∷ a ∷ b ∷ []) = or_reply db (parse_int a) λ start.
    or_reply db (parse_int b) λ end.
      let (db', v) = get_str now db key in
      or_wrongtype db' v λ o. (db', bulk (range_of (bytes_or_empty o) start end))
getrange now db _ = (db, wrong_args "getrange")

-- `buf.resize(n, 0)` where `n` is larger.
unfoldable pub pad_to : ℕ → Bytes → Bytes
pad_to n buf = if ltb (length buf) n then buf ++ replicate (n - length buf) 0 else buf

pub patch_at : ℕ → Bytes → Bytes → Bytes
unfolding pad_to
patch_at offset patch buf =
    let padded = pad_to (offset + length patch) buf in
    take offset padded ++ (patch ++ drop (offset + length patch) padded)

pub offset_of : ℤ → Checked ℕ
offset_of (pos n) = go n
offset_of (negsuc n) = fail (err "offset is out of range")

-- `none` is the panic of `resize`, where the new length passes what a buffer can hold; the string that
-- is there never does.
pub patch_string : Db → Bytes → ℕ → Bytes → Bytes → Option (Db × Frame)
unfolding patch_at
patch_string db key offset patch buf =
    let buf' = patch_at offset patch buf in
    if length patch == 0
    then some (db, count (length buf))
    else if leb (2 ^ 63) (offset + length patch)
    then none
    else some (Db.set_keep_ttl db key (string buf'), count (length buf'))

pub patch_typed : Db → Bytes → ℕ → Bytes → Typed (Option Bytes) → Option (Db × Frame)
unfolding patch_string bytes_or_empty
patch_typed db key offset patch wrong_type = some (db, wrongtype)
patch_typed db key offset patch (typed o) = patch_string db key offset patch (bytes_or_empty o)

pub patch_key : ℕ → Db → Bytes → Bytes → Checked ℕ → Option (Db × Frame)
unfolding patch_typed
patch_key now db key patch (fail f) = some (db, f)
patch_key now db key patch (go offset) =
    let (db', v) = get_str now db key in patch_typed db' key offset patch v

unfoldable pub setrange : ℕ → Db → List Bytes → Option (Db × Frame)
unfolding patch_key offset_of
setrange now db (_ ∷ key ∷ a ∷ patch ∷ []) = patch_key now db key patch (parse_int a >>= offset_of)
setrange now db _ = some (db, wrong_args "setrange")
