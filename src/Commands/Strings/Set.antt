-- ===== src/Commands/Strings/Set.antt =====
-- src/commands/string.rs: SET with its options, SETEX, PSETEX and GETEX. Sums and products of
-- `u64` wrap, as in a release build.
pub mod Outcome
use Prim.Native.String.{◌++◌}
use meebis.Base.{
  ℕ, ◌+◌, ◌*◌, ◌%◌, ◌^◌, Bool, true, false, not, ◌&&◌, ◌||◌, String, List, [], ◌∷◌, Option, none,
  some, ltb, if◌then◌else◌,
}
use meebis.Base.Bytes.{Bytes}
use meebis.Base.Int.{ℤ, pos, negsuc}
use meebis.Resp.Frame.{Frame, bulk, null, ok, err, bulk_or_null}
use meebis.Db
use meebis.Db.{Db, string}
use meebis.Db.Typed.{Typed, typed, wrong_type, get_str}
use meebis.Commands.Args.{
  Checked, go, fail, ◌>>=◌, wrong_args, parse_int, is_word, as_u64, or_reply, or_wrongtype,
}

unfoldable pub syntax_error : Frame
syntax_error = err "syntax error"

unfoldable pub invalid_expire : String → Frame
invalid_expire cmd = err ("invalid expire time in '" ++ cmd ++ "' command")

pub record SetOptions : Type 0 where
  pub nx : Bool
  pub xx : Bool
  pub get : Bool
  pub keepttl : Bool
  pub expire_at : Option ℕ
  pub expire_seen : Bool

abbrev pub no_options : SetOptions
no_options = record {
  nx = false;
  xx = false;
  get = false;
  keepttl = false;
  expire_at = none;
  expire_seen = false;
}

flag : SetOptions → Bytes → Option SetOptions
flag o a =
    if is_word a "NX"
    then some (record o { nx = true })
    else if is_word a "XX"
    then some (record o { xx = true })
    else if is_word a "GET"
    then some (record o { get = true })
    else if is_word a "KEEPTTL"
    then some (record o { keepttl = true })
    else none

pub data TimeUnit : Type 0 where
  ex px exat pxat : TimeUnit

pub time_unit : Bytes → Option TimeUnit
time_unit a =
    if is_word a "EX"
    then some ex
    else if is_word a "PX"
    then some px
    else if is_word a "EXAT"
    then some exat
    else if is_word a "PXAT"
    then some pxat
    else none

abbrev pub wrap : ℕ → ℕ
wrap n = n % 2 ^ 64

pub deadline : ℕ → TimeUnit → ℤ → ℕ
deadline now ex n = wrap (now + wrap (as_u64 n * 1000))
deadline now px n = wrap (now + as_u64 n)
deadline now exat n = wrap (as_u64 n * 1000)
deadline now pxat n = as_u64 n

abbrev is_positive : ℤ → Bool
is_positive (pos n) = ltb 0 n
is_positive (negsuc n) = false

-- A relative time must be positive; an absolute one is taken as it is.
pub checked_deadline : ℕ → TimeUnit → ℤ → Checked ℕ
unfolding deadline
checked_deadline now ex n =
    if is_positive n then go (deadline now ex n) else fail (invalid_expire "set")
checked_deadline now px n =
    if is_positive n then go (deadline now px n) else fail (invalid_expire "set")
checked_deadline now u n = go (deadline now u n)

set_time : ℕ → SetOptions → Option TimeUnit → Bytes → Checked SetOptions
unfolding checked_deadline
set_time now o none a = fail syntax_error
set_time now o (some u) a = if o.expire_seen || o.keepttl then fail syntax_error else do
  n ← parse_int a
  t ← checked_deadline now u n
  go (record o { expire_at = some t; expire_seen = true })

-- A time unit that is the last argument is a syntax error too.
pub set_options : ℕ → SetOptions → List Bytes → Checked SetOptions
unfolding flag time_unit set_time
set_options now o [] = go o
set_options now o (a ∷ []) = elim (flag o a) [ some o' ↦ go o' | none ↦ fail syntax_error ]
set_options now o (a ∷ b ∷ rest) = elim (flag o a) [
  | some o' ↦ set_options now o' (b ∷ rest)
  | none ↦ set_time now o (time_unit a) b >>= λ o'. set_options now o' rest
]

incompatible : SetOptions → Bool
incompatible o = (o.nx && o.xx) || (o.keepttl && o.expire_seen)

pub may_set : SetOptions → Bool → Bool
may_set o exists = not (o.nx && exists) && not (o.xx && not exists)

pub expire_after : ℕ → Db → Bytes → Option ℕ → Db
expire_after now db key none = db
expire_after now db key (some t) = (Db.set_expire now db key t).0

pub store : ℕ → Db → Bytes → Bytes → SetOptions → Db
unfolding expire_after
store now db key value o =
    if o.keepttl
    then Db.set_keep_ttl db key (string value)
    else expire_after now (Db.set db key (string value)) key o.expire_at

-- The old value is read only under GET, and only then must it be a string.
pub old_value : ℕ → Db → Bytes → Bool → Db × Typed (Option Bytes)
old_value now db key false = (db, typed none)
old_value now db key true = get_str now db key

pub set_reply : SetOptions → Option Bytes → Bool → Frame
set_reply o old done = if o.get then bulk_or_null old else if done then ok else null

pub run_set : ℕ → Db → Bytes → Bytes → SetOptions → Db × Frame
unfolding may_set store old_value set_reply
run_set now db key value o =
    let (db1, old) = old_value now db key o.get in
    or_wrongtype db1 old λ v.
      let (db2, exists) = Db.contains now db1 key in
      let done = may_set o exists in
      (if done then store now db2 key value o else db2, set_reply o v done)

unfoldable pub set : ℕ → Db → List Bytes → Db × Frame
unfolding set_options incompatible run_set
set now db (_ ∷ key ∷ value ∷ opts) =
    or_reply db (set_options now no_options opts)
      λ o. if incompatible o then (db, syntax_error) else run_set now db key value o
set now db _ = (db, wrong_args "set")

unfoldable pub setex : ℕ → Db → List Bytes → Bool → Db × Frame
unfolding deadline
setex now db (_ ∷ key ∷ a ∷ value ∷ []) ms =
    let name = if ms then "psetex" else "setex" in
    or_reply db (parse_int a) λ n.
      if is_positive n
      then (
        (Db.set_expire now (Db.set db key (string value)) key
            (deadline now (if ms then px else ex) n)).0,
        ok,
      )
      else (db, invalid_expire name)
setex now db _ ms = (db, wrong_args (if ms then "psetex" else "setex"))

expire_read : ℕ → Db → Bytes → Option TimeUnit → Checked ℤ → Checked Db
expire_read now db key none n = fail syntax_error
expire_read now db key (some u) (fail f) = fail f
expire_read now db key (some u) (go n) = go (Db.set_expire now db key (deadline now u n)).0

-- Options take effect one by one: those before a bad one stay.
getex_options : ℕ → Db → Bytes → Bytes → List Bytes → Db × Frame
unfolding expire_read deadline time_unit
getex_options now db key value [] = (db, bulk value)
getex_options now db key value (a ∷ []) =
    if is_word a "PERSIST" then ((Db.persist now db key).0, bulk value) else (db, syntax_error)
getex_options now db key value (a ∷ b ∷ rest) =
    let persisted = getex_options now (Db.persist now db key).0 key value (b ∷ rest) in
    let timed : Db × Frame = elim (expire_read now db key (time_unit a) (parse_int b)) [
      | go db' ↦ getex_options now db' key value rest
      | fail f ↦ (db, f)
    ] in
    if is_word a "PERSIST" then persisted else timed

with_value : ℕ → Db → Bytes → List Bytes → Option Bytes → Db × Frame
unfolding getex_options
with_value now db key opts none = (db, null)
with_value now db key opts (some value) = getex_options now db key value opts

unfoldable pub getex : ℕ → Db → List Bytes → Db × Frame
unfolding with_value
getex now db (_ ∷ key ∷ opts) =
    let (db', v) = get_str now db key in or_wrongtype db' v λ o. with_value now db' key opts o
getex now db _ = (db, wrong_args "getex")
