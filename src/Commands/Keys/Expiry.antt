-- ===== src/Commands/Keys/Expiry.antt =====
-- EXPIRE and its relatives: the reply, and what a client sees afterwards.
use meebis.Base.{
  List, not, ◌||◌, ℕ, ◌+◌, ◌^◌, ◌<◌, ◌≡◌, refl, ◌∙◌, ap, Bool, true, false, ◌&&◌, Option, none,
  some, [], ◌∷◌, arith, if◌then◌else◌, Bool-cases, inl, inr,
}
use meebis.Base.Bytes.{Bytes, bytes_eq, bytes_eq_refl}
use meebis.Base.Int.{ℤ, pos, negsuc, ltb_ℤ, ◌+ℤ◌, ◌*ℤ◌}
use meebis.Resp.Frame.{Frame, count, integer}
use meebis.Db
use meebis.Db.{Db, Entry, expiry_of, is_some, is_expired}
use meebis.Db.View.{view}
use meebis.Db.Laws.{
  contains_result, view-contains, expire_at_result, view-expire_at, view-set_expire, view-remove,
  until,
}
use meebis.Commands.Keys.{
  ExpireOptions, always, clash, expire, expire_options, allows, capped, expire_present, expire_key,
  time_reply, expiretime, absolute_time,
}
use meebis.Commands.Args.{as_i64, go, parse_int}

abbrev later_than : ℤ → Option ℕ → Bool
later_than t none = false
later_than t (some c) = ltb_ℤ (pos c) t

abbrev earlier_than : ℤ → Option ℕ → Bool
earlier_than t none = true
earlier_than t (some c) = ltb_ℤ t (pos c)

-- Each option as a condition on the present expiry, where none is infinite. Under XX the code does
-- not look at GT and LT.
abbrev pub permitted : ExpireOptions → Option ℕ → ℤ → Bool
permitted o c t =
    (not o.nx || not (is_some c))
    && (not o.xx || is_some c)
    && (o.xx || not o.gt || later_than t c)
    && (o.xx || not o.lt || earlier_than t c)

-- Whether the command takes effect: the key is there, and its expiry passes the options.
abbrev pub applies : ExpireOptions → Option Entry → ℤ → Bool
applies o none t = false
applies o (some e) t = permitted o e.expire_at t

allows-permitted :
    (nx xx gt lt : Bool) (c : Option ℕ) (t : ℤ)
    → let o : ExpireOptions = record { nx = nx; xx = xx; gt = gt; lt = lt } in
      clash o ≡ false → allows o c t ≡ permitted o c t
unfolding allows clash is_some
allows-permitted true xx gt lt none t h = ground arith
allows-permitted true xx gt lt (some c) t h = ground arith
allows-permitted false true gt lt none t h = ground arith
allows-permitted false true gt lt (some c) t h = ground arith
allows-permitted false false gt lt none t h = ground arith
allows-permitted false false gt lt (some c) t h = ground arith

-- What becomes of the entry: it goes where the time is not in the future.
abbrev pub expiring : ℕ → ℤ → Option Entry → Option Entry
expiring now t none = none
expiring now t (some e) =
    if ltb_ℤ (pos now) t then some (record e { expire_at = some (capped t) }) else none

capped-live :
    (now : ℕ) (t : ℤ) (e : Entry)
    → now + 1 < 2 ^ 64
    → ltb_ℤ (pos now) t ≡ true
    → is_expired now (record e { expire_at = some (capped t) }) ≡ false
unfolding is_expired capped
capped-live now (pos n) e h k = ground arith
capped-live now (negsuc n) e h k = absurd (ground arith)

until-expiring :
    (now : ℕ) (t : ℤ) (o : Option Entry)
    → now + 1 < 2 ^ 64
    → (if ltb_ℤ (pos now) t then until now (some (capped t)) o else none) ≡ expiring now t o
until-expiring now t none h = ground arith
until-expiring now t (some e) h = elim (Bool-cases (ltb_ℤ (pos now) t)) [
  | inl y ↦ rw (y, capped-live now t e h y)
  | inr n ↦ rw n
]

module _ (now : ℕ) (db : Db) (key : Bytes) (o : ExpireOptions) (t : ℤ) where
  present_reply :
      (expire_present now db key o t).1
      ≡ count (if allows o (expiry_of (view now db key)) t then 1 else 0)
  unfolding expire_present
  present_reply = ground (arith, expire_at_result now db key)

  -- The write that follows the read of the expiry.
  view-written :
      (j : Bytes)
      → now + 1 < 2 ^ 64
      → view now
          (if ltb_ℤ (pos now) t
            then (Db.set_expire now db key (capped t)).0
            else (Db.remove now db key).0)
          j
        ≡ (if bytes_eq key j then expiring now t (view now db key) else view now db j)
  view-written j h =
      rw (← until-expiring now t (view now db key) h)
        (ground (arith, view-set_expire now db key (capped t) j, view-remove now db key j))

module _ (now : ℕ) (db : Db) (key : Bytes) (o : ExpireOptions) (t : ℤ) where
  view-present :
      (j : Bytes)
      → now + 1 < 2 ^ 64
      → view now (expire_present now db key o t).0 j ≡ (
          if allows o (expiry_of (view now db key)) t && bytes_eq key j
          then expiring now t (view now db key)
          else view now db j)
  unfolding expire_present
  view-present j h = ground (
    arith,
    expire_at_result now db key,
    view-written now (Db.expire_at now db key).0 key o t j h,
    view-expire_at now db key key,
    view-expire_at now db key j,
  )

applies-allows :
    (o : ExpireOptions) (e : Option Entry) (t : ℤ)
    → clash o ≡ false
    → (is_some e && allows o (expiry_of e) t) ≡ applies o e t
unfolding is_some expiry_of
applies-allows o none t h = refl
applies-allows o (some e) t h = allows-permitted o.nx o.xx o.gt o.lt e.expire_at t h

pub expire_key_lem :
    (now : ℕ) (db : Db) (key : Bytes) (o : ExpireOptions) (t : ℤ)
    → now + 1 < 2 ^ 64
    → clash o ≡ false
    → let done : Bool = applies o (view now db key) t in
      ((expire_key now db key o t).1 ≡ count (if done then 1 else 0))
      × ((j : Bytes)
          → view now (expire_key now db key o t).0 j
            ≡ (if done && bytes_eq key j then expiring now t (view now db key) else view now db j))
unfolding expire_key
expire_key_lem now db key o t h c =
    let db1 : Db = (Db.contains now db key).0 in
    rw (← applies-allows o (view now db key) t c) (
      ground (
        arith,
        contains_result now db key,
        present_reply now db1 key o t,
        view-contains now db key key,
      ),
      λ j. ground (
        arith,
        contains_result now db key,
        view-present now db1 key o t j h,
        view-contains now db key key,
        view-contains now db key j,
      ),
    )

-- EXPIRE and its relatives, with a number and options that parse and do not clash: the reply is 1
-- just where the key is visible and its expiry passes each option given, except that XX sets GT and LT
-- aside. Then the key has the new expiry,
-- or is gone where that time has come; every other key, and this one otherwise, is seen as before.
-- The clock stands before the last millisecond.
pub expire_lem :
    (now : ℕ) (db : Db) (command key a : Bytes) (opts : List Bytes) (unit_ms n : ℤ)
    (relative : Bool) (o : ExpireOptions)
    → now + 1 < 2 ^ 64
    → parse_int a ≡ go n
    → expire_options always opts ≡ go o
    → clash o ≡ false
    → let t : ℤ = if relative then pos now +ℤ n *ℤ unit_ms else n *ℤ unit_ms in
      let done : Bool = applies o (view now db key) t in
      let run : Db × Frame = expire now db (command ∷ key ∷ a ∷ opts) unit_ms relative in
      (run.1 ≡ count (if done then 1 else 0))
      × ((j : Bytes)
          → view now run.0 j
            ≡ (if done && bytes_eq key j then expiring now t (view now db key) else view now db j))
expire_lem now db command key a opts unit_ms n relative o h p q c =
    let t : ℤ = if relative then pos now +ℤ n *ℤ unit_ms else n *ℤ unit_ms in
    unfold expire in rw (p, q, c) (expire_key_lem now db key o t h c)

-- The reply of the commands that tell the expiry, from the entry.
abbrev pub told : Option Entry → (ℕ → ℤ) → ℤ
told none f = negsuc 1
told (some e) f = elim e.expire_at [ none ↦ negsuc 0 | some t ↦ f t ]

time_reply_lem :
    (now : ℕ) (db : Db) (key : Bytes) (f : ℕ → ℤ)
    → (time_reply now db key f).1 ≡ integer (told (view now db key) f)
unfolding time_reply is_some expiry_of
time_reply_lem now db key f = ground (
  arith,
  contains_result now db key,
  expire_at_result now (Db.contains now db key).0 key,
  view-contains now db key key,
)

told-expiring :
    (now t : ℕ) (e : Entry)
    → now < t
    → t < 2 ^ 63
    → told (expiring now (pos t) (some e)) (absolute_time false) ≡ pos t
unfolding capped absolute_time as_i64
told-expiring now t e h k = ground arith

told-of_visible :
    (now t : ℕ) (v : Option Entry) (o : ExpireOptions)
    → now < t
    → t < 2 ^ 63
    → applies o v (pos t) ≡ true
    → told (expiring now (pos t) v) (absolute_time false) ≡ pos t
told-of_visible now t none o h k a = cc a
told-of_visible now t (some e) o h k a = told-expiring now t e h k

-- After an EXPIRE that takes effect, PEXPIRETIME replies with the time that was set, for a time that
-- is still to come and fits an `i64`, and options that do not clash.
pub expiretime-expire_key :
    (now t : ℕ) (db : Db) (command key : Bytes) (o : ExpireOptions)
    → now < t
    → t < 2 ^ 63
    → clash o ≡ false
    → applies o (view now db key) (pos t) ≡ true
    → (expiretime now (expire_key now db key o (pos t)).0 (command ∷ key ∷ []) false).1
      ≡ integer (pos t)
unfolding expiretime
expiretime-expire_key now t db command key o h k c a =
    time_reply_lem now (expire_key now db key o (pos t)).0 key (absolute_time false)
    ∙ rw ((expire_key_lem now db key o (pos t) (omega arith) c).1 key, a, bytes_eq_refl key)
        (ap integer (told-of_visible now t (view now db key) o h k a))
