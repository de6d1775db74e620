-- ===== src/Commands/Strings/Set/Outcome.antt =====
-- SET once its options are read: the reply and the view on every branch.
use meebis.Base.{
  ℕ, ◌≡◌, refl, ◌∙◌, Bool, true, false, not, ◌&&◌, Option, none, some, arith, if◌then◌else◌,
  Bool-cases, inl, inr,
}
use meebis.Base.Bytes.{Bytes, bytes_eq, bytes_eq_refl}
use meebis.Resp.Frame.{Frame, wrongtype, ok, null, bulk_or_null}
use meebis.Db
use meebis.Db.{Db, Entry, string, value_of, expiry_of, is_some, contains, set_expire, get}
use meebis.Db.Typed.{Typed, typed, wrong_type, as_str}
use meebis.Db.View.{view}
use meebis.Db.Laws.{until, view-set, view-set_expire, view-contains, contains_result}
use meebis.Db.Purged.{IsPurged, contains-IsPurged, view-set_keep_ttl, get_str_result, view-get_str}
use meebis.Commands.Args.{or_wrongtype}
use meebis.Commands.Strings.Set.{
  SetOptions, may_set, expire_after, store, old_value, set_reply, run_set,
}

abbrev pub plain : Bytes → Entry
plain value = record { value = string value; expire_at = none }

-- The entry that SET leaves: with the old expiry, a new one, or none.
abbrev pub expiring : ℕ → Option ℕ → Bytes → Option Entry
expiring now none value = some (plain value)
expiring now (some t) value = until now (some t) (some (plain value))

abbrev pub written : ℕ → SetOptions → Bytes → Option Entry → Option Entry
written now o value old =
    if o.keepttl
    then some (record { value = string value; expire_at = expiry_of old })
    else expiring now o.expire_at value

view-expire_after :
    (now : ℕ) (db : Db) (key value : Bytes) (t : Option ℕ) (j : Bytes)
    → view now (expire_after now (Db.set db key (string value)) key t) j
      ≡ (if bytes_eq key j then expiring now t value else view now db j)
unfolding expire_after
view-expire_after now db key value none j = view-set now db key (string value) j
view-expire_after now db key value (some t) j =
    view-set_expire now (Db.set db key (string value)) key t j
    ∙ rw
        (
          view-set now db key (string value) key,
          view-set now db key (string value) j,
          bytes_eq_refl key,
        )
        (ground arith)

view-store :
    (now : ℕ) (db : Db) (key value : Bytes) (o : SetOptions) (j : Bytes)
    → IsPurged now db key
    → view now (store now db key value o) j
      ≡ (if bytes_eq key j then written now o value (view now db key) else view now db j)
unfolding store
view-store now db key value o j h = elim (Bool-cases o.keepttl) [
  | inl k ↦ rw k (view-set_keep_ttl now db key (string value) j h)
  | inr k ↦ rw k (view-expire_after now db key value o.expire_at j)
]

-- What SET reads before it writes: under GET the old string, or the refusal of another type.
abbrev pub readable : Bool → Option Entry → Typed (Option Bytes)
readable false old = typed none
readable true old = as_str (value_of old)

module _ (now : ℕ) (db : Db) (key : Bytes) where
  old_value_result : (get : Bool) → (old_value now db key get).1 ≡ readable get (view now db key)
  unfolding old_value
  old_value_result false = refl
  old_value_result true = get_str_result now db key

  view-old_value :
      (get : Bool) (j : Bytes) → view now (old_value now db key get).0 j ≡ view now db j
  unfolding old_value
  view-old_value false j = refl
  view-old_value true j = view-get_str now db key j

-- NX wants no visible entry, and XX one.
abbrev pub permitted : SetOptions → Option Entry → Bool
permitted o none = not o.xx
permitted o (some e) = not o.nx

may_set-permitted :
    (o : SetOptions) (old : Option Entry) → may_set o (is_some old) ≡ permitted o old
unfolding may_set is_some
may_set-permitted o none = ground arith
may_set-permitted o (some e) = ground arith

abbrev pub set_view :
    ℕ → Db → Bytes → Bytes → SetOptions → Typed (Option Bytes) → Bytes → Option Entry
set_view now db key value o wrong_type j = view now db j
set_view now db key value o (typed v) j =
    if permitted o (view now db key) && bytes_eq key j
    then written now o value (view now db key)
    else view now db j

abbrev pub set_answer : ℕ → Db → Bytes → SetOptions → Typed (Option Bytes) → Frame
set_answer now db key o wrong_type = wrongtype
set_answer now db key o (typed v) =
    if o.get then bulk_or_null v else if permitted o (view now db key) then ok else null

-- What follows the read of the old value.
abbrev finish : ℕ → Db → Bytes → Bytes → SetOptions → Option Bytes → Db × Frame
finish now db1 key value o v =
    let (db2, exists) = Db.contains now db1 key in
    let done = may_set o exists in
    (if done then store now db2 key value o else db2, set_reply o v done)

view-finish :
    (now : ℕ) (db : Db) (key value : Bytes) (o : SetOptions) (v : Option Bytes) (j : Bytes)
    → view now (finish now db key value o v).0 j ≡ set_view now db key value o (typed v) j
view-finish now db key value o v j = ground (
  arith,
  may_set-permitted o (view now db key),
  contains_result now db key,
  view-store now (contains now db key).0 key value o j (contains-IsPurged now db key),
  view-contains now db key key,
  view-contains now db key j,
)

-- The old value has been read from `db`, which left `db1`.
module _ (now : ℕ) (db db1 : Db) (key value : Bytes) (o : SetOptions) where
  view-continue :
      (t : Typed (Option Bytes)) (j : Bytes)
      → ((i : Bytes) → view now db1 i ≡ view now db i)
      → view now (or_wrongtype db1 t λ v. finish now db1 key value o v).0 j
        ≡ set_view now db key value o t j
  view-continue wrong_type j h = h j
  view-continue (typed v) j h = view-finish now db1 key value o v j ∙ rw (h key, h j)

  continue_reply :
      (t : Typed (Option Bytes))
      → ((i : Bytes) → view now db1 i ≡ view now db i)
      → (or_wrongtype db1 t λ v. finish now db1 key value o v).1 ≡ set_answer now db key o t
  continue_reply wrong_type h = refl
  continue_reply (typed v) h =
      rw (contains_result now db1 key, h key, may_set-permitted o (view now db key))
        (unfold set_reply in refl)

-- SET's reply and the view after it: nothing changes where the condition fails or, under GET, the
-- old value is no string; else the key has the new value with the chosen expiry, and the other keys
-- are as before.
pub run_set_lem :
    (now : ℕ) (db : Db) (key value : Bytes) (o : SetOptions)
    → let old : Typed (Option Bytes) = readable o.get (view now db key) in
      ((run_set now db key value o).1 ≡ set_answer now db key o old)
      × ((j : Bytes)
          → view now (run_set now db key value o).0 j ≡ set_view now db key value o old j)
unfolding run_set
run_set_lem now db key value o =
    let db1 : Db = (old_value now db key o.get).0 in
    rw (← old_value_result now db key o.get) (
      continue_reply now db db1 key value o _ (view-old_value now db key o.get),
      λ j. view-continue now db db1 key value o _ j (view-old_value now db key o.get),
    )
