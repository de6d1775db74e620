-- ===== src/Db/Refines.antt =====
-- A database against a map from keys to the entries that a client can see: every method answers as
-- the map does, whatever expired entries the table still holds and however often it is swept.
use mathlib.Core.Path.{fun_ext, ap₂}
use meebis.Base.{
  ℕ, ◌≤◌, ◌≡◌, refl, sym, ◌∙◌, ap, Bool, ◌&&◌, List, [], ◌∷◌, Option, none, some, arith,
  if◌then◌else◌,
}
use meebis.Base.Bytes.{Bytes, bytes_eq}
use meebis.Base.HashMap.{Distinct, insert-Distinct, remove-Distinct, retain-Distinct}
use meebis.Db
use meebis.Base.HashMap
use meebis.Db.{
  Db, purge_if_expired, Entry, Value, is_expired, value_of, expiry_of, is_some, move_entry,
  with_expiry,
}
use meebis.Db.View.{live, view}
use meebis.Db.Laws
use meebis.Db.Purged.{view-set_keep_ttl, get-IsPurged}

-- The methods that the commands call. `set_keep_ttl`, which writes over what is there without a look at
-- its expiry, is called behind a read of the key: `update` is the two.
pub data Call : Type 0 where
  get contains remove expire_at persist take : Bytes → Call
  set update : Bytes → Value → Call
  put : Bytes → Value → Option ℕ → Call
  set_expire : Bytes → ℕ → Call
  rename : Bytes → Bytes → Call
  clear sweep_expired : Call

pub data Answer : Type 0 where
  value : Option Value → Answer
  flag : Bool → Answer
  time : Option ℕ → Answer
  entry : Option (Value × Option ℕ) → Answer
  nothing : Answer

-- A method at a time.
pub call : ℕ → Db → Call → Db × Answer
call now db (get k) = let (db', v) = Db.get now db k in (db', value v)
call now db (contains k) = let (db', b) = Db.contains now db k in (db', flag b)
call now db (remove k) = let (db', b) = Db.remove now db k in (db', flag b)
call now db (expire_at k) = let (db', t) = Db.expire_at now db k in (db', time t)
call now db (persist k) = let (db', b) = Db.persist now db k in (db', flag b)
call now db (take k) = let (db', e) = Db.take now db k in (db', entry e)
call now db (set k v) = (Db.set db k v, nothing)
call now db (update k v) = let (db', old) = Db.get now db k in (Db.set_keep_ttl db' k v, value old)
call now db (put k v t) = (Db.put db k v t, nothing)
call now db (set_expire k t) = let (db', b) = Db.set_expire now db k t in (db', flag b)
call now db (rename k j) = let (db', b) = Db.rename now db k j in (db', flag b)
call now db clear = (Db.clear db, nothing)
call now db sweep_expired = (Db.sweep_expired now db, nothing)

-- What is visible at each key.
abbrev pub Visible : Type 0
Visible = Bytes → Option Entry

abbrev pub assign : Bytes → Option Entry → Visible → Visible
assign k e m j = if bytes_eq k j then e else m j

abbrev pub pair_of : Option Entry → Option (Value × Option ℕ)
pair_of none = none
pair_of (some e) = some (e.value, e.expire_at)

-- The same call on the map of visible entries, with no table and no purge.
abbrev pub spec : ℕ → Visible → Call → Visible × Answer
spec now m (get k) = (m, value (value_of (m k)))
spec now m (contains k) = (m, flag (is_some (m k)))
spec now m (remove k) = (assign k none m, flag (is_some (m k)))
spec now m (expire_at k) = (m, time (expiry_of (m k)))
spec now m (persist k) = (assign k (Laws.until now none (m k)) m, flag (is_some (expiry_of (m k))))
spec now m (take k) = (assign k none m, entry (pair_of (m k)))
spec now m (set k v) = (assign k (some (record { value = v; expire_at = none })) m, nothing)
spec now m (update k v) =
    (assign k (some (record { value = v; expire_at = expiry_of (m k) })) m, value (value_of (m k)))
spec now m (put k v t) =
    (assign k (live now (some (record { value = v; expire_at = t }))) m, nothing)
spec now m (set_expire k t) = (assign k (Laws.until now (some t) (m k)) m, flag (is_some (m k)))
spec now m (rename k j) = (
  (λ i. if is_some (m k) && bytes_eq j i then m k else if bytes_eq k i then none else m i),
  flag (is_some (m k)),
)
spec now m clear = ((λ k. none), nothing)
spec now m sweep_expired = (m, nothing)

-- Time passes: what has expired by then is gone.
abbrev pub at_time : ℕ → Visible → Visible
at_time now m k = live now (m k)

-- The answers of a run of calls, each at its time.
pub run : Db → List (ℕ × Call) → List Answer
run db [] = []
run db ((now, c) ∷ cs) = let (db', a) = call now db c in a ∷ run db' cs

pub run_spec : Visible → List (ℕ × Call) → List Answer
run_spec m [] = []
run_spec m ((now, c) ∷ cs) = let (m', a) = spec now (at_time now m) c in a ∷ run_spec m' cs

-- The clock does not go back.
abbrev pub InOrder : ℕ → List (ℕ × Call) → Type 0
InOrder now [] = Unit
InOrder now ((t, c) ∷ cs) = (now ≤ t) × InOrder t cs

live-live :
    (now later : ℕ) (o : Option Entry) → now ≤ later → live later (live now o) ≡ live later o
unfolding is_expired
live-live now later none h = refl
live-live now later (some e) h = ground arith

view_later : (now later : ℕ) (db : Db) → now ≤ later → at_time later (view now db) ≡ view later db
unfolding view
view_later now later db h = fun_ext λ k. live-live now later _ h

module _ (now : ℕ) (db : Db) where
  purge-Distinct : (k : Bytes) → Distinct db.table → Distinct (purge_if_expired now db k).0.table
  unfolding purge_if_expired
  purge-Distinct k h = ground (arith, remove-Distinct k db.table h)

with_expiry-Distinct :
    (db : Db) (k : Bytes) (t : Option ℕ) (o : Option Entry)
    → Distinct db.table
    → Distinct (with_expiry db k t o).0.table
unfolding with_expiry
with_expiry-Distinct db k t none h = h
with_expiry-Distinct db k t (some e) h = insert-Distinct k (record e { expire_at = t }) db.table h

move_entry-Distinct :
    (db : Db) (k j : Bytes) (o : Option Entry)
    → Distinct db.table
    → Distinct (move_entry db k j o).0.table
unfolding move_entry
move_entry-Distinct db k j none h = remove-Distinct k db.table h
move_entry-Distinct db k j (some e) h = insert-Distinct j e _ (remove-Distinct k db.table h)

module _ (now : ℕ) (db : Db) where
  persist-Distinct : (k : Bytes) → Distinct db.table → Distinct (Db.persist now db k).0.table
  unfolding Db.persist
  persist-Distinct k h = ground (
    arith,
    purge-Distinct now db k h,
    with_expiry-Distinct (purge_if_expired now db k).0 k none
        (HashMap.get k (purge_if_expired now db k).0.table) (purge-Distinct now db k h),
  )

  -- Keys stay unique.
  call-Distinct : (c : Call) → Distinct db.table → Distinct (call now db c).0.table
  unfolding call Db.get Db.contains Db.remove Db.expire_at Db.take Db.set Db.set_keep_ttl Db.put
      Db.set_expire Db.rename Db.clear Db.sweep_expired
  call-Distinct (get k) h = purge-Distinct now db k h
  call-Distinct (contains k) h = purge-Distinct now db k h
  call-Distinct (remove k) h = remove-Distinct k _ (purge-Distinct now db k h)
  call-Distinct (expire_at k) h = purge-Distinct now db k h
  call-Distinct (persist k) h = persist-Distinct k h
  call-Distinct (take k) h = remove-Distinct k _ (purge-Distinct now db k h)
  call-Distinct (set k v) h = insert-Distinct k _ db.table h
  call-Distinct (update k v) h = insert-Distinct k _ _ (purge-Distinct now db k h)
  call-Distinct (put k v t) h = insert-Distinct k _ db.table h
  call-Distinct (set_expire k t) h = with_expiry-Distinct _ k (some t) _ (purge-Distinct now db k h)
  call-Distinct (rename k j) h = move_entry-Distinct _ k j _ (purge-Distinct now db k h)
  call-Distinct clear h = tt
  call-Distinct sweep_expired h = retain-Distinct _ db.table h

  view-call :
      (c : Call) → Distinct db.table → view now (call now db c).0 ≡ (spec now (view now db) c).0
  unfolding call
  view-call (get k) h = fun_ext (Laws.view-get now db k)
  view-call (contains k) h = fun_ext (Laws.view-contains now db k)
  view-call (remove k) h = fun_ext (Laws.view-remove now db k)
  view-call (expire_at k) h = fun_ext (Laws.view-expire_at now db k)
  view-call (persist k) h = fun_ext (Laws.view-persist now db k)
  view-call (take k) h = fun_ext (Laws.view-take now db k)
  view-call (set k v) h = fun_ext (Laws.view-set now db k v)
  view-call (update k v) h = fun_ext λ j.
      view-set_keep_ttl now (Db.get now db k).0 k v j (get-IsPurged now db k)
      ∙ rw (Laws.view-get now db k k, Laws.view-get now db k j) refl
  view-call (put k v t) h = fun_ext (Laws.view-put now db k v t)
  view-call (set_expire k t) h = fun_ext (Laws.view-set_expire now db k t)
  view-call (rename k j) h = fun_ext (Laws.view-rename now db k j)
  view-call clear h = fun_ext (Laws.view-clear now db)
  view-call sweep_expired h = fun_ext λ j. Laws.view-sweep_expired now db j h

  answer-call : (c : Call) → (call now db c).1 ≡ (spec now (view now db) c).1
  unfolding call
  answer-call (get k) = ap value (Laws.get_result now db k)
  answer-call (contains k) = ap flag (Laws.contains_result now db k)
  answer-call (remove k) = ap flag (Laws.remove_result now db k)
  answer-call (expire_at k) = ap time (Laws.expire_at_result now db k)
  answer-call (persist k) = ap flag (Laws.persist_result now db k)
  answer-call (take k) = ap entry (Laws.take_result now db k)
  answer-call (update k v) = ap value (Laws.get_result now db k)
  answer-call (set_expire k t) = ap flag (Laws.set_expire_result now db k t)
  answer-call (rename k j) = ap flag (Laws.rename_result now db k j)
  answer-call _ = refl

run_from :
    (now : ℕ) (db : Db) (m : Visible) (cs : List (ℕ × Call))
    → Distinct db.table
    → InOrder now cs
    → view now db ≡ m
    → run db cs ≡ run_spec m cs
unfolding run run_spec
run_from now db m [] d h e = refl
run_from now db m ((t, c) ∷ cs) d h e =
    let seen : at_time t m ≡ view t db = ap (at_time t) (sym e) ∙ view_later now t db h.0 in
    rw seen (
      ap₂ ◌∷◌ (answer-call t db c) (
        run_from t (call t db c).0 (spec t (view t db) c).0 cs (call-Distinct t db c d) h.1
          (view-call t db c d)))

-- From a table with unique keys and with a clock that does not go back, any run of get, contains,
-- remove, expire_at, persist, take, set, put, set_expire, rename, clear, sweep_expired, and get with
-- set_keep_ttl behind it, is answered as by the map of what was visible at first.
pub run-eq-run_spec :
    (now : ℕ) (db : Db) (cs : List (ℕ × Call))
    → Distinct db.table
    → InOrder now cs
    → run db cs ≡ run_spec (view now db) cs
run-eq-run_spec now db cs d h = run_from now db (view now db) cs d h refl
