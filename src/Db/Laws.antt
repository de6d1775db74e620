-- ===== src/Db/Laws.antt =====
-- What the methods of `Db` return, and what they do to the view, at every key.
use meebis.Base.{
  ℕ, ◌≡◌, refl, ◌∙◌, false, not, Option, none, some, arith, if◌then◌else◌, Bool-cases, inl, inr,
  ◌&&◌,
}
use meebis.Base.Bytes.{Bytes, bytes_eq, bytes_eq_iff, bytes_eq_refl}
use meebis.Base.HashMap
use meebis.Base.HashMap.{get-insert, get-remove, get-retain, Distinct}
use meebis.Db.{
  Db, Entry, Value, is_expired, purge_if_expired, get, contains, set, remove, expire_at, set_expire,
  persist, rename, take, put, clear, sweep_expired, value_of, expiry_of, is_some, with_expiry,
  move_entry,
}
use meebis.Db.View.{live, view, get-purge_if_expired, view-purge_if_expired}

module _ (now : ℕ) (db : Db) (k : Bytes) where
  -- The key itself, after the purge.
  pub get-purge_self : HashMap.get k (purge_if_expired now db k).0.table ≡ view now db k
  get-purge_self = ground (arith, get-purge_if_expired now db k k, bytes_eq_refl k)

  pub get_result : (get now db k).1 ≡ value_of (view now db k)
  unfolding get
  get_result = ground (arith, get-purge_self)

  pub contains_result : (contains now db k).1 ≡ is_some (view now db k)
  unfolding contains
  contains_result = ground (arith, get-purge_self)

  pub expire_at_result : (expire_at now db k).1 ≡ expiry_of (view now db k)
  unfolding expire_at
  expire_at_result = ground (arith, get-purge_self)

  pub remove_result : (remove now db k).1 ≡ is_some (view now db k)
  unfolding remove
  remove_result = ground (arith, get-purge_self)

  pub view-get : (j : Bytes) → view now (get now db k).0 j ≡ view now db j
  unfolding get
  view-get j = view-purge_if_expired now db k j

  pub view-expire_at : (j : Bytes) → view now (expire_at now db k).0 j ≡ view now db j
  unfolding expire_at
  view-expire_at j = view-purge_if_expired now db k j

  pub view-contains : (j : Bytes) → view now (contains now db k).0 j ≡ view now db j
  unfolding contains
  view-contains j = view-purge_if_expired now db k j

  pub view-set :
      (v : Value) (j : Bytes)
      → view now (set db k v) j
        ≡ (if bytes_eq k j then some (record { value = v; expire_at = none }) else view now db j)
  unfolding set view is_expired
  view-set v j = ground (arith, get-insert k j (record { value = v; expire_at = none }) db.table)

  pub view-remove :
      (j : Bytes) → view now (remove now db k).0 j ≡ (if bytes_eq k j then none else view now db j)
  unfolding remove view
  view-remove j =
      ground
        (arith, get-remove k j (purge_if_expired now db k).0.table, get-purge_if_expired now db k j)

-- An entry with another expiry, as seen at a time.
abbrev pub until : ℕ → Option ℕ → Option Entry → Option Entry
until now t none = none
until now t (some e) = live now (some (record e { expire_at = t }))

module _ (now : ℕ) (db : Db) (k : Bytes) where
  view-with_expiry :
      (t : Option ℕ) (o : Option Entry) (j : Bytes)
      → HashMap.get k db.table ≡ o
      → view now (with_expiry db k t o).0 j
        ≡ (if bytes_eq k j then until now t o else view now db j)
  unfolding with_expiry view
  view-with_expiry t none j h = ground (arith, bytes_eq_iff k j)
  view-with_expiry t (some e) j h =
      ground (arith, get-insert k j (record e { expire_at = t }) db.table)

module _ (now : ℕ) (db : Db) (k : Bytes) where
  pub set_expire_result : (t : ℕ) → (set_expire now db k t).1 ≡ is_some (view now db k)
  unfolding set_expire is_some
  set_expire_result t = ground (arith, get-purge_self now db k)

  -- Setting an expiry needs a live key; a past one makes the key vanish.
  pub view-set_expire :
      (t : ℕ) (j : Bytes)
      → view now (set_expire now db k t).0 j
        ≡ (if bytes_eq k j then until now (some t) (view now db k) else view now db j)
  unfolding set_expire
  view-set_expire t j = rw (get-purge_self now db k) (
      view-with_expiry now (purge_if_expired now db k).0 k (some t) (view now db k) j
        (get-purge_self now db k)
      ∙ rw (view-purge_if_expired now db k j))

until_self :
    (now : ℕ) (o : Option Entry)
    → is_some (expiry_of o) ≡ false
    → until now none (live now o) ≡ live now o
unfolding is_some expiry_of is_expired
until_self now none h = refl
until_self now (some e) h = ground arith

module _ (now : ℕ) (db : Db) (k : Bytes) where
  persist_keeps :
      (j : Bytes)
      → is_some (expiry_of (view now db k)) ≡ false
      → view now db j ≡ (if bytes_eq k j then until now none (view now db k) else view now db j)
  unfolding view is_some expiry_of is_expired
  persist_keeps j h = ground (arith, bytes_eq_iff k j)

  -- Persisting clears the expiry of a live key.
  pub view-persist :
      (j : Bytes)
      → view now (persist now db k).0 j
        ≡ (if bytes_eq k j then until now none (view now db k) else view now db j)
  unfolding persist
  view-persist j =
      rw (get-purge_self now db k) (elim (Bool-cases (is_some (expiry_of (view now db k)))) [
        | inl y ↦ rw y (
            view-with_expiry now (purge_if_expired now db k).0 k none (view now db k) j
              (get-purge_self now db k)
            ∙ rw (view-purge_if_expired now db k j))
        | inr n ↦ rw n (view-purge_if_expired now db k j ∙ persist_keeps j n)
      ])

  pub persist_result : (persist now db k).1 ≡ is_some (expiry_of (view now db k))
  unfolding persist is_some expiry_of with_expiry
  persist_result = ground (arith, get-purge_self now db k)

  pub view-take :
      (j : Bytes) → view now (take now db k).0 j ≡ (if bytes_eq k j then none else view now db j)
  unfolding take view
  view-take j =
      ground
        (arith, get-remove k j (purge_if_expired now db k).0.table, get-purge_if_expired now db k j)

  pub take_result :
      (take now db k).1
      ≡ elim (view now db k) [ none ↦ none | some e ↦ some (e.value, e.expire_at) ]
  unfolding take
  take_result = ground (arith, get-purge_self now db k)

  pub view-put :
      (v : Value) (t : Option ℕ) (j : Bytes)
      → view now (put db k v t) j ≡ (
          if bytes_eq k j
          then live now (some (record { value = v; expire_at = t }))
          else view now db j)
  unfolding put view
  view-put v t j = ground (arith, get-insert k j (record { value = v; expire_at = t }) db.table)

  pub view-clear : view now (clear db) k ≡ none
  unfolding clear view
  view-clear = unfold HashMap.get in refl

  -- A sweep changes nothing that a client can see.
  pub view-sweep_expired : Distinct db.table → view now (sweep_expired now db) k ≡ view now db k
  unfolding sweep_expired view
  view-sweep_expired h = ground (arith, get-retain (λ _ e. not (is_expired now e)) k db.table h)

  -- After it the table holds what is visible and nothing else.
  pub get-sweep_expired :
      Distinct db.table → HashMap.get k (sweep_expired now db).table ≡ view now db k
  unfolding sweep_expired view
  get-sweep_expired h = ground (arith, get-retain (λ _ e. not (is_expired now e)) k db.table h)

view-move_entry :
    (now : ℕ) (db : Db) (src dst : Bytes) (o : Option Entry) (j : Bytes)
    → live now o ≡ o
    → view now (move_entry db src dst o).0 j
      ≡ (if is_some o && bytes_eq dst j then o else if bytes_eq src j then none else view now db j)
unfolding move_entry view is_some
view-move_entry now db src dst none j h = ground (arith, get-remove src j db.table)
view-move_entry now db src dst (some e) j h =
    ground (arith, get-insert dst j e (HashMap.remove src db.table), get-remove src j db.table)

pub live-live : (now : ℕ) (o : Option Entry) → live now (live now o) ≡ live now o
live-live now none = refl
live-live now (some e) = ground arith

module _ (now : ℕ) (db : Db) (k : Bytes) where
  -- A live source moves with its expiry, over whatever stood at the destination.
  pub view-rename :
      (dst j : Bytes)
      → view now (rename now db k dst).0 j ≡ (
          if is_some (view now db k) && bytes_eq dst j
          then view now db k
          else if bytes_eq k j
          then none
          else view now db j)
  unfolding rename
  view-rename dst j = rw (get-purge_self now db k) (
      view-move_entry now (purge_if_expired now db k).0 k dst (view now db k) j
        (unfold view in live-live now (HashMap.get k db.table))
      ∙ rw (view-purge_if_expired now db k j))

  pub rename_result : (dst : Bytes) → (rename now db k dst).1 ≡ is_some (view now db k)
  unfolding rename is_some move_entry
  rename_result dst = ground (arith, get-purge_self now db k)
