-- ===== src/Commands/Keys/Moving/Copies.antt =====
-- COPY: the reply, and what a client sees in each database afterwards.
use meebis.Base.{
  ℕ, ◌<◌, ◌≡◌, refl, ◌∙◌, Bool, false, not, ◌&&◌, ◌||◌, Option, none, some, arith, ◌==◌,
  if◌then◌else◌, Bool-cases, inl, inr, length,
}
use meebis.Base.Bytes.{Bytes, bytes_eq}
use meebis.Base.HashMap
use meebis.Resp.Frame.{Frame, count}
use meebis.Db
use meebis.Db.{Db, Entry, Value, is_some, value_of, expiry_of}
use meebis.Db.View.{view, live}
use meebis.Db.Laws.{
  contains_result, view-contains, get_result, view-get, expire_at_result, view-expire_at, view-put,
  live-live,
}
use meebis.Keyspace
use meebis.Keyspace.{Keyspace, put_db}
use meebis.Keyspace.Laws.{seen, seen-some, put_back, seen-put_db, present, length-put_db}
use meebis.Commands.Keys.Moving.{copy_key, copy_from, copy_value, copy_into, CopyOptions}

-- A visible key is copied where the destination is free or may be replaced.
abbrev pub copies : Bool → Option Entry → Option Entry → Bool
copies replace here there = is_some here && (replace || not (is_some there))

-- What `copy_key` returns: the keyspace, and the reply. `old` is the keyspace that a client saw.
abbrev pub Copied :
    ℕ → Keyspace → ℕ → Bytes → Option Entry → Bool → Option (Keyspace × Frame) → Type 0
Copied now old j key e done r =
    (ks' : Keyspace) × (r ≡ some (ks', count (if done then 1 else 0)))
    × ((n : ℕ) (k : Bytes)
        → seen now ks' n k ≡ (if done && (j == n && bytes_eq key k) then e else seen now old n k))

copy_into_lem :
    (now : ℕ) (ks : Keyspace) (j : ℕ) (key : Bytes) (r : Bool) (e : Entry) (d : Db)
    → j < length ks
    → Keyspace.db ks j ≡ some d
    → live now (some e) ≡ some e
    → Copied now ks j key
        (some e)
        (r || not (is_some (view now d key)))
        (copy_into now ks j key r e.value e.expire_at (some d))
unfolding copy_into
copy_into_lem now ks j key r e d h p v =
    let d1 : Db = (Db.contains now d key).0 in
    elim (Bool-cases (is_some (view now d key) && not r)) [
      | inl stays ↦ (
        put_db ks j d1,
        ground (arith, contains_result now d key),
        λ n k. put_back now ks j d d1 n k h p (view-contains now d key k) ∙ ground arith,
      )
      | inr goes ↦ (
        put_db ks j (Db.put d1 key e.value e.expire_at),
        ground (arith, contains_result now d key),
        λ n k.
            seen-put_db now ks j n k (Db.put d1 key e.value e.expire_at) h
            ∙ ground (
              arith,
              view-put now d1 key e.value e.expire_at k,
              view-contains now d key k,
              seen-some now ks j n k d p,
            ),
      )
    ]

copy_value_lem :
    (now : ℕ) (ks : Keyspace) (j : ℕ) (key : Bytes) (r : Bool) (e : Option Entry)
    → j < length ks
    → live now e ≡ e
    → Copied now ks j key e
        (copies r e (seen now ks j key))
        (copy_value now ks j key r (value_of e) (expiry_of e))
unfolding copy_value is_some value_of expiry_of
copy_value_lem now ks j key r none h v = (ks, refl, λ n k. refl)
copy_value_lem now ks j key r (some e) h v =
    let (d, p) = present ks j h in rw p (copy_into_lem now ks j key r e d h p v)

-- The source was read, which changes nothing that is seen.
Copied-same :
    (now : ℕ) (ks old : Keyspace) (j : ℕ) (key : Bytes) (e : Option Entry) (r : Bool)
    (result : Option (Keyspace × Frame))
    → ((n : ℕ) (k : Bytes) → seen now ks n k ≡ seen now old n k)
    → Copied now ks j key e (copies r e (seen now ks j key)) result
    → Copied now old j key e (copies r e (seen now old j key)) result
Copied-same now ks old j key e r result same (ks', reply, sees) =
    rw (← same j key) (ks', reply, λ n k. sees n k ∙ rw (same n k))

-- COPY between databases that exist, of a key onto another name or into another database, never
-- panics. It replies 1 just where the key is visible and the destination is free or REPLACE is given;
-- then the destination shows the same entry, its expiry included, and every other key, the source
-- among them, is seen as before.
pub copy_key_lem :
    (now : ℕ) (ks : Keyspace) (i : ℕ) (o : CopyOptions) (src dst : Bytes)
    → i < length ks
    → o.dst_db < length ks
    → (o.dst_db == i && bytes_eq src dst) ≡ false
    → Copied now ks o.dst_db dst
        (seen now ks i src)
        (copies o.replace (seen now ks i src) (seen now ks o.dst_db dst))
        (copy_key now ks i o src dst)
copy_key_lem now ks i o src dst h l d =
    let (x, p) = present ks i h in
    let x1 : Db = (Db.get now x src).0 in
    let x2 : Db = (Db.expire_at now x1 src).0 in
    let kept : (k : Bytes) → view now x2 k ≡ view now x k =
      λ k. view-expire_at now x1 src k ∙ view-get now x src k in
    Copied-same now (put_db ks i x2) ks o.dst_db dst (seen now ks i src) o.replace _
      (λ n k. put_back now ks i x x2 n k h p (kept k))
      (rw p (
        unfold copy_key copy_from in
        rw (d, p, get_result now x src, expire_at_result now x1 src, view-get now x src src)
          (copy_value_lem now (put_db ks i x2) o.dst_db dst o.replace (view now x src)
            (omega (arith, length-put_db ks i x2))
            (unfold view in live-live now (HashMap.get src x.table)))))
