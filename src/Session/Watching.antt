-- ===== src/Session/Watching.antt =====
-- src/commands/mod.rs: what EXEC finds out about the watched keys.
use meebis.Base.{
  ℕ, ◌<◌, ◌≡◌, refl, ◌∙◌, Bool, true, false, not, ◌&&◌, ◌==◌, arith, Option, none, List, [], ◌∷◌,
  some, if◌then◌else◌, length, Bool-cases, inl, inr,
}
use meebis.Base.Bytes.{Bytes}
use meebis.Resp.Frame.{null_array}
use meebis.Db
use meebis.Db.{Db, Entry, Value, value_of}
use meebis.Db.Laws.{get_result, view-get}
use meebis.Keyspace
use meebis.Keyspace.{Keyspace, put_db}
use meebis.Keyspace.Laws.{present, length-put_db, put_back, seen}
use meebis.Session.{
  Conn, World, Services, Watches, snapshot, print_of, fingerprint, prints_eq, check_watched,
  check_next, run_queue, run_checked, replies_of, exec,
}

-- Only expired entries went.
pub record SameSight (now : ℕ) (ks ks' : Keyspace) : Type 0 where
  pub same_length : length ks' ≡ length ks
  pub same_sight : (i : ℕ) (k : Bytes) → seen now ks' i k ≡ seen now ks i k

SameSight-trans :
    (now : ℕ) (a b c : Keyspace) → SameSight now a b → SameSight now b c → SameSight now a c
SameSight-trans now a b c f g = record {
  same_length = g.same_length ∙ f.same_length;
  same_sight = λ i k. g.same_sight i k ∙ f.same_sight i k;
}

purged-SameSight :
    (now : ℕ) (ks : Keyspace) (dbi : ℕ) (key : Bytes) (d : Db)
    → dbi < length ks
    → Keyspace.db ks dbi ≡ some d
    → SameSight now ks (put_db ks dbi (Db.get now d key).0)
purged-SameSight now ks dbi key d h e = record {
  same_length = length-put_db ks dbi (Db.get now d key).0;
  same_sight = λ i k. put_back now ks dbi d (Db.get now d key).0 i k h e (view-get now d key k);
}

pub print_now : Services → ℕ → Keyspace → ℕ → Bytes → Bool × ℕ
print_now s now ks dbi key = snapshot s.digest (value_of (seen now ks dbi key))

pub fingerprint_lem :
    (s : Services) (now : ℕ) (ks : Keyspace) (dbi : ℕ) (key : Bytes)
    → dbi < length ks
    → (ks' : Keyspace) × (fingerprint s now ks dbi key ≡ some (ks', print_now s now ks dbi key))
      × SameSight now ks ks'
unfolding fingerprint print_of print_now
fingerprint_lem s now ks dbi key h =
    let (d, e) = present ks dbi h in
    (
      put_db ks dbi (Db.get now d key).0,
      rw (e, get_result now d key) refl,
      purged-SameSight now ks dbi key d h e,
    )

-- The watched databases are among those that there are.
unfoldable pub AllIn : Watches → ℕ → Type 0
AllIn [] n = Unit
AllIn (((dbi, key), p) ∷ ws) n = (dbi < n) × AllIn ws n

-- Whether a value that is visible, or none, is what WATCH kept: a key with the digest of its value, or
-- no key.
abbrev pub is_as_kept : (Value → ℕ) → Option Value → Bool × ℕ → Bool
is_as_kept digest none (present, d) = not present && d == 0
is_as_kept digest (some v) (present, d) = present && d == digest v

-- Whether every watched key shows the fingerprint that was kept.
pub unchanged : Services → ℕ → Watches → Keyspace → Bool
unchanged s now [] ks = true
unchanged s now (((dbi, key), p) ∷ ws) ks =
    is_as_kept s.digest (value_of (seen now ks dbi key)) p && unchanged s now ws ks

eq_swap : (a b : ℕ) → (a == b) ≡ (b == a)
eq_swap a b = ground arith

prints_eq-snapshot :
    (digest : Value → ℕ) (o : Option Value) (p : Bool × ℕ)
    → prints_eq (snapshot digest o) p ≡ is_as_kept digest o p
unfolding snapshot
prints_eq-snapshot digest none (true, d) = refl
prints_eq-snapshot digest none (false, d) = eq_swap 0 d
prints_eq-snapshot digest (some v) (true, d) = eq_swap (digest v) d
prints_eq-snapshot digest (some v) (false, d) = refl

print_now-kept :
    (s : Services) (now : ℕ) (ks : Keyspace) (dbi : ℕ) (key : Bytes) (p : Bool × ℕ)
    → prints_eq (print_now s now ks dbi key) p
      ≡ is_as_kept s.digest (value_of (seen now ks dbi key)) p
unfolding print_now
print_now-kept s now ks dbi key p = prints_eq-snapshot s.digest (value_of (seen now ks dbi key)) p

unchanged_same :
    (s : Services) (now : ℕ) (ws : Watches) (ks ks' : Keyspace)
    → SameSight now ks ks'
    → unchanged s now ws ks' ≡ unchanged s now ws ks
unfolding unchanged
unchanged_same s now [] ks ks' f = refl
unchanged_same s now (((dbi, key), p) ∷ ws) ks ks' f =
    rw (f.same_sight dbi key, unchanged_same s now ws ks ks' f) refl

pub check_watched_lem :
    (s : Services) (now : ℕ) (ws : Watches) (ks : Keyspace)
    → AllIn ws (length ks)
    → (ks' : Keyspace) × (check_watched s now ws ks ≡ some (ks', unchanged s now ws ks))
      × SameSight now ks ks'
unfolding check_watched check_next unchanged AllIn
check_watched_lem s now [] ks h =
    (ks, refl, record { same_length = refl; same_sight = λ i k. refl })
check_watched_lem s now (((dbi, key), p) ∷ ws) ks h =
    let (ks1, e1, f1) = fingerprint_lem s now ks dbi key h.0 in
    let (ks2, e2, f2) = check_watched_lem s now ws ks1 (rw f1.same_length h.1) in
    elim (Bool-cases (prints_eq (print_now s now ks dbi key) p)) [
      | inl y ↦ (
        ks2,
        rw (e1, ← print_now-kept s now ks dbi key p, y, e2, unchanged_same s now ws ks ks1 f1) refl,
        SameSight-trans now ks ks1 ks2 f1 f2,
      )
      | inr n ↦ (ks1, rw (e1, ← print_now-kept s now ks dbi key p, n) refl, f1)
    ]

-- The connection as EXEC leaves it before the commands run.
abbrev pub taken : Conn → Conn
taken c = record c { in_multi = false; multi_queue = []; multi_error = false; watched = [] }

run_checked_lem :
    (s : Services) (now : ℕ) (queue : List (List Bytes)) (w : World) (c : Conn) (ks : Keyspace)
    (b : Bool)
    → run_checked s now queue w c (some (ks, b)) ≡ (
        if b
        then replies_of (run_queue s now queue (record w { keyspace = ks }) c)
        else some (record w { keyspace = ks }, c, null_array))
unfolding run_checked
run_checked_lem s now queue w c ks true = refl
run_checked_lem s now queue w c ks false = refl

-- EXEC of an open transaction without an error, with watches on databases that exist, runs the queued
-- commands one after the other just where every watched key still shows the fingerprint that WATCH
-- kept; else it replies with a null array and changes nothing that a client can see. The queue and the
-- watches are gone.
pub exec_lem :
    (s : Services) (now : ℕ) (w : World) (c : Conn)
    → c.in_multi ≡ true
    → c.multi_error ≡ false
    → AllIn c.watched (length w.keyspace)
    → (ks' : Keyspace) × SameSight now w.keyspace ks'
      × (exec s now w c ≡ (
          if unchanged s now c.watched w.keyspace
          then replies_of (run_queue s now c.multi_queue (record w { keyspace = ks' }) (taken c))
          else some (record w { keyspace = ks' }, taken c, null_array)))
unfolding exec
exec_lem s now w c m e h =
    let (ks', r, f) = check_watched_lem s now c.watched w.keyspace h in
    (ks', f, rw (m, e, r) (run_checked_lem s now c.multi_queue w (taken c) ks' _))
