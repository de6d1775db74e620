-- ===== src/Session/Dispatch/Sound.antt =====
-- src/commands/mod.rs: panics, databases and subscriptions over one command of `execute_locked`.
use meebis.Base.{
  ℕ, ◌<◌, ◌≡◌, refl, sym, ◌∙◌, Bool, true, false, List, [], ◌∷◌, String, Option, none, some, ◌||◌,
  if◌then◌else◌, length, length-map, ltb, ltb→lt, Bool-cases, inl, inr,
}
use meebis.Base.Bytes.{Bytes}
use meebis.Base.Int.{ℤ, pos, negsuc}
use meebis.Resp.Frame.{Frame, ok}
use meebis.Db
use meebis.Db.{Db, is_some}
use meebis.Keyspace
use meebis.Keyspace.{Keyspace, put_db}
use meebis.Keyspace.Laws.{present, length-put_db}
use meebis.Commands.Args.{Checked, go, fail, parse_int, is_word}
use meebis.Commands.Keys.Moving.Totals.{IsTotal, move_key-IsTotal, copy-IsTotal, swapdb-IsTotal}
use meebis.Session.{Conn, World, Replied}
use meebis.Session.Subscribe.{publish}
use meebis.Session.Watching.{AllIn}
use meebis.Session.Dispatch.Answers.{Answers, MayAnswer, InReach, db_handler-MayAnswer}
use meebis.Session.Dispatch.{
  Handler, written, execute_locked, execute_named, select, select_arg, selected, on_keyspace, on_db,
  on_selected, with_db, db_handler, replied, selecting, publishing,
}

-- A connection's databases are among the `n` that there are.
unfoldable pub IsPlaced : ℕ → World → Conn → Type 0
IsPlaced n w c = (length w.keyspace ≡ n) × (c.db_index < n) × AllIn c.watched n

-- No panic; the connection's databases afterwards; and the subscriptions as they were.
unfoldable pub IsFair {ℓ} : {A : Type ℓ} → ℕ → World → Conn → Option (World × Conn × A) → Type 0
unfolding IsPlaced
IsFair n w c none = ⊥
IsFair n w c (some (w', c', _)) =
    IsPlaced n w' c'
    × (w'.pubsub ≡ w.pubsub)
    × (c'.id ≡ c.id)
    × (c'.subscribed_channels ≡ c.subscribed_channels)
    × (c'.subscribed_patterns ≡ c.subscribed_patterns)

if-IsFair {ℓ} :
    {A : Type ℓ} (n : ℕ) (w : World) (c : Conn) (b : Bool) (x y : Option (World × Conn × A))
    → IsFair n w c x
    → IsFair n w c y
    → IsFair n w c (if b then x else y)
if-IsFair n w c true x y h k = h
if-IsFair n w c false x y h k = k

module _ (n : ℕ) (w : World) (c : Conn) (p : IsPlaced n w c) where
  same-IsFair : (f : Frame) → IsFair n w c (replied w c f)
  unfolding IsFair
  same-IsFair f = (p, refl, refl, refl, refl)

  selected-IsFair : (k : ℤ) → IsFair n w c (selecting w (selected c w.keyspace k))
  unfolding IsFair IsPlaced selected Keyspace.is_valid
  selected-IsFair (negsuc k) = (p, refl, refl, refl, refl)
  selected-IsFair (pos k) = elim (Bool-cases (ltb k (length w.keyspace))) [
    | inl y ↦
        rw y ((p.0, rw (sym p.0) (ltb→lt k (length w.keyspace) y), p.2), refl, refl, refl, refl)
    | inr b ↦ rw b (p, refl, refl, refl, refl)
  ]

  select_arg-IsFair : (a : Checked ℤ) → IsFair n w c (selecting w (select_arg c w.keyspace a))
  unfolding select_arg
  select_arg-IsFair (go k) = selected-IsFair k
  select_arg-IsFair (fail f) = same-IsFair _

  select-IsFair : (args : List Bytes) → IsFair n w c (selecting w (select w.keyspace c args))
  unfolding select
  select-IsFair (_ ∷ a ∷ []) = select_arg-IsFair (parse_int a)
  select-IsFair _ = same-IsFair _

  on_keyspace-IsFair :
      (o : Option (Keyspace × Frame))
      → IsTotal (length w.keyspace) o
      → IsFair n w c (on_keyspace w c o)
  unfolding IsTotal on_keyspace IsFair IsPlaced
  on_keyspace-IsFair none h = h
  on_keyspace-IsFair (some (ks, f)) h = ((h ∙ p.0, p.1, p.2), refl, refl, refl, refl)

  written-IsFair :
      (o : Option (Db × Frame)) (r : Db × Frame) → o ≡ some r → IsFair n w c (written w c o)
  unfolding written IsFair IsPlaced
  written-IsFair o (d, f) e =
      rw e ((length-put_db w.keyspace c.db_index d ∙ p.0, p.1, p.2), refl, refl, refl, refl)

  on_db-IsFair :
      (now : ℕ) (args : List Bytes) (h : Handler)
      → Answers now args h
      → IsFair n w c (on_db now w c args h (Keyspace.db w.keyspace c.db_index))
  unfolding on_db Answers IsPlaced
  on_db-IsFair now args h a =
      let (d, e) = present w.keyspace c.db_index (rw p.0 p.1) in
      rw e (written-IsFair (h now d args) (a d).0 (a d).1)

  with_db-IsFair : (r : Option Replied) → IsFair n w c r → IsFair n w c (with_db w c r)
  unfolding with_db is_some IsPlaced
  with_db-IsFair r h = let (d, e) = present w.keyspace c.db_index (rw p.0 p.1) in rw e h

  publish-IsFair :
      (is_open : ℕ → Bool) (args : List Bytes)
      → IsFair n w c (publishing c (publish is_open w args))
  unfolding publish IsFair IsPlaced
  publish-IsFair is_open (_ ∷ channel ∷ payload ∷ []) = (p, refl, refl, refl, refl)
  publish-IsFair is_open _ = (p, refl, refl, refl, refl)

  flushed-IsFair :
      IsFair n w c (replied (record w { keyspace = Keyspace.clear_all w.keyspace }) c ok)
  unfolding IsFair IsPlaced Keyspace.clear_all
  flushed-IsFair = ((length-map w.keyspace Db.clear ∙ p.0, p.1, p.2), refl, refl, refl, refl)

-- Commands that are taken from elsewhere are as well behaved.
abbrev pub AreFair {ℓ} :
    {A : Type ℓ} → (ℕ → World → Conn → List Bytes → Option (World × Conn × A)) → Type 0
AreFair run =
    (n now : ℕ) (w : World) (c : Conn) (args : List Bytes)
    → IsPlaced n w c
    → IsFair n w c (run now w c args)

module _ (lower_text : Bytes → String) (is_open : ℕ → Bool)
    (other : ℕ → World → Conn → List Bytes → Option Replied) (fair : AreFair other) where
  on_selected-IsFair :
      (n now : ℕ) (w : World) (c : Conn) (args : List Bytes) (h : Option Handler)
      → IsPlaced n w c
      → MayAnswer now args h
      → IsFair n w c (on_selected other now w c args h)
  unfolding on_selected MayAnswer
  on_selected-IsFair n now w c args none p a = fair n now w c args p
  on_selected-IsFair n now w c args (some h) p a = on_db-IsFair n w c p now args h a

  named-IsFair :
      (n now : ℕ) (w : World) (c : Conn) (args : List Bytes) (name : Bytes)
      → IsPlaced n w c
      → MayAnswer now args (db_handler name)
      → IsFair n w c (execute_named lower_text is_open other now w c args name)
  unfolding execute_named IsPlaced
  named-IsFair n now w c args name p a =
      let h : c.db_index < length w.keyspace = rw p.0 p.1 in
      if-IsFair n w c (is_word name "SELECT") _ _ (select-IsFair n w c p args) (
        if-IsFair n w c (is_word name "SWAPDB") _ _
          (on_keyspace-IsFair n w c p _ (swapdb-IsTotal w.keyspace args))
          (if-IsFair n w c (is_word name "MOVE") _ _
            (on_keyspace-IsFair n w c p _ (move_key-IsTotal now w.keyspace c.db_index args h))
            (if-IsFair n w c (is_word name "COPY") _ _
              (on_keyspace-IsFair n w c p _ (copy-IsTotal now w.keyspace c.db_index args h))
              (if-IsFair n w c (is_word name "FLUSHALL") _ _ (flushed-IsFair n w c p) (
                if-IsFair n w c (is_word name "BGREWRITEAOF") _ _ (same-IsFair n w c p _) (
                  if-IsFair n w c (is_word name "PUBLISH" || is_word name "SPUBLISH") _ _
                    (with_db-IsFair n w c p _ (publish-IsFair n w c p is_open args))
                    (if-IsFair n w c (is_word name "PUBSUB") _ _
                      (with_db-IsFair n w c p _ (same-IsFair n w c p _))
                      (on_selected-IsFair n now w c args (db_handler name) p a))))))))

  -- On a connection whose databases exist, a command does not panic, the databases still exist, there
  -- are as many as before, and the subscriptions are as they were, if that holds of the commands taken
  -- from elsewhere, and a SETRANGE asks for a string below 2^63 bytes.
  pub execute_locked-IsFair :
      (n now : ℕ) (w : World) (c : Conn) (args : List Bytes)
      → IsPlaced n w c
      → InReach args
      → IsFair n w c (execute_locked lower_text is_open other now w c args)
  unfolding execute_locked
  execute_locked-IsFair n now w c [] p h = fair n now w c [] p
  execute_locked-IsFair n now w c (name ∷ args) p h =
      named-IsFair n now w c (name ∷ args) name p (db_handler-MayAnswer now name args h)
