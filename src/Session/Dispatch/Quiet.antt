-- ===== src/Session/Dispatch/Quiet.antt =====
-- src/commands/mod.rs: the commands of `execute_locked` leave the subscriptions alone.
use meebis.Base.{
  ℕ, refl, Bool, true, false, List, [], ◌∷◌, String, Option, none, some, ◌||◌, if◌then◌else◌,
}
use meebis.Base.Bytes.{Bytes}
use meebis.Base.Int.{ℤ, pos_part}
use meebis.Resp.Frame.{Frame, ok, err}
use meebis.Db.{Db}
use meebis.Keyspace
use meebis.Keyspace.{Keyspace}
use meebis.Commands.Args.{Checked, go, fail, parse_int, is_word}
use meebis.Session.{Conn, World, Replied}
use meebis.Session.Subscribe.{publish}
use meebis.Session.Handle.Moves.{IsQuiet}
use meebis.Session.Dispatch.{
  Handler, execute_locked, execute_named, select, select_arg, selected, on_keyspace, on_db,
  on_selected, written, with_db, db_handler, replied, selecting, publishing,
}

if-IsQuiet {ℓ} :
    {A : Type ℓ} (w : World) (c : Conn) (b : Bool) (x y : Option (World × Conn × A))
    → IsQuiet w c x
    → IsQuiet w c y
    → IsQuiet w c (if b then x else y)
if-IsQuiet w c true x y h k = h
if-IsQuiet w c false x y h k = k

module _ (w : World) (c : Conn) where
  either-IsQuiet :
      (b : Bool) (x y : Conn × Frame)
      → IsQuiet w c (selecting w x)
      → IsQuiet w c (selecting w y)
      → IsQuiet w c (selecting w (if b then x else y))
  either-IsQuiet true x y h k = h
  either-IsQuiet false x y h k = k

  same-IsQuiet : (f : Frame) → IsQuiet w c (replied w c f)
  unfolding IsQuiet
  same-IsQuiet f = (refl, refl, refl, refl)

  indexed-IsQuiet : (i : ℕ) (f : Frame) → IsQuiet w c (selecting w (record c { db_index = i }, f))
  unfolding IsQuiet
  indexed-IsQuiet i f = (refl, refl, refl, refl)

  select_arg-IsQuiet :
      (ks : Keyspace) (a : Checked ℤ) → IsQuiet w c (selecting w (select_arg c ks a))
  unfolding select_arg selected
  select_arg-IsQuiet ks (go k) =
      either-IsQuiet (Keyspace.is_valid ks k) (record c { db_index = pos_part k }, ok)
        (c, err "DB index is out of range") (indexed-IsQuiet (pos_part k) ok) (same-IsQuiet _)
  select_arg-IsQuiet ks (fail f) = same-IsQuiet _

  select-IsQuiet :
      (ks : Keyspace) (args : List Bytes) → IsQuiet w c (selecting w (select ks c args))
  unfolding select
  select-IsQuiet ks (_ ∷ a ∷ []) = select_arg-IsQuiet ks (parse_int a)
  select-IsQuiet ks _ = same-IsQuiet _

  on_keyspace-IsQuiet : (o : Option (Keyspace × Frame)) → IsQuiet w c (on_keyspace w c o)
  unfolding on_keyspace IsQuiet
  on_keyspace-IsQuiet none = tt
  on_keyspace-IsQuiet (some (ks, f)) = (refl, refl, refl, refl)

  written-IsQuiet : (r : Option (Db × Frame)) → IsQuiet w c (written w c r)
  unfolding written IsQuiet
  written-IsQuiet none = tt
  written-IsQuiet (some (d, f)) = (refl, refl, refl, refl)

  on_db-IsQuiet :
      (now : ℕ) (args : List Bytes) (h : Handler) (o : Option Db)
      → IsQuiet w c (on_db now w c args h o)
  unfolding on_db IsQuiet
  on_db-IsQuiet now args h none = tt
  on_db-IsQuiet now args h (some d) = written-IsQuiet (h now d args)

  with_db-IsQuiet : (r : Option Replied) → IsQuiet w c r → IsQuiet w c (with_db w c r)
  unfolding with_db
  with_db-IsQuiet r h = if-IsQuiet w c _ r none h (unfold IsQuiet in tt)

  publish-IsQuiet :
      (is_open : ℕ → Bool) (args : List Bytes) → IsQuiet w c (publishing c (publish is_open w args))
  unfolding publish IsQuiet
  publish-IsQuiet is_open (_ ∷ channel ∷ payload ∷ []) = (refl, refl, refl, refl)
  publish-IsQuiet is_open _ = (refl, refl, refl, refl)

  replaced-IsQuiet :
      (ks : Keyspace) (f : Frame) → IsQuiet w c (replied (record w { keyspace = ks }) c f)
  unfolding IsQuiet
  replaced-IsQuiet ks f = (refl, refl, refl, refl)

module _ (lower_text : Bytes → String) (is_open : ℕ → Bool)
    (other : ℕ → World → Conn → List Bytes → Option Replied)
    (quiet : (now : ℕ) (w : World) (c : Conn) (args : List Bytes)
      → IsQuiet w c (other now w c args)) where
  on_selected-IsQuiet :
      (now : ℕ) (w : World) (c : Conn) (args : List Bytes) (h : Option Handler)
      → IsQuiet w c (on_selected other now w c args h)
  unfolding on_selected
  on_selected-IsQuiet now w c args none = quiet now w c args
  on_selected-IsQuiet now w c args (some h) = on_db-IsQuiet w c now args h _

  named-IsQuiet :
      (now : ℕ) (w : World) (c : Conn) (args : List Bytes) (name : Bytes)
      → IsQuiet w c (execute_named lower_text is_open other now w c args name)
  unfolding execute_named
  named-IsQuiet now w c args name =
      if-IsQuiet w c (is_word name "SELECT") _ _ (select-IsQuiet w c w.keyspace args) (
        if-IsQuiet w c (is_word name "SWAPDB") _ _ (on_keyspace-IsQuiet w c _) (
          if-IsQuiet w c (is_word name "MOVE") _ _ (on_keyspace-IsQuiet w c _) (
            if-IsQuiet w c (is_word name "COPY") _ _ (on_keyspace-IsQuiet w c _) (
              if-IsQuiet w c (is_word name "FLUSHALL") _ _ (replaced-IsQuiet w c _ _) (
                if-IsQuiet w c (is_word name "BGREWRITEAOF") _ _ (same-IsQuiet w c _) (
                  if-IsQuiet w c (is_word name "PUBLISH" || is_word name "SPUBLISH") _ _
                    (with_db-IsQuiet w c _ (publish-IsQuiet w c is_open args))
                    (if-IsQuiet w c (is_word name "PUBSUB") _ _
                      (with_db-IsQuiet w c _ (same-IsQuiet w c _))
                      (on_selected-IsQuiet now w c args (db_handler name)))))))))

  pub execute_locked-IsQuiet :
      (now : ℕ) (w : World) (c : Conn) (args : List Bytes)
      → IsQuiet w c (execute_locked lower_text is_open other now w c args)
  unfolding execute_locked
  execute_locked-IsQuiet now w c [] = quiet now w c []
  execute_locked-IsQuiet now w c (name ∷ args) = named-IsQuiet now w c (name ∷ args) name
