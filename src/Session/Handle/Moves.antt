-- ===== src/Session/Handle/Moves.antt =====
-- src/commands/mod.rs: whatever the request, the registry and the connection's sets change together.
use meebis.Base.{
  ℕ, ◌≡◌, refl, sym, Bool, true, false, not, List, [], ◌∷◌, Option, none, some, if◌then◌else◌, ltb,
  length,
}
use meebis.Base.Bytes.{Bytes}
use meebis.Resp.Frame.{Frame, Frames, ok}
use meebis.Keyspace.{Keyspace}
use meebis.Session.{
  Conn, World, Services, one, close, Replied, multi, discard, queue_command, watch, with_watches,
  exec, run_checked, run_queue, run_next, push_reply, replies_of, check_watched, Watches,
}
use meebis.Commands.Args.{is_word}
use meebis.Session.Handle.{
  handle, must_authenticate, must_subscribe, subscribe_only, no_auth, transact, control, one_of,
  many_of, here,
}
use meebis.Session.Subscribe.{subscribe, unsubscribe, reset}
use meebis.Session.Subscribe.Moves.{
  Moves, Moves-refl, Moves-trans, subscribe-Moves, unsubscribe-Moves,
}
use meebis.Session.Subscribe.Resets.{reset-Moves}

-- A command that is not about subscriptions leaves them and the connection's id alone.
unfoldable pub IsQuiet {ℓ} : {A : Type ℓ} → World → Conn → Option (World × Conn × A) → Type 0
IsQuiet w c none = Unit
IsQuiet w c (some (w', c', _)) =
    (w'.pubsub ≡ w.pubsub)
    × (c'.id ≡ c.id)
    × (c'.subscribed_channels ≡ c.subscribed_channels)
    × (c'.subscribed_patterns ≡ c.subscribed_patterns)

pub record AreQuiet (s : Services) : Type 0 where
  pub quiet_execute :
      (now : ℕ) (w : World) (c : Conn) (args : List Bytes) → IsQuiet w c (s.execute now w c args)
  pub quiet_bzpop :
      (now : ℕ) (w : World) (c : Conn) (args : List Bytes) (min : Bool)
      → IsQuiet w c (s.bzpop now w c args min)
  pub quiet_xread :
      (now : ℕ) (w : World) (c : Conn) (args : List Bytes) → IsQuiet w c (s.xread now w c args)

unfoldable pub MovesTo {ℓ} : {A : Type ℓ} → World → Conn → Option (World × Conn × A) → Type 0
MovesTo w c none = Unit
MovesTo w c (some (w', c', _)) = Moves c.id w.pubsub c w'.pubsub c'

quiet-MovesTo {ℓ} :
    {A : Type ℓ} (w : World) (c : Conn) (o : Option (World × Conn × A))
    → IsQuiet w c o
    → MovesTo w c o
unfolding IsQuiet MovesTo
quiet-MovesTo w c none h = tt
quiet-MovesTo w c (some (w', c', a)) (p, i, ch, pa) = record {
  same_id = λ h. rw i h;
  channels = rw (p, ch) (Moves-refl c.id w.pubsub c).channels;
  patterns = rw (p, pa) (Moves-refl c.id w.pubsub c).patterns;
}

one_of-MovesTo :
    (w : World) (c : Conn) (o : Option Replied) → MovesTo w c o → MovesTo w c (one_of o)
unfolding MovesTo one_of
one_of-MovesTo w c none h = tt
one_of-MovesTo w c (some (w', c', f)) h = h

if-MovesTo {ℓ} :
    {A : Type ℓ} (w : World) (c : Conn) (b : Bool) (x y : Option (World × Conn × A))
    → MovesTo w c x
    → MovesTo w c y
    → MovesTo w c (if b then x else y)
if-MovesTo w c true x y h k = h
if-MovesTo w c false x y h k = k

module _ (s : Services) (q : AreQuiet s) (now : ℕ) where
  pushed-MovesTo :
      (w w' : World) (c c' : Conn) (f : Frame) (o : Option (World × Conn × Frames))
      → Moves c.id w.pubsub c w'.pubsub c'
      → MovesTo w' c' o
      → MovesTo w c (push_reply f o)
  unfolding MovesTo push_reply
  pushed-MovesTo w w' c c' f none m h = tt
  pushed-MovesTo w w' c c' f (some (w2, c2, fs)) m h =
      Moves-trans c.id _ _ _ _ _ _ m (rw (sym (m.same_id refl)) h)

  next-MovesTo :
      (w : World) (c : Conn) (o : Option Replied)
      (rest : World → Conn → Option (World × Conn × Frames))
      → MovesTo w c o
      → ((w' : World) (c' : Conn) → MovesTo w' c' (rest w' c'))
      → MovesTo w c (run_next o rest)
  unfolding run_next
  next-MovesTo w c none rest h k = unfold MovesTo in tt
  next-MovesTo w c (some (w', c', f)) rest h k =
      pushed-MovesTo w w' c c' f _ (unfold MovesTo in h) (k w' c')

  run_queue-MovesTo :
      (queue : List (List Bytes)) (w : World) (c : Conn) → MovesTo w c (run_queue s now queue w c)
  unfolding run_queue
  run_queue-MovesTo [] w c = unfold MovesTo in Moves-refl c.id w.pubsub c
  run_queue-MovesTo (cmd ∷ queue) w c =
      next-MovesTo w c _ _ (quiet-MovesTo w c _ (q.quiet_execute now w c cmd))
        (run_queue-MovesTo queue)

  replies_of-MovesTo :
      (w : World) (c : Conn) (o : Option (World × Conn × Frames))
      → MovesTo w c o
      → MovesTo w c (replies_of o)
  unfolding MovesTo replies_of
  replies_of-MovesTo w c none h = tt
  replies_of-MovesTo w c (some (w', c', fs)) h = h

  same-MovesTo :
      {A : Type 0} (w : World) (ks : Keyspace) (c c' : Conn) (a : A)
      → c'.id ≡ c.id
      → c'.subscribed_channels ≡ c.subscribed_channels
      → c'.subscribed_patterns ≡ c.subscribed_patterns
      → MovesTo w c (some (record w { keyspace = ks }, c', a))
  same-MovesTo w ks c c' a i ch pa = quiet-MovesTo w c _ (unfold IsQuiet in (refl, i, ch, pa))

  with_watches-MovesTo :
      (w : World) (c : Conn) (o : Option (Keyspace × Watches)) → MovesTo w c (with_watches w c o)
  unfolding with_watches
  with_watches-MovesTo w c none = unfold MovesTo in tt
  with_watches-MovesTo w c (some (ks, ws)) = same-MovesTo w ks c _ _ refl refl refl

  watch-MovesTo : (w : World) (c : Conn) (args : List Bytes) → MovesTo w c (watch s now w c args)
  unfolding watch
  watch-MovesTo w c args =
      if-MovesTo w c (ltb (length args) 2) _ _ (same-MovesTo w w.keyspace c c _ refl refl refl) (
        if-MovesTo w c c.in_multi _ _ (same-MovesTo w w.keyspace c c _ refl refl refl)
          (with_watches-MovesTo w c _))

  -- A change of the connection's other fields.
  here-MovesTo :
      (w : World) (c : Conn) (b : Bool) (x y : Conn × Frame)
      → MovesTo w c (here w x)
      → MovesTo w c (here w y)
      → MovesTo w c (here w (if b then x else y))
  here-MovesTo w c true x y h k = h
  here-MovesTo w c false x y h k = k

  multi-MovesTo : (w : World) (c : Conn) → MovesTo w c (here w (multi c))
  unfolding multi
  multi-MovesTo w c =
      here-MovesTo w c c.in_multi _ _ (same-MovesTo w w.keyspace c c _ refl refl refl)
        (same-MovesTo w w.keyspace c _ _ refl refl refl)

  discard-MovesTo : (w : World) (c : Conn) → MovesTo w c (here w (discard c))
  unfolding discard
  discard-MovesTo w c =
      here-MovesTo w c (not c.in_multi) _ _ (same-MovesTo w w.keyspace c c _ refl refl refl)
        (same-MovesTo w w.keyspace c _ _ refl refl refl)

  queue_command-MovesTo :
      (w : World) (c : Conn) (args : List Bytes) (name : Bytes)
      → MovesTo w c (here w (queue_command s c args name))
  unfolding queue_command
  queue_command-MovesTo w c args name =
      here-MovesTo w c _ _ _ (same-MovesTo w w.keyspace c _ _ refl refl refl)
        (same-MovesTo w w.keyspace c _ _ refl refl refl)

  -- The connection as EXEC has taken the queue and the watches out of it.
  taken-MovesTo :
      {A : Type 0} (w : World) (ks : Keyspace) (c c' : Conn) (o : Option (World × Conn × A))
      → c'.id ≡ c.id
      → c'.subscribed_channels ≡ c.subscribed_channels
      → c'.subscribed_patterns ≡ c.subscribed_patterns
      → MovesTo (record w { keyspace = ks }) c' o
      → MovesTo w c o
  unfolding MovesTo
  taken-MovesTo w ks c c' none i ch pa h = tt
  taken-MovesTo w ks c c' (some (w2, c2, a)) i ch pa h =
      Moves-trans c.id _ _ _ _ _ _ (same-MovesTo w ks c c' a i ch pa) (rw (sym i) h)

  run_checked-MovesTo :
      (queue : List (List Bytes)) (w : World) (c : Conn) (o : Option (Keyspace × Bool))
      → MovesTo w c (run_checked s now queue w c o)
  unfolding run_checked
  run_checked-MovesTo queue w c none = unfold MovesTo in tt
  run_checked-MovesTo queue w c (some (ks, false)) = same-MovesTo w ks c c _ refl refl refl
  run_checked-MovesTo queue w c (some (ks, true)) =
      taken-MovesTo w ks c c _ refl refl refl
        (replies_of-MovesTo _ c _ (run_queue-MovesTo queue (record w { keyspace = ks }) c))

  exec-MovesTo : (w : World) (c : Conn) → MovesTo w c (exec s now w c)
  unfolding exec
  exec-MovesTo w c =
      if-MovesTo w c (not c.in_multi) _ _ (same-MovesTo w w.keyspace c c _ refl refl refl) (
        if-MovesTo w c c.multi_error _ _ (same-MovesTo w w.keyspace c _ _ refl refl refl) (
          taken-MovesTo w w.keyspace c _ _ refl refl refl
            (run_checked-MovesTo c.multi_queue w _ (check_watched s now c.watched w.keyspace))))

  many-MovesTo :
      (w : World) (c : Conn) (r : World × Conn × List Frame)
      → Moves c.id w.pubsub c r.0.pubsub r.1
      → MovesTo w c (many_of r)
  unfolding MovesTo
  many-MovesTo w c (w', c', fs) h = h

  others :
      (w : World) (c : Conn) (args : List Bytes) (name : Bytes)
      → MovesTo w c (
          if is_word name "BZPOPMIN"
          then s.bzpop now w c args true
          else if is_word name "BZPOPMAX"
          then s.bzpop now w c args false
          else if is_word name "XREAD"
          then s.xread now w c args
          else one_of (s.execute now w c args))
  others w c args name =
      if-MovesTo w c _ _ _ (quiet-MovesTo w c _ (q.quiet_bzpop now w c args true)) (
        if-MovesTo w c _ _ _ (quiet-MovesTo w c _ (q.quiet_bzpop now w c args false)) (
          if-MovesTo w c _ _ _ (quiet-MovesTo w c _ (q.quiet_xread now w c args))
            (one_of-MovesTo w c _ (quiet-MovesTo w c _ (q.quiet_execute now w c args)))))

  control-MovesTo :
      (w : World) (c : Conn) (args : List Bytes) (name : Bytes)
      → MovesTo w c (control s now w c args name)
  unfolding control
  control-MovesTo w c args name =
      if-MovesTo w c (is_word name "QUIT") _ _
        (same-MovesTo w w.keyspace c c (close ok) refl refl refl)
        (if-MovesTo w c (is_word name "SUBSCRIBE") _ _
          (many-MovesTo w c (subscribe w c args false) (subscribe-Moves c.id w c args false refl))
          (if-MovesTo w c (is_word name "PSUBSCRIBE") _ _
            (many-MovesTo w c (subscribe w c args true) (subscribe-Moves c.id w c args true refl))
            (if-MovesTo w c (is_word name "UNSUBSCRIBE") _ _
              (many-MovesTo w c (unsubscribe w c args false)
                (unsubscribe-Moves c.id w c args false refl))
              (if-MovesTo w c (is_word name "PUNSUBSCRIBE") _ _
                (many-MovesTo w c (unsubscribe w c args true)
                  (unsubscribe-Moves c.id w c args true refl))
                (if-MovesTo w c (is_word name "RESET") _ _
                  (one_of-MovesTo w c (some (reset s w c)) (unfold MovesTo in reset-Moves s w c))
                  (others w c args name))))))

  transact-MovesTo :
      (w : World) (c : Conn) (args : List Bytes) (name : Bytes)
      → MovesTo w c (transact s now w c args name)
  unfolding transact
  transact-MovesTo w c args name = if-MovesTo w c _ _ _ (multi-MovesTo w c) (
      if-MovesTo w c _ _ _ (one_of-MovesTo w c _ (exec-MovesTo w c)) (
        if-MovesTo w c _ _ _ (discard-MovesTo w c) (
          if-MovesTo w c _ _ _ (one_of-MovesTo w c _ (watch-MovesTo w c args)) (
            if-MovesTo w c _ _ _ (same-MovesTo w w.keyspace c _ _ refl refl refl) (
              if-MovesTo w c _ _ _ (queue_command-MovesTo w c args name)
                (control-MovesTo w c args name))))))

  pub handle-MovesTo :
      (w : World) (c : Conn) (args : List Bytes) → MovesTo w c (handle s now w c args)
  unfolding handle
  handle-MovesTo w c [] = same-MovesTo w w.keyspace c c _ refl refl refl
  handle-MovesTo w c (name ∷ args) =
      if-MovesTo w c (must_authenticate s c name) _ _
        (same-MovesTo w w.keyspace c c (one no_auth) refl refl refl)
        (if-MovesTo w c (must_subscribe c name) _ _
          (same-MovesTo w w.keyspace c c (one (subscribe_only (s.lower_text name))) refl refl refl)
          (transact-MovesTo w c (name ∷ args) name))
