-- ===== src/Session/Handle/Sound.antt =====
-- src/commands/mod.rs: panics and databases over one request.
use meebis.Base.{
  ℕ, ◌<◌, ◌≡◌, ◌∙◌, Bool, true, false, not, List, [], ◌∷◌, Option, none, some, arith, if◌then◌else◌,
  length, drop, ltb,
}
use meebis.Base.Bytes.{Bytes}
use meebis.Resp.Frame.{Frame, Frames, ok}
use meebis.Keyspace.{Keyspace}
use meebis.Commands.Args.{is_word}
use meebis.Session.{
  Conn, World, Services, Replied, Watches, one, multi, discard, queue_command, watch, with_watches,
  watch_keys, watch_next, put_watch, exec, run_checked, run_queue, run_next, push_reply, replies_of,
  is_any,
}
use meebis.Session.Subscribe.{subscribe, unsubscribe, reset}
use meebis.Session.Subscribe.Placed.{subscribe-IsPlaced, unsubscribe-IsPlaced, reset-IsPlaced}
use meebis.Session.Watching.{AllIn, fingerprint_lem, check_watched_lem}
use meebis.Session.Dispatch.Sound.{IsPlaced, IsFair, AreFair}
use meebis.Session.Handle.{
  handle, must_authenticate, must_subscribe, transact, control, one_of, many_of, here,
}

-- A result, and the databases of the connection afterwards.
unfoldable pub IsSound {ℓ} : {A : Type ℓ} → ℕ → Option (World × Conn × A) → Type 0
IsSound n none = ⊥
IsSound n (some (w, c, _)) = IsPlaced n w c

pub record AreSound (s : Services) : Type 0 where
  pub fair_execute : AreFair s.execute
  pub fair_bzpop : (min : Bool) → AreFair (λ now w c args. s.bzpop now w c args min)
  pub fair_xread : AreFair s.xread

if-IsSound {ℓ} :
    {A : Type ℓ} (n : ℕ) (b : Bool) (x y : Option (World × Conn × A))
    → IsSound n x
    → IsSound n y
    → IsSound n (if b then x else y)
if-IsSound n true x y h k = h
if-IsSound n false x y h k = k

fair-IsSound {ℓ} :
    {A : Type ℓ} (n : ℕ) (w : World) (c : Conn) (o : Option (World × Conn × A))
    → IsFair n w c o
    → IsSound n o
unfolding IsFair IsSound
fair-IsSound n w c none h = h
fair-IsSound n w c (some (w', c', a)) h = h.0

here-IsSound :
    (n : ℕ) (w : World) (b : Bool) (x y : Conn × Frame)
    → IsPlaced n w x.0
    → IsPlaced n w y.0
    → IsSound n (here w (if b then x else y))
unfolding IsSound
here-IsSound n w true x y h k = h
here-IsSound n w false x y h k = k

one_of-IsSound : (n : ℕ) (o : Option Replied) → IsSound n o → IsSound n (one_of o)
unfolding IsSound one_of
one_of-IsSound n none h = h
one_of-IsSound n (some (w, c, f)) h = h

pushed-IsSound :
    (n : ℕ) (f : Frame) (o : Option (World × Conn × Frames))
    → IsSound n o
    → IsSound n (push_reply f o)
unfolding IsSound push_reply
pushed-IsSound n f none h = h
pushed-IsSound n f (some (w, c, fs)) h = h

replies_of-IsSound :
    (n : ℕ) (o : Option (World × Conn × Frames)) → IsSound n o → IsSound n (replies_of o)
unfolding IsSound replies_of
replies_of-IsSound n none h = h
replies_of-IsSound n (some (w, c, fs)) h = h

put_watch-AllIn :
    (n dbi : ℕ) (key : Bytes) (p : Bool × ℕ) (ws : Watches)
    → dbi < n
    → AllIn ws n
    → AllIn (put_watch dbi key p ws) n
unfolding AllIn put_watch
put_watch-AllIn n dbi key p [] h a = (h, tt)
put_watch-AllIn n dbi key p (((d, k), q) ∷ ws) h a = ground (arith, put_watch-AllIn n dbi key p ws)

module _ (s : Services) (q : AreSound s) (now n : ℕ) where
  next-IsSound :
      (o : Option Replied) (rest : World → Conn → Option (World × Conn × Frames))
      → IsSound n o
      → ((w : World) (c : Conn) → IsPlaced n w c → IsSound n (rest w c))
      → IsSound n (run_next o rest)
  unfolding run_next
  next-IsSound none rest h k = unfold IsSound in h
  next-IsSound (some (w, c, f)) rest h k =
      pushed-IsSound n f (rest w c) (k w c (unfold IsSound in h))

  run_queue-IsSound :
      (queue : List (List Bytes)) (w : World) (c : Conn)
      → IsPlaced n w c
      → IsSound n (run_queue s now queue w c)
  unfolding run_queue
  run_queue-IsSound [] w c p = unfold IsSound in p
  run_queue-IsSound (cmd ∷ queue) w c p =
      next-IsSound _ _ (fair-IsSound n w c _ (q.fair_execute n now w c cmd p))
        (run_queue-IsSound queue)

  WatchesIn : ℕ → Option (Keyspace × Watches) → Type 0
  WatchesIn m none = ⊥
  WatchesIn m (some (ks, ws)) = (length ks ≡ m) × AllIn ws m

  watch_keys-WatchesIn :
      (dbi : ℕ) (keys : List Bytes) (ks : Keyspace) (ws : Watches)
      → length ks ≡ n
      → dbi < n
      → AllIn ws n
      → WatchesIn n (watch_keys s now dbi keys ks ws)
  unfolding watch_keys watch_next WatchesIn
  watch_keys-WatchesIn dbi [] ks ws l h a = (l, a)
  watch_keys-WatchesIn dbi (key ∷ keys) ks ws l h a =
      let (ks', e, f) = fingerprint_lem s now ks dbi key (rw l h) in
      rw e (
        watch_keys-WatchesIn dbi keys ks' _ (f.same_length ∙ l) h
          (put_watch-AllIn n dbi key _ ws h a))

  module _ (w : World) (c : Conn) (p : IsPlaced n w c) where
    with_watches-IsSound :
        (o : Option (Keyspace × Watches)) → WatchesIn n o → IsSound n (with_watches w c o)
    unfolding WatchesIn with_watches IsSound IsPlaced
    with_watches-IsSound none h = h
    with_watches-IsSound (some (ks, ws)) h = (h.0, p.1, h.1)

    watch-IsSound : (args : List Bytes) → IsSound n (watch s now w c args)
    unfolding watch IsPlaced
    watch-IsSound args = if-IsSound n (ltb (length args) 2) _ _ (unfold IsSound in p) (
        if-IsSound n c.in_multi _ _ (unfold IsSound in p) (
          with_watches-IsSound _
            (watch_keys-WatchesIn c.db_index (drop 1 args) w.keyspace c.watched p.0 p.1 p.2)))

    checked-IsSound :
        (queue : List (List Bytes)) (c' : Conn) (ks : Keyspace) (b : Bool)
        → IsPlaced n (record w { keyspace = ks }) c'
        → IsSound n (run_checked s now queue w c' (some (ks, b)))
    unfolding run_checked
    checked-IsSound queue c' ks true h = replies_of-IsSound n _ (run_queue-IsSound queue _ c' h)
    checked-IsSound queue c' ks false h = unfold IsSound in h

    exec-IsSound : IsSound n (exec s now w c)
    unfolding exec IsPlaced AllIn
    exec-IsSound =
        let (ks', e, f) = check_watched_lem s now c.watched w.keyspace (rw p.0 p.2) in
        if-IsSound n (not c.in_multi) _ _ (unfold IsSound in p) (
          if-IsSound n c.multi_error _ _ (unfold IsSound in (p.0, p.1, tt))
            (rw e (checked-IsSound c.multi_queue _ ks' _ (f.same_length ∙ p.0, p.1, tt))))

    many-IsSound : (r : World × Conn × List Frame) → IsPlaced n r.0 r.1 → IsSound n (many_of r)
    unfolding IsSound
    many-IsSound (w', c', fs) h = h

    others-IsSound :
        (args : List Bytes) (name : Bytes)
        → IsSound n (
            if is_word name "BZPOPMIN"
            then s.bzpop now w c args true
            else if is_word name "BZPOPMAX"
            then s.bzpop now w c args false
            else if is_word name "XREAD"
            then s.xread now w c args
            else one_of (s.execute now w c args))
    others-IsSound args name =
        if-IsSound n _ _ _ (fair-IsSound n w c _ (q.fair_bzpop true n now w c args p)) (
          if-IsSound n _ _ _ (fair-IsSound n w c _ (q.fair_bzpop false n now w c args p)) (
            if-IsSound n _ _ _ (fair-IsSound n w c _ (q.fair_xread n now w c args p))
              (one_of-IsSound n _ (fair-IsSound n w c _ (q.fair_execute n now w c args p)))))

    control-IsSound : (args : List Bytes) (name : Bytes) → IsSound n (control s now w c args name)
    unfolding control
    control-IsSound args name = if-IsSound n (is_word name "QUIT") _ _ (unfold IsSound in p) (
        if-IsSound n (is_word name "SUBSCRIBE") _ _
          (many-IsSound (subscribe w c args false) (subscribe-IsPlaced n w c args false p))
          (if-IsSound n (is_word name "PSUBSCRIBE") _ _
            (many-IsSound (subscribe w c args true) (subscribe-IsPlaced n w c args true p))
            (if-IsSound n (is_word name "UNSUBSCRIBE") _ _
              (many-IsSound (unsubscribe w c args false) (unsubscribe-IsPlaced n w c args false p))
              (if-IsSound n (is_word name "PUNSUBSCRIBE") _ _
                (many-IsSound (unsubscribe w c args true) (unsubscribe-IsPlaced n w c args true p))
                (if-IsSound n (is_word name "RESET") _ _
                  (one_of-IsSound n (some (reset s w c))
                    (unfold IsSound in reset-IsPlaced n s w c p))
                  (others-IsSound args name))))))

    cleared : Conn
    cleared = record c { in_multi = false; multi_error = false; multi_queue = []; watched = [] }

    cleared-IsPlaced : IsPlaced n w cleared
    unfolding IsPlaced AllIn cleared
    cleared-IsPlaced = (p.0, p.1, tt)

    discard-IsSound : IsSound n (here w (discard c))
    unfolding discard cleared
    discard-IsSound = here-IsSound n w (not c.in_multi) _ (cleared, ok) p cleared-IsPlaced

    unwatch-IsSound : IsSound n (some (w, record c { watched = [] }, one ok))
    unfolding IsSound IsPlaced AllIn
    unwatch-IsSound = (p.0, p.1, tt)

    transact-IsSound : (args : List Bytes) (name : Bytes) → IsSound n (transact s now w c args name)
    unfolding transact multi queue_command IsPlaced AllIn
    transact-IsSound args name =
        if-IsSound n (is_word name "MULTI") _ _ (here-IsSound n w c.in_multi _ _ p p) (
          if-IsSound n (is_word name "EXEC") _ _ (one_of-IsSound n _ exec-IsSound) (
            if-IsSound n (is_word name "DISCARD") _ _ discard-IsSound (
              if-IsSound n (is_word name "WATCH") _ _ (one_of-IsSound n _ (watch-IsSound args)) (
                if-IsSound n (is_word name "UNWATCH") _ _ unwatch-IsSound (
                  if-IsSound n c.in_multi _ _
                    (here-IsSound n w
                      (is_any name
                        ("SUBSCRIBE" ∷ "UNSUBSCRIBE" ∷ "PSUBSCRIBE" ∷ "PUNSUBSCRIBE" ∷ []))
                      _ _ p p)
                    (control-IsSound args name))))))

    pub handle-IsSound : (args : List Bytes) → IsSound n (handle s now w c args)
    unfolding handle
    handle-IsSound [] = unfold IsSound in p
    handle-IsSound (name ∷ args) =
        if-IsSound n (must_authenticate s c name) _ _ (unfold IsSound in p) (
          if-IsSound n (must_subscribe c name) _ _ (unfold IsSound in p)
            (transact-IsSound (name ∷ args) name))
