-- ===== src/Session/Handle/Transactions.antt =====
-- src/main.rs, src/commands/mod.rs: the requests of a connection one after the other, and a transaction
-- from MULTI to EXEC.
use meebis.Base.{
  ℕ, arith, ◌≡◌, refl, sym, Bool, true, false, not, ◌&&◌, ◌||◌, List, [], ◌∷◌, ◌++◌, append-nil,
  append_assoc, Option, none, some, ltb, if◌then◌else◌, length, replicate,
}
use meebis.Base.Bytes.{Bytes, codes, bytes_eq, to_ascii_uppercase}
use meebis.Keyspace.{Keyspace}
use meebis.Resp.Frame.{simple, ok, null_array}
use meebis.Commands.Args.{is_word}
use meebis.Session.{
  Conn, World, Services, Replied, Handled, Reply, one, close, block, multi, queue_command, is_any,
  exec, subscription_count,
}
use meebis.Session.Watching.{SameSight, AllIn, unchanged, taken, exec_lem}
use meebis.Session.Running.{one_by_one, in_array, run_queue_lem}
use meebis.Session.Handle.{handle, transact, one_of, must_authenticate, must_subscribe}

abbrev pub Served : Type 0
Served = Option (World × Conn × List Reply)

abbrev pub before : List Reply → Served → Served
before rs none = none
before rs (some (w, c, out)) = some (w, c, rs ++ out)

pub goes_on : Reply → Bool
goes_on (close f) = false
goes_on (block args deadline f) = false
goes_on _ = true

pub serve_next : Option Handled → (World → Conn → Served) → Served
unfolding goes_on
serve_next none rest = none
serve_next (some (w, c, r)) rest =
    if goes_on r then before (r ∷ []) (rest w c) else some (w, c, r ∷ [])

-- The loop over the requests that have arrived. It stops at a reply that closes the connection; one
-- that blocks is left for the caller to wait on.
pub serve : Services → ℕ → List (List Bytes) → World → Conn → Served
unfolding serve_next
serve s now [] w c = some (w, c, [])
serve s now (args ∷ requests) w c = serve_next (handle s now w c args) (serve s now requests)

-- A request that a transaction queues.
unfoldable pub IsQueued : List Bytes → Type 0
IsQueued [] = ⊥
IsQueued (name ∷ args) =
    (is_any name ("MULTI" ∷ "EXEC" ∷ "DISCARD" ∷ "WATCH" ∷ "UNWATCH" ∷ []) ≡ false)
    × (is_any name ("SUBSCRIBE" ∷ "UNSUBSCRIBE" ∷ "PSUBSCRIBE" ∷ "PUNSUBSCRIBE" ∷ []) ≡ false)

unfoldable pub AreQueued : List (List Bytes) → Type 0
unfolding IsQueued
AreQueued [] = Unit
AreQueued (cmd ∷ cmds) = IsQueued cmd × AreQueued cmds

-- A connection that the policy lets through.
pub record IsFree (s : Services) (c : Conn) : Type 0 where
  pub is_known : (s.requires_password && not c.authenticated) ≡ false
  pub is_listening : (not c.resp3 && ltb 0 (subscription_count c)) ≡ false

abbrev queuing : List (List Bytes) → Conn → Conn
queuing queue c = record c { in_multi = true; multi_queue = queue; multi_error = false }

handle_free :
    (s : Services) (now : ℕ) (w : World) (c : Conn) (name : Bytes) (args : List Bytes)
    → IsFree s c
    → handle s now w c (name ∷ args) ≡ transact s now w c (name ∷ args) name
unfolding handle must_authenticate must_subscribe
handle_free s now w c name args f = ground (arith, f.is_known, f.is_listening)

queuing-IsFree :
    (s : Services) (c : Conn) (q : List (List Bytes)) → IsFree s c → IsFree s (queuing q c)
unfolding subscription_count
queuing-IsFree s c q f = record { is_known = f.is_known; is_listening = f.is_listening }

either_false : (a b : Bool) → (a || b) ≡ false → (a ≡ false) × (b ≡ false)
either_false true b h = ground arith
either_false false b h = (refl, h)

transact_queued :
    (s : Services) (now : ℕ) (w : World) (c : Conn) (name : Bytes) (args : List Bytes)
    → c.in_multi ≡ true
    → IsQueued (name ∷ args)
    → transact s now w c (name ∷ args) name
      ≡ some (
        w,
        record c { multi_queue = c.multi_queue ++ ((name ∷ args) ∷ []) },
        one (simple "QUEUED"),
      )
unfolding IsQueued transact queue_command is_any
transact_queued s now w c name args m (h, k) =
    let (a, h1) = either_false (is_word name "MULTI") _ h in
    let (b, h2) = either_false (is_word name "EXEC") _ h1 in
    let (d, h3) = either_false (is_word name "DISCARD") _ h2 in
    let (e, h4) = either_false (is_word name "WATCH") _ h3 in
    let (g, h5) = either_false (is_word name "UNWATCH") _ h4 in simp (a, b, d, e, g, m, k)

before_none : (o : Served) → before [] o ≡ o
before_none none = refl
before_none (some (w, c, out)) = refl

before_cons :
    (r : Reply) (rs : List Reply) (o : Served) → before (r ∷ []) (before rs o) ≡ before (r ∷ rs) o
before_cons r rs none = refl
before_cons r rs (some (w, c, out)) = refl

-- Queuing appends, in order.
serve_queued :
    (s : Services) (now : ℕ) (w : World) (c : Conn) (queue cmds rest : List (List Bytes))
    → IsFree s c
    → AreQueued cmds
    → serve s now (cmds ++ rest) w (queuing queue c)
      ≡ before
          (replicate (length cmds) (one (simple "QUEUED")))
          (serve s now rest w (queuing (queue ++ cmds) c))
unfolding serve serve_next AreQueued goes_on
serve_queued s now w c queue [] rest f h = rw (append-nil queue) (sym (before_none _))
serve_queued s now w c queue ([] ∷ cmds) rest f h = unfold IsQueued in absurd h.0
serve_queued s now w c queue ((name ∷ args) ∷ cmds) rest f h =
    rw
      (
        handle_free s now w (queuing queue c) name args (queuing-IsFree s c queue f),
        transact_queued s now w (queuing queue c) name args refl h.0,
        serve_queued s now w c (queue ++ ((name ∷ args) ∷ [])) cmds rest f h.1,
        append_assoc queue ((name ∷ args) ∷ []) cmds,
      )
      (before_cons _ _ _)

abbrev pub finished : List (List Bytes) → Option Replied → Served
finished cmds none = none
finished cmds (some (w, c, f)) =
    some (w, c, one ok ∷ (replicate (length cmds) (one (simple "QUEUED")) ++ (one f ∷ [])))

ended : Option Replied → Served
ended none = none
ended (some (w, c, f)) = some (w, c, one f ∷ [])

before-ended :
    (cmds : List (List Bytes)) (o : Option Replied)
    → before (one ok ∷ []) (before (replicate (length cmds) (one (simple "QUEUED"))) (ended o))
      ≡ finished cmds o
unfolding ended
before-ended cmds none = refl
before-ended cmds (some (w, c, f)) = refl

serve-multi :
    (s : Services) (now : ℕ) (w : World) (c : Conn) (rest : List (List Bytes))
    → c.in_multi ≡ false
    → IsFree s c
    → serve s now ((codes "MULTI" ∷ []) ∷ rest) w c
      ≡ before (one ok ∷ []) (serve s now rest w (queuing [] c))
unfolding serve serve_next goes_on transact multi is_word bytes_eq to_ascii_uppercase
serve-multi s now w c rest m f = rw (handle_free s now w c (codes "MULTI") [] f, m) refl

serve_next-one_of :
    (s : Services) (now : ℕ) (o : Option Replied) → serve_next (one_of o) (serve s now []) ≡ ended o
unfolding serve serve_next goes_on one_of ended
serve_next-one_of s now none = refl
serve_next-one_of s now (some (w, c, f)) = refl

serve-exec :
    (s : Services) (now : ℕ) (w : World) (c : Conn)
    → IsFree s c
    → serve s now ((codes "EXEC" ∷ []) ∷ []) w c ≡ ended (exec s now w c)
unfolding serve transact exec is_word bytes_eq to_ascii_uppercase
serve-exec s now w c f =
    rw (handle_free s now w c (codes "EXEC") [] f) (serve_next-one_of s now (exec s now w c))

-- MULTI, then requests that a transaction queues, then EXEC, from a connection that is outside a
-- transaction and that the policy lets through, with watches on databases that exist. The replies are
-- OK, QUEUED for each request and last that of EXEC. Where every watched key is as WATCH kept it, there
-- with the same digest or still missing, the requests have then run one after the other, in their
-- order, and their replies are that last reply's elements; else it is a null array, and nothing that a
-- client can see has changed.
pub transaction_lem :
    (s : Services) (now : ℕ) (w : World) (c : Conn) (cmds : List (List Bytes))
    → c.in_multi ≡ false
    → IsFree s c
    → AreQueued cmds
    → AllIn c.watched (length w.keyspace)
    → (ks' : Keyspace) × SameSight now w.keyspace ks'
      × (serve s now ((codes "MULTI" ∷ []) ∷ (cmds ++ ((codes "EXEC" ∷ []) ∷ []))) w c
          ≡ finished cmds (
              if unchanged s now c.watched w.keyspace
              then in_array
                  (one_by_one (s.execute now) (record w { keyspace = ks' }) (taken c) [] cmds)
              else some (record w { keyspace = ks' }, taken c, null_array)))
transaction_lem s now w c cmds m f h a =
    let (ks', same, e) = exec_lem s now w (queuing cmds c) refl refl a in
    (
      ks',
      same,
      rw
          (
            serve-multi s now w c (cmds ++ ((codes "EXEC" ∷ []) ∷ [])) m f,
            serve_queued s now w c [] cmds ((codes "EXEC" ∷ []) ∷ []) f h,
            serve-exec s now w (queuing cmds c) (queuing-IsFree s c cmds f),
            e,
            run_queue_lem s now cmds (record w { keyspace = ks' }) (taken c),
          )
          (before-ended cmds _),
    )
