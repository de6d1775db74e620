-- ===== src/Session/System/Totals.antt =====
-- src/main.rs, src/commands/mod.rs: panics, and the databases of the connections, over a run of events.
use meebis.Base.{
  ℕ, ◌<◌, ◌≡◌, refl, List, [], ◌∷◌, Option, none, some, arith, ◌==◌, length, Bool-cases, inl, inr,
}
use meebis.Keyspace.{Keyspace}
use meebis.PubSub
use meebis.PubSub.{PubSub}
use meebis.Session.{Conn, World, Services, Handled}
use meebis.Session.Watching.{AllIn}
use meebis.Session.Dispatch.Sound.{IsPlaced}
use meebis.Session.Handle.Moves.{AreQuiet}
use meebis.Session.Handle.Sound.{IsSound, AreSound, handle-IsSound}
use meebis.Session.System.{
  System, Event, request, disconnect, fail, connected, start, put_conn, after, torn_down, failed,
  step, and_then, run,
}
use meebis.Session.System.Agreement.{Agrees, AgreesTo, start-Agrees, run-AgreesTo}

-- Every connection's databases are among the `n` that there are.
pub AllPlaced : ℕ → System → Type 0
AllPlaced n sys = (i : ℕ) → IsPlaced n sys.world (sys.conns i)

-- A result in which that holds.
PlacedTo : ℕ → Option System → Type 0
unfolding AllPlaced
PlacedTo n none = ⊥
PlacedTo n (some sys) = AllPlaced n sys

-- Another world with as many databases.
moved-IsPlaced :
    (n : ℕ) (w w' : World) (c c' : Conn) → IsPlaced n w c → IsPlaced n w' c' → IsPlaced n w' c
unfolding IsPlaced
moved-IsPlaced n w w' c c' h k = (k.0, h.1, h.2)

put_conn-AllPlaced :
    (n : ℕ) (sys : System) (id : ℕ) (w : World) (c : Conn)
    → AllPlaced n sys
    → IsPlaced n w c
    → AllPlaced n (record sys { world = w; conns = put_conn id c sys.conns })
unfolding AllPlaced put_conn
put_conn-AllPlaced n sys id w c a p i = elim (Bool-cases (i == id)) [
  | inl y ↦ rw y p
  | inr b ↦ rw b (moved-IsPlaced n sys.world w (sys.conns i) c (a i) p)
]

after-PlacedTo :
    (n : ℕ) (sys : System) (id : ℕ) (o : Option Handled)
    → AllPlaced n sys
    → IsSound n o
    → PlacedTo n (after sys id o)
unfolding PlacedTo after IsSound
after-PlacedTo n sys id none a h = h
after-PlacedTo n sys id (some (w, c, r)) a h = put_conn-AllPlaced n sys id w c a h

disconnected-IsPlaced :
    (n : ℕ) (sys : System) (id : ℕ)
    → AllPlaced n sys
    → IsPlaced n
        (record (sys.world) { pubsub = PubSub.remove_client sys.world.pubsub id })
        (connected id)
unfolding AllPlaced IsPlaced AllIn connected
disconnected-IsPlaced n sys id a =
    let below : (sys.conns id).db_index < n = (a id).1 in ((a id).0, omega (arith, below), tt)

torn_down-AllPlaced :
    (n : ℕ) (sys : System) (id : ℕ) → AllPlaced n sys → AllPlaced n (torn_down sys id)
unfolding torn_down
torn_down-AllPlaced n sys id a =
    put_conn-AllPlaced n sys id
      (record (sys.world) { pubsub = PubSub.remove_client sys.world.pubsub id }) (connected id) a
      (disconnected-IsPlaced n sys id a)

module _ (s : Services) (q : AreSound s) (n : ℕ) where
  step-PlacedTo : (e : Event) (sys : System) → AllPlaced n sys → PlacedTo n (step s sys e)
  unfolding step PlacedTo
  step-PlacedTo (request id now args) sys a = elim (Bool-cases (sys.broken id)) [
    | inl y ↦ rw y a
    | inr b ↦ rw b (
        after-PlacedTo n sys id _ a
          (handle-IsSound s q now n sys.world (sys.conns id) (unfold AllPlaced in a id) args))
  ]
  step-PlacedTo (disconnect id) sys a = elim (Bool-cases (sys.broken id)) [
    | inl y ↦ rw y a
    | inr b ↦ rw b (torn_down-AllPlaced n sys id a)
  ]
  step-PlacedTo (fail id) sys a = unfold failed AllPlaced in a

  then-PlacedTo :
      (o : Option System) (k : System → Option System)
      → PlacedTo n o
      → ((sys : System) → AllPlaced n sys → PlacedTo n (k sys))
      → PlacedTo n (and_then o k)
  unfolding PlacedTo and_then
  then-PlacedTo none k h t = h
  then-PlacedTo (some sys) k h t = t sys h

  run-PlacedTo : (es : List Event) (sys : System) → AllPlaced n sys → PlacedTo n (run s es sys)
  unfolding run
  run-PlacedTo [] sys a = unfold PlacedTo in a
  run-PlacedTo (e ∷ es) sys a =
      then-PlacedTo (step s sys e) (run s es) (step-PlacedTo e sys a) (run-PlacedTo es)

reached :
    (n : ℕ) (o : Option System)
    → PlacedTo n o
    → AgreesTo o
    → (sys : System) × (o ≡ some sys) × AllPlaced n sys × Agrees sys
unfolding PlacedTo AgreesTo
reached n none h a = absurd h
reached n (some sys) h a = (sys, refl, h, a)

-- From the start of a server with at least one database, with data commands that do not panic where the
-- connection's databases exist, keep them, and leave subscriptions alone: any requests, disconnects and
-- failures of connections run without a panic. Afterwards every connection's databases still exist, and
-- a client is registered at a channel, or with a pattern, just where its connection counts it as
-- subscribed, nobody twice. For a connection that broke this is its last state: it stays registered.
pub run_lem :
    (s : Services) (ks : Keyspace) (es : List Event)
    → AreSound s
    → AreQuiet s
    → 0 < length ks
    → (sys : System) × (run s es (start ks) ≡ some sys) × AllPlaced (length ks) sys × Agrees sys
unfolding AllPlaced IsPlaced AllIn start connected
run_lem s ks es q quiet h =
    reached (length ks) (run s es (start ks))
      (run-PlacedTo s q (length ks) es (start ks) (λ i. (refl, h, tt)))
      (run-AgreesTo s quiet es (start ks) (start-Agrees ks))
