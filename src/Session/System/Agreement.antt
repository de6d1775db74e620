-- ===== src/Session/System/Agreement.antt =====
-- src/main.rs, src/commands/mod.rs, src/pubsub.rs: the connections' subscriptions against the registry.
use meebis.Base.{
  ℕ, ◌≡◌, refl, ◌∙◌, true, false, List, [], ◌∷◌, Option, none, some, arith, ◌==◌, Bool-cases, inl,
  inr,
}
use meebis.Base.Bytes.{Bytes}
use meebis.Base.HashSet.{contains}
use meebis.Keyspace.{Keyspace}
use meebis.PubSub.Registry.{at, at_empty, IsProper, empty-IsProper}
use meebis.Session.{Conn, World, Services, Handled}
use meebis.Session.Handle.Moves.{AreQuiet, MovesTo, handle-MovesTo}
use meebis.Session.Subscribe.Moves.{Moves, Moves-by}
use meebis.Session.Subscribe.Resets.{remove_client-Moves}
use meebis.Session.System.{
  System, Event, request, disconnect, fail, connected, start, put_conn, after, torn_down, failed,
  step, and_then, run,
}

-- A client is registered at a target just where its connection has it in its set, and a frame goes to
-- nobody twice.
pub record Agrees (sys : System) : Type 0 where
  pub ids : (i : ℕ) → (sys.conns i).id ≡ i
  pub channels :
      (i : ℕ) (t : Bytes)
      → at sys.world.pubsub.channels t i ≡ contains (sys.conns i).subscribed_channels t
  pub patterns :
      (i : ℕ) (t : Bytes)
      → at sys.world.pubsub.patterns t i ≡ contains (sys.conns i).subscribed_patterns t
  pub proper_channels : IsProper sys.world.pubsub.channels
  pub proper_patterns : IsProper sys.world.pubsub.patterns

pub start-Agrees : (ks : Keyspace) → Agrees (start ks)
unfolding start connected contains
start-Agrees ks = record {
  ids = λ i. refl;
  channels = λ i t. at_empty t i;
  patterns = λ i t. at_empty t i;
  proper_channels = empty-IsProper;
  proper_patterns = empty-IsProper;
}

eq_of : (i id : ℕ) → (i == id) ≡ true → i ≡ id
eq_of i id h = ground arith

swapped_ids : (i id : ℕ) → (i == id) ≡ false → (id == i) ≡ false
swapped_ids i id h = ground arith

-- One client moves, the others stay.
moved-Agrees :
    (sys : System) (id : ℕ) (w : World) (c : Conn)
    → Agrees sys
    → Moves id sys.world.pubsub (sys.conns id) w.pubsub c
    → Agrees (record sys { world = w; conns = put_conn id c sys.conns })
unfolding put_conn
moved-Agrees sys id w c a m = record {
  ids = λ i. elim (Bool-cases (i == id)) [
    | inl y ↦ rw (y, eq_of i id y) (m.same_id (a.ids id))
    | inr n ↦ rw n (a.ids i)
  ];
  channels = λ i t. elim (Bool-cases (i == id)) [
    | inl y ↦ rw (y, eq_of i id y) (m.channels.own (λ t'. a.channels id t') t)
    | inr n ↦ rw n (m.channels.others t i (swapped_ids i id n) ∙ a.channels i t)
  ];
  patterns = λ i t. elim (Bool-cases (i == id)) [
    | inl y ↦ rw (y, eq_of i id y) (m.patterns.own (λ t'. a.patterns id t') t)
    | inr n ↦ rw n (m.patterns.others t i (swapped_ids i id n) ∙ a.patterns i t)
  ];
  proper_channels = m.channels.proper a.proper_channels;
  proper_patterns = m.patterns.proper a.proper_patterns;
}

unfoldable pub AgreesTo : Option System → Type 0
AgreesTo none = Unit
AgreesTo (some sys) = Agrees sys

after-AgreesTo :
    (sys : System) (id : ℕ) (o : Option Handled)
    → Agrees sys
    → MovesTo sys.world (sys.conns id) o
    → AgreesTo (after sys id o)
unfolding AgreesTo after MovesTo
after-AgreesTo sys id none a m = tt
after-AgreesTo sys id (some (w, c, r)) a m =
    moved-Agrees sys id w c a (Moves-by _ id _ _ _ _ (a.ids id) m)

and_then-AgreesTo :
    (o : Option System) (k : System → Option System)
    → AgreesTo o
    → ((sys : System) → Agrees sys → AgreesTo (k sys))
    → AgreesTo (and_then o k)
unfolding AgreesTo and_then
and_then-AgreesTo none k a h = tt
and_then-AgreesTo (some sys) k a h = h sys a

torn_down-Agrees : (sys : System) (id : ℕ) → Agrees sys → Agrees (torn_down sys id)
unfolding torn_down connected
torn_down-Agrees sys id a = moved-Agrees sys id _ (connected id) a (
    remove_client-Moves id _ (sys.conns id) (connected id) refl refl refl a.proper_channels
      a.proper_patterns)

failed-Agrees : (sys : System) (id : ℕ) → Agrees sys → Agrees (failed sys id)
unfolding failed
failed-Agrees sys id a = record {
  ids = a.ids;
  channels = a.channels;
  patterns = a.patterns;
  proper_channels = a.proper_channels;
  proper_patterns = a.proper_patterns;
}

module _ (s : Services) (q : AreQuiet s) where
  step-AgreesTo : (e : Event) (sys : System) → Agrees sys → AgreesTo (step s sys e)
  unfolding step AgreesTo
  step-AgreesTo (request id now args) sys a = elim (Bool-cases (sys.broken id)) [
    | inl y ↦ rw y a
    | inr n ↦
        rw n (after-AgreesTo sys id _ a (handle-MovesTo s q now sys.world (sys.conns id) args))
  ]
  step-AgreesTo (disconnect id) sys a = elim (Bool-cases (sys.broken id)) [
    | inl y ↦ rw y a
    | inr n ↦ rw n (torn_down-Agrees sys id a)
  ]
  step-AgreesTo (fail id) sys a = failed-Agrees sys id a

  pub run-AgreesTo : (es : List Event) (sys : System) → Agrees sys → AgreesTo (run s es sys)
  unfolding run
  run-AgreesTo [] sys a = unfold AgreesTo in a
  run-AgreesTo (e ∷ es) sys a =
      and_then-AgreesTo (step s sys e) (run s es) (step-AgreesTo e sys a) (run-AgreesTo es)
