-- ===== src/Session/System.antt =====
-- src/main.rs: the connections as the server holds them, and the requests of all of them in the order
-- in which they are handled. A connection that nobody uses yet stands in its first state. A connection
-- that broke keeps its last state, although the task that held it is gone: nothing happens to it.
pub mod Agreement
pub mod Delivery
pub mod Totals
use meebis.Base.{ℕ, Bool, true, false, List, [], ◌∷◌, Option, none, some, ◌==◌, if◌then◌else◌}
use meebis.Base.Bytes.{Bytes}
use meebis.Keyspace.{Keyspace}
use meebis.PubSub
use meebis.PubSub.{PubSub}
use meebis.Session.{Conn, World, Services, Handled}
use meebis.Session.Handle.{handle}

pub record System : Type 0 where
  pub world : World
  pub conns : ℕ → Conn
  pub broken : ℕ → Bool

-- The state that `handle_connection` starts with.
unfoldable pub connected : ℕ → Conn
connected id = record {
  id = id;
  name = [];
  resp3 = false;
  db_index = 0;
  authenticated = false;
  subscribed_channels = [];
  subscribed_patterns = [];
  in_multi = false;
  multi_queue = [];
  multi_error = false;
  watched = [];
}

unfoldable pub start : Keyspace → System
unfolding connected
start ks = record {
  world = record { keyspace = ks; pubsub = PubSub.new; sent = [] };
  conns = connected;
  broken = λ id. false;
}

pub data Event : Type 0 where
  request : ℕ → ℕ → List Bytes → Event
  disconnect : ℕ → Event
  fail : ℕ → Event

pub put_conn : ℕ → Conn → (ℕ → Conn) → ℕ → Conn
put_conn id c conns i = if i == id then c else conns i

pub after : System → ℕ → Option Handled → Option System
unfolding put_conn
after sys id none = none
after sys id (some (w, c, r)) = some (record sys { world = w; conns = put_conn id c sys.conns })

-- The tear-down behind the loop.
pub torn_down : System → ℕ → System
unfolding put_conn connected
torn_down sys id = record sys {
  world = record (sys.world) { pubsub = PubSub.remove_client sys.world.pubsub id };
  conns = put_conn id (connected id) sys.conns;
}

-- A read or write error: the loop is left with `?`, and the tear-down is not reached.
pub failed : System → ℕ → System
failed sys id = record sys { broken = λ i. if i == id then true else sys.broken i }

-- `request` and `disconnect` are the loop and its regular end, `fail` is an error.
pub step : Services → System → Event → Option System
unfolding after torn_down failed
step s sys (request id now args) =
    if sys.broken id then some sys else after sys id (handle s now sys.world (sys.conns id) args)
step s sys (disconnect id) = some (if sys.broken id then sys else torn_down sys id)
step s sys (fail id) = some (failed sys id)

pub and_then : Option System → (System → Option System) → Option System
and_then none k = none
and_then (some sys) k = k sys

pub run : Services → List Event → System → Option System
unfolding step and_then
run s [] sys = some sys
run s (e ∷ es) sys = and_then (step s sys e) (run s es)
