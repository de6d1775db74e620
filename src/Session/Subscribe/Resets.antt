-- ===== src/Session/Subscribe/Resets.antt =====
-- src/commands/mod.rs: after RESET, and after a disconnect, the client is registered nowhere.
use meebis.Base.{ℕ, ◌≡◌, refl, not, ◌&&◌, List, [], ◌∷◌, arith, ◌==◌, ==_iff}
use meebis.Base.Bytes.{Bytes}
use meebis.Base.HashSet.{HashSet, contains}
use meebis.PubSub
use meebis.PubSub.{PubSub, Registry, remove_from, remove_everywhere}
use meebis.PubSub.Registry.{
  at, IsProper, at-remove_from, remove_from-IsProper, at-remove_everywhere,
  remove_everywhere-IsProper,
}
use meebis.Session.{Conn, World, Services}
use meebis.Session.Subscribe.{leave_channels, leave_patterns, reset}
use meebis.Session.Subscribe.Follows.{Follows}
use meebis.Session.Subscribe.Moves.{Moves}

-- Taking a client away from each of some targets.
drain : Registry → ℕ → List Bytes → Registry
drain r id [] = r
drain r id (t ∷ ts) = drain (remove_from t id r) id ts

channels-leave_channels :
    (p : PubSub) (id : ℕ) (ts : List Bytes)
    → (leave_channels p id ts).channels ≡ drain p.channels id ts
unfolding leave_channels drain PubSub.unsubscribe
channels-leave_channels p id [] = refl
channels-leave_channels p id (t ∷ ts) = channels-leave_channels (PubSub.unsubscribe p t id) id ts

patterns-leave_channels :
    (p : PubSub) (id : ℕ) (ts : List Bytes) → (leave_channels p id ts).patterns ≡ p.patterns
unfolding leave_channels PubSub.unsubscribe
patterns-leave_channels p id [] = refl
patterns-leave_channels p id (t ∷ ts) = patterns-leave_channels (PubSub.unsubscribe p t id) id ts

patterns-leave_patterns :
    (p : PubSub) (id : ℕ) (ts : List Bytes)
    → (leave_patterns p id ts).patterns ≡ drain p.patterns id ts
unfolding leave_patterns drain PubSub.punsubscribe
patterns-leave_patterns p id [] = refl
patterns-leave_patterns p id (t ∷ ts) = patterns-leave_patterns (PubSub.punsubscribe p t id) id ts

channels-leave_patterns :
    (p : PubSub) (id : ℕ) (ts : List Bytes) → (leave_patterns p id ts).channels ≡ p.channels
unfolding leave_patterns PubSub.punsubscribe
channels-leave_patterns p id [] = refl
channels-leave_patterns p id (t ∷ ts) = channels-leave_patterns (PubSub.punsubscribe p t id) id ts

drain-IsProper : (id : ℕ) (ts : List Bytes) (r : Registry) → IsProper r → IsProper (drain r id ts)
unfolding drain
drain-IsProper id [] r h = h
drain-IsProper id (t ∷ ts) r h =
    drain-IsProper id ts (remove_from t id r) (remove_from-IsProper t id r h)

at-drain :
    (id i : ℕ) (t : Bytes) (ts : List Bytes) (r : Registry)
    → at (drain r id ts) t i ≡ (at r t i && not (contains ts t && id == i))
unfolding drain contains
at-drain id i t [] r = ground arith
at-drain id i t (x ∷ ts) r =
    ground (arith, at-drain id i t ts (remove_from x id r), at-remove_from r x t id i)

drain-Follows : (id : ℕ) (r : Registry) (set : HashSet) → Follows id r set (drain r id set) []
unfolding contains
drain-Follows id r set = record {
  proper = drain-IsProper id set r;
  others = λ t i h. ground (arith, at-drain id i t set r);
  own = λ h t. ground (arith, at-drain id id t set r, h t, ==_iff id id);
}

pub reset-Moves :
    (s : Services) (w : World) (c : Conn)
    → Moves c.id w.pubsub c (reset s w c).0.pubsub (reset s w c).1
unfolding reset
reset-Moves s w c = record {
  same_id = λ h. h;
  channels =
      rw
        (
          channels-leave_patterns _ c.id c.subscribed_patterns,
          channels-leave_channels w.pubsub c.id c.subscribed_channels,
        )
        (drain-Follows c.id w.pubsub.channels c.subscribed_channels);
  patterns =
      rw
        (
          patterns-leave_patterns _ c.id c.subscribed_patterns,
          patterns-leave_channels w.pubsub c.id c.subscribed_channels,
        )
        (drain-Follows c.id w.pubsub.patterns c.subscribed_patterns);
}

everywhere-Follows :
    (id : ℕ) (r : Registry) (set : HashSet)
    → IsProper r
    → Follows id r set (remove_everywhere id r) []
unfolding contains
everywhere-Follows id r set p = record {
  proper = λ h. remove_everywhere-IsProper id r h;
  others = λ t i h. ground (arith, at-remove_everywhere r t id i p.distinct);
  own = λ h t. ground (arith, at-remove_everywhere r t id id p.distinct, ==_iff id id);
}

pub remove_client-Moves :
    (id : ℕ) (p : PubSub) (c fresh : Conn)
    → fresh.id ≡ id
    → fresh.subscribed_channels ≡ []
    → fresh.subscribed_patterns ≡ []
    → IsProper p.channels
    → IsProper p.patterns
    → Moves id p c (PubSub.remove_client p id) fresh
unfolding PubSub.remove_client
remove_client-Moves id p c fresh h hc hp pc pp = record {
  same_id = λ _. h;
  channels = rw hc (everywhere-Follows id p.channels c.subscribed_channels pc);
  patterns = rw hp (everywhere-Follows id p.patterns c.subscribed_patterns pp);
}
