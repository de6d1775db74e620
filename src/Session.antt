-- ===== src/Session.antt =====
-- src/server.rs, src/commands/mod.rs: a connection's state and `handle`, which applies the
-- connection's policy to a request: authentication, subscribe mode, transactions, subscriptions. A
-- request runs at one time `now`. `none` is a panic. The address that `CLIENT LIST` shows is left out;
-- the sender `tx` is the connection's id.
pub mod Subscribe
pub mod Handle
pub mod Dispatch
pub mod System
pub mod Running
pub mod Watching
mod Tests
use Prim.Native.String.{◌++◌ as ◌<>◌}
use meebis.Base.{
  ℕ, ◌+◌, Bool, true, false, not, ◌&&◌, ◌||◌, String, List, [], ◌∷◌, ◌++◌, map, Option, none, some,
  ltb, ◌==◌, if◌then◌else◌, length, drop,
}
use meebis.Base.Bytes.{Bytes, codes, bytes_eq}
use meebis.Base.HashSet
use meebis.Base.HashSet.{HashSet}
use meebis.Resp.Frame.{
  Frame, Frames, nil, cons, simple, error, integer, bulk, null, null_array, array, push, ok, err,
  count,
}
use meebis.Db
use meebis.Db.{Db, Value, is_some}
use meebis.Keyspace
use meebis.Keyspace.{Keyspace}
use meebis.PubSub
use meebis.PubSub.{PubSub}
use meebis.Commands.Args.{wrong_args, is_word, upper}

-- `HashMap<(usize, Bytes), (bool, u64)>`
abbrev pub Watches : Type 0
Watches = List ((ℕ × Bytes) × (Bool × ℕ))

pub record Conn : Type 0 where
  pub id : ℕ
  pub name : Bytes
  pub resp3 : Bool
  pub db_index : ℕ
  pub authenticated : Bool
  pub subscribed_channels : HashSet
  pub subscribed_patterns : HashSet
  pub in_multi : Bool
  pub multi_queue : List (List Bytes)
  pub multi_error : Bool
  pub watched : Watches

unfoldable pub subscription_count : Conn → ℕ
subscription_count c = length c.subscribed_channels + length c.subscribed_patterns

-- What the connections share. `sent` is the frames that were handed to the connections' senders.
pub record World : Type 0 where
  pub keyspace : Keyspace
  pub pubsub : PubSub
  pub sent : List (ℕ × Frame)

abbrev pub Replied : Type 0
Replied = World × Conn × Frame

pub data Reply : Type 0 where
  blank : Reply
  one : Frame → Reply
  many : List Frame → Reply
  close : Frame → Reply
  block : List Bytes → Option ℕ → Frame → Reply

abbrev pub Handled : Type 0
Handled = World × Conn × Reply

-- What a session takes from elsewhere: the data commands (`execute`), the ones that may block, the
-- digest of a value, whether a password is set, and the text of a command's name.
pub record Services : Type 0 where
  pub execute : ℕ → World → Conn → List Bytes → Option Replied
  pub bzpop : ℕ → World → Conn → List Bytes → Bool → Option Handled
  pub xread : ℕ → World → Conn → List Bytes → Option Handled
  pub digest : Value → ℕ
  pub requires_password : Bool
  pub text : Bytes → String
  pub lower_text : Bytes → String

-- Transactions.
pub multi : Conn → Conn × Frame
multi c =
    if c.in_multi
    then (c, err "MULTI calls can not be nested")
    else (record c { in_multi = true; multi_error = false; multi_queue = [] }, ok)

pub discard : Conn → Conn × Frame
discard c =
    if not c.in_multi
    then (c, err "DISCARD without MULTI")
    else (record c { in_multi = false; multi_error = false; multi_queue = []; watched = [] }, ok)

pub is_any : Bytes → List String → Bool
is_any name [] = false
is_any name (w ∷ ws) = is_word name w || is_any name ws

pub queue_command : Services → Conn → List Bytes → Bytes → Conn × Frame
unfolding is_any
queue_command s c args name =
    if is_any name ("SUBSCRIBE" ∷ "UNSUBSCRIBE" ∷ "PSUBSCRIBE" ∷ "PUNSUBSCRIBE" ∷ [])
    then (record c { multi_error = true }, err (s.text name <> " is not allowed in transactions"))
    else (record c { multi_queue = c.multi_queue ++ (args ∷ []) }, simple "QUEUED")

-- `db.fingerprint(key)`, as the pair that WATCH keeps.
unfoldable pub snapshot : (Value → ℕ) → Option Value → Bool × ℕ
snapshot digest none = (false, 0)
snapshot digest (some v) = (true, digest v)

print_of : Services → ℕ → Keyspace → ℕ → Bytes → Option Db → Option (Keyspace × (Bool × ℕ))
unfolding snapshot
print_of s now ks dbi key none = none
print_of s now ks dbi key (some db) =
    let (db', v) = Db.get now db key in some (Keyspace.put_db ks dbi db', snapshot s.digest v)

pub fingerprint : Services → ℕ → Keyspace → ℕ → Bytes → Option (Keyspace × (Bool × ℕ))
unfolding print_of
fingerprint s now ks dbi key = print_of s now ks dbi key (Keyspace.db ks dbi)

pub put_watch : ℕ → Bytes → Bool × ℕ → Watches → Watches
put_watch dbi key p [] = ((dbi, key), p) ∷ []
put_watch dbi key p (((d, k), q) ∷ ws) =
    let rest = put_watch dbi key p ws in
    if d == dbi && bytes_eq k key then ((dbi, key), p) ∷ ws else ((d, k), q) ∷ rest

watch_next :
    Option (Keyspace × (Bool × ℕ))
    → (Keyspace → Bool × ℕ → Option (Keyspace × Watches))
    → Option (Keyspace × Watches)
watch_next none rest = none
watch_next (some (ks, p)) rest = rest ks p

pub watch_keys : Services → ℕ → ℕ → List Bytes → Keyspace → Watches → Option (Keyspace × Watches)
unfolding fingerprint put_watch watch_next
watch_keys s now dbi [] ks ws = some (ks, ws)
watch_keys s now dbi (key ∷ keys) ks ws =
    watch_next (fingerprint s now ks dbi key)
      λ ks' p. watch_keys s now dbi keys ks' (put_watch dbi key p ws)

with_watches : World → Conn → Option (Keyspace × Watches) → Option Replied
with_watches w c none = none
with_watches w c (some (ks, ws)) = some (record w { keyspace = ks }, record c { watched = ws }, ok)

pub watch : Services → ℕ → World → Conn → List Bytes → Option Replied
unfolding watch_keys with_watches
watch s now w c args =
    if ltb (length args) 2
    then some (w, c, wrong_args "watch")
    else if c.in_multi
    then some (w, c, err "WATCH inside MULTI is not allowed")
    else with_watches w c (watch_keys s now c.db_index (drop 1 args) w.keyspace c.watched)

abbrev pub prints_eq : Bool × ℕ → Bool × ℕ → Bool
prints_eq (true, a) (true, b) = a == b
prints_eq (false, a) (false, b) = a == b
prints_eq _ _ = false

check_next :
    Bool × ℕ
    → Option (Keyspace × (Bool × ℕ))
    → (Keyspace → Option (Keyspace × Bool))
    → Option (Keyspace × Bool)
check_next p none rest = none
check_next p (some (ks, q)) rest = if prints_eq q p then rest ks else some (ks, false)

-- The loop over the watched keys: whether none of them changed. It stops at the first that did.
pub check_watched : Services → ℕ → Watches → Keyspace → Option (Keyspace × Bool)
unfolding fingerprint check_next
check_watched s now [] ks = some (ks, true)
check_watched s now (((dbi, key), p) ∷ ws) ks =
    check_next p (fingerprint s now ks dbi key) (check_watched s now ws)

pub push_reply : Frame → Option (World × Conn × Frames) → Option (World × Conn × Frames)
push_reply f none = none
push_reply f (some (w, c, fs)) = some (w, c, cons f fs)

pub run_next :
    Option Replied
    → (World → Conn → Option (World × Conn × Frames))
    → Option (World × Conn × Frames)
unfolding push_reply
run_next none rest = none
run_next (some (w, c, f)) rest = push_reply f (rest w c)

-- The queued commands one after the other.
pub run_queue : Services → ℕ → List (List Bytes) → World → Conn → Option (World × Conn × Frames)
unfolding run_next
run_queue s now [] w c = some (w, c, nil)
run_queue s now (cmd ∷ queue) w c = run_next (s.execute now w c cmd) (run_queue s now queue)

pub replies_of : Option (World × Conn × Frames) → Option Replied
replies_of none = none
replies_of (some (w, c, fs)) = some (w, c, array fs)

run_checked :
    Services → ℕ → List (List Bytes) → World → Conn → Option (Keyspace × Bool) → Option Replied
unfolding run_queue replies_of
run_checked s now queue w c none = none
run_checked s now queue w c (some (ks, false)) = some (record w { keyspace = ks }, c, null_array)
run_checked s now queue w c (some (ks, true)) =
    replies_of (run_queue s now queue (record w { keyspace = ks }) c)

pub exec_abort : Frame
exec_abort = error "EXECABORT Transaction discarded because of previous errors."

pub exec : Services → ℕ → World → Conn → Option Replied
unfolding check_watched run_checked exec_abort
exec s now w c =
    let taken : Conn = record c { in_multi = false; multi_queue = []; watched = [] } in
    if not c.in_multi
    then some (w, c, err "EXEC without MULTI")
    else if c.multi_error
    then some (w, record taken { multi_error = false }, exec_abort)
    else run_checked s now c.multi_queue w taken (check_watched s now c.watched w.keyspace)
