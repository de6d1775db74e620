-- ===== src/Session/Handle.antt =====
-- src/commands/mod.rs: `handle`, the entry point of a request, and the requests of several connections
-- one after the other.
pub mod Moves
pub mod Sound
pub mod Transactions
use Prim.Native.String.{◌++◌ as ◌<>◌}
use meebis.Base.{
  ℕ, Bool, true, false, not, ◌&&◌, String, List, [], ◌∷◌, Option, none, some, ltb, ◌==◌,
  if◌then◌else◌, length,
}
use meebis.Base.Bytes.{Bytes}
use meebis.Resp.Frame.{Frame, error, ok, err}
use meebis.PubSub
use meebis.Commands.Args.{is_word}
use meebis.Session.{
  Conn, World, Services, Reply, blank, one, many, close, Replied, Handled, multi, discard, watch,
  exec, queue_command, is_any, subscription_count,
}
use meebis.Session.Subscribe.{subscribe, unsubscribe, reset}

pub allowed_in_subscribe : Bytes → Bool
unfolding is_any
allowed_in_subscribe name =
    is_any name
      ("SUBSCRIBE" ∷ "UNSUBSCRIBE" ∷ "PSUBSCRIBE" ∷ "PUNSUBSCRIBE" ∷ "PING" ∷ "QUIT" ∷ "RESET" ∷ [])

pub one_of : Option Replied → Option Handled
one_of none = none
one_of (some (w, c, f)) = some (w, c, one f)

abbrev here : World → Conn × Frame → Option Handled
here w (c, f) = some (w, c, one f)

abbrev many_of : World × Conn × List Frame → Option Handled
many_of (w, c, fs) = some (w, c, many fs)

-- The commands that control the connection, then the rest.
pub control : Services → ℕ → World → Conn → List Bytes → Bytes → Option Handled
unfolding one_of
control s now w c args name =
    if is_word name "QUIT"
    then some (w, c, close ok)
    else if is_word name "SUBSCRIBE"
    then many_of (subscribe w c args false)
    else if is_word name "PSUBSCRIBE"
    then many_of (subscribe w c args true)
    else if is_word name "UNSUBSCRIBE"
    then many_of (unsubscribe w c args false)
    else if is_word name "PUNSUBSCRIBE"
    then many_of (unsubscribe w c args true)
    else if is_word name "RESET"
    then one_of (some (reset s w c))
    else if is_word name "BZPOPMIN"
    then s.bzpop now w c args true
    else if is_word name "BZPOPMAX"
    then s.bzpop now w c args false
    else if is_word name "XREAD"
    then s.xread now w c args
    else one_of (s.execute now w c args)

-- Transaction control and queuing.
pub transact : Services → ℕ → World → Conn → List Bytes → Bytes → Option Handled
unfolding control
transact s now w c args name =
    if is_word name "MULTI"
    then here w (multi c)
    else if is_word name "EXEC"
    then one_of (exec s now w c)
    else if is_word name "DISCARD"
    then here w (discard c)
    else if is_word name "WATCH"
    then one_of (watch s now w c args)
    else if is_word name "UNWATCH"
    then here w (record c { watched = [] }, ok)
    else if c.in_multi
    then here w (queue_command s c args name)
    else control s now w c args name

pub no_auth : Frame
no_auth = error "NOAUTH Authentication required."

-- The authentication gate.
pub must_authenticate : Services → Conn → Bytes → Bool
must_authenticate s c name =
    s.requires_password
    && not c.authenticated
    && not (is_any name ("AUTH" ∷ "HELLO" ∷ "QUIT" ∷ "RESET" ∷ []))

pub must_subscribe : Conn → Bytes → Bool
unfolding allowed_in_subscribe
must_subscribe c name =
    not c.resp3 && ltb 0 (subscription_count c) && not (allowed_in_subscribe name)

pub subscribe_only : String → Frame
subscribe_only name = err (
    "Can't execute '"
    <> (name
        <> "': only (P|S)SUBSCRIBE / (P|S)UNSUBSCRIBE / PING / QUIT / RESET are allowed in this context"))

pub handle : Services → ℕ → World → Conn → List Bytes → Option Handled
unfolding must_authenticate must_subscribe subscribe_only transact no_auth
handle s now w c [] = some (w, c, blank)
handle s now w c (name ∷ args) =
    if must_authenticate s c name
    then some (w, c, one no_auth)
    else if must_subscribe c name
    then some (w, c, one (subscribe_only (s.lower_text name)))
    else transact s now w c (name ∷ args) name
