-- ===== src/Session/Subscribe.antt =====
-- src/commands/mod.rs: subscriptions and RESET, which change a connection and the registry together.
pub mod Follows
pub mod Moves
pub mod Resets
pub mod Placed
use Prim.Native.String.{◌++◌ as ◌<>◌}
use meebis.Base.{
  ℕ, Bool, true, false, ◌&&◌, String, List, [], ◌∷◌, ◌++◌, Option, none, some, ltb, ◌==◌,
  if◌then◌else◌, length, drop,
}
use meebis.Base.Bytes.{Bytes, codes}
use meebis.Base.HashSet
use meebis.Base.HashSet.{HashSet}
use meebis.Resp.Frame.{
  Frame, Frames, nil, cons, simple, integer, bulk, bulks, null, array, push, err, count,
}
use meebis.PubSub
use meebis.PubSub.{PubSub}
use meebis.Commands.Args.{wrong_args, is_word}
use meebis.Session.{Conn, World, Services, Replied, subscription_count}

-- `if conn.subscribed_channels.insert(target) { pubsub.subscribe(target, conn.id) }`
joined : World → Conn → Bytes → HashSet × Bool → World × Conn
joined w c target (set, false) = (w, record c { subscribed_channels = set })
joined w c target (set, true) = (
  record w { pubsub = PubSub.subscribe w.pubsub target c.id },
  record c { subscribed_channels = set },
)

pjoined : World → Conn → Bytes → HashSet × Bool → World × Conn
pjoined w c target (set, false) = (w, record c { subscribed_patterns = set })
pjoined w c target (set, true) = (
  record w { pubsub = PubSub.psubscribe w.pubsub target c.id },
  record c { subscribed_patterns = set },
)

pub join : World → Conn → Bytes → Bool → World × Conn
unfolding joined pjoined
join w c target false = joined w c target (HashSet.insert c.subscribed_channels target)
join w c target true = pjoined w c target (HashSet.insert c.subscribed_patterns target)

left : World → Conn → Bytes → HashSet × Bool → World × Conn
left w c target (set, false) = (w, record c { subscribed_channels = set })
left w c target (set, true) = (
  record w { pubsub = PubSub.unsubscribe w.pubsub target c.id },
  record c { subscribed_channels = set },
)

pleft : World → Conn → Bytes → HashSet × Bool → World × Conn
pleft w c target (set, false) = (w, record c { subscribed_patterns = set })
pleft w c target (set, true) = (
  record w { pubsub = PubSub.punsubscribe w.pubsub target c.id },
  record c { subscribed_patterns = set },
)

pub leave : World → Conn → Bytes → Bool → World × Conn
unfolding left pleft
leave w c target false = left w c target (HashSet.remove c.subscribed_channels target)
leave w c target true = pleft w c target (HashSet.remove c.subscribed_patterns target)

confirmation : String → Frame → Conn → Frame
confirmation kind target c =
    push (cons (bulk (codes kind)) (cons target (cons (count (subscription_count c)) nil)))

pub join_all : World → Conn → List Bytes → String → Bool → World × Conn × List Frame
unfolding join confirmation
join_all w c [] kind pattern' = (w, c, [])
join_all w c (target ∷ targets) kind pattern' =
    let (w1, c1) = join w c target pattern' in
    let (w2, c2, out) = join_all w1 c1 targets kind pattern' in
    (w2, c2, confirmation kind (bulk target) c1 ∷ out)

pub leave_all : World → Conn → List Bytes → String → Bool → World × Conn × List Frame
unfolding leave confirmation
leave_all w c [] kind pattern' = (w, c, [])
leave_all w c (target ∷ targets) kind pattern' =
    let (w1, c1) = leave w c target pattern' in
    let (w2, c2, out) = leave_all w1 c1 targets kind pattern' in
    (w2, c2, confirmation kind (bulk target) c1 ∷ out)

pub subscribe : World → Conn → List Bytes → Bool → World × Conn × List Frame
unfolding join_all
subscribe w c args pattern' =
    let kind : String = if pattern' then "psubscribe" else "subscribe" in
    if ltb (length args) 2
    then (w, c, wrong_args kind ∷ [])
    else join_all w c (drop 1 args) kind pattern'

-- The targets of an UNSUBSCRIBE: its arguments, or everything subscribed.
pub targets_of : Conn → List Bytes → Bool → List Bytes
targets_of c args pattern' =
    if ltb 1 (length args)
    then drop 1 args
    else if pattern'
    then c.subscribed_patterns
    else c.subscribed_channels

leave_any : World → Conn → List Bytes → String → Bool → World × Conn × List Frame
unfolding leave_all confirmation
leave_any w c [] kind pattern' = (w, c, confirmation kind null c ∷ [])
leave_any w c (target ∷ targets) kind pattern' = leave_all w c (target ∷ targets) kind pattern'

pub unsubscribe : World → Conn → List Bytes → Bool → World × Conn × List Frame
unfolding targets_of leave_any
unsubscribe w c args pattern' =
    leave_any w c (targets_of c args pattern') (if pattern' then "punsubscribe" else "unsubscribe")
      pattern'

-- The two `drain` loops of RESET.
pub leave_channels : PubSub → ℕ → List Bytes → PubSub
leave_channels p id [] = p
leave_channels p id (ch ∷ chs) = leave_channels (PubSub.unsubscribe p ch id) id chs

pub leave_patterns : PubSub → ℕ → List Bytes → PubSub
leave_patterns p id [] = p
leave_patterns p id (pat ∷ pats) = leave_patterns (PubSub.punsubscribe p pat id) id pats

pub reset : Services → World → Conn → World × Conn × Frame
unfolding leave_channels leave_patterns
reset s w c = (
  record w {
    pubsub =
        leave_patterns (leave_channels w.pubsub c.id c.subscribed_channels) c.id
          c.subscribed_patterns;
  },
  record c {
    in_multi = false;
    multi_error = false;
    multi_queue = [];
    watched = [];
    subscribed_channels = [];
    subscribed_patterns = [];
    resp3 = false;
    name = [];
    authenticated = if s.requires_password then false else c.authenticated;
  },
  simple "RESET",
)

unfoldable pub publish : (ℕ → Bool) → World → List Bytes → World × Frame
publish is_open w (_ ∷ channel ∷ payload ∷ []) =
    let (out, n) = PubSub.publish is_open w.pubsub channel payload in
    (record w { sent = w.sent ++ out }, count n)
publish is_open w _ = (w, wrong_args "publish")

numsub_pairs : PubSub → List Bytes → Frames
numsub_pairs p [] = nil
numsub_pairs p (ch ∷ chs) = cons (bulk ch) (cons (count (PubSub.numsub p ch)) (numsub_pairs p chs))

first : List Bytes → Option Bytes
first [] = none
first (a ∷ _) = some a

pub pubsub_cmd : (Bytes → String) → World → List Bytes → Frame
unfolding numsub_pairs first
pubsub_cmd lower_text w (_ ∷ sub ∷ args) =
    if is_word sub "CHANNELS"
    then array (bulks (PubSub.channel_names w.pubsub (first args)))
    else if is_word sub "NUMSUB"
    then array (numsub_pairs w.pubsub args)
    else if is_word sub "NUMPAT"
    then count (PubSub.numpat w.pubsub)
    else err ("Unknown PUBSUB subcommand '" <> (lower_text sub <> "'"))
pubsub_cmd lower_text w _ = wrong_args "pubsub"
