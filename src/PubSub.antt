-- ===== src/PubSub.antt =====
-- src/pubsub.rs: the registry of subscribers. A subscriber is its client id: the channel through which
-- its frames go out is the one that the client registered. A method returns the new registry.
pub mod Registry
pub mod Delivery
use meebis.Base.{
  ℕ, suc, ◌+◌, Bool, true, false, not, ◌&&◌, ◌||◌, List, [], ◌∷◌, ◌++◌, map, Option, none, some,
  ◌==◌, if◌then◌else◌, length,
}
use meebis.Base.Bytes.{Bytes, codes}
use meebis.Base.HashMap
use meebis.Base.HashMap.{HashMap}
use meebis.Glob.{glob_match}
use meebis.Resp.Frame.{Frame, cons, nil, push, bulk}

abbrev pub Registry : Type 0
Registry = HashMap (List ℕ)

pub record PubSub : Type 0 where
  pub channels : Registry
  pub patterns : Registry

abbrev pub new : PubSub
new = record { channels = []; patterns = [] }

-- `subs.iter().any(|s| s.id == id)`
pub has : ℕ → List ℕ → Bool
has id [] = false
has id (s ∷ subs) = s == id || has id subs

-- `entry(target).or_default()`
abbrev pub subscribers : Option (List ℕ) → List ℕ
subscribers none = []
subscribers (some subs) = subs

pub with_id : ℕ → List ℕ → List ℕ
unfolding has
with_id id subs = if has id subs then subs else subs ++ (id ∷ [])

-- `subs.retain(|s| s.id != id)`
pub without_id : ℕ → List ℕ → List ℕ
without_id id [] = []
without_id id (s ∷ subs) = let rest = without_id id subs in if s == id then rest else s ∷ rest

pub add_to : Bytes → ℕ → Registry → Registry
unfolding with_id
add_to target id r = HashMap.insert target (with_id id (subscribers (HashMap.get target r))) r

-- A target that nobody is left at is removed.
abbrev pub put_back : Bytes → List ℕ → Registry → Registry
put_back target [] r = HashMap.remove target r
put_back target (s ∷ subs) r = HashMap.insert target (s ∷ subs) r

pub remove_at : Bytes → ℕ → Registry → Option (List ℕ) → Registry
unfolding without_id
remove_at target id r none = r
remove_at target id r (some subs) = put_back target (without_id id subs) r

pub remove_from : Bytes → ℕ → Registry → Registry
unfolding remove_at
remove_from target id r = remove_at target id r (HashMap.get target r)

abbrev pub keep : Bytes → List ℕ → Registry → Registry
keep target [] r = r
keep target (s ∷ subs) r = (target, s ∷ subs) ∷ r

-- `retain(|_, subs| { subs.retain(..); !subs.is_empty() })`
pub remove_everywhere : ℕ → Registry → Registry
unfolding without_id
remove_everywhere id [] = []
remove_everywhere id ((target, subs) ∷ r) =
    keep target (without_id id subs) (remove_everywhere id r)

unfoldable pub subscribe : PubSub → Bytes → ℕ → PubSub
unfolding add_to
subscribe p channel id = record p { channels = add_to channel id p.channels }

unfoldable pub unsubscribe : PubSub → Bytes → ℕ → PubSub
unfolding remove_from
unsubscribe p channel id = record p { channels = remove_from channel id p.channels }

unfoldable pub psubscribe : PubSub → Bytes → ℕ → PubSub
unfolding add_to
psubscribe p pattern' id = record p { patterns = add_to pattern' id p.patterns }

unfoldable pub punsubscribe : PubSub → Bytes → ℕ → PubSub
unfolding remove_from
punsubscribe p pattern' id = record p { patterns = remove_from pattern' id p.patterns }

unfoldable pub remove_client : PubSub → ℕ → PubSub
unfolding remove_everywhere
remove_client p id = record {
  channels = remove_everywhere id p.channels;
  patterns = remove_everywhere id p.patterns;
}

pub message : Bytes → Bytes → Frame
message channel payload =
    push (cons (bulk (codes "message")) (cons (bulk channel) (cons (bulk payload) nil)))

pub pmessage : Bytes → Bytes → Bytes → Frame
pmessage pattern' channel payload = push (
    cons (bulk (codes "pmessage"))
      (cons (bulk pattern') (cons (bulk channel) (cons (bulk payload) nil))))

-- The sends of one frame, each to a client.
pub to_each : Frame → List ℕ → List (ℕ × Frame)
to_each f [] = []
to_each f (s ∷ subs) = (s, f) ∷ to_each f subs

pub pattern_sends : Registry → Bytes → Bytes → List (ℕ × Frame)
unfolding to_each pmessage
pattern_sends [] channel payload = []
pattern_sends ((pattern', subs) ∷ r) channel payload =
    let rest = pattern_sends r channel payload in
    if glob_match pattern' channel
    then to_each (pmessage pattern' channel payload) subs ++ rest
    else rest

-- The frames that go out, in their order.
pub sends : PubSub → Bytes → Bytes → List (ℕ × Frame)
unfolding pattern_sends message
sends p channel payload =
    to_each (message channel payload) (subscribers (HashMap.get channel p.channels))
    ++ pattern_sends p.patterns channel payload

pub count_open : (ℕ → Bool) → List (ℕ × Frame) → ℕ
count_open is_open [] = 0
count_open is_open ((s, f) ∷ out) = let n = count_open is_open out in if is_open s then suc n else n

-- `tx.send` succeeds where the receiver is still there, which `is_open` tells.
pub delivered : (ℕ → Bool) → List (ℕ × Frame) → List (ℕ × Frame)
delivered is_open [] = []
delivered is_open ((i, f) ∷ out) =
    let rest = delivered is_open out in if is_open i then (i, f) ∷ rest else rest

-- The frames that arrive, and their number.
unfoldable pub publish : (ℕ → Bool) → PubSub → Bytes → Bytes → List (ℕ × Frame) × ℕ
unfolding sends count_open delivered
publish is_open p channel payload =
    let out = sends p channel payload in (delivered is_open out, count_open is_open out)

matching : Option Bytes → Bytes → Bool
matching none c = true
matching (some pattern') c = glob_match pattern' c

names : (Bytes → Bool) → Registry → List Bytes
names p [] = []
names p ((c, _) ∷ r) = let rest = names p r in if p c then c ∷ rest else rest

pub channel_names : PubSub → Option Bytes → List Bytes
unfolding names matching
channel_names p pattern' = names (matching pattern') p.channels

pub numsub : PubSub → Bytes → ℕ
numsub p channel = length (subscribers (HashMap.get channel p.channels))

pub numpat : PubSub → ℕ
numpat p = length p.patterns
