-- ===== src/PubSub/Delivery.antt =====
-- src/pubsub.rs: which frames a PUBLISH hands to one client.
use meebis.Base.{
  ℕ, ◌≡◌, refl, ◌∙◌, Bool, false, List, [], ◌∷◌, ◌++◌, none, arith, ◌==◌, if◌then◌else◌, length,
}
use meebis.Base.Bytes.{Bytes, bytes_eq_iff}
use meebis.Base.HashMap
use meebis.Base.HashMap.{Distinct}
use meebis.Base.HashSet.{contains}
use meebis.Glob.{glob_match}
use meebis.Resp.Frame.{Frame}
use meebis.PubSub.{
  PubSub, Registry, has, subscribers, message, pmessage, to_each, pattern_sends, sends, count_open,
  delivered,
}
use meebis.PubSub.Registry.{at, IsProper, NoDup, AllNoDup, subscribers-NoDup}

-- The frames that go to one client, in their order.
pub received : ℕ → List (ℕ × Frame) → List Frame
received i [] = []
received i ((s, f) ∷ out) = let rest = received i out in if s == i then f ∷ rest else rest

-- The patterns that a client is registered with, in the registry's order.
pub own_patterns : ℕ → Registry → List Bytes
unfolding has
own_patterns i [] = []
own_patterns i ((p, subs) ∷ r) =
    let rest = own_patterns i r in if has i subs then p ∷ rest else rest

-- A `pmessage` for each pattern that matches.
pub pmessages : List Bytes → Bytes → Bytes → List Frame
pmessages [] channel payload = []
pmessages (p ∷ ps) channel payload =
    let rest = pmessages ps channel payload in
    if glob_match p channel then pmessage p channel payload ∷ rest else rest

abbrev pub when : Bool → Frame → List Frame
when b f = if b then f ∷ [] else []

pub received-append :
    (i : ℕ) (xs ys : List (ℕ × Frame)) → received i (xs ++ ys) ≡ received i xs ++ received i ys
unfolding received
received-append i [] ys = refl
received-append i ((s, f) ∷ xs) ys = ground (arith, received-append i xs ys)

received-none :
    (i : ℕ) (f : Frame) (subs : List ℕ) → has i subs ≡ false → received i (to_each f subs) ≡ []
unfolding received to_each has
received-none i f [] h = refl
received-none i f (s ∷ subs) h = ground (arith, received-none i f subs)

received-to_each :
    (i : ℕ) (f : Frame) (subs : List ℕ)
    → NoDup subs
    → received i (to_each f subs) ≡ when (has i subs) f
unfolding received to_each has NoDup
received-to_each i f [] h = refl
received-to_each i f (s ∷ subs) h =
    ground (arith, received-to_each i f subs, received-none i f subs)

received-pattern_sends :
    (i : ℕ) (channel payload : Bytes) (r : Registry)
    → AllNoDup r
    → received i (pattern_sends r channel payload) ≡ pmessages (own_patterns i r) channel payload
unfolding received pattern_sends own_patterns pmessages AllNoDup
received-pattern_sends i channel payload [] h = refl
received-pattern_sends i channel payload ((p, subs) ∷ r) h = ground (
  arith,
  received-append i (to_each (pmessage p channel payload) subs) (pattern_sends r channel payload),
  received-to_each i (pmessage p channel payload) subs h.0,
  received-pattern_sends i channel payload r h.1,
)

-- Where nobody is registered twice, a PUBLISH sends to a client one `message` if it is registered at
-- the channel, then one `pmessage` for each of its patterns that matches the channel, and no more.
pub received-sends :
    (i : ℕ) (p : PubSub) (channel payload : Bytes)
    → IsProper p.channels
    → IsProper p.patterns
    → received i (sends p channel payload)
      ≡ when (at p.channels channel i) (message channel payload)
        ++ pmessages (own_patterns i p.patterns) channel payload
unfolding sends at
received-sends i p channel payload hc hp =
    received-append i
      (to_each (message channel payload) (subscribers (HashMap.get channel p.channels))) _
    ∙ rw
        (
          received-to_each i (message channel payload)
              (subscribers (HashMap.get channel p.channels))
              (subscribers-NoDup channel p.channels hc.no_dup),
          received-pattern_sends i channel payload p.patterns hp.no_dup,
        )
        refl

-- A client's patterns are those that the registry has it at.
own_patterns-none :
    (i : ℕ) (t : Bytes) (r : Registry)
    → HashMap.get t r ≡ none
    → contains (own_patterns i r) t ≡ false
unfolding own_patterns contains HashMap.get
own_patterns-none i t [] h = refl
own_patterns-none i t ((p, subs) ∷ r) h = ground (arith, own_patterns-none i t r)

pub contains-own_patterns :
    (i : ℕ) (t : Bytes) (r : Registry) → Distinct r → contains (own_patterns i r) t ≡ at r t i
unfolding own_patterns contains at HashMap.get has
contains-own_patterns i t [] d = refl
contains-own_patterns i t ((p, subs) ∷ r) d =
    ground (arith, contains-own_patterns i t r, own_patterns-none i p r, bytes_eq_iff p t)

-- A client that no longer receives gets nothing.
pub received-delivered :
    (is_open : ℕ → Bool) (i : ℕ) (out : List (ℕ × Frame))
    → received i (delivered is_open out) ≡ (if is_open i then received i out else [])
unfolding received delivered
received-delivered is_open i [] = ground arith
received-delivered is_open i ((s, f) ∷ out) = ground (arith, received-delivered is_open i out)

pub length-delivered :
    (is_open : ℕ → Bool) (out : List (ℕ × Frame))
    → length (delivered is_open out) ≡ count_open is_open out
unfolding delivered count_open
length-delivered is_open [] = refl
length-delivered is_open ((s, f) ∷ out) = ground (arith, length-delivered is_open out)
