-- ===== src/Session/Subscribe/Placed.antt =====
-- src/commands/mod.rs: subscriptions and RESET do not touch the databases.
use meebis.Base.{ℕ, Bool, true, false, String, List, [], ◌∷◌, if◌then◌else◌, ltb, length, drop}
use meebis.Base.Bytes.{Bytes}
use meebis.Base.HashSet
use meebis.Base.HashSet.{HashSet}
use meebis.Resp.Frame.{Frame}
use meebis.Session.{Conn, World, Services}
use meebis.Session.Watching.{AllIn}
use meebis.Session.Dispatch.Sound.{IsPlaced}
use meebis.Session.Subscribe.{
  joined, pjoined, join, left, pleft, leave, join_all, leave_all, leave_any, targets_of, subscribe,
  unsubscribe, reset,
}

module _ (n : ℕ) where
  module _ (w : World) (c : Conn) (p : IsPlaced n w c) (target : Bytes) where
    joined-IsPlaced :
        (o : HashSet × Bool) → IsPlaced n (joined w c target o).0 (joined w c target o).1
    unfolding joined IsPlaced
    joined-IsPlaced (set, false) = p
    joined-IsPlaced (set, true) = p

    pjoined-IsPlaced :
        (o : HashSet × Bool) → IsPlaced n (pjoined w c target o).0 (pjoined w c target o).1
    unfolding pjoined IsPlaced
    pjoined-IsPlaced (set, false) = p
    pjoined-IsPlaced (set, true) = p

    left-IsPlaced : (o : HashSet × Bool) → IsPlaced n (left w c target o).0 (left w c target o).1
    unfolding left IsPlaced
    left-IsPlaced (set, false) = p
    left-IsPlaced (set, true) = p

    pleft-IsPlaced : (o : HashSet × Bool) → IsPlaced n (pleft w c target o).0 (pleft w c target o).1
    unfolding pleft IsPlaced
    pleft-IsPlaced (set, false) = p
    pleft-IsPlaced (set, true) = p

    join-IsPlaced : (b : Bool) → IsPlaced n (join w c target b).0 (join w c target b).1
    unfolding join
    join-IsPlaced false = joined-IsPlaced (HashSet.insert c.subscribed_channels target)
    join-IsPlaced true = pjoined-IsPlaced (HashSet.insert c.subscribed_patterns target)

    leave-IsPlaced : (b : Bool) → IsPlaced n (leave w c target b).0 (leave w c target b).1
    unfolding leave
    leave-IsPlaced false = left-IsPlaced (HashSet.remove c.subscribed_channels target)
    leave-IsPlaced true = pleft-IsPlaced (HashSet.remove c.subscribed_patterns target)

  abbrev pub PlacedAfter : World × Conn × List Frame → Type 0
  PlacedAfter r = IsPlaced n r.0 r.1

  join_all-IsPlaced :
      (targets : List Bytes) (w : World) (c : Conn) (kind : String) (b : Bool)
      → IsPlaced n w c
      → PlacedAfter (join_all w c targets kind b)
  unfolding join_all
  join_all-IsPlaced [] w c kind b p = p
  join_all-IsPlaced (t ∷ ts) w c kind b p =
      join_all-IsPlaced ts (join w c t b).0 (join w c t b).1 kind b (join-IsPlaced w c p t b)

  leave_all-IsPlaced :
      (targets : List Bytes) (w : World) (c : Conn) (kind : String) (b : Bool)
      → IsPlaced n w c
      → PlacedAfter (leave_all w c targets kind b)
  unfolding leave_all
  leave_all-IsPlaced [] w c kind b p = p
  leave_all-IsPlaced (t ∷ ts) w c kind b p =
      leave_all-IsPlaced ts (leave w c t b).0 (leave w c t b).1 kind b (leave-IsPlaced w c p t b)

  if-IsPlaced :
      (b : Bool) (x y : World × Conn × List Frame)
      → PlacedAfter x
      → PlacedAfter y
      → PlacedAfter (if b then x else y)
  if-IsPlaced true x y h k = h
  if-IsPlaced false x y h k = k

  pub subscribe-IsPlaced :
      (w : World) (c : Conn) (args : List Bytes) (b : Bool)
      → IsPlaced n w c
      → PlacedAfter (subscribe w c args b)
  unfolding subscribe
  subscribe-IsPlaced w c args b p =
      if-IsPlaced (ltb (length args) 2) _ _ p (join_all-IsPlaced (drop 1 args) w c _ b p)

  leave_any-IsPlaced :
      (w : World) (c : Conn) (targets : List Bytes) (kind : String) (b : Bool)
      → IsPlaced n w c
      → PlacedAfter (leave_any w c targets kind b)
  unfolding leave_any
  leave_any-IsPlaced w c [] kind b p = p
  leave_any-IsPlaced w c (t ∷ ts) kind b p = leave_all-IsPlaced (t ∷ ts) w c kind b p

  pub unsubscribe-IsPlaced :
      (w : World) (c : Conn) (args : List Bytes) (b : Bool)
      → IsPlaced n w c
      → PlacedAfter (unsubscribe w c args b)
  unfolding unsubscribe
  unsubscribe-IsPlaced w c args b p = leave_any-IsPlaced w c (targets_of c args b) _ b p

  pub reset-IsPlaced :
      (s : Services) (w : World) (c : Conn)
      → IsPlaced n w c
      → IsPlaced n (reset s w c).0 (reset s w c).1
  unfolding reset IsPlaced AllIn
  reset-IsPlaced s w c p = (p.0, p.1, tt)
