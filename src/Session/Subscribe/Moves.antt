-- ===== src/Session/Subscribe/Moves.antt =====
-- src/commands/mod.rs, src/main.rs: the sets of subscriptions that the connections keep and the
-- registry that PUBLISH reads are changed together.
use meebis.Base.{
  ℕ, ◌≡◌, refl, sym, Bool, true, false, String, List, [], ◌∷◌, Bool-cases, inl, inr, ltb, length,
  drop,
}
use meebis.Base.Bytes.{Bytes}
use meebis.Base.HashSet
use meebis.Base.HashSet.{HashSet, contains}
use meebis.Resp.Frame.{Frame}
use meebis.PubSub
use meebis.PubSub.{PubSub, Registry}
use meebis.Session.{Conn, World}
use meebis.Session.Subscribe.{
  joined, pjoined, left, pleft, leave_any, targets_of, join, leave, join_all, leave_all, subscribe,
  unsubscribe,
}
use meebis.Session.Subscribe.Follows.{
  Follows, Follows-refl, Follows-trans, add_to-Follows, remove_from-Follows, insert-Follows,
  remove-Follows,
}

pub record Moves (id : ℕ) (p : PubSub) (c : Conn) (p' : PubSub) (c' : Conn) : Type 0 where
  pub same_id : c.id ≡ id → c'.id ≡ id
  pub channels : Follows id p.channels c.subscribed_channels p'.channels c'.subscribed_channels
  pub patterns : Follows id p.patterns c.subscribed_patterns p'.patterns c'.subscribed_patterns

pub Moves-refl : (id : ℕ) (p : PubSub) (c : Conn) → Moves id p c p c
Moves-refl id p c = record {
  same_id = λ h. h;
  channels = Follows-refl id p.channels c.subscribed_channels;
  patterns = Follows-refl id p.patterns c.subscribed_patterns;
}

pub Moves-trans :
    (id : ℕ) (p1 p2 p3 : PubSub) (c1 c2 c3 : Conn)
    → Moves id p1 c1 p2 c2
    → Moves id p2 c2 p3 c3
    → Moves id p1 c1 p3 c3
Moves-trans id p1 p2 p3 c1 c2 c3 f g = record {
  same_id = λ h. g.same_id (f.same_id h);
  channels = Follows-trans id _ _ _ _ _ _ f.channels g.channels;
  patterns = Follows-trans id _ _ _ _ _ _ f.patterns g.patterns;
}

pub Moves-by :
    (i id : ℕ) (p p' : PubSub) (c c' : Conn) → i ≡ id → Moves i p c p' c' → Moves id p c p' c'
Moves-by i id p p' c c' h m = rw h at m

module _ (w : World) (c : Conn) (target : Bytes) where
  joined-Moves :
      (o : HashSet × Bool)
      → Follows c.id w.pubsub.channels c.subscribed_channels
          (PubSub.add_to target c.id w.pubsub.channels)
          o.0
      → (o.1 ≡ false → Follows c.id w.pubsub.channels c.subscribed_channels w.pubsub.channels o.0)
      → Moves c.id w.pubsub c (joined w c target o).0.pubsub (joined w c target o).1
  unfolding joined PubSub.subscribe
  joined-Moves (set, false) f k = record {
    same_id = λ h. h;
    channels = k refl;
    patterns = Follows-refl c.id _ _;
  }
  joined-Moves (set, true) f k = record {
    same_id = λ h. h;
    channels = f;
    patterns = Follows-refl c.id _ _;
  }

  pjoined-Moves :
      (o : HashSet × Bool)
      → Follows c.id w.pubsub.patterns c.subscribed_patterns
          (PubSub.add_to target c.id w.pubsub.patterns)
          o.0
      → (o.1 ≡ false → Follows c.id w.pubsub.patterns c.subscribed_patterns w.pubsub.patterns o.0)
      → Moves c.id w.pubsub c (pjoined w c target o).0.pubsub (pjoined w c target o).1
  unfolding pjoined PubSub.psubscribe
  pjoined-Moves (set, false) f k = record {
    same_id = λ h. h;
    channels = Follows-refl c.id _ _;
    patterns = k refl;
  }
  pjoined-Moves (set, true) f k = record {
    same_id = λ h. h;
    channels = Follows-refl c.id _ _;
    patterns = f;
  }

  left-Moves :
      (o : HashSet × Bool)
      → Follows c.id w.pubsub.channels c.subscribed_channels
          (PubSub.remove_from target c.id w.pubsub.channels)
          o.0
      → (o.1 ≡ false → Follows c.id w.pubsub.channels c.subscribed_channels w.pubsub.channels o.0)
      → Moves c.id w.pubsub c (left w c target o).0.pubsub (left w c target o).1
  unfolding left PubSub.unsubscribe
  left-Moves (set, false) f k = record {
    same_id = λ h. h;
    channels = k refl;
    patterns = Follows-refl c.id _ _;
  }
  left-Moves (set, true) f k = record {
    same_id = λ h. h;
    channels = f;
    patterns = Follows-refl c.id _ _;
  }

  pleft-Moves :
      (o : HashSet × Bool)
      → Follows c.id w.pubsub.patterns c.subscribed_patterns
          (PubSub.remove_from target c.id w.pubsub.patterns)
          o.0
      → (o.1 ≡ false → Follows c.id w.pubsub.patterns c.subscribed_patterns w.pubsub.patterns o.0)
      → Moves c.id w.pubsub c (pleft w c target o).0.pubsub (pleft w c target o).1
  unfolding pleft PubSub.punsubscribe
  pleft-Moves (set, false) f k = record {
    same_id = λ h. h;
    channels = Follows-refl c.id _ _;
    patterns = k refl;
  }
  pleft-Moves (set, true) f k = record {
    same_id = λ h. h;
    channels = Follows-refl c.id _ _;
    patterns = f;
  }

  join-Moves :
      (pattern' : Bool)
      → Moves c.id w.pubsub c (join w c target pattern').0.pubsub (join w c target pattern').1
  unfolding join
  join-Moves false =
      joined-Moves (HashSet.insert c.subscribed_channels target) (add_to-Follows c.id target _ _)
        (insert-Follows c.id target _ _)
  join-Moves true =
      pjoined-Moves (HashSet.insert c.subscribed_patterns target) (add_to-Follows c.id target _ _)
        (insert-Follows c.id target _ _)

  leave-Moves :
      (pattern' : Bool)
      → Moves c.id w.pubsub c (leave w c target pattern').0.pubsub (leave w c target pattern').1
  unfolding leave
  leave-Moves false =
      left-Moves (HashSet.remove c.subscribed_channels target) (remove_from-Follows c.id target _ _)
        (remove-Follows c.id target _ _)
  leave-Moves true =
      pleft-Moves (HashSet.remove c.subscribed_patterns target)
        (remove_from-Follows c.id target _ _) (remove-Follows c.id target _ _)

-- As a step of the client `id`.
module _ (id : ℕ) where
  abbrev pub Moved : World → Conn → World × Conn × List Frame → Type 0
  Moved w c r = Moves id w.pubsub c r.0.pubsub r.1

  join_all-Moves :
      (w : World) (c : Conn) (targets : List Bytes) (kind : String) (pattern' : Bool)
      → c.id ≡ id
      → Moved w c (join_all w c targets kind pattern')
  unfolding join_all
  join_all-Moves w c [] kind pattern' h = Moves-refl id w.pubsub c
  join_all-Moves w c (target ∷ targets) kind pattern' h =
      let one : Moves id w.pubsub c _ _ = rw (sym h) (join-Moves w c target pattern') in
      Moves-trans id _ _ _ _ _ _ one (
        join_all-Moves (join w c target pattern').0 (join w c target pattern').1 targets kind
          pattern' (one.same_id h))

  leave_all-Moves :
      (w : World) (c : Conn) (targets : List Bytes) (kind : String) (pattern' : Bool)
      → c.id ≡ id
      → Moved w c (leave_all w c targets kind pattern')
  unfolding leave_all
  leave_all-Moves w c [] kind pattern' h = Moves-refl id w.pubsub c
  leave_all-Moves w c (target ∷ targets) kind pattern' h =
      let one : Moves id w.pubsub c _ _ = rw (sym h) (leave-Moves w c target pattern') in
      Moves-trans id _ _ _ _ _ _ one (
        leave_all-Moves (leave w c target pattern').0 (leave w c target pattern').1 targets kind
          pattern' (one.same_id h))

  pub subscribe-Moves :
      (w : World) (c : Conn) (args : List Bytes) (pattern' : Bool)
      → c.id ≡ id
      → Moved w c (subscribe w c args pattern')
  unfolding subscribe
  subscribe-Moves w c args pattern' h = elim (Bool-cases (ltb (length args) 2)) [
    | inl y ↦ rw y (Moves-refl id w.pubsub c)
    | inr n ↦ rw n (join_all-Moves w c (drop 1 args) _ pattern' h)
  ]

  leave_any-Moves :
      (w : World) (c : Conn) (targets : List Bytes) (kind : String) (pattern' : Bool)
      → c.id ≡ id
      → Moved w c (leave_any w c targets kind pattern')
  unfolding leave_any
  leave_any-Moves w c [] kind pattern' h = Moves-refl id w.pubsub c
  leave_any-Moves w c (t ∷ ts) kind pattern' h = leave_all-Moves w c (t ∷ ts) kind pattern' h

  pub unsubscribe-Moves :
      (w : World) (c : Conn) (args : List Bytes) (pattern' : Bool)
      → c.id ≡ id
      → Moved w c (unsubscribe w c args pattern')
  unfolding unsubscribe
  unsubscribe-Moves w c args pattern' h =
      leave_any-Moves w c (targets_of c args pattern') _ pattern' h
