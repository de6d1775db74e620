-- ===== src/Session/System/Delivery.antt =====
-- src/pubsub.rs, src/commands/mod.rs: a PUBLISH, seen from the connections.
use meebis.Base.{
  ℕ, ◌-◌, ◌≡◌, refl, ◌∙◌, ap, Bool, [], ◌∷◌, ◌++◌, arith, if◌then◌else◌, length, length-append,
}
use meebis.Base.Bytes.{Bytes}
use meebis.Base.HashSet.{contains}
use meebis.Resp.Frame.{Frame, count}
use meebis.PubSub
use meebis.PubSub.{PubSub, message, delivered, sends}
use meebis.PubSub.Delivery.{
  received, own_patterns, pmessages, when, received-append, received-sends, received-delivered,
  length-delivered, contains-own_patterns,
}
use meebis.Session.{World}
use meebis.Session.Subscribe.{publish}
use meebis.Session.System.{System}
use meebis.Session.System.Agreement.{Agrees}

-- What a PUBLISH means to the client `i`: `sent` and the reply after it.
pub record IsDelivered (sys : System) (is_open : ℕ → Bool) (channel payload : Bytes) (i : ℕ)
    (w : World) (reply : Frame) : Type 0 where
  pub frames :
      received i w.sent
      ≡ received i sys.world.sent
        ++ (if is_open i
            then when (contains (sys.conns i).subscribed_channels channel) (message channel payload)
              ++ pmessages (own_patterns i sys.world.pubsub.patterns) channel payload
            else [])
  pub own :
      (t : Bytes)
      → contains (own_patterns i sys.world.pubsub.patterns) t
        ≡ contains (sys.conns i).subscribed_patterns t
  pub counted : reply ≡ count (length w.sent - length sys.world.sent)

-- Where the connections and the registry agree, a PUBLISH makes a client whose connection still
-- receives get one `message` if it is subscribed to the channel, then one `pmessage` for each pattern
-- that it is subscribed to and that matches, and no other frame; a client that does not receive gets
-- none. The reply is the number of frames handed over.
pub publish_lem :
    (sys : System) (is_open : ℕ → Bool) (name channel payload : Bytes) (i : ℕ)
    → Agrees sys
    → let (w, reply) = publish is_open sys.world (name ∷ channel ∷ payload ∷ []) in
      IsDelivered sys is_open channel payload i w reply
unfolding publish PubSub.publish
publish_lem sys is_open name channel payload i a = record {
  frames =
      received-append i sys.world.sent _
      ∙ rw
          (
            received-delivered is_open i (sends sys.world.pubsub channel payload),
            received-sends i sys.world.pubsub channel payload a.proper_channels a.proper_patterns,
            a.channels i channel,
          )
          refl;
  own = λ t.
      contains-own_patterns i t sys.world.pubsub.patterns a.proper_patterns.distinct
      ∙ a.patterns i t;
  counted = ap count (
      omega (
        arith,
        length-append sys.world.sent (delivered is_open (sends sys.world.pubsub channel payload)),
        length-delivered is_open (sends sys.world.pubsub channel payload),
      ));
}
