-- ===== src/Broker.antt =====
-- service/broker: the feed of a topic in feed.go, with the count of its subscribers that the consumer
-- in rabbitBroker.go keeps. Channels and messages are numbers; the event feed of go-ethereum is the
-- list of its channels: "Subscribe adds a channel", "Unsubscribe cancels the sending of events", and
-- Send gives a value to all channels that are subscribed.
pub mod Counted
mod Tests
use node_util.Base.{
  ℕ, ◌+◌, ◌%◌, ◌^◌, Bool, true, false, List, [], ◌∷◌, ◌++◌, map, if◌then◌else◌, ◌==◌,
}

-- `count` is the sum that consume keeps of what its callback was given. `called` lists the
-- subscriptions that have ended, `delivered` what was sent to which channel, the latest last.
pub record TopicFeed : Type 0 where
  pub listeners : ℕ
  pub delta : ℕ
  pub has_callback : Bool
  pub count : ℕ
  pub channels : List ℕ
  pub called : List ℕ
  pub delivered : List (ℕ × ℕ)

unfoldable pub new_topic : TopicFeed
new_topic = record {
  listeners = 0;
  delta = 0;
  has_callback = false;
  count = 0;
  channels = [];
  called = [];
  delivered = [];
}

-- Subscribe. A callback waits for the consumer, which adds what it is given; `listeners` and `delta`
-- are of type int32, whose values below 2 ^ 31 are meant.
unfoldable pub subscribe_topic : TopicFeed → ℕ → TopicFeed
subscribe_topic f channel =
    let told =
      if f.has_callback
      then record f { count = f.count + (1 + f.delta) }
      else record f { delta = (f.delta + 1) % 2 ^ 32 } in
    record told {
      listeners = (told.listeners + 1) % 2 ^ 32;
      channels = told.channels ++ channel ∷ [];
    }

abbrev pub is_in : ℕ → List ℕ → Bool
is_in x [] = false
is_in x (y ∷ ys) = let rest = is_in x ys in if x == y then true else rest

abbrev pub drop_channel : ℕ → List ℕ → List ℕ
drop_channel x [] = []
drop_channel x (y ∷ ys) = let rest = drop_channel x ys in if x == y then rest else y ∷ rest

-- Unsubscribe of a subscription: once, and only of the event feed.
unfoldable pub end_subscription : TopicFeed → ℕ → TopicFeed
end_subscription f channel =
    if is_in channel f.called
    then f
    else record f { called = channel ∷ f.called; channels = drop_channel channel f.channels }

-- consume stores its callback, and then hands on each message.
unfoldable pub start_consumer : TopicFeed → TopicFeed
start_consumer f = record f { has_callback = true }

unfoldable pub notify : TopicFeed → ℕ → TopicFeed
notify f msg = record f { delivered = f.delivered ++ map (λ c. (c, msg)) f.channels }

pub data Event : Type 0 where
  subscribes unsubscribes message : ℕ → Event
  consumer_starts : Event

unfoldable pub turn : TopicFeed → Event → TopicFeed
unfolding subscribe_topic end_subscription start_consumer notify
turn f (subscribes channel) = subscribe_topic f channel
turn f (unsubscribes channel) = end_subscription f channel
turn f (message msg) = notify f msg
turn f consumer_starts = start_consumer f

unfoldable pub run : TopicFeed → List Event → TopicFeed
unfolding turn
run f [] = f
run f (e ∷ es) = run (turn f e) es
