-- ===== src/Events.antt =====
-- language-server/internal/eventbus: topics over Go channels, and the bus of five topics. A
-- channel stands by its number, in a store of channels with what waits in each. What a goroutine
-- would wait for has no result here: a send to a full channel, a receive from an empty one.
pub mod Runs
pub mod Delivery
pub mod Settling
mod Progress
pub mod Liveness
mod Tests
use function_hcl.Base.{
  ℕ, suc, String, Bool, Option, none, some, List, [], ◌∷◌, ◌++◌, ltb, length, ◌==◌, nat_eq,
  if◌then◌else◌,
}
use function_hcl.Hcl.{Diags}
use function_hcl.Document.Store.{Handle}

-- The channels that have been made, and what waits in each.
pub record Channels (T : Type 0) : Type 0 where
  pub made : ℕ
  pub waiting : ℕ → List T

abbrev pub no_channels : {T : Type 0} → Channels T
no_channels = record { made = 0; waiting = λ c. [] }

-- subscriber
pub record Subscriber : Type 0 where
  pub identifier : String
  pub channel : ℕ

-- topic, without its lock
pub record Topic : Type 0 where
  pub subscribers : List Subscriber

-- newTopic
abbrev pub new_topic : Topic
new_topic = record { subscribers = [] }

-- channelSize
abbrev pub channel_size : ℕ
channel_size = 10

module _ {T : Type 0} where
  abbrev pub update : ℕ → List T → (ℕ → List T) → ℕ → List T
  update c xs waiting d = if c == d then xs else waiting d

  -- topic.subscribe: the channel, the topic and the channels.
  unfoldable pub subscribe : String → Topic → Channels T → ℕ × Topic × Channels T
  subscribe identifier topic channels = (
    channels.made,
    record topic {
      subscribers =
          topic.subscribers ++ record { identifier = identifier; channel = channels.made } ∷ [];
    },
    record { made = suc channels.made; waiting = update channels.made [] channels.waiting },
  )

  -- `s.channel <- event`; none while the channel is full.
  unfoldable pub send : T → Subscriber → Channels T → Option (Channels T)
  send event s channels =
      if ltb (length (channels.waiting s.channel)) channel_size
      then some (record channels {
        waiting = update s.channel (channels.waiting s.channel ++ event ∷ []) channels.waiting;
      })
      else none

  -- `<-channel`; none while the channel is empty.
  unfoldable pub receive : ℕ → Channels T → Option (T × Channels T)
  receive c channels = elim (channels.waiting c) [
    | [] ↦ none
    | event ∷ rest ↦ some (event, record channels { waiting = update c rest channels.waiting })
  ]

-- A call of topic.publish after the lock is released: the event, and the subscribers of the clone
-- that the loop has not come to.
pub record Publication (T : Type 0) : Type 0 where
  pub event : T
  pub remaining : List Subscriber

-- The start of topic.publish, under the lock.
unfoldable pub publish : {T : Type 0} → T → Topic → Publication T
publish event topic = record { event = event; remaining = topic.subscribers }
