-- ===== src/Events/Runs.antt =====
-- Runs of a topic of the event bus: subscribers come, goroutines publish at the same time, and
-- subscribers receive, in any order.
use function_hcl.Base.{
  ℕ, suc, String, ◌≡◌, some, List, [], ◌∷◌, ◌++◌, Eq, ◌==◌, nat_eq, ltb, if◌then◌else◌,
}
use function_hcl.Events.{
  Channels, no_channels, Topic, new_topic, Subscriber, Publication, subscribe, publish, send,
  receive,
}

-- A topic, its channels, and the publications that have not returned.
pub record System (T : Type 0) : Type 0 where
  pub topic : Topic
  pub channels : Channels T
  pub publications : List (Publication T)

pub data Action (T : Type 0) : Type 0 where
  subscribes : String → Action T
  publishes : T → Action T
  -- An event enters a channel; the publication that sends it goes on.
  sends : T → ℕ → Action T
  -- A publication returns.
  returns : Action T
  receives : ℕ → T → Action T

module _ {T : Type 0} where
  abbrev pub start : System T
  start = record { topic = new_topic; channels = no_channels; publications = [] }

  pub data Step (s : System T) : Action T → System T → Type 0 where
    subscribed :
        (id : String) (t : System T)
        → t ≡ record s {
          topic = (subscribe id s.topic s.channels).1;
          channels = (subscribe id s.topic s.channels).2;
        }
        → Step s (subscribes id) t
    published :
        (event : T) (t : System T)
        → t ≡ record s { publications = publish event s.topic ∷ s.publications }
        → Step s (publishes event) t
    sent :
        (before after : List (Publication T)) (event : T) (to : Subscriber)
        (remaining : List Subscriber) (channels : Channels T) (t : System T)
        → s.publications ≡ before ++ record { event = event; remaining = to ∷ remaining } ∷ after
        → send event to s.channels ≡ some channels
        → t ≡ record s {
          channels = channels;
          publications = before ++ record { event = event; remaining = remaining } ∷ after;
        }
        → Step s (sends event to.channel) t
    returned :
        (before after : List (Publication T)) (event : T) (t : System T)
        → s.publications ≡ before ++ record { event = event; remaining = [] } ∷ after
        → t ≡ record s { publications = before ++ after }
        → Step s returns t
    received :
        (c : ℕ) (event : T) (channels : Channels T) (t : System T)
        → receive c s.channels ≡ some (event, channels)
        → t ≡ record s { channels = channels }
        → Step s (receives c event) t

  -- A run from the empty topic, with what has happened, the last first.
  pub data Run : List (Action T) → System T → Type 0 where
    here : Run [] start
    next :
        (h : List (Action T)) (s : System T) (a : Action T) (t : System T)
        → Run h s
        → Step s a t
        → Run (a ∷ h) t

  -- What a topic promises: the number of subscriptions, the events that are published for the
  -- channel of a subscription, which are those after it, and the events that it has received.
  abbrev pub subscriptions : List (Action T) → ℕ
  subscriptions [] = 0
  subscriptions (subscribes id ∷ h) = suc (subscriptions h)
  subscriptions (_ ∷ h) = subscriptions h

  abbrev pub published_for : ℕ → List (Action T) → List T
  published_for c [] = []
  published_for c (publishes event ∷ h) =
      if ltb c (subscriptions h) then event ∷ published_for c h else published_for c h
  published_for c (_ ∷ h) = published_for c h

  abbrev pub received_by : ℕ → List (Action T) → List T
  received_by c [] = []
  received_by c (receives d event ∷ h) = if d == c then event ∷ received_by c h else received_by c h
  received_by c (_ ∷ h) = received_by c h

  abbrev pub count : ⦃e : Eq T⦄ → T → List T → ℕ
  count x [] = 0
  count x (y ∷ ys) = if x == y then suc (count x ys) else count x ys
