-- ===== src/Events/Tests.antt =====
-- A run of a topic, and instances of its theorems.
use function_hcl.Base.{ℕ, ◌+◌, ◌≤◌, ◌≡◌, refl, none, List, [], ◌∷◌, length, nat_eq}
use function_hcl.Events.{channel_size, Subscriber, send, publish, subscribe, update}
use function_hcl.Events.Runs.{
  System, Action, subscribes, publishes, sends, start, subscribed, published, sent, Run, here, next,
  received_by, published_for, count,
}
use function_hcl.Events.Delivery.{owed, Run-delivers}
use function_hcl.Events.Settling.{Settling, Settled, work_left}
use function_hcl.Events.Liveness.{Run-settles}

-- Two subscribers; an event is in the channel of the first, and not yet sent to the second.
abbrev happened : List (Action ℕ)
happened = sends 7 0 ∷ publishes 7 ∷ subscribes "crds" ∷ subscribes "modules" ∷ []

abbrev modules : Subscriber
modules = record { identifier = "modules"; channel = 0 }

abbrev crds : Subscriber
crds = record { identifier = "crds"; channel = 1 }

abbrev empty : System ℕ
empty = start

abbrev one : System ℕ
one = record empty {
  topic = (subscribe "modules" empty.topic empty.channels).1;
  channels = (subscribe "modules" empty.topic empty.channels).2;
}

abbrev two : System ℕ
two = record one {
  topic = (subscribe "crds" one.topic one.channels).1;
  channels = (subscribe "crds" one.topic one.channels).2;
}

abbrev begun : System ℕ
begun = record two { publications = publish 7 two.topic ∷ [] }

abbrev half_sent : System ℕ
half_sent = record begun {
  channels = record begun.channels { waiting = update 0 (7 ∷ []) begun.channels.waiting };
  publications = record { event = 7; remaining = crds ∷ [] } ∷ [];
}

half_sent_runs : Run happened half_sent
unfolding subscribe publish send nat_eq
half_sent_runs =
    next (publishes 7 ∷ subscribes "crds" ∷ subscribes "modules" ∷ []) begun (sends 7 0) half_sent
      (next (subscribes "crds" ∷ subscribes "modules" ∷ []) two (publishes 7) begun
        (next (subscribes "modules" ∷ []) one (subscribes "crds") two
          (next [] empty (subscribes "modules") one here (subscribed "modules" one refl))
          (subscribed "crds" two refl))
        (published 7 begun refl))
      (sent [] [] 7 modules (crds ∷ []) half_sent.channels half_sent refl refl refl)

Run-delivers_example :
    (length (half_sent.channels.waiting 1) ≤ channel_size)
    × ((x : ℕ)
        → count x (received_by 1 happened)
            + count x (half_sent.channels.waiting 1)
            + owed x 1 half_sent.publications
          ≡ count x (published_for 1 happened))
Run-delivers_example = Run-delivers happened half_sent half_sent_runs 1

Run-settles_example :
    ((n : ℕ) (h' : List (Action ℕ)) (u : System ℕ)
      → Settling n happened half_sent h' u
      → n ≤ work_left half_sent)
    × ((n : ℕ) × (h' : List (Action ℕ)) × (u : System ℕ) × Settling n happened half_sent h' u
        × Settled u)
    × ((n : ℕ) (h' : List (Action ℕ)) (u : System ℕ)
        → Settling n happened half_sent h' u
        → Settled u
        → (u.publications ≡ [])
          × ((c : ℕ) (x : ℕ) → count x (received_by c h') ≡ count x (published_for c h')))
Run-settles_example = Run-settles happened half_sent half_sent_runs

-- A publication waits at the full channel of a subscriber that does not receive.
full_channel :
    send {T = ℕ} 7 modules
      (record { made = 1; waiting = λ c. 1 ∷ 2 ∷ 3 ∷ 4 ∷ 5 ∷ 6 ∷ 7 ∷ 8 ∷ 9 ∷ 10 ∷ [] })
    ≡ none
unfolding send
full_channel = refl
