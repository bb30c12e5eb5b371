-- ===== src/Events/Delivery.antt =====
-- Each subscriber receives each event published after it subscribed, once.
use function_hcl.Base.{
  ℕ, suc, ◌+◌, ◌≤◌, ◌<◌, String, ◌≡◌, refl, some, List, [], ◌∷◌, ◌++◌, Eq, ◌==◌, nat_eq, ltb,
  length, length-append, if◌then◌else◌, arith, ap, ==_refl, eq_of_==, Bool-cases, inl, inr,
}
use function_hcl.Events.{
  Channels, Subscriber, Publication, subscribe, publish, send, receive, channel_size, update,
}
use function_hcl.Events.Runs.{
  System, Action, subscribes, publishes, sends, returns, receives, start, Step, subscribed,
  published, sent, returned, received, Run, here, next, subscriptions, published_for, received_by,
  count,
}

-- How often a channel stands among subscribers.
abbrev pub occurrences : ℕ → List Subscriber → ℕ
occurrences c [] = 0
occurrences c (s ∷ ss) = if s.channel == c then suc (occurrences c ss) else occurrences c ss

occurrences-append :
    (c : ℕ) (xs ys : List Subscriber)
    → occurrences c (xs ++ ys) ≡ occurrences c xs + occurrences c ys
occurrences-append c [] ys = omega arith
occurrences-append c (x ∷ xs) ys = ground (arith, occurrences-append c xs ys)

module _ {T : Type 0} ⦃e : Eq T⦄ where
  pub count-append : (x : T) (xs ys : List T) → count x (xs ++ ys) ≡ count x xs + count x ys
  count-append x [] ys = omega arith
  count-append x (y ∷ xs) ys = ground (arith, count-append x xs ys)

  -- How often an event is still to be sent to a channel.
  abbrev pub owed : T → ℕ → List (Publication T) → ℕ
  owed x c [] = 0
  owed x c (p ∷ ps) = (if x == p.event then occurrences c p.remaining else 0) + owed x c ps

  pub owed-append :
      (x : T) (c : ℕ) (ps qs : List (Publication T))
      → owed x c (ps ++ qs) ≡ owed x c ps + owed x c qs
  owed-append x c [] qs = omega arith
  owed-append x c (p ∷ ps) qs = omega (arith, owed-append x c ps qs)

  -- What every run keeps.
  pub record Accounts (h : List (Action T)) (s : System T) : Type 0 where
    pub made : s.channels.made ≡ subscriptions h
    pub once :
        (c : ℕ) → occurrences c s.topic.subscribers ≡ (if ltb c (subscriptions h) then 1 else 0)
    pub adds_up :
        (x : T) (c : ℕ)
        → count x (received_by c h) + count x (s.channels.waiting c) + owed x c s.publications
          ≡ count x (published_for c h)
    pub within : (c : ℕ) → length (s.channels.waiting c) ≤ channel_size
    pub unused : (c : ℕ) → s.channels.made ≤ c → s.channels.waiting c ≡ []
    pub known : (c : ℕ) → s.channels.made ≤ c → (x : T) → owed x c s.publications ≡ 0

  Accounts-start : Accounts [] start
  Accounts-start = record {
    made = refl;
    once = λ c. ground arith;
    adds_up = λ x c. refl;
    within = λ c. omega arith;
    unused = λ c h. refl;
    known = λ c h x. refl;
  }

  pub send_lem :
      (event : T) (to : Subscriber) (ch ch' : Channels T)
      → send event to ch ≡ some ch'
      → (length (ch.waiting to.channel) < channel_size)
        × (ch' ≡ record ch {
          waiting = update to.channel (ch.waiting to.channel ++ event ∷ []) ch.waiting;
        })
  unfolding send
  send_lem event to ch ch' h =
      elim (Bool-cases (ltb (length (ch.waiting to.channel)) channel_size)) [
        | inl room ↦ (ground arith, ground (arith, room, h))
        | inr full ↦ absurd (ground (arith, full, h))
      ]

  receive_at :
      (c : ℕ) (event : T) (ch ch' : Channels T) (xs : List T)
      → ch.waiting c ≡ xs
      → receive c ch ≡ some (event, ch')
      → (rest : List T) × (ch.waiting c ≡ event ∷ rest)
        × (ch' ≡ record ch { waiting = update c rest ch.waiting })
  unfolding receive
  receive_at c event ch ch' [] q h = absurd (ground (arith, q, h))
  receive_at c event ch ch' (x ∷ rest) q h = (rest, ground (arith, q, h), ground (arith, q, h))

  pub receive_lem :
      (c : ℕ) (event : T) (ch ch' : Channels T)
      → receive c ch ≡ some (event, ch')
      → (rest : List T) × (ch.waiting c ≡ event ∷ rest)
        × (ch' ≡ record ch { waiting = update c rest ch.waiting })
  receive_lem c event ch ch' h = receive_at c event ch ch' (ch.waiting c) refl h

  Accounts-sent :
      (h : List (Action T)) (s : System T) (before after : List (Publication T)) (event : T)
      (to : Subscriber) (remaining : List Subscriber)
      → s.publications ≡ before ++ record { event = event; remaining = to ∷ remaining } ∷ after
      → length (s.channels.waiting to.channel) < channel_size
      → Accounts h s
      → Accounts (sends event to.channel ∷ h) (record s {
        channels = record s.channels {
          waiting =
              update to.channel (s.channels.waiting to.channel ++ event ∷ []) s.channels.waiting;
        };
        publications = before ++ record { event = event; remaining = remaining } ∷ after;
      })
  Accounts-sent h s before after event to remaining now room a = record {
    made = a.made;
    once = a.once;
    adds_up = λ x c. ground (
      arith,
      a.adds_up x c,
      ap (owed x c) now,
      owed-append x c before (record { event = event; remaining = to ∷ remaining } ∷ after),
      owed-append x c before (record { event = event; remaining = remaining } ∷ after),
      count-append x (s.channels.waiting to.channel) (event ∷ []),
      eq_of_== to.channel c,
    );
    within =
        λ c. ground (arith, a.within c, length-append (s.channels.waiting to.channel) (event ∷ []));
    unused = λ c k. ground (
      arith,
      a.unused c k,
      a.known c k event,
      ap (owed event c) now,
      owed-append event c before (record { event = event; remaining = to ∷ remaining } ∷ after),
      ==_refl event,
    );
    known = λ c k x. ground (
      arith,
      a.known c k x,
      ap (owed x c) now,
      owed-append x c before (record { event = event; remaining = to ∷ remaining } ∷ after),
      owed-append x c before (record { event = event; remaining = remaining } ∷ after),
    );
  }

  Accounts-subscribed :
      (h : List (Action T)) (s : System T) (id : String)
      → Accounts h s
      → Accounts (subscribes id ∷ h) (record s {
        topic = (subscribe id s.topic s.channels).1;
        channels = (subscribe id s.topic s.channels).2;
      })
  unfolding subscribe
  Accounts-subscribed h s id a = record {
    made = ap suc a.made;
    once = λ c. ground (
      arith,
      occurrences-append c s.topic.subscribers
          (record { identifier = id; channel = s.channels.made } ∷ []),
      a.once c,
      a.made,
    );
    adds_up = λ x c. ground (arith, a.adds_up x c, a.unused c);
    within = λ c. ground (arith, a.within c);
    unused = λ c k. ground (arith, a.unused c);
    known = λ c k x. a.known c (omega arith) x;
  }

  Accounts-published :
      (h : List (Action T)) (s : System T) (event : T)
      → Accounts h s
      → Accounts
          (publishes event ∷ h)
          (record s { publications = publish event s.topic ∷ s.publications })
  unfolding publish
  Accounts-published h s event a = record {
    made = a.made;
    once = a.once;
    adds_up = λ x c. ground (arith, a.adds_up x c, a.once c);
    within = a.within;
    unused = a.unused;
    known = λ c k x. ground (arith, a.known c k x, a.once c, a.made);
  }

  Accounts-returned :
      (h : List (Action T)) (s : System T) (before after : List (Publication T)) (event : T)
      → s.publications ≡ before ++ record { event = event; remaining = [] } ∷ after
      → Accounts h s
      → Accounts (returns ∷ h) (record s { publications = before ++ after })
  Accounts-returned h s before after event now a = record {
    made = a.made;
    once = a.once;
    adds_up = λ x c. ground (arith, a.adds_up x c, same x c);
    within = a.within;
    unused = a.unused;
    known = λ c k x. ground (arith, a.known c k x, same x c);
  }
    where
      same : (x : T) (c : ℕ) → owed x c s.publications ≡ owed x c (before ++ after)
      same x c = ground (
        arith,
        ap (owed x c) now,
        owed-append x c before (record { event = event; remaining = [] } ∷ after),
        owed-append x c before after,
      )

  Accounts-received :
      (h : List (Action T)) (s : System T) (c : ℕ) (event : T) (rest : List T)
      → s.channels.waiting c ≡ event ∷ rest
      → Accounts h s
      → Accounts
          (receives c event ∷ h)
          (record s { channels = record s.channels { waiting = update c rest s.channels.waiting } })
  Accounts-received h s c event rest now a = record {
    made = a.made;
    once = a.once;
    adds_up = λ x d. ground (arith, a.adds_up x d, eq_of_== c d, now);
    within = λ d. ground (arith, a.within d, eq_of_== c d, now);
    unused = λ d k. ground (arith, a.unused d k, eq_of_== c d, now);
    known = a.known;
  }

  pub Step-Accounts :
      (h : List (Action T)) (s t : System T) (act : Action T)
      → Step s act t
      → Accounts h s
      → Accounts (act ∷ h) t
  Step-Accounts h s t _ (subscribed id _ q) a = rw q (Accounts-subscribed h s id a)
  Step-Accounts h s t _ (published event _ q) a = rw q (Accounts-published h s event a)
  Step-Accounts h s t _ (sent before after event to remaining ch _ now into q) a =
      let (room, same) = send_lem event to s.channels ch into in
      rw (q, same) (Accounts-sent h s before after event to remaining now room a)
  Step-Accounts h s t _ (returned before after event _ now q) a =
      rw q (Accounts-returned h s before after event now a)
  Step-Accounts h s t _ (received c event ch _ from q) a =
      let (rest, waits, same) = receive_lem c event s.channels ch from in
      rw (q, same) (Accounts-received h s c event rest waits a)

  pub Run-Accounts : (h : List (Action T)) (s : System T) → Run h s → Accounts h s
  Run-Accounts _ _ here = Accounts-start
  Run-Accounts _ _ (next h s act t r st) = Step-Accounts h s t act st (Run-Accounts h s r)

  -- In every run, a channel never holds more than its size, and what the subscriber of a channel
  -- has received, what waits in the channel, and what publications have still to send to it are
  -- together the events published after it subscribed, each as often as it was published.
  pub Run-delivers :
      (h : List (Action T)) (s : System T)
      → Run h s
      → (c : ℕ)
      → (length (s.channels.waiting c) ≤ channel_size)
        × ((x : T)
            → count x (received_by c h) + count x (s.channels.waiting c) + owed x c s.publications
              ≡ count x (published_for c h))
  Run-delivers h s r c = let a = Run-Accounts h s r in (a.within c, λ x. a.adds_up x c)
