-- ===== src/Events/Progress.antt =====
-- A topic is stuck only when nothing waits and no publication goes on.
use function_hcl.Base.{
  ℕ, zero, suc, ◌<◌, ◌≡◌, refl, some, List, [], ◌∷◌, ◌++◌, ◌==◌, nat_eq, ltb, length, arith, true,
  eq_of_==, Bool-cases, inl, inr, ◌⊎◌,
}
use function_hcl.Events.{Channels, Subscriber, Publication, send, receive, channel_size, update}
use function_hcl.Events.Runs.{
  System, Action, sends, returns, receives, Step, sent, returned, received,
}
use function_hcl.Events.Settling.{Quiet}

module _ {T : Type 0} where
  receive_now :
      (c : ℕ) (event : T) (rest : List T) (ch : Channels T)
      → ch.waiting c ≡ event ∷ rest
      → receive c ch ≡ some (event, record ch { waiting = update c rest ch.waiting })
  unfolding receive
  receive_now c event rest ch h = rw (h, receive)

  send_now :
      (event : T) (to : Subscriber) (ch : Channels T)
      → length (ch.waiting to.channel) < channel_size
      → send event to ch
        ≡ some (record ch {
          waiting = update to.channel (ch.waiting to.channel ++ event ∷ []) ch.waiting;
        })
  unfolding send
  send_now event to ch room =
      let t : ltb (length (ch.waiting to.channel)) channel_size ≡ true = ground (arith, room) in
      rw t

  -- A channel in which an event waits, if there is one.
  find_waiting :
      (n : ℕ) (waiting : ℕ → List T)
      → ((c : ℕ) × (event : T) × (rest : List T) × (waiting c ≡ event ∷ rest))
        ⊎ ((c : ℕ) → c < n → waiting c ≡ [])
  find_waiting zero waiting = inr (λ c h. absurd (omega arith))
  find_waiting (suc n) waiting = elim (first (waiting n) refl) [
    | inl there ↦ inl there
    | inr none_at ↦ elim (find_waiting n waiting) [
      | inl there ↦ inl there
      | inr below ↦ inr (λ c h. elim (Bool-cases (c == n)) [
        | inl last ↦ rw (eq_of_== c n last) none_at
        | inr other ↦ below c (ground (arith, other))
      ])
    ]
  ]
    where
      first :
          (xs : List T)
          → waiting n ≡ xs
          → ((c : ℕ) × (event : T) × (rest : List T) × (waiting c ≡ event ∷ rest))
            ⊎ (waiting n ≡ [])
      first [] q = inr q
      first (x ∷ xs) q = inl (n, x, xs, q)

  -- A quiet step of a system.
  abbrev pub CanStep : System T → Type 0
  CanStep s = (a : Action T) × (t : System T) × Quiet a × Step s a t

  receive_step :
      (s : System T) (c : ℕ) (event : T) (rest : List T)
      → s.channels.waiting c ≡ event ∷ rest
      → CanStep s
  receive_step s c event rest h = (
    receives c event,
    record s { channels = record s.channels { waiting = update c rest s.channels.waiting } },
    tt,
    received c event _ _ (receive_now c event rest s.channels h) refl,
  )

  publication_step :
      (s : System T) (event : T) (remaining : List Subscriber) (ps : List (Publication T))
      → s.publications ≡ record { event = event; remaining = remaining } ∷ ps
      → CanStep s
  publication_step s event [] ps h =
      (returns, record s { publications = ps }, tt, returned [] ps event _ h refl)
  publication_step s event (to ∷ remaining) ps h =
      elim (full_or_room (s.channels.waiting to.channel) refl) [
        | inl (x, xs, q) ↦ receive_step s to.channel x xs q
        | inr room ↦ (
          sends event to.channel,
          record s {
            channels = record s.channels {
              waiting =
                  update to.channel (s.channels.waiting to.channel ++ event ∷ [])
                    s.channels.waiting;
            };
            publications = record { event = event; remaining = remaining } ∷ ps;
          },
          tt,
          sent [] ps event to remaining _ _ h (send_now event to s.channels room) refl,
        )
      ]
    where
      full_or_room :
          (xs : List T)
          → s.channels.waiting to.channel ≡ xs
          → ((y : T) × (ys : List T) × (s.channels.waiting to.channel ≡ y ∷ ys))
            ⊎ (length (s.channels.waiting to.channel) < channel_size)
      full_or_room [] q = inr (ground (arith, q))
      full_or_room (y ∷ ys) q = inl (y, ys, q)

  pub can_step :
      (s : System T) (ps : List (Publication T))
      → s.publications ≡ ps
      → CanStep s
        ⊎ ((s.publications ≡ []) × ((c : ℕ) → c < s.channels.made → s.channels.waiting c ≡ []))
  can_step s (p ∷ ps) h = inl (publication_step s p.event p.remaining ps h)
  can_step s [] h = elim (find_waiting s.channels.made s.channels.waiting) [
    | inl (c, event, rest, q) ↦ inl (receive_step s c event rest q)
    | inr empty ↦ inr (h, empty)
  ]
