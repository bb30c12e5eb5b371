-- ===== src/Events/Liveness.antt =====
-- Publications end, and what is published arrives, as long as subscribers receive.
use function_hcl.Base.{
  ℕ, zero, suc, ◌+◌, ◌≤◌, ◌<◌, ◌≡◌, refl, ap, List, [], ◌∷◌, ◌++◌, Eq, nat_eq, ltb, length,
  length-append, arith, ==_refl, Bool-cases, inl, inr,
}
use function_hcl.Events.{Subscriber, Publication}
use function_hcl.Events.Runs.{
  System, Action, Step, subscribed, published, sent, returned, received, Run, published_for,
  received_by, count,
}
use function_hcl.Events.Delivery.{
  Accounts, Run-Accounts, Step-Accounts, send_lem, receive_lem, owed, owed-append,
}
use function_hcl.Events.Settling.{
  Quiet, Settling, stay, go_on, Settled, sending, work_left, sending-append, waiting_below-update,
}
use function_hcl.Events.Progress.{can_step}

module _ {T : Type 0} ⦃e : Eq T⦄ where
  to_made :
      (h : List (Action T)) (s : System T) (before after : List (Publication T)) (event : T)
      (to : Subscriber) (remaining : List Subscriber)
      → s.publications ≡ before ++ record { event = event; remaining = to ∷ remaining } ∷ after
      → Accounts h s
      → to.channel < s.channels.made
  to_made h s before after event to remaining now acc =
      elim (Bool-cases (ltb to.channel s.channels.made)) [
        | inl below ↦ ground (arith, below)
        | inr above ↦ absurd (
            ground (
              arith,
              above,
              acc.known to.channel (ground (arith, above)) event,
              ap (owed event to.channel) now,
              owed-append event to.channel before
                  (record { event = event; remaining = to ∷ remaining } ∷ after),
              ==_refl event,
            ))
      ]

  waits_made :
      (h : List (Action T)) (s : System T) (c : ℕ) (event : T) (rest : List T)
      → s.channels.waiting c ≡ event ∷ rest
      → Accounts h s
      → c < s.channels.made
  waits_made h s c event rest waits acc = elim (Bool-cases (ltb c s.channels.made)) [
    | inl below ↦ ground (arith, below)
    | inr above ↦ absurd (ground (arith, waits, acc.unused c (ground (arith, above))))
  ]

  -- Each quiet step leaves less to do.
  Step-work_left :
      (h : List (Action T)) (s t : System T) (a : Action T)
      → Accounts h s
      → Quiet a
      → Step s a t
      → work_left t < work_left s
  Step-work_left h s t _ acc q (sent before after event to remaining ch _ now into same) =
      let (room, then_ch) = send_lem event to s.channels ch into in
      let held = to_made h s before after event to remaining now acc in
      rw (same, then_ch)
        (ground (
          arith,
          ap sending now,
          sending-append before (record { event = event; remaining = to ∷ remaining } ∷ after),
          sending-append before (record { event = event; remaining = remaining } ∷ after),
          waiting_below-update s.channels.made to.channel
              (s.channels.waiting to.channel ++ event ∷ []) s.channels.waiting held,
          length-append (s.channels.waiting to.channel) (event ∷ []),
        ))
  Step-work_left h s t _ acc q (returned before after event _ now same) = rw same (
      ground (
        arith,
        ap sending now,
        sending-append before (record { event = event; remaining = [] } ∷ after),
        sending-append before after,
      ))
  Step-work_left h s t _ acc q (received c event ch _ from same) =
      let (rest, waits, then_ch) = receive_lem c event s.channels ch from in
      let held = waits_made h s c event rest waits acc in
      rw (same, then_ch)
        (ground (arith, waits, waiting_below-update s.channels.made c rest s.channels.waiting held))
  Step-work_left h s t _ acc q (subscribed id _ same) = absurd q
  Step-work_left h s t _ acc q (published event _ same) = absurd q

  Settling-bounded :
      (n : ℕ) (h h' : List (Action T)) (s u : System T)
      → Accounts h s
      → Settling n h s h' u
      → (n + work_left u ≤ work_left s) × Accounts h' u
  Settling-bounded _ h _ s _ acc (stay _ _) = (omega arith, acc)
  Settling-bounded _ h h' s u acc (go_on n _ _ a t _ _ q st later) =
      let (bound, acc') = Settling-bounded n (a ∷ h) h' t u (Step-Accounts h s t a st acc) later in
      (ground (arith, bound, Step-work_left h s t a acc q st), acc')

  Settled-empty :
      (h : List (Action T)) (s : System T)
      → Accounts h s
      → Settled s
      → (s.publications ≡ []) × ((c : ℕ) → s.channels.waiting c ≡ [])
  Settled-empty h s acc settled = elim (can_step s s.publications refl) [
    | inl (a, t, q, st) ↦ absurd (settled a t q st)
    | inr (none_left, empty) ↦ (
      none_left,
      λ c. elim (Bool-cases (ltb c s.channels.made)) [
        | inl below ↦ empty c (ground (arith, below))
        | inr above ↦ acc.unused c (ground (arith, above))
      ],
    )
  ]

  empty-Settled :
      (s : System T) → s.publications ≡ [] → ((c : ℕ) → s.channels.waiting c ≡ []) → Settled s
  empty-Settled s nothing empty _ _ q (sent before after event to remaining ch _ now into same) =
      absurd (
        ground (
          arith,
          nothing,
          ap length now,
          length-append before (record { event = event; remaining = to ∷ remaining } ∷ after),
        ))
  empty-Settled s nothing empty _ _ q (returned before after event _ now same) = absurd (
      ground (
        arith,
        nothing,
        ap length now,
        length-append before (record { event = event; remaining = [] } ∷ after),
      ))
  empty-Settled s nothing empty _ _ q (received c event ch _ from same) =
      let (rest, waits, then_ch) = receive_lem c event s.channels ch from in
      absurd (ground (arith, waits, empty c))
  empty-Settled s nothing empty _ _ q (subscribed id _ same) = absurd q
  empty-Settled s nothing empty _ _ q (published event _ same) = absurd q

  settles :
      (fuel : ℕ) (h : List (Action T)) (s : System T)
      → Accounts h s
      → work_left s < fuel
      → (n : ℕ) × (h' : List (Action T)) × (u : System T) × Settling n h s h' u × Settled u
  settles zero h s acc few = absurd (omega arith)
  settles (suc fuel) h s acc few = elim (can_step s s.publications refl) [
    | inl (a, t, q, st) ↦
        let (n, h', u, later, settled) =
          settles fuel (a ∷ h) t (Step-Accounts h s t a st acc)
            (omega (arith, Step-work_left h s t a acc q st)) in
        (suc n, h', u, go_on n h s a t h' u q st later, settled)
    | inr (none_left, empty) ↦ (
      0,
      h,
      s,
      stay h s,
      empty-Settled s none_left (λ c. elim (Bool-cases (ltb c s.channels.made)) [
        | inl below ↦ empty c (ground (arith, below))
        | inr above ↦ acc.unused c (ground (arith, above))
      ]),
    )
  ]

  -- From each state of a run: the sends, returns and receives that follow without a new
  -- subscription or publication are no more than `work_left`; some of them lead to a state where
  -- none is possible; and wherever none is possible, every publication has returned and each
  -- subscriber has received exactly the events published after it subscribed, each as often as it
  -- was published.
  pub Run-settles :
      (h : List (Action T)) (s : System T)
      → Run h s
      → ((n : ℕ) (h' : List (Action T)) (u : System T) → Settling n h s h' u → n ≤ work_left s)
        × ((n : ℕ) × (h' : List (Action T)) × (u : System T) × Settling n h s h' u × Settled u)
        × ((n : ℕ) (h' : List (Action T)) (u : System T)
            → Settling n h s h' u
            → Settled u
            → (u.publications ≡ [])
              × ((c : ℕ) (x : T) → count x (received_by c h') ≡ count x (published_for c h')))
  Run-settles h s r =
      let acc = Run-Accounts h s r in
      (
        λ n h' u steps.
            let (bound, _) = Settling-bounded n h h' s u acc steps in omega (arith, bound),
        settles (suc (work_left s)) h s acc (omega arith),
        λ n h' u steps settled.
            let (_, acc') = Settling-bounded n h h' s u acc steps in
            let (none_left, empty) = Settled-empty h' u acc' settled in
            (none_left, λ c x. ground (arith, acc'.adds_up x c, none_left, empty c)),
      )
