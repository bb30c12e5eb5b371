-- ===== src/Events/Settling.antt =====
-- Publications end: as long as subscribers receive, nothing is left waiting.
use function_hcl.Base.{
  ℕ, zero, suc, ◌+◌, ◌*◌, ◌≤◌, ◌<◌, ◌≡◌, refl, List, [], ◌∷◌, ◌++◌, ◌==◌, nat_eq, length, arith,
  ==_refl, eq_of_==, Bool-cases, inl, inr,
}
use function_hcl.Events.{Publication, update}
use function_hcl.Events.Runs.{System, Action, subscribes, publishes, Step}

module _ {T : Type 0} where
  -- An action of neither a new subscriber nor a new publication.
  abbrev pub Quiet : Action T → Type 0
  Quiet (subscribes id) = ⊥
  Quiet (publishes event) = ⊥
  Quiet _ = Unit

  -- So many quiet steps.
  pub data Settling : ℕ → List (Action T) → System T → List (Action T) → System T → Type 0 where
    stay : (h : List (Action T)) (s : System T) → Settling 0 h s h s
    go_on :
        (n : ℕ) (h : List (Action T)) (s : System T) (a : Action T) (t : System T)
        (h' : List (Action T)) (u : System T)
        → Quiet a
        → Step s a t
        → Settling n (a ∷ h) t h' u
        → Settling (suc n) h s h' u

  -- No quiet step can be made.
  abbrev pub Settled : System T → Type 0
  Settled s = (a : Action T) (t : System T) → Quiet a → ¬ Step s a t

  -- What is left to do: a send with the receive behind it, and a return, for each publication.
  abbrev pub sending : List (Publication T) → ℕ
  sending [] = 0
  sending (p ∷ ps) = suc (2 * length p.remaining) + sending ps

  abbrev pub waiting_below : ℕ → (ℕ → List T) → ℕ
  waiting_below zero waiting = 0
  waiting_below (suc n) waiting = length (waiting n) + waiting_below n waiting

  abbrev pub work_left : System T → ℕ
  work_left s = sending s.publications + waiting_below s.channels.made s.channels.waiting

  pub sending-append : (ps qs : List (Publication T)) → sending (ps ++ qs) ≡ sending ps + sending qs
  sending-append [] qs = omega arith
  sending-append (p ∷ ps) qs = omega (arith, sending-append ps qs)

  pub waiting_below-same :
      (n c : ℕ) (xs : List T) (waiting : ℕ → List T)
      → n ≤ c
      → waiting_below n (update c xs waiting) ≡ waiting_below n waiting
  waiting_below-same zero c xs waiting h = refl
  waiting_below-same (suc n) c xs waiting h =
      ground (arith, waiting_below-same n c xs waiting, eq_of_== c n)

  pub waiting_below-update :
      (n c : ℕ) (xs : List T) (waiting : ℕ → List T)
      → c < n
      → waiting_below n (update c xs waiting) + length (waiting c)
        ≡ waiting_below n waiting + length xs
  waiting_below-update zero c xs waiting h = absurd (omega arith)
  waiting_below-update (suc n) c xs waiting h = elim (Bool-cases (c == n)) [
    | inl last ↦ ground (arith, last, eq_of_== c n, waiting_below-same n c xs waiting)
    | inr other ↦ ground (arith, other, ==_refl c, waiting_below-update n c xs waiting)
  ]
