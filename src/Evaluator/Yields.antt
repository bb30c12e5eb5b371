-- ===== src/Evaluator/Yields.antt =====
-- Rules to show what a handler's run from a given evaluator yields.
use function_hcl.Base.{
  ◌≡◌, refl, Bool, true, false, Option, none, some, [], ◌∷◌, ◌++◌, if◌then◌else◌, arith,
  Option-cases, inl, inr,
}
use function_hcl.Evaluator.Frame.{Extends, Known, Grows, Meets}
use function_hcl.Evaluator.{
  Evaluator, Handler, pure, panic, present, modify, gets, ◌>>=◌, ◌>>◌, DiscardItem, discard,
}

-- A run of the handler from `e` that returns has a result and a final evaluator with `Q`.
pub record Yields {V A : Type 0} (e : Evaluator V) (m : Handler V A) (Q : A → Evaluator V → Type 0)
    : Type 0 where
  pub runs : (a : A) (e' : Evaluator V) → m e ≡ some (a, e') → Q a e'

module _ {V A : Type 0} {Q : A → Evaluator V → Type 0} where
  pub Yields-pure : (a : A) (e : Evaluator V) → Q a e → Yields e (pure a) Q
  unfolding pure
  Yields-pure a e q = record {
    runs = λ b e' h.
        let same_result : a ≡ b = ground arith in
        let same_state : e ≡ e' = ground arith in rw (← same_result, ← same_state) q;
  }

  pub Yields-panic : (e : Evaluator V) → Yields e panic Q
  unfolding panic
  Yields-panic e = record { runs = λ b e' h. absurd (cc) }

  pub Yields-gets : (f : Evaluator V → A) (e : Evaluator V) → Q (f e) e → Yields e (gets f) Q
  unfolding gets pure
  Yields-gets f e q = record { runs = (Yields-pure (f e) e q).runs }

  pub Yields-present :
      (o : Option A) (e : Evaluator V) → ((a : A) → o ≡ some a → Q a e) → Yields e (present o) Q
  unfolding present
  Yields-present none e q = Yields-panic e
  Yields-present (some a) e q = Yields-pure a e (q a refl)

  pub Yields-if :
      (b : Bool) {x y : Handler V A} {e : Evaluator V}
      → (b ≡ true → Yields e x Q)
      → (b ≡ false → Yields e y Q)
      → Yields e (if b then x else y) Q
  Yields-if true yx yy = yx refl
  Yields-if false yx yy = yy refl

  pub Yields-bind :
      {B : Type 0} {P : B → Evaluator V → Type 0} {m : Handler V B} {f : B → Handler V A}
      {e : Evaluator V}
      → Yields e m P
      → ((b : B) (e' : Evaluator V) → P b e' → Yields e' (f b) Q)
      → Yields e (m >>= f) Q
  unfolding ◌>>=◌
  Yields-bind {m = m} {f = f} {e = e} ym yf = record {
    runs = λ a e'' h. elim (Option-cases (m e)) [
      | inl none_m ↦ absurd (ground (arith, none_m))
      | inr ((b, e'), some_m) ↦
          let rest : f b e' ≡ some (a, e'') = ground (arith, some_m) in
          (yf b e' (ym.runs b e' some_m)).runs a e'' rest
    ];
  }

  pub Yields-modify :
      {m : Handler V A} (f : Evaluator V → Evaluator V) {e : Evaluator V}
      → Yields (f e) m Q
      → Yields e (modify f >> m) Q
  unfolding modify ◌>>=◌ ◌>>◌
  Yields-modify f y = record { runs = y.runs }

  pub Yields-discard :
      {m : Handler V A} (item : DiscardItem) {e : Evaluator V}
      → Yields (record e { discards = e.discards ++ item ∷ [] }) m Q
      → Yields e (discard item >> m) Q
  unfolding discard
  Yields-discard item y = Yields-modify (λ e. record e { discards = e.discards ++ item ∷ [] }) y

  pub Yields-read :
      {B : Type 0} (f : Evaluator V → B) (k : B → Handler V A) {e : Evaluator V}
      → Yields e (k (f e)) Q
      → Yields e (gets f >>= k) Q
  unfolding gets ◌>>=◌
  Yields-read f k y = record { runs = y.runs }

  pub Yields-use :
      {B : Type 0} (o : Option B) {k : B → Handler V A} {e : Evaluator V}
      → ((b : B) → o ≡ some b → Yields e (k b) Q)
      → Yields e (present o >>= k) Q
  unfolding present ◌>>=◌ panic pure
  Yields-use none y = record { runs = λ b e' h. absurd (cc) }
  Yields-use (some b) y = record { runs = (y b refl).runs }

  pub Yields-Grows :
      {s t : Known} {m : Handler V A} {e : Evaluator V}
      → Grows s t m
      → Meets s e
      → ((a : A) (e' : Evaluator V) → Extends e e' → Meets t e' → Q a e')
      → Yields e m Q
  Yields-Grows {e = e} g p q = record {
    runs = λ a e' h. let (extends, met) = g.runs e e' a p h in q a e' extends met;
  }
