-- ===== src/Evaluator/Frame.antt =====
-- What a handler of the evaluator may change: the relation between the states before and after it,
-- and the rules that show it of a handler from its parts.
use function_hcl.Base.{
  String, ◌≡◌, refl, sym, ◌∙◌, ap, Bool, true, false, Option, none, some, List, [], ◌∷◌, ◌++◌, Dict,
  lookup, Distinct, inl, inr, is_some, if◌then◌else◌, string_eq, arith, Bool-cases, Option-cases,
}
use function_hcl.Json.{Object}
use function_hcl.Evaluator.{
  Evaluator, Handler, pure, panic, present, modify, gets, ◌>>=◌, ◌>>◌, DiscardItem, discard,
}
use mathlib.Core.List.{append-nil, append_assoc}

-- A resource has a readiness only if it is desired.
abbrev pub ReadyIsDesired : {V : Type 0} → Evaluator V → Type 0
ReadyIsDesired e =
    (n : String) → is_some (lookup n e.ready) ≡ true → is_some (lookup n e.desired_resources) ≡ true

-- What the evaluator knows of the observed state: resources and connection details, single and by
-- collection.
abbrev pub observed_of :
    {V : Type 0} → Evaluator V → Dict String V × Dict String V × Dict String V × Dict String V
observed_of e = (
  e.existing_resource_map, e.existing_connection_map, e.collection_resources_map,
  e.collection_connections_map,
)

pub record Extends {V : Type 0} (e e' : Evaluator V) : Type 0 where
  pub observed : observed_of e' ≡ observed_of e
  pub kept :
      (n : String) (s : Object)
      → lookup n e.desired_resources ≡ some s
      → lookup n e'.desired_resources ≡ some s
  pub ready_kept : ReadyIsDesired e → ReadyIsDesired e'
  pub ready_distinct : Distinct e.ready → Distinct e'.ready
  pub more : List DiscardItem
  pub discarded : e'.discards ≡ e.discards ++ more

-- What a handler is told of the desired resources before it runs, or tells afterwards.
pub data Known : Type 0 where
  anything : Known
  fresh : String → Known
  desired : String → Known

unfoldable pub Meets : {V : Type 0} → Known → Evaluator V → Type 0
Meets anything e = Unit
Meets (fresh n) e = is_some (lookup n e.desired_resources) ≡ false
Meets (desired n) e = is_some (lookup n e.desired_resources) ≡ true

-- Every run of the handler from an evaluator with `s` extends it, and ends in one with `t`.
pub record Grows {V A : Type 0} (s t : Known) (m : Handler V A) : Type 0 where
  pub runs :
      (e e' : Evaluator V) (a : A) → Meets s e → m e ≡ some (a, e') → Extends e e' × Meets t e'

module _ {V : Type 0} where
  pub Extends-refl : (e : Evaluator V) → Extends e e
  Extends-refl e = record {
    observed = refl;
    kept = λ n s h. h;
    ready_kept = λ r. r;
    ready_distinct = λ d. d;
    more = [];
    discarded = sym (append-nil e.discards);
  }

  pub Extends-trans : {a b c : Evaluator V} → Extends a b → Extends b c → Extends a c
  Extends-trans {a} f g = record {
    observed = g.observed ∙ f.observed;
    kept = λ n s h. g.kept n s (f.kept n s h);
    ready_kept = λ r. g.ready_kept (f.ready_kept r);
    ready_distinct = λ d. g.ready_distinct (f.ready_distinct d);
    more = f.more ++ g.more;
    discarded = rw (g.discarded, f.discarded) (append_assoc a.discards f.more g.more);
  }

  pub Meets-same :
      (s : Known) (e e' : Evaluator V)
      → e.desired_resources ≡ e'.desired_resources
      → Meets s e
      → Meets s e'
  unfolding Meets
  Meets-same anything e e' same p = tt
  Meets-same (fresh n) e e' same p = rw (← same) p
  Meets-same (desired n) e e' same p = rw (← same) p

  pub Grows-pure : {s : Known} {A : Type 0} (a : A) → Grows {V = V} s s (pure a)
  unfolding pure
  Grows-pure {s} a = record {
    runs = λ e e' b p h.
        let same : e ≡ e' = ground arith in
        (rw same (Extends-refl e'), Meets-same s e e' (ap (λ e. e.desired_resources) same) p);
  }

  pub Grows-weaken : {s t : Known} {A : Type 0} {m : Handler V A} → Grows s t m → Grows s anything m
  unfolding Meets
  Grows-weaken g = record { runs = λ e e' b p h. ((g.runs e e' b p h).0, tt) }

  pub Grows-panic : {s t : Known} {A : Type 0} → Grows {V = V} {A = A} s t panic
  unfolding panic
  Grows-panic = record { runs = λ e e' b p h. absurd (cc) }

  pub Grows-present : {s : Known} {A : Type 0} (o : Option A) → Grows {V = V} s s (present o)
  unfolding present
  Grows-present none = Grows-panic
  Grows-present (some a) = Grows-pure a

  pub Grows-gets : {s : Known} {A : Type 0} (f : Evaluator V → A) → Grows s s (gets f)
  unfolding gets
  Grows-gets {s} f = record {
    runs = λ e e' b p h.
        let same : e ≡ e' = ground arith in
        (rw same (Extends-refl e'), Meets-same s e e' (ap (λ e. e.desired_resources) same) p);
  }

  pub Grows-modify :
      {s t : Known} (f : Evaluator V → Evaluator V)
      → ((e : Evaluator V) → Meets s e → Extends e (f e) × Meets t (f e))
      → Grows s t (modify f)
  unfolding modify
  Grows-modify {s} {t} f g = record {
    runs = λ e e' b p h. let same : f e ≡ e' = ground arith in rw (← same) (g e p);
  }

  -- A first handler that makes `t` true.
  pub Grows-after :
      {s t u : Known} {A B : Type 0} {m : Handler V A} {f : A → Handler V B}
      → Grows s t m
      → ((a : A) → Grows t u (f a))
      → Grows s u (m >>= f)
  unfolding ◌>>=◌
  Grows-after {m = m} {f = f} gm gf = record {
    runs = λ e e' b p h. elim (Option-cases (m e)) [
      | inl none_m ↦ absurd (ground (arith, none_m))
      | inr ((a, e1), some_m) ↦
          let rest : f a e1 ≡ some (b, e') = ground (arith, some_m) in
          let (first, q) = gm.runs e e1 a p some_m in
          let (second, r) = (gf a).runs e1 e' b q rest in (Extends-trans first second, r)
    ];
  }

  pub Grows-bind :
      {s t : Known} {A B : Type 0} {m : Handler V A} {f : A → Handler V B}
      → Grows s s m
      → ((a : A) → Grows s t (f a))
      → Grows s t (m >>= f)
  Grows-bind gm gf = Grows-after gm gf

  pub Grows-then :
      {s t : Known} {B : Type 0} {m : Handler V (Unit {0})} {k : Handler V B}
      → Grows s s m
      → Grows s t k
      → Grows s t (m >> k)
  unfolding ◌>>◌
  Grows-then gm gk = Grows-bind gm (λ _. gk)

  pub Grows-if :
      {s t : Known} {A : Type 0} (b : Bool) {x y : Handler V A}
      → Grows s t x
      → Grows s t y
      → Grows s t (if b then x else y)
  Grows-if true gx gy = gx
  Grows-if false gx gy = gy

  -- A change of the evaluator away from its observed and desired resources and readiness, which may
  -- add discards.
  pub Grows-aside :
      {s : Known} (f : Evaluator V → Evaluator V) (more : List DiscardItem)
      → ((e : Evaluator V) → observed_of (f e) ≡ observed_of e)
      → ((e : Evaluator V) → (f e).desired_resources ≡ e.desired_resources)
      → ((e : Evaluator V) → (f e).ready ≡ e.ready)
      → ((e : Evaluator V) → (f e).discards ≡ e.discards ++ more)
      → Grows s s (modify f)
  Grows-aside {s} f more o d r c = Grows-modify {s = s} {t = s} f λ e p. (
    record {
      observed = o e;
      kept = λ n v h. rw (d e) h;
      ready_kept =
          λ k n h. let was : is_some (lookup n e.ready) ≡ true = rw (← r e) h in rw (d e) (k n was);
      ready_distinct = λ h. rw (r e) h;
      more = more;
      discarded = c e;
    },
    Meets-same s e (f e) (sym (d e)) p,
  )

  pub Grows-discard : {s : Known} (item : DiscardItem) → Grows {V = V} s s (discard item)
  unfolding discard
  Grows-discard item =
      Grows-aside (λ e. record e { discards = e.discards ++ item ∷ [] }) (item ∷ []) (λ e. refl)
        (λ e. refl) (λ e. refl) (λ e. refl)

  -- A change of the statuses, connections, contexts or requirements.
  pub Grows-elsewhere :
      {s : Known} (f : Evaluator V → Evaluator V)
      → ((e : Evaluator V) → observed_of (f e) ≡ observed_of e)
      → ((e : Evaluator V) → (f e).desired_resources ≡ e.desired_resources)
      → ((e : Evaluator V) → (f e).ready ≡ e.ready)
      → ((e : Evaluator V) → (f e).discards ≡ e.discards)
      → Grows s s (modify f)
  Grows-elsewhere f o d r c = Grows-aside f [] o d r (λ e. c e ∙ sym (append-nil e.discards))

  -- A handler that first tests whether a name is new.
  pub Grows-fresh :
      {A : Type 0} (n : String) {x y : Handler V A}
      → Grows anything anything x
      → Grows (fresh n) anything y
      → Grows anything anything
          (gets (λ e. is_some (lookup n e.desired_resources)) >>= λ have. if have then x else y)
  unfolding Meets gets ◌>>=◌
  Grows-fresh n {x} {y} gx gy = record {
    runs = λ e e' a p h. elim (Bool-cases (is_some (lookup n e.desired_resources))) [
      | inl have ↦ gx.runs e e' a p (ground (arith, have, h))
      | inr new ↦ gy.runs e e' a new (ground (arith, new, h))
    ];
  }
