-- ===== src/Locals/Paths.antt =====
-- The path of names under evaluation and the set of names that remain.
use function_hcl.Base.{
  ℕ, suc, String, ◌≡◌, refl, ◌≤◌, ◌<◌, true, false, not, ◌&&◌, ◌||◌, ◌⊎◌, inl, inr, Option-cases,
  is_some, List, [], ◌∷◌, ◌++◌, ◌==◌, contains, contains-append, if◌then◌else◌, string_eq, arith,
  length,
}
use native.Mathlib.Nat.{le_trans}
use function_hcl.Locals.{sub_path, push, remove}

pub contains-remove :
    (name x : String) (xs : List String)
    → contains (remove name xs) x ≡ (not (x == name) && contains xs x)
unfolding remove
contains-remove name x [] = ground arith
contains-remove name x (y ∷ xs) = ground (arith, contains-remove name x xs)

sub_path-contains :
    (name : String) (path : List String) → contains path name ≡ is_some (sub_path name path)
unfolding sub_path
sub_path-contains name [] = refl
sub_path-contains name (v ∷ path) = ground (arith, sub_path-contains name path)

-- A push fails with a cycle, or succeeds with a name that is not on the path and puts it there.
pub push-cases :
    (path : List String) (name : String)
    → ((cycle : List String) × (contains path name ≡ true) × (push path name ≡ inl cycle))
      ⊎ ((contains path name ≡ false) × (push path name ≡ inr (path ++ name ∷ [])))
unfolding push
push-cases path name = elim (Option-cases (sub_path name path)) [
  | inl e ↦ inr (rw e at (sub_path-contains name path), ground arith)
  | inr (cycle, e) ↦ inl (cycle, rw e at (sub_path-contains name path), ground arith)
]

pub contains-snoc :
    (path : List String) (name x : String)
    → contains (path ++ name ∷ []) x ≡ (contains path x || (x == name))
contains-snoc path name x = ground (arith, contains-append path (name ∷ []) x)

-- How many of the names that remain are not on the path.
abbrev pub open_count : List String → List String → ℕ
open_count path [] = 0
open_count path (x ∷ xs) = let n = open_count path xs in if contains path x then n else suc n

pub open_count-remove :
    (path : List String) (name : String) (xs : List String)
    → open_count path (remove name xs) ≤ open_count path xs
unfolding remove
open_count-remove path name [] = ground arith
open_count-remove path name (x ∷ xs) = ground (arith, open_count-remove path name xs)

pub open_count-snoc_le :
    (path : List String) (name : String) (xs : List String)
    → open_count (path ++ name ∷ []) xs ≤ open_count path xs
open_count-snoc_le path name [] = ground arith
open_count-snoc_le path name (x ∷ xs) =
    ground (arith, open_count-snoc_le path name xs, contains-snoc path name x)

-- Pushing a name that remains leaves fewer names off the path.
pub open_count-snoc_lt :
    (path : List String) (name : String) (xs : List String)
    → contains path name ≡ false
    → contains xs name ≡ true
    → open_count (path ++ name ∷ []) xs < open_count path xs
open_count-snoc_lt path name [] h k = ground arith
open_count-snoc_lt path name (x ∷ xs) h k = ground (
  arith,
  open_count-snoc_lt path name xs,
  open_count-snoc_le path name xs,
  contains-snoc path name x,
)

pub open_count-nil : (xs : List String) → open_count [] xs ≡ length xs
open_count-nil [] = refl
open_count-nil (x ∷ xs) = ground (arith, open_count-nil xs)

-- What a call under `path` does to the names that remain: it only deletes, and never a name of
-- the path.
pub record Frame (path before after : List String) : Type 0 where
  pub count : (p : List String) → open_count p after ≤ open_count p before
  pub shrink : (x : String) → contains after x ≡ true → contains before x ≡ true
  pub keep :
      (x : String) → contains path x ≡ true → contains before x ≡ true → contains after x ≡ true

pub Frame-refl : (path r : List String) → Frame path r r
Frame-refl path r = record { count = λ p. omega arith; shrink = λ x h. h; keep = λ x on h. h }

pub Frame-trans : {path a b c : List String} → Frame path a b → Frame path b c → Frame path a c
Frame-trans f g = record {
  count = λ p. le_trans (g.count p) (f.count p);
  shrink = λ x h. f.shrink x (g.shrink x h);
  keep = λ x on h. g.keep x on (f.keep x on h);
}

-- A call that pushes a name, and deletes it at the end.
pub Frame-pop :
    {path a b : List String} (name : String)
    → contains path name ≡ false
    → Frame (path ++ name ∷ []) a b
    → Frame path a (remove name b)
Frame-pop {path} {a} {b} name off f = record {
  count = λ p. le_trans (open_count-remove p name b) (f.count p);
  shrink = λ x h. f.shrink x (ground (arith, contains-remove name x b));
  keep = λ x on h. ground (
    arith,
    contains-remove name x b,
    contains-snoc path name x,
    f.keep x (ground (arith, contains-snoc path name x)) h,
  );
}

-- What was evaluated before a call is evaluated after it.
pub Frame-done :
    {path a b : List String} (x : String)
    → Frame path a b
    → contains a x ≡ false
    → contains b x ≡ false
Frame-done {a} {b} x f h = ground (arith, f.shrink x)
