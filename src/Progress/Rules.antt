-- ===== src/Progress/Rules.antt =====
-- What a call of the program does to the keys and to the basket, with one rule for each way to put
-- calls together.
use cli_pos.Base.{ℕ, zero, suc, ◌≤◌, ◌<◌, ◌≢◌, List, arith, length}
use cli_pos.Fault.{Fault, Result, ok, err, exhausted}
use cli_pos.World.State.{World, Outcome, done, stopped, BasketProduct}
use cli_pos.World.Monad.{M, return, throw, lift, with_world}

-- A fault that is not this model's own.
abbrev pub IsReal : Fault → Type 0
IsReal f = f ≢ exhausted

pub data IsSafe {A : Type 0} : Result A → Type 0 where
  value : (a : A) → IsSafe (ok a)
  fault : (f : Fault) → IsReal f → IsSafe (err f)

module _ {D : Type 0} (I : List (BasketProduct D) → Type 0) where
  -- No bound on rounds is used up, at most `n` keys are left, and the basket is as `I` has it.
  abbrev pub Fed : {C A : Type 0} → ℕ → Outcome C D A → Type 0
  Fed n (done a w) = (length w.keys ≤ n) × I w.basket
  Fed n (stopped f w) = IsReal f × I w.basket

  -- The same with fewer than `n` keys.
  abbrev pub Left : {C A : Type 0} → ℕ → Outcome C D A → Type 0
  Left n (done a w) = (length w.keys < n) × I w.basket
  Left n (stopped f w) = IsReal f × I w.basket

  -- With fewer than `k` keys the call adds none, and uses no bound up.
  pub record Quiet {C A : Type 0} (k : ℕ) (m : M C D A) : Type 0 where
    pub fed : (n : ℕ) (w : World C D) → length w.keys ≤ n → n < k → I w.basket → Fed n (m w)

  -- It takes one besides.
  pub record Takes {C A : Type 0} (k : ℕ) (m : M C D A) : Type 0 where
    pub left : (n : ℕ) (w : World C D) → length w.keys ≤ n → n < k → I w.basket → Left n (m w)

module _ {D : Type 0} (I : List (BasketProduct D) → Type 0) {C A : Type 0} where
  pub Left-Fed : (m n : ℕ) (o : Outcome C D A) → m < n → Fed I m o → Left I n o
  Left-Fed m n (done a w) h (f, i) = (omega arith, i)
  Left-Fed m n (stopped e w) h f = f

  Fed-Left : (n : ℕ) (o : Outcome C D A) → Left I n o → Fed I n o
  Fed-Left n (done a w) (f, i) = (omega arith, i)
  Fed-Left n (stopped e w) f = f

  Fed-mono : (m n : ℕ) (o : Outcome C D A) → m ≤ n → Fed I m o → Fed I n o
  Fed-mono m n (done a w) h (f, i) = (omega arith, i)
  Fed-mono m n (stopped e w) h f = f

  Left-mono : (m n : ℕ) (o : Outcome C D A) → m ≤ n → Left I m o → Left I n o
  Left-mono m n (done a w) h (f, i) = (omega arith, i)
  Left-mono m n (stopped e w) h f = f

  lift-Fed :
      (n : ℕ) (w : World C D) (r : Result A)
      → IsSafe r
      → length w.keys ≤ n
      → I w.basket
      → Fed I n (lift r w)
  lift-Fed n w r (value a) h i = (h, i)
  lift-Fed n w r (fault f real) h i = (real, i)

module _ {D : Type 0} {I : List (BasketProduct D) → Type 0} {C A : Type 0} where
  pub Takes-Quiet : {k : ℕ} {m : M C D A} → Takes I k m → Quiet I k m
  Takes-Quiet {m} t = record { fed = λ n w h l i. Fed-Left I n (m w) (t.left n w h l i) }

  -- A call that looks at the world first, whose basket is as `I` has it.
  pub with_world-Quiet :
      {k : ℕ} {g : World C D → M C D A}
      → ((w : World C D) → I w.basket → Quiet I k (g w))
      → Quiet I k (with_world g)
  with_world-Quiet q = record { fed = λ n w h l i. (q w i).fed n w h l i }

  pub with_world-Takes :
      {k : ℕ} {g : World C D → M C D A}
      → ((w : World C D) → I w.basket → Takes I k (g w))
      → Takes I k (with_world g)
  with_world-Takes q = record { left = λ n w h l i. (q w i).left n w h l i }

  -- A loop whose bound is one more than the number of the keys, or two more.
  pub loop-Quiet :
      {k : ℕ} (f : World C D → ℕ → M C D A)
      → ((w : World C D) (n : ℕ) → Quiet I n (f w n))
      → Quiet I k (with_world λ w. f w (suc (length w.keys)))
  loop-Quiet f q = record {
    fed = λ n w h l i.
        Fed-mono I (length w.keys) n (f w (suc (length w.keys)) w) h
          ((q w (suc (length w.keys))).fed (length w.keys) w (omega arith) (omega arith) i);
  }

  pub loop-Takes :
      {k : ℕ} (f : World C D → ℕ → M C D A)
      → ((w : World C D) (n : ℕ) → Takes I n (f w n))
      → Takes I k (with_world λ w. f w (suc (length w.keys)))
  loop-Takes f q = record {
    left = λ n w h l i.
        Left-mono I (length w.keys) n (f w (suc (length w.keys)) w) h
          ((q w (suc (length w.keys))).left (length w.keys) w (omega arith) (omega arith) i);
  }

  -- Where no keys are few enough.
  pub none-Quiet : {m : M C D A} → Quiet I zero m
  none-Quiet = record { fed = λ n w h l i. elim l [ ] }

  pub none-Takes : {m : M C D A} → Takes I zero m
  none-Takes = record { left = λ n w h l i. elim l [ ] }

  pub throw-Quiet : {k : ℕ} (f : Fault) → IsReal f → Quiet I {C = C} {A = A} k (throw f)
  throw-Quiet f h = record { fed = λ n w _ _ i. (h, i) }

  pub return-Quiet : {k : ℕ} (a : A) → Quiet I {C = C} k (return a)
  return-Quiet a = record { fed = λ n w h l i. (h, i) }

  pub lift-Quiet : {k : ℕ} (r : Result A) → IsSafe r → Quiet I {C = C} k (lift r)
  lift-Quiet r s = record { fed = λ n w h l i. lift-Fed I n w r s h i }
