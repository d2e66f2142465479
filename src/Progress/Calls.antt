-- ===== src/Progress/Calls.antt =====
-- The rules for the ways to put calls together, and for the calls of ncurses.
use cli_pos.Base.{
  ℕ, zero, suc, ◌≤◌, ◌<◌, Bool, true, false, List, [], ◌∷◌, Option, none, some, arith, length, refl,
  ◌≡◌, if◌then◌else◌,
}
use cli_pos.Text.{Text}
use cli_pos.World.State.{World, Outcome, done, stopped, Draw, BasketProduct}
use cli_pos.World.Monad.{M, ◌>>=◌, ◌>>◌, and_then, draw, when, getyx, getch, print_times, maybe}
use cli_pos.Progress.Rules.{
  Fed, Left, Quiet, Takes, Left-Fed, Takes-Quiet, return-Quiet, lift-Quiet, with_world-Quiet,
}

module _ {D : Type 0} (I : List (BasketProduct D) → Type 0) {C A B : Type 0} where
  bind-Fed :
      (n : ℕ) (o : Outcome C D A) (f : A → M C D B)
      → Fed I n o
      → ((a : A) (w : World C D) → length w.keys ≤ n → I w.basket → Fed I n (f a w))
      → Fed I n (and_then o f)
  bind-Fed n (done a w) f (h, i) k = k a w h i
  bind-Fed n (stopped e w) f h k = h

  bind-Left :
      (n : ℕ) (o : Outcome C D A) (f : A → M C D B)
      → Left I n o
      → ((a : A) (m : ℕ) (w : World C D) → length w.keys ≤ m → m < n → I w.basket → Fed I m (f a w))
      → Left I n (and_then o f)
  bind-Left n (done a w) f (h, i) k =
      Left-Fed I (length w.keys) n (f a w) h (k a (length w.keys) w (omega arith) h i)
  bind-Left n (stopped e w) f h k = h

  then-Left :
      (n : ℕ) (o : Outcome C D A) (f : A → M C D B)
      → Fed I n o
      → ((a : A) (w : World C D) → length w.keys ≤ n → I w.basket → Left I n (f a w))
      → Left I n (and_then o f)
  then-Left n (done a w) f (h, i) k = k a w h i
  then-Left n (stopped e w) f h k = h

module _ {D : Type 0} {I : List (BasketProduct D) → Type 0} {C A B : Type 0} where
  pub bind-Quiet :
      {k : ℕ} {m : M C D A} {f : A → M C D B}
      → Quiet I k m
      → ((a : A) → Quiet I k (f a))
      → Quiet I k (m >>= f)
  bind-Quiet {m} {f} p q = record {
    fed = λ n w h l i. bind-Fed I n (m w) f (p.fed n w h l i) (λ a w' h'. (q a).fed n w' h' l);
  }

  -- What follows a call that takes a key may rest on a smaller bound.
  pub taken-Takes :
      {k : ℕ} {m : M C D A} {f : A → M C D B}
      → Takes I (suc k) m
      → ((a : A) → Quiet I k (f a))
      → Takes I (suc k) (m >>= f)
  taken-Takes {m} {f} p q = record {
    left = λ n w h l i.
        bind-Left I n (m w) f (p.left n w h l i) (λ a j w' h' l'. (q a).fed j w' h' (omega arith));
  }

  pub taken-Quiet :
      {k : ℕ} {m : M C D A} {f : A → M C D B}
      → Takes I (suc k) m
      → ((a : A) → Quiet I k (f a))
      → Quiet I (suc k) (m >>= f)
  taken-Quiet {m} {f} p q = Takes-Quiet (taken-Takes {m = m} {f = f} p q)

  pub bind-Takes :
      {k : ℕ} {m : M C D A} {f : A → M C D B}
      → Quiet I k m
      → ((a : A) → Takes I k (f a))
      → Takes I k (m >>= f)
  bind-Takes {m} {f} p q = record {
    left = λ n w h l i. then-Left I n (m w) f (p.fed n w h l i) (λ a w' h'. (q a).left n w' h' l);
  }

module _ {D : Type 0} {I : List (BasketProduct D) → Type 0} {C B : Type 0} {k : ℕ} where
  pub seq-Quiet :
      {m : M C D (Unit {0})} {m' : M C D B} → Quiet I k m → Quiet I k m' → Quiet I k (m >> m')
  seq-Quiet {m} {m'} p q = bind-Quiet {m = m} {f = λ _. m'} p (λ _. q)

  pub seq-Takes :
      {m : M C D (Unit {0})} {m' : M C D B} → Quiet I k m → Takes I k m' → Takes I k (m >> m')
  seq-Takes {m} {m'} p q = bind-Takes {m = m} {f = λ _. m'} p (λ _. q)

-- A choice between calls.
module _ {D : Type 0} {I : List (BasketProduct D) → Type 0} {C A : Type 0} {k : ℕ} where
  pub if-Quiet :
      {m m' : M C D A} (b : Bool) → Quiet I k m → Quiet I k m' → Quiet I k (if b then m else m')
  if-Quiet true p q = p
  if-Quiet false p q = q

  pub option-Quiet :
      {B : Type 0} {m : M C D A} {f : B → M C D A} (o : Option B)
      → Quiet I k m
      → ((b : B) → Quiet I k (f b))
      → Quiet I k (maybe o m f)
  option-Quiet none p q = p
  option-Quiet (some b) p q = q b

module _ {D : Type 0} (I : List (BasketProduct D) → Type 0) {C : Type 0} where
  print_times-Fed :
      (i : ℕ) (t : Text) (n : ℕ) (w : World C D)
      → length w.keys ≤ n
      → I w.basket
      → Fed I n (print_times i t w)
  unfolding print_times
  print_times-Fed zero t n w h b = (h, b)
  print_times-Fed (suc i) t n w h b = print_times-Fed i t n _ h b

  getch-Left :
      (n : ℕ) (w : World C D) (keys : List ℕ)
      → w.keys ≡ keys
      → length w.keys ≤ n
      → I w.basket
      → Left I n (getch w)
  unfolding getch
  getch-Left n w [] e h i = rw (e, getch) ((λ x. cc), i)
  getch-Left n w (key ∷ keys) e h i =
      rw (e, getch) (let h' : length (key ∷ keys) ≤ n = rw e at h in (omega arith, i))

module _ {D : Type 0} {I : List (BasketProduct D) → Type 0} {C : Type 0} {k : ℕ} where
  pub when-Quiet : {m : M C D (Unit {0})} (b : Bool) → Quiet I k m → Quiet I k (when b m)
  when-Quiet true p = record { fed = λ n w h l i. p.fed n w h l i }
  when-Quiet false p = record { fed = λ n w h l i. (h, i) }

  pub draw-Quiet : (x : Draw) → Quiet I {C = C} k (draw x)
  draw-Quiet x = record { fed = λ n w h l i. (h, i) }

  pub getyx-Quiet : Quiet I {C = C} k getyx
  getyx-Quiet = record { fed = λ n w h l i. (h, i) }

  pub print_times-Quiet : (i : ℕ) (t : Text) → Quiet I {C = C} k (print_times i t)
  print_times-Quiet i t = record { fed = λ n w h l b. print_times-Fed I i t n w h b }

  pub getch-Takes : Takes I {C = C} k getch
  getch-Takes = record { left = λ n w h l i. getch-Left I n w w.keys refl h i }

  pub getch-Quiet : Quiet I {C = C} k getch
  getch-Quiet = Takes-Quiet getch-Takes

pub ruleset quiet = (
  bind-Quiet, seq-Quiet, return-Quiet, when-Quiet, draw-Quiet, getyx-Quiet, getch-Quiet,
  print_times-Quiet, if-Quiet, option-Quiet, lift-Quiet, with_world-Quiet,
)
