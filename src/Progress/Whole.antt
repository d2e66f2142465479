-- ===== src/Progress/Whole.antt =====
-- The program as a whole: main of src/main.cpp, from the start to its end.
use cli_pos.Base.{ℕ, suc, ◌≤◌, ◌≢◌, List, arith, length, Bool}
use cli_pos.Base.Int.{ℤ}
use cli_pos.Basket.{remove_one}
use cli_pos.Basket.Quantity.{IsDistinct}
use cli_pos.Basket.Distinct.{DistinctOrMissing, add-IsDistinct, remove_one-DistinctOrMissing}
use cli_pos.Fault.{Result, ok, err, exhausted}
use cli_pos.Main.Keys.{Garbage}
use cli_pos.Main.Start.{
  make_color, init_colors, set_monochrome, start_terminal, main, conn_param, open_connection,
  initial_world, run_program,
}
use cli_pos.Text.{Text}
use cli_pos.World.Double.{Double}
use cli_pos.World.Pqxx.{Pqxx}
use cli_pos.World.State.{World, Terminal, Outcome, done, stopped, BasketProduct}
use cli_pos.Progress.Rules.{IsSafe, value, fault, Fed, Quiet}
use cli_pos.Progress.Calls.{quiet}
use cli_pos.Progress.Results.{checked-IsSafe, remove_one-IsSafe}
use cli_pos.Progress.Menus.{set_settings-Quiet}
use cli_pos.Progress.Shown.{quiet_screen}
use cli_pos.Progress.Keys.{Keeps, IsKept}
use cli_pos.Progress.Program.{main_loop-Quiet}

module _ {D : Type 0} {I : List (BasketProduct D) → Type 0} {C : Type 0} ⦃d : Double D⦄
    {k : ℕ} where
  init_colors-Quiet : Quiet I {C = C} k init_colors
  unfolding init_colors make_color
  init_colors-Quiet = search quiet depth 24

  start_terminal-Quiet : Quiet I {C = C} k start_terminal
  unfolding start_terminal set_monochrome
  start_terminal-Quiet = search (quiet, set_settings-Quiet) depth 12

  main-Quiet : ⦃q : Pqxx C D⦄ → IsKept I → (g : Garbage) → Quiet I {C = C} k (main g)
  unfolding main
  main-Quiet kept g =
      search (quiet, quiet_screen, start_terminal-Quiet, init_colors-Quiet, main_loop-Quiet kept)
        depth 12

-- No bound of this model is used up, and at most `n` keys are left where the call returns.
abbrev pub Ends : {C D A : Type 0} → ℕ → Outcome C D A → Type 0
Ends n (done a w) = length w.keys ≤ n
Ends n (stopped f w) = f ≢ exhausted

-- The basket that a call leaves, however it ends.
abbrev pub basket_of : {C D A : Type 0} → Outcome C D A → List (BasketProduct D)
basket_of (done a w) = w.basket
basket_of (stopped f w) = w.basket

-- What holds of a run, where there is one; without a connection the fault is not one of this model.
abbrev pub Run : {A : Type 0} → (A → Type 0) → Result A → Type 0
Run P (ok o) = P o
Run P (err f) = f ≢ exhausted

module _ {D : Type 0} ⦃d : Double D⦄ where
  IsDistinct-IsKept : IsKept (IsDistinct {D = D})
  IsDistinct-IsKept = record {
    emptied = tt;
    added = add-IsDistinct;
    removed = λ code cart i.
        go code cart (remove_one code cart) (remove_one-DistinctOrMissing code cart i);
  }
    where
      go :
          (code : ℤ) (cart : List (BasketProduct D)) (r : Result (List (BasketProduct D)))
          → DistinctOrMissing code cart r
          → Keeps IsDistinct r
      go code cart (ok r) h = h
      go code cart (err f) h = λ e. cc

  pub any-IsKept : IsKept {D = D} (λ cart. Unit {0})
  any-IsKept = record {
    emptied = tt;
    added = λ garbage p quantity cart i. tt;
    removed = λ code cart i. go (remove_one code cart) (remove_one-IsSafe code cart);
  }
    where
      go : (r : Result (List (BasketProduct D))) → IsSafe r → Keeps (λ cart. Unit {0}) r
      go r (value a) = tt
      go r (fault f h) = h

module _ {C D : Type 0} where
  Fed-Ends :
      (I : List (BasketProduct D) → Type 0) (n : ℕ) (o : Outcome C D ℤ) → Fed I n o → Ends n o
  Fed-Ends I n (done a w) h = h.0
  Fed-Ends I n (stopped f w) h = h.0

  Fed-basket :
      (I : List (BasketProduct D) → Type 0) (n : ℕ) (o : Outcome C D ℤ)
      → Fed I n o
      → I (basket_of o)
  Fed-basket I n (done a w) h = h.1
  Fed-basket I n (stopped f w) h = h.1

module _ {C D : Type 0} ⦃d : Double D⦄ ⦃q : Pqxx C D⦄ where
  main-Fed :
      (I : List (BasketProduct D) → Type 0) (g : Garbage) (w : World C D)
      → IsKept I
      → I w.basket
      → Fed I (length w.keys) (main g w)
  main-Fed I g w kept i =
      (main-Quiet {k = suc (length w.keys)} kept g).fed (length w.keys) w (omega arith)
        (omega arith) i

  run_program-Run :
      (P : Outcome C D ℤ → Type 0) (g : Garbage) (terminal : Terminal) (keys : List ℕ)
      (device : Text → Bool) (f : D)
      → ((c : C) → P (main g (initial_world terminal keys device f c)))
      → Run P (run_program g terminal keys device f)
  unfolding run_program open_connection
  run_program-Run P g terminal keys device f h =
      go (open_connection q) (checked-IsSafe (q.connect conn_param))
    where
      go :
          (r : Result C)
          → IsSafe r
          → Run P (elim r [
            | err e ↦ err e
            | ok c ↦ ok (main g (initial_world terminal keys device f c))
          ])
      go r (value c) = h c
      go r (fault e real) = real

module _ {D : Type 0} ⦃d : Double D⦄ where
  -- Whatever the keys and whatever the server answers, no loop that the program runs uses up the bound
  -- on its rounds, which is taken from the number of the keys: main returns, stops by a fault that the
  -- code or a library raises, or waits for a key. Where it returns, it has not added to the keys. Without
  -- a connection main is not called, and the fault is the library's.
  pub run_program-Ends :
      (C : Type 0) ⦃q : Pqxx C D⦄ (g : Garbage) (terminal : Terminal) (keys : List ℕ)
      (device : Text → Bool) (f : D)
      → Run (Ends (length keys)) (run_program {C = C} g terminal keys device f)
  unfolding initial_world
  run_program-Ends C g terminal keys device f =
      run_program-Run (Ends (length keys)) g terminal keys device f λ c.
        Fed-Ends (λ cart. Unit {0}) (length keys) _
          (main-Fed (λ cart. Unit {0}) g (initial_world terminal keys device f c) any-IsKept tt)

  -- Whatever the keys and whatever the server answers, where main is called, the basket holds each code
  -- once at its end, whether it returns, stops by a fault, or waits for a key.
  pub run_program-IsDistinct :
      (C : Type 0) ⦃q : Pqxx C D⦄ (g : Garbage) (terminal : Terminal) (keys : List ℕ)
      (device : Text → Bool) (f : D)
      → Run (λ o. IsDistinct (basket_of o)) (run_program {C = C} g terminal keys device f)
  unfolding initial_world
  run_program-IsDistinct C g terminal keys device f =
      run_program-Run (λ o. IsDistinct (basket_of o)) g terminal keys device f
        λ c.
          Fed-basket IsDistinct (length keys) _
            (main-Fed IsDistinct g (initial_world terminal keys device f c) IsDistinct-IsKept tt)
