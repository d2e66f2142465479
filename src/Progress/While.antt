-- ===== src/Progress/While.antt =====
-- `while (true)` of main in src/main.cpp as a relation, without a bound on the rounds.
use mathlib.Core.Path.{subst}
use cli_pos.Base.{ℕ, zero, suc, ◌<◌, ◌≡◌, refl, ◌↔◌, Bool, true, false, arith, length}
use cli_pos.Fault.{Fault}
use cli_pos.Main.Keys.{Garbage}
use cli_pos.Main.Loop.{round, main_rounds, main_loop}
use cli_pos.World.Double.{Double}
use cli_pos.World.Monad.{and_then, return}
use cli_pos.World.Pqxx.{Pqxx}
use cli_pos.World.State.{World, Outcome, done, stopped}
use cli_pos.Progress.Rules.{Left}
use cli_pos.Progress.Program.{round-Takes}
use cli_pos.Progress.Whole.{any-IsKept}

-- A run of the loop from a world, and how it ends.
pub data While {C D : Type 0} ⦃d : Double D⦄ ⦃q : Pqxx C D⦄ (g : Garbage)
    : World C D → Outcome C D (Unit {0}) → Type 0 where
  quits : {w w' : World C D} → round g w ≡ done true w' → While g w (done tt w')
  stops : {w w' : World C D} {f : Fault} → round g w ≡ stopped f w' → While g w (stopped f w')
  goes_on :
      {w w' : World C D} {o : Outcome C D (Unit {0})}
      → round g w ≡ done false w'
      → While g w' o
      → While g w o

module _ {C D : Type 0} ⦃d : Double D⦄ ⦃q : Pqxx C D⦄ (g : Garbage) where
  round-Left : (w : World C D) → Left (λ cart. Unit {0}) (length w.keys) (round g w)
  round-Left w =
      (round-Takes any-IsKept (length w.keys) g).left (length w.keys) w (omega arith) (omega arith)
        tt

  round_takes :
      (quit : Bool) (w w' : World C D) → round g w ≡ done quit w' → length w'.keys < length w.keys
  round_takes quit w w' e =
      (subst (λ o. Left (λ cart. Unit {0}) (length w.keys) o) e (round-Left w)).0

  -- With a bound above the number of the keys the rounds end as the loop does.
  main_rounds-While : (n : ℕ) (w : World C D) → length w.keys < n → While g w (main_rounds n g w)
  unfolding main_rounds
  main_rounds-While zero w l = elim l [ ]
  main_rounds-While (suc n) w l =
      go (round g w) refl (round-Left w) (λ w' h. main_rounds-While n w' (omega (arith, h)))
    where
      go :
          (o : Outcome C D Bool)
          → round g w ≡ o
          → Left (λ cart. Unit {0}) (length w.keys) o
          → ((w' : World C D) → length w'.keys < length w.keys → While g w' (main_rounds n g w'))
          → While g w
              (and_then o (λ quit. elim quit [ true ↦ return tt | false ↦ main_rounds n g ]))
      go (done true w') e h k = quits e
      go (done false w') e h k = goes_on e (k w' h.0)
      go (stopped f w') e h k = stops e

  While-main_rounds :
      (n : ℕ) {w : World C D} {o : Outcome C D (Unit {0})}
      → While g w o
      → length w.keys < n
      → main_rounds n g w ≡ o
  unfolding main_rounds
  While-main_rounds zero r l = elim l [ ]
  While-main_rounds (suc n) (quits e) l = rw e
  While-main_rounds (suc n) (stops e) l = rw e
  While-main_rounds (suc n) {w} (goes_on {w' = w'} e r) l =
      rw e (While-main_rounds n r (omega (arith, round_takes false w w' e)))

  -- The bound that main_loop takes from the number of the keys changes nothing: main_loop ends in a given
  -- way, whether it returns or stops, exactly where `while (true)` without any bound does.
  pub main_loop_iff :
      (w : World C D) (o : Outcome C D (Unit {0})) → (main_loop g w ≡ o) ↔ While g w o
  unfolding main_loop
  main_loop_iff w o = (
    (λ e. subst (While g w) e (main_rounds-While (suc (length w.keys)) w (omega arith))),
    λ r. While-main_rounds (suc (length w.keys)) r (omega arith),
  )
