-- ===== src/World/Double.antt =====
-- What the program does with a `double`. The type and its operations are a parameter of the model:
-- no law of them is assumed here, and a theorem that needs one names it.
use cli_pos.Base.{ℕ, Bool}
use cli_pos.Base.Int.{ℤ}
use cli_pos.Fault.{Answer}
use cli_pos.Text.{Text}

pub record Double (D : Type 0) : Type 0 where
  -- a number as a constant, or an integer converted
  pub of_int : ℤ → D
  pub add : D → D → D
  pub sub : D → D → D
  pub mul : D → D → D
  pub div : D → D → D
  pub eq : D → D → Bool
  -- conversion to an integer type, which cuts off the fraction
  pub truncate : D → ℤ
  -- conversion to a float
  pub to_float : D → D
  -- std::to_string
  pub print : D → Text
  -- %.2f and {:.2f}, with the number of places
  pub print_fixed : ℕ → D → Text
  -- std::stod and std::stof
  pub stod : Text → Answer D
  pub stof : Text → Answer D
