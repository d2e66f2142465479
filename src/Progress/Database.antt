-- ===== src/Progress/Database.antt =====
-- The calls of src/database_functions.cpp.
use cli_pos.Base.{
  ℕ, suc, List, [], ◌∷◌, Option, none, some, ◌≤◌, length, get_elem?, Bool, true, false,
}
use cli_pos.Base.Int.{ℤ}
use cli_pos.Database.Query.{
  on_connection, begin, commit, finish, exec, stock_size, product_exists, column_row, column_from,
  code_list, name_list, erase, get_product_data, update_stock,
}
use cli_pos.Fault.{Answer, answer, raise, Result, err, to_fault, checked, pqxx_error}
use cli_pos.Product.{Product}
use cli_pos.Text.{Text}
use cli_pos.World.Double.{Double}
use cli_pos.World.Pqxx.{Pqxx, Rows, Field, as_field}
use cli_pos.World.State.{World, BasketProduct, done, stopped}
use cli_pos.World.Monad.{M}
use cli_pos.Progress.Rules.{IsSafe, fault, Fed, Quiet, throw-Quiet, return-Quiet}
use cli_pos.Progress.Results.{to_fault-IsReal, checked-IsSafe}
use cli_pos.Progress.Calls.{bind-Quiet, if-Quiet, quiet}

row-IsSafe :
    {A : Type 0} (read : Text → Answer A) (row : List Field) (j : ℕ)
    → IsSafe (as_field read 0 j (row ∷ []))
unfolding as_field
row-IsSafe read row j = go (get_elem? row j)
  where
    go :
        (o : Option Field)
        → IsSafe (elim o [
          | none ↦ err pqxx_error
          | some field ↦ elim field [ none ↦ err pqxx_error | some text ↦ checked (read text) ]
        ])
    go none = fault pqxx_error (λ e. cc)
    go (some none) = fault pqxx_error (λ e. cc)
    go (some (some t)) = checked-IsSafe (read t)

as_field-IsSafe :
    {A : Type 0} (read : Text → Answer A) (i j : ℕ) (res : Rows) → IsSafe (as_field read i j res)
unfolding as_field
as_field-IsSafe read i j res = go (get_elem? res i)
  where
    go :
        (o : Option (List Field))
        → IsSafe (elim o [ none ↦ err pqxx_error | some row ↦ as_field read 0 j (row ∷ []) ])
    go none = fault pqxx_error (λ e. cc)
    go (some row) = row-IsSafe read row j

module _ {D : Type 0} {I : List (BasketProduct D) → Type 0} {C : Type 0} ⦃q : Pqxx C D⦄
    {k : ℕ} where
  on_connection-Quiet : (f : C → Answer C) → Quiet I {C = C} k (on_connection f)
  unfolding on_connection
  on_connection-Quiet f = record { fed = λ n w h l i. go n w h i (f w.conn) }
    where
      go :
          (n : ℕ) (w : World C D)
          → length w.keys ≤ n
          → I w.basket
          → (a : Answer C)
          → Fed I n (elim a [
            | answer c ↦ done tt (record w { conn = c })
            | raise e ↦ stopped (to_fault e) w
          ])
      go n w h i (answer c) = (h, i)
      go n w h i (raise e) = (to_fault-IsReal e, i)

  exec-Quiet : (sql : Text) → Quiet I {C = C} k (exec sql)
  unfolding exec
  exec-Quiet sql = record { fed = λ n w h l i. go n w h i (q.exec sql w.conn) }
    where
      go :
          (n : ℕ) (w : World C D)
          → length w.keys ≤ n
          → I w.basket
          → (a : Answer (Rows × C))
          → Fed I n (elim a [
            | answer (rows, c) ↦ done rows (record w { conn = c })
            | raise e ↦ stopped (to_fault e) w
          ])
      go n w h i (answer c) = (h, i)
      go n w h i (raise e) = (to_fault-IsReal e, i)

  pub begin-Quiet : Quiet I {C = C} k begin
  unfolding begin
  begin-Quiet = on_connection-Quiet q.begin

  pub commit-Quiet : Quiet I {C = C} k commit
  unfolding commit
  commit-Quiet = on_connection-Quiet q.commit

  pub finish-Quiet : Quiet I {C = C} k finish
  unfolding finish
  finish-Quiet = record { fed = λ n w h l i. (h, i) }

  pub stock_size-Quiet : Quiet I {C = C} k stock_size
  unfolding stock_size
  stock_size-Quiet = search (quiet, exec-Quiet, as_field-IsSafe)

  pub product_exists-Quiet : (code : ℤ) → Quiet I {C = C} k (product_exists code)
  unfolding product_exists
  product_exists-Quiet code = search (quiet, exec-Quiet, as_field-IsSafe)

  column_row-Quiet :
      {A : Type 0} (b : Bool) (field : Result A) (rest : M C D (List A))
      → IsSafe field
      → Quiet I {C = C} k rest
      → Quiet I {C = C} k (column_row b field rest)
  unfolding column_row
  column_row-Quiet false field rest s r = return-Quiet []
  column_row-Quiet true field rest s r = search quiet

  column_from-Quiet :
      {A : Type 0} (read : Text → Answer A) (i : ℕ) (res : Rows)
      → Quiet I {C = C} k (column_from read i res)
  unfolding column_from
  column_from-Quiet read i [] =
      bind-Quiet stock_size-Quiet
        (λ size. if-Quiet _ (throw-Quiet pqxx_error (λ e. cc)) (return-Quiet []))
  column_from-Quiet read i (row ∷ res) =
      let rest = column_from-Quiet read (suc i) res in
      search (quiet, stock_size-Quiet, column_row-Quiet, as_field-IsSafe)

  pub code_list-Quiet : Quiet I {C = C} k code_list
  unfolding code_list
  code_list-Quiet = search (quiet, exec-Quiet, column_from-Quiet)

  pub name_list-Quiet : Quiet I {C = C} k name_list
  unfolding name_list
  name_list-Quiet = search (quiet, exec-Quiet, column_from-Quiet)

  pub erase-Quiet : (code : ℤ) → Quiet I {C = C} k (erase code)
  unfolding erase
  erase-Quiet code = search (quiet, exec-Quiet)

module _ {D : Type 0} {I : List (BasketProduct D) → Type 0} {C : Type 0} ⦃d : Double D⦄
    ⦃q : Pqxx C D⦄ {k : ℕ} where
  pub get_product_data-Quiet : (code : ℤ) → Quiet I {C = C} k (get_product_data code)
  unfolding get_product_data
  get_product_data-Quiet code = search (quiet, exec-Quiet, as_field-IsSafe) depth 24

  pub update_stock-Quiet : (p : Product D) → Quiet I {C = C} k (update_stock p)
  unfolding update_stock
  update_stock-Quiet p = search (quiet, exec-Quiet, product_exists-Quiet)

pub ruleset quiet_database = (
  begin-Quiet, commit-Quiet, finish-Quiet, stock_size-Quiet, product_exists-Quiet, code_list-Quiet,
  name_list-Quiet, erase-Quiet, get_product_data-Quiet, update_stock-Quiet,
)
