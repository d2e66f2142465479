-- ===== src/Progress/Forms.antt =====
-- add_modify_product of src/main.cpp, and the receipt of src/print_receipt.cpp.
use cli_pos.Base.{ℕ, zero, suc, List, [], ◌∷◌, Bool, Option, none, if◌then◌else◌}
use cli_pos.Base.Int.{ℤ}
use cli_pos.Edit.{
  Answers, cut_output, refuse_commas, without_commas, take_criteria, ask_criteria, criteria_rounds,
  add_modify_criteria, or_return, make_product, ask_product, add_modify_product,
}
use cli_pos.Fault.{bad_optional_access}
use cli_pos.Product.{Product}
use cli_pos.Receipt.Print.{
  message, write, receipt_items, receipt, receipt_for, print_round, print_asked, print_rounds,
  print_receipt,
}
use cli_pos.Text.{Text}
use cli_pos.World.Double.{Double}
use cli_pos.World.Monad.{M}
use cli_pos.World.Pqxx.{Pqxx}
use cli_pos.World.State.{BasketProduct}
use cli_pos.Progress.Rules.{IsReal, Quiet, Takes, Takes-Quiet, return-Quiet, loop-Quiet, none-Quiet}
use cli_pos.Progress.Calls.{quiet, seq-Takes, option-Quiet, taken-Quiet, getch-Takes}
use cli_pos.Progress.Results.{safe}
use cli_pos.Progress.Database.{quiet_database}
use cli_pos.Progress.Screen.{clear_messages-Quiet}
use cli_pos.Progress.Typed.{get_string-Takes, choose_sold_by-Takes}

bad_access-IsReal : IsReal bad_optional_access
bad_access-IsReal x = cc

module _ {D : Type 0} {I : List (BasketProduct D) → Type 0} {C : Type 0} where
  cut_output-Quiet : {k : ℕ} (m : ℤ) (s : Text) → Quiet I {C = C} k (cut_output m s)
  unfolding cut_output
  cut_output-Quiet m s = search quiet

  refuse_commas-Quiet : {k : ℕ} (criteria : Text) → Quiet I {C = C} k (refuse_commas criteria)
  unfolding refuse_commas
  refuse_commas-Quiet criteria = search (quiet, clear_messages-Quiet)

  take_criteria-Quiet :
      {k : ℕ} (again : M C D (Option Text)) (criteria : Text) (m : ℤ) (s : Text)
      → Quiet I k again
      → Quiet I k (take_criteria again criteria m s)
  unfolding take_criteria without_commas
  take_criteria-Quiet again criteria m s h =
      search (quiet, safe, cut_output-Quiet, refuse_commas-Quiet, bad_access-IsReal) depth 9

  ask_criteria-Takes :
      {k : ℕ} (criteria placeholder : Text) (color m : ℤ)
      → Takes I {C = C} k (ask_criteria criteria placeholder color m)
  unfolding ask_criteria
  ask_criteria-Takes criteria placeholder color m =
      search (seq-Takes, quiet, clear_messages-Quiet, get_string-Takes) depth 12

  criteria_rounds-Quiet :
      (k : ℕ) (criteria placeholder : Text) (color m : ℤ)
      → Quiet I {C = C} k (criteria_rounds k criteria placeholder color m)
  unfolding criteria_rounds
  criteria_rounds-Quiet zero criteria placeholder color m = none-Quiet
  criteria_rounds-Quiet (suc k) criteria placeholder color m =
      let again = criteria_rounds-Quiet k criteria placeholder color m in
      taken-Quiet (ask_criteria-Takes criteria placeholder color m) (λ typed.
        option-Quiet typed (return-Quiet none) (λ s. take_criteria-Quiet _ criteria m s again))

  pub add_modify_criteria-Quiet :
      {k : ℕ} (criteria placeholder : Text) (color : ℤ) (modify : Bool) (m : ℤ)
      → Quiet I {C = C} k (add_modify_criteria criteria placeholder color modify m)
  unfolding add_modify_criteria
  add_modify_criteria-Quiet criteria placeholder color modify m =
      let shown = if modify then placeholder else [] in
      loop-Quiet (λ w n. criteria_rounds n criteria shown color m)
        (λ w n. criteria_rounds-Quiet n criteria shown color m)

  or_return-Quiet :
      {k : ℕ} {A : Type 0} {m : M C D (Option A)} {rest : A → M C D (Unit {0})}
      → Quiet I k m
      → ((a : A) → Quiet I k (rest a))
      → Quiet I k (or_return m rest)
  unfolding or_return
  or_return-Quiet p q = search quiet

module _ {D : Type 0} {I : List (BasketProduct D) → Type 0} {C : Type 0} ⦃d : Double D⦄ where
  make_product-Quiet : {k : ℕ} (after : D) (a : Answers) → Quiet I {C = C} k (make_product after a)
  unfolding make_product
  make_product-Quiet after a = search (quiet, safe) depth 12

module _ {D : Type 0} {I : List (BasketProduct D) → Type 0} {C : Type 0} ⦃d : Double D⦄
    ⦃q : Pqxx C D⦄ where
  ask_product-Quiet :
      {k : ℕ} (p : Product D) (modify : Bool) (rest : Answers → M C D (Unit {0}))
      → ((a : Answers) → Quiet I k (rest a))
      → Quiet I k (ask_product p modify rest)
  unfolding ask_product
  ask_product-Quiet p modify rest h =
      search (quiet, or_return-Quiet, add_modify_criteria-Quiet, choose_sold_by-Takes, Takes-Quiet)
        depth 24

  pub add_modify_product-Quiet :
      {k : ℕ} (code : ℤ) (modify : Bool) → Quiet I {C = C} k (add_modify_product code modify)
  unfolding add_modify_product
  add_modify_product-Quiet code modify =
      search (quiet, quiet_database, ask_product-Quiet, make_product-Quiet) depth 12

  message-Takes : {k : ℕ} (t : Text) → Takes I {C = C} k (message t)
  unfolding message
  message-Takes t = search (seq-Takes, quiet, clear_messages-Quiet, getch-Takes)

  pub message-Quiet : {k : ℕ} (t : Text) → Quiet I {C = C} k (message t)
  message-Quiet t = Takes-Quiet (message-Takes t)

  write-Quiet : {k : ℕ} (device bytes : Text) → Quiet I {C = C} k (write device bytes)
  unfolding write
  write-Quiet device bytes = record { fed = λ n w h l i. (h, i) }

  receipt_items-Quiet :
      {k : ℕ} (m : ℤ) (basket : List (BasketProduct D)) → Quiet I {C = C} k (receipt_items m basket)
  unfolding receipt_items
  receipt_items-Quiet m [] = return-Quiet []
  receipt_items-Quiet {k = k} m (b ∷ basket) =
      let rest = receipt_items-Quiet {k = k} m basket in search (quiet, quiet_database) depth 9

  receipt-Quiet : {k : ℕ} → Quiet I {C = C} k receipt
  unfolding receipt receipt_for
  receipt-Quiet = search (quiet, receipt_items-Quiet)

  print_asked-Quiet :
      (k : ℕ) (again : M C D Bool) → Quiet I k again → Quiet I (suc k) (print_asked again)
  unfolding print_asked
  print_asked-Quiet k again h =
      search (taken-Quiet, message-Takes, quiet, receipt-Quiet, write-Quiet) depth 12

  print_round-Quiet :
      (k : ℕ) (again : M C D Bool) → Quiet I k again → Quiet I (suc k) (print_round again)
  unfolding print_round
  print_round-Quiet k again h = search (quiet, message-Quiet, print_asked-Quiet) depth 12

  print_rounds-Quiet : (k : ℕ) → Quiet I {C = C} k (print_rounds k)
  unfolding print_rounds
  print_rounds-Quiet zero = none-Quiet
  print_rounds-Quiet (suc k) = print_round-Quiet k (print_rounds k) (print_rounds-Quiet k)

  pub print_receipt-Quiet : {k : ℕ} → Quiet I {C = C} k print_receipt
  unfolding print_receipt
  print_receipt-Quiet = loop-Quiet (λ w n. print_rounds n) (λ w n. print_rounds-Quiet n)
