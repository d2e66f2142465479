-- ===== src/Edit.antt =====
-- add_modify_criteria and add_modify_product of src/main.cpp.
pub mod Answer
pub mod Choice
pub mod Criteria
pub mod Unchanged
pub mod Form
pub mod Modify
use cli_pos.Shown.ProductCriteria
use cli_pos.Shown.Errors
use cli_pos.Shown.Info
use cli_pos.Base.{
  ℕ, zero, suc, ◌+◌, ◌-◌, Bool, true, false, ◌||◌, [], ◌∷◌, ◌++◌, Option, none, some, length, take,
  ltb, ◌==◌, if◌then◌else◌,
}
use cli_pos.Base.Int.{ℤ, pos, ◌-ℤ◌}
use cli_pos.Database.Query.{get_product_data, update_stock, first_byte, commit}
use cli_pos.Fault.{checked, bad_optional_access, exhausted, or_fail}
use cli_pos.Input.{get_string, remove_non_nr}
use cli_pos.Product.{Product, to_mesurments, to_nat, sold_by_text}
use cli_pos.Table.Head.{clear_messages}
use cli_pos.Table.Pair
use cli_pos.Text.{Text, codes, to_string, stol}
use cli_pos.Words.{to_size, to_short}
use cli_pos.World.Double.{Double}
use cli_pos.World.Pqxx.{Pqxx}
use cli_pos.World.State.{
  color_on, color_off, message_x, message_section_lines, nr_of_selling_options, max_code_length,
  max_price_length, max_product_quanity_length,
}
use cli_pos.World.Monad.{
  M, ◌>>=◌, ◌>>◌, return, throw, lift, draw, printw, move, getch, key_up, key_down, key_esc,
  key_enter, with_world, maybe,
}

unfoldable pub contains_comma : Text → Bool
contains_comma [] = false
contains_comma (c ∷ s) = (c == b',') || contains_comma s

module _ {C D : Type 0} where
  -- A longer output is cut, shown, and waits for a key.
  unfoldable pub cut_output : ℤ → Text → M C D Text
  cut_output max_size output =
      if ltb (to_size max_size) (length output)
      then (do let cut = take (to_size max_size) output; printw cut; _ ← getch; return cut)
      else return output

  unfoldable pub refuse_commas : Text → M C D ℕ
  refuse_commas criteria = with_world λ w. do
    clear_messages
    move (w.terminal.lines -ℤ pos message_section_lines) message_x
    printw (criteria ++ codes " " ++ Errors.no_commas)
    getch

  -- A text with a comma in it is refused, and asked for again.
  unfoldable pub without_commas : M C D (Option Text) → Text → Text → M C D Text
  without_commas again criteria output =
      if contains_comma output
      then (do
        _ ← refuse_commas criteria
        output' ← again
        lift (or_fail output' bad_optional_access))
      else return output

  -- What the call makes of the text that was typed.
  unfoldable pub take_criteria : M C D (Option Text) → Text → ℤ → Text → M C D (Option Text)
  take_criteria again criteria max_size text = do
    cut ← cut_output max_size text
    output ← without_commas again criteria cut
    return (some (if length output == 0 then codes "1" else output))

  -- The question, up to the line that is typed.
  unfoldable pub ask_criteria : Text → Text → ℤ → ℤ → M C D (Option Text)
  ask_criteria criteria placeholder color max_size = do
    clear_messages
    printw (Info.product ++ codes " ")
    draw (color_on color)
    printw criteria
    draw (color_off color)
    printw (codes ": ")
    get_string true placeholder color (to_short max_size)

  -- Each round takes a key, so the fuel is a bound on the keys.
  unfoldable pub criteria_rounds : ℕ → Text → Text → ℤ → ℤ → M C D (Option Text)
  criteria_rounds zero criteria placeholder color max_size = throw exhausted
  criteria_rounds (suc fuel) criteria placeholder color max_size = do
    typed ← ask_criteria criteria placeholder color max_size
    let again = criteria_rounds fuel criteria placeholder color max_size
    maybe typed (return none) (take_criteria again criteria max_size)

  unfoldable pub add_modify_criteria : Text → Text → ℤ → Bool → ℤ → M C D (Option Text)
  add_modify_criteria criteria placeholder color modify max_size = with_world λ w.
      criteria_rounds (suc (length w.keys)) criteria (if modify then placeholder else []) color
        max_size

-- The keys that choose how a product is sold: Up and Down go round.
unfoldable pub previous_option : ℕ → ℕ
previous_option zero = nr_of_selling_options - 1
previous_option (suc n) = n

unfoldable pub next_option : ℕ → ℕ
next_option n = if ltb n (nr_of_selling_options - 1) then n + 1 else 0

abbrev pub is_up : ℕ → Bool
is_up key = key == key_up || key == b'k'

abbrev pub is_down : ℕ → Bool
is_down key = key == key_down || key == b'j'

unfoldable pub move_option : ℕ → ℕ → ℕ
move_option key selection =
    if is_up key
    then previous_option selection
    else (if is_down key then next_option selection else selection)

module _ {C D : Type 0} where
  -- What a key does: the loop ends, with `none` where Esc is pressed, or goes on as `next` does.
  unfoldable pub choose_key : (ℕ → M C D (Option ℕ)) → ℕ → ℕ → M C D (Option ℕ)
  choose_key next selection key = elim (key == key_enter) [
    | true ↦ return (some selection)
    | false ↦ elim (key == key_esc) [
      | true ↦ return none
      | false ↦ next (move_option key selection)
    ]
  ]

  unfoldable pub draw_choice : ℕ → M C D (Unit {0})
  draw_choice selection = do
    clear_messages
    printw (ProductCriteria.sold_by ++ codes ": ")
    printw (sold_by_text (to_mesurments (pos selection)))

  unfoldable pub choose_rounds : ℕ → ℕ → M C D (Option ℕ)
  choose_rounds zero selection = throw exhausted
  choose_rounds (suc fuel) selection = do
    draw_choice selection
    key ← getch
    choose_key (choose_rounds fuel) selection key

  unfoldable pub choose_sold_by : ℕ → M C D (Option ℕ)
  choose_sold_by selection = with_world λ w. choose_rounds (suc (length w.keys)) selection

  -- `if (!value) return;`
  unfoldable pub or_return :
      {A : Type 0} → M C D (Option A) → (A → M C D (Unit {0})) → M C D (Unit {0})
  or_return m rest = do value ← m; maybe value (return tt) rest

-- The fields that were asked for, as texts.
pub record Answers : Type 0 where
  pub name : Text
  pub code : Text
  pub price : Text
  pub discount : Text
  pub tax : Text
  pub stock : Text
  pub price_to_stock : Text
  pub sold_by : ℕ

module _ {C D : Type 0} ⦃d : Double D⦄ where
  -- The product that the answers make: all numbers go through remove_non_nr. The price after the
  -- discount, which is not written to the database, stays `after`.
  unfoldable pub make_product : D → Answers → M C D (Product D)
  make_product after a = do
    code ← lift (stol (remove_non_nr a.code))
    price ← lift (checked (d.stod (remove_non_nr a.price)))
    discount ← lift (checked (d.stod (remove_non_nr a.discount)))
    stock ← lift (checked (d.stod (remove_non_nr a.stock)))
    price_to_stock ← lift (checked (d.stod (remove_non_nr a.price_to_stock)))
    return (record {
      name = a.name;
      code = code;
      price = price;
      discount = d.truncate discount;
      price_after_discount = after;
      tax = first_byte a.tax;
      stock = stock;
      profit = d.sub price price_to_stock;
      price_to_stock = price_to_stock;
      sold_by = to_mesurments (pos a.sold_by);
    })

module _ {C D : Type 0} ⦃d : Double D⦄ ⦃q : Pqxx C D⦄ where
  -- The questions, each with what it shows at first; Esc at one of them ends the call.
  unfoldable pub ask_product : Product D → Bool → (Answers → M C D (Unit {0})) → M C D (Unit {0})
  ask_product p modify rest = with_world λ w.
      let name_length = w.settings.max_name_length in
      or_return (add_modify_criteria ProductCriteria.name p.name (pos 0) modify name_length)
        (λ name.
          or_return
            (add_modify_criteria ProductCriteria.code (to_string p.code) Pair.upc modify
              (pos (max_code_length + 1)))
            (λ code.
              or_return
                (add_modify_criteria ProductCriteria.price (d.print p.price) Pair.money modify
                  (pos max_price_length))
                (λ price.
                  or_return
                    (add_modify_criteria ProductCriteria.discount_long (to_string p.discount)
                      Pair.discount modify (pos 2))
                    (λ discount.
                      or_return
                        (add_modify_criteria ProductCriteria.tax (p.tax ∷ []) Pair.tax modify
                          (pos 3))
                        (λ tax.
                          or_return
                            (add_modify_criteria ProductCriteria.stock (d.print p.stock)
                              Pair.stock_pair modify (pos max_product_quanity_length))
                            (λ stock.
                              or_return
                                (add_modify_criteria ProductCriteria.price_to_stock
                                  (d.print p.price_to_stock) Pair.pts modify (pos max_price_length))
                                (λ price_to_stock.
                                  or_return (choose_sold_by (to_nat p.sold_by)) (λ sold_by.
                                    rest (record {
                                      name = name;
                                      code = code;
                                      price = price;
                                      discount = discount;
                                      tax = tax;
                                      stock = stock;
                                      price_to_stock = price_to_stock;
                                      sold_by = sold_by;
                                    })))))))))

  unfoldable pub add_modify_product : ℤ → Bool → M C D (Unit {0})
  add_modify_product product_code modify = do
    current ← get_product_data product_code
    ask_product current modify λ answers. do
      product ← make_product current.price_after_discount answers
      update_stock product
      commit
