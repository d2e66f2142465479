-- ===== src/Tests/Scanner/Shop/Price.antt =====
-- The keys that change the price of a product.
use cli_pos.Base.{ℕ, ◌≡◌, refl, true, false, List, [], ◌∷◌}
use cli_pos.Base.Int.{pos, ◌-ℤ◌}
use cli_pos.Database.Query.{first_byte}
use cli_pos.Database.Statement.{products_table, exists_sql, select_sql, update_sql, insert_sql}
use cli_pos.Edit.{Answers, contains_comma, add_modify_product}
use cli_pos.Edit.Answer.{plain}
use cli_pos.Edit.Form.{IsFilled, IsMade, IsStored, add_modify_product_writes}
use cli_pos.Input.{remove_non_nr, keep_nr, is_nr, erased, typed, pop_back}
use cli_pos.Input.Line.{line, edit, entered}
use cli_pos.Product.{to_nat, to_mesurments}
use cli_pos.Text.{codes, text_eq, to_string, print_nat, stol, read_magnitude, is_print}
use cli_pos.Words.{to_short}
use cli_pos.World.Monad.{key_enter}
use cli_pos.World.Pick.{pick}
use cli_pos.World.State.{Draw, done, initial_settings}
use cli_pos.Tests.Cart.{rice, whole}
use cli_pos.Tests.Scanner.{server, rice_texts}
use cli_pos.Tests.Scanner.Shop.{query, shop, shop-Stocks, dear, at_shop}

-- Enter on each question, but `15` for the price.
abbrev pub price_keys : List ℕ → List ℕ
price_keys rest =
    key_enter ∷ key_enter ∷ b'1' ∷ b'5' ∷ key_enter ∷ key_enter ∷ key_enter ∷ key_enter ∷ key_enter
    ∷ key_enter ∷ rest

abbrev pub price_answers : Answers
price_answers = record {
  name = codes "rice";
  code = codes "5941";
  price = codes "15";
  discount = codes "0";
  tax = codes "A";
  stock = codes "40";
  price_to_stock = codes "9";
  sold_by = 2;
}

typed_price :
    (rest : List ℕ)
    → line (to_short (pos 6)) (codes "12") (b'1' ∷ b'5' ∷ key_enter ∷ rest)
      ≡ entered (codes "15") rest
unfolding line edit erased typed is_print pop_back to_short
typed_price rest = refl

pub price-IsFilled :
    (rest : List ℕ) → IsFilled whole (pos 31) rice true price_answers (price_keys rest) rest
unfolding line edit erased typed is_print contains_comma to_string print_nat whole to_nat pick
price-IsFilled rest = record {
  k₁ = _;
  name = plain b' ' (codes "rice") refl refl;
  k₂ = _;
  code = plain b' ' (codes "5941") refl refl;
  k₃ = _;
  price = plain b' ' (codes "15") (typed_price _) refl;
  k₄ = _;
  discount = plain b' ' (codes "0") refl refl;
  k₅ = _;
  tax = plain b' ' (codes "A") refl refl;
  k₆ = _;
  stock = plain b' ' (codes "40") refl refl;
  k₇ = key_enter ∷ rest;
  price_to_stock = plain b' ' (codes "9") refl refl;
  sold_by = refl;
}

pub price-IsMade : IsMade whole rice price_answers dear
unfolding whole stol read_magnitude remove_non_nr keep_nr is_nr first_byte ◌-ℤ◌ to_mesurments
price-IsMade = record {
  name = refl;
  code = refl;
  price = refl;
  percent = pos 0;
  discount = refl;
  percent_is = refl;
  tax = refl;
  stock = refl;
  price_to_stock = refl;
  profit = refl;
  sold_by = refl;
  after = refl;
}

pub price-IsStored : IsStored whole shop dear true false true
unfolding server shop query text_eq products_table exists_sql select_sql update_sql insert_sql
    to_string print_nat whole to_nat
price-IsStored = record {
  counted = codes "1";
  counts = refl;
  is_there = refl;
  rows = [];
  sent = true;
  writes = refl;
  commits = refl;
}

add_modify_product_writes_example :
    let w = at_shop (price_keys (b'q' ∷ [])) in
    (scr : List Draw) × (add_modify_product ⦃q = shop⦄ rice.code true w
      ≡ done tt (record w { keys = b'q' ∷ []; screen = scr; conn = true }))
unfolding initial_settings
add_modify_product_writes_example =
    add_modify_product_writes ⦃q = shop⦄ rice dear rice_texts true true price_answers (b'q' ∷ [])
      true (at_shop (price_keys (b'q' ∷ []))) shop-Stocks (price-IsFilled (b'q' ∷ [])) price-IsMade
      price-IsStored
