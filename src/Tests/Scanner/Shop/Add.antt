-- ===== src/Tests/Scanner/Shop/Add.antt =====
-- A new product.
use cli_pos.Base.{ℕ, ◌≡◌, refl, arith, false, List, [], ◌∷◌, ◌++◌}
use cli_pos.Base.Int.{pos, ◌-ℤ◌}
use cli_pos.Database.Query.{first_byte}
use cli_pos.Database.Statement.{products_table, exists_sql, select_sql, update_sql, insert_sql}
use cli_pos.Edit.{Answers, contains_comma}
use cli_pos.Edit.Answer.{plain}
use cli_pos.Edit.Form.{IsFilled, IsMade, IsStored}
use cli_pos.Input.{remove_non_nr, keep_nr, is_nr, erased, typed, pop_back}
use cli_pos.Input.Line.{line, edit}
use cli_pos.Product.{to_nat, to_mesurments}
use cli_pos.Text.{codes, text_eq, to_string, print_nat, stol, read_magnitude, is_print}
use cli_pos.Words.{to_short}
use cli_pos.World.Monad.{key_enter}
use cli_pos.Main.Change.{Change, key_add_writes}
use cli_pos.Main.Keys.{key_add}
use cli_pos.Window.{at}
use cli_pos.World.Pick.{pick}
use cli_pos.World.State.{Draw, done, initial_settings}
use cli_pos.Tests.Cart.{rice, whole}
use cli_pos.Tests.Scanner.{server, rice_texts}
use cli_pos.Tests.Scanner.Shop.{shop, shop-Stocks, shop-Serves, at_shop, tea}

-- The answers for the new product, and Enter for how it is sold.
abbrev tea_keys : List ℕ → List ℕ
tea_keys rest =
    codes "tea"
    ++ (key_enter ∷ codes "17"
        ++ (key_enter ∷ codes "4"
            ++ (key_enter ∷ codes "0"
                ++ (key_enter ∷ codes "B"
                    ++ (key_enter ∷ codes "10"
                        ++ (key_enter ∷ codes "3" ++ (key_enter ∷ key_enter ∷ rest)))))))

abbrev tea_answers : Answers
tea_answers = record {
  name = codes "tea";
  code = codes "17";
  price = codes "4";
  discount = codes "0";
  tax = codes "B";
  stock = codes "10";
  price_to_stock = codes "3";
  sold_by = 2;
}

abbrev left_keys : List ℕ
left_keys = b'q' ∷ []

tea-IsFilled : IsFilled whole (pos 31) rice false tea_answers (tea_keys left_keys) left_keys
unfolding line edit erased typed is_print contains_comma whole to_nat pick pop_back to_short
tea-IsFilled = record {
  k₁ = _;
  name = plain b' ' (codes "tea") refl refl;
  k₂ = _;
  code = plain b' ' (codes "17") refl refl;
  k₃ = _;
  price = plain b' ' (codes "4") refl refl;
  k₄ = _;
  discount = plain b' ' (codes "0") refl refl;
  k₅ = _;
  tax = plain b' ' (codes "B") refl refl;
  k₆ = _;
  stock = plain b' ' (codes "10") refl refl;
  k₇ = key_enter ∷ left_keys;
  price_to_stock = plain b' ' (codes "3") refl refl;
  sold_by = refl;
}

tea-IsMade : IsMade whole rice tea_answers tea
unfolding whole stol read_magnitude remove_non_nr keep_nr is_nr first_byte ◌-ℤ◌ to_mesurments
tea-IsMade = record {
  name = refl;
  code = refl;
  price = refl;
  percent = pos 0;
  discount = refl;
  percent_is = refl;
  tax = refl;
  stock = refl;
  price_to_stock = refl;
  profit = refl;
  sold_by = refl;
  after = refl;
}

tea-IsStored : IsStored whole shop tea false false false
unfolding server shop text_eq products_table exists_sql select_sql update_sql insert_sql to_string
    print_nat whole to_nat
tea-IsStored = record {
  counted = codes "0";
  counts = refl;
  is_there = refl;
  rows = [];
  sent = false;
  writes = refl;
  commits = refl;
}

tea-Change : Change whole shop (pos 31) rice tea false (tea_keys left_keys) left_keys false false
unfolding shop
tea-Change = record {
  row = rice_texts;
  stocks = shop-Stocks;
  answers = tea_answers;
  filled = tea-IsFilled;
  made = tea-IsMade;
  found = false;
  stored = false;
  writes = tea-IsStored;
  commits = refl;
}

key_add_writes_example :
    let w = at_shop (tea_keys left_keys) in
    (scr : List Draw) × (key_add ⦃q = shop⦄ (rice.code ∷ []) w
      ≡ done tt (record w { keys = left_keys; screen = scr; conn = shop.finish false }))
unfolding shop at initial_settings
key_add_writes_example =
    key_add_writes ⦃q = shop⦄ (rice.code ∷ []) rice tea left_keys (rice.name ∷ []) (rice.code ∷ [])
      (at_shop (tea_keys left_keys)) false false tt (omega arith) refl refl (shop-Serves false)
      tea-Change
