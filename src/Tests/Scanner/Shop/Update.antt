-- ===== src/Tests/Scanner/Shop/Update.antt =====
-- A sale behind a change of the price.
use mathlib.Core.List.{Memᴰ}
use mathlib.Core.List.Memᴰ
use mathlib.Core.Path.{subst}
use cli_pos.Base.{ℕ, ◌≡◌, refl, sym, arith, Bool, true, false, List, [], ◌∷◌}
use cli_pos.Base.Int.{ℤ, pos, ◌-ℤ◌, ◌+ℤ◌, ◌*ℤ◌, eq_ℤ}
use cli_pos.Database.Row.{Stocks}
use cli_pos.Text.{to_string, print_nat}
use cli_pos.Main.Change.{Change}
use cli_pos.Main.Loop.{main_loop}
use cli_pos.Main.Round.{total_of}
use cli_pos.Receipt.Copies.{copies_from, copies, receipt_text, enough}
use cli_pos.Sale.Goods.{Scan, IsScan, by_scanner, add_items}
use cli_pos.Sale.Till.{IsSteady, AllFit}
use cli_pos.Sale.Rounds.{AtTill}
use cli_pos.Sale.Run.{scan_keys, SumsFit}
use cli_pos.Sale.Update.{Changes}
use cli_pos.Sale.Updated.{main_loop_updates}
use cli_pos.Table.Head.{table_width}
use cli_pos.Table.Row.{nr_length}
use cli_pos.Window.{half}
use cli_pos.World.State.{World, done, initial_settings}
use cli_pos.Tests.Cart.{rice, whole}
use cli_pos.Tests.Scanner.{server, unset, rice_texts, scanned, scanned-AllTyped, scanned_code}
use cli_pos.Tests.Scanner.Counter.{shelf}
use cli_pos.Tests.Scanner.Shop.{
  dear, dear_texts, dear_shelf, shop, shop-Stocks, dear-Stocks, shop-Serves, at_shop,
}
use cli_pos.Tests.Scanner.Shop.Price.{
  price_keys, price_answers, price-IsFilled, price-IsMade, price-IsStored,
}

-- A connection before the change, and one behind it.
abbrev Old : Bool → Type 0
Old changed = changed ≡ false

abbrev New : Bool → Type 0
New changed = changed ≡ true

shop-IsSteady : IsSteady whole shop (rice.name ∷ []) shelf Old Old
unfolding shop
shop-IsSteady = record {
  opens = λ c h. (c, refl, h);
  commits = λ c h. (c, refl, h);
  finishes = λ c h. h;
  gives_up = λ c h. h;
  lists = λ c h. shop-Serves c;
  sends = λ c h x m.
      subst (λ x. Stocks whole shop x.product x.texts c) (sym (Memᴰ.eq_of_singleton m))
        (subst (Stocks whole shop rice rice_texts) (sym h) shop-Stocks);
}

dear-IsSteady : IsSteady whole shop (rice.name ∷ []) dear_shelf New New
unfolding shop
dear-IsSteady = record {
  opens = λ c h. (c, refl, h);
  commits = λ c h. (c, refl, h);
  finishes = λ c h. h;
  gives_up = λ c h. h;
  lists = λ c h. shop-Serves c;
  sends = λ c h x m.
      subst (λ x. Stocks whole shop x.product x.texts c) (sym (Memᴰ.eq_of_singleton m))
        (subst (Stocks whole shop (record dear { price_after_discount = pos 15 }) dear_texts)
          (sym h) dear-Stocks);
}

price-Change :
    (left : List ℕ) → Change whole shop (pos 31) rice dear true (price_keys left) left false true
unfolding shop
price-Change left = record {
  row = rice_texts;
  stocks = shop-Stocks;
  answers = price_answers;
  filled = price-IsFilled left;
  made = price-IsMade;
  found = true;
  stored = true;
  writes = price-IsStored;
  commits = refl;
}

price-Changes :
    (left : List ℕ) → Changes whole shop Old New (pos 31) rice dear (price_keys left) left
price-Changes left opened old = (
  true,
  subst (λ c. Change whole shop (pos 31) rice dear true (price_keys left) left c true) (sym old)
      (price-Change left),
  refl,
)

abbrev dear_scan : Scan ℤ
dear_scan = record {
  listed = record { product = record dear { price_after_discount = pos 15 }; texts = dear_texts };
  entry = by_scanner scanned;
}

dear_scan-IsScan : IsScan (rice.name ∷ []) dear_shelf dear_scan
dear_scan-IsScan = record {
  in_table = Memᴰ.head refl;
  entered = (scanned-AllTyped, omega arith, scanned_code);
}

abbrev update_keys : List ℕ
update_keys = price_keys (scan_keys (dear_scan ∷ []) (b'T' ∷ b' ' ∷ b'n' ∷ b'q' ∷ b'x' ∷ []))

abbrev before_update : World Bool ℤ
before_update = at_shop (b'm' ∷ update_keys)

before_update-AtTill : AtTill shelf Old [] before_update
unfolding initial_settings half ◌-ℤ◌
before_update-AtTill = record {
  sells = tt;
  filled = refl;
  in_table = tt;
  at_top = refl;
  idle = refl;
  prefix = refl;
  most = 8;
  room = refl;
  column = omega arith;
  names_fit = (omega arith, tt);
}

update-SumsFit : SumsFit before_update.settings.max_name_length (dear_scan ∷ []) []
unfolding whole table_width nr_length initial_settings to_string print_nat ◌+ℤ◌ ◌-ℤ◌ ◌*ℤ◌ eq_ℤ
update-SumsFit = ((omega arith, omega arith), (omega arith, omega arith))

dear_fits : AllFit before_update.settings.max_name_length dear_shelf
unfolding initial_settings
dear_fits = (omega arith, tt)

one_copy : copies_from 0 (b'n' ∷ b'q' ∷ b'x' ∷ []) ≡ enough 1 (b'q' ∷ b'x' ∷ [])
unfolding copies_from
one_copy = refl

main_loop_updates_example :
    let items = add_items (dear_scan ∷ []) [] in
    (w' : World Bool ℤ) × (main_loop ⦃q = shop⦄ unset before_update ≡ done tt w')
    × (w'.keys ≡ b'x' ∷ [])
    × (w'.basket ≡ [])
    × (w'.printed
        ≡ copies 1
            (receipt_text before_update.settings items (total_of (whole.of_int (pos 0)) items))
            before_update.printed)
unfolding initial_settings
main_loop_updates_example =
    main_loop_updates ⦃q = shop⦄ (rice.name ∷ []) (rice.name ∷ []) shelf dear_shelf (omega arith)
      (omega arith) shop-IsSteady dear-IsSteady unset
      (record { product = rice; texts = rice_texts }) dear 0 update_keys (dear_scan ∷ []) b' '
      (b'n' ∷ b'q' ∷ b'x' ∷ []) (b'x' ∷ []) 1 before_update before_update-AtTill refl refl refl
      (omega arith) refl dear_fits refl (price-Changes _) (dear_scan-IsScan, tt) (λ e. cc)
      update-SumsFit refl one_copy
