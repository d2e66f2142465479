-- ===== src/Tests/Scanner/Printer.antt =====
-- The receipt of a basket with one product, and the keys `T` and `R`.
use cli_pos.Base.{arith, ℕ, ◌≡◌, refl, true, false, List, [], ◌∷◌}
use cli_pos.Base.Int.{ℤ, pos, eq_ℤ, ◌-ℤ◌}
use cli_pos.Basket.{entry, remove_one}
use cli_pos.Main.Checkout.{key_checkout_empties, key_checkout_keeps}
use cli_pos.Main.Keys.{key_checkout, key_remove}
use cli_pos.Main.Remove.{from_basket, key_remove_removes}
use cli_pos.Receipt.Copies.{
  Item, cart_of, AllStocked, copies_from, copies, receipt_text, Prints, print_receipt-Prints,
  enough,
}
use cli_pos.Receipt.Print.{print_receipt}
use cli_pos.Window.{at}
use cli_pos.World.State.{World, Draw, basket, done}
use cli_pos.Tests.Cart.{rice, whole, two_entries}
use cli_pos.Tests.Line.{at_keyboard}
use cli_pos.Tests.Scanner.{server, rice_texts, server-Stocks, server-Serves}

-- Two of the product.
abbrev pub items : List (Item ℤ)
items = record { product = rice; texts = rice_texts; quantity = pos 2 } ∷ []

abbrev with_printer : List ℕ → World (Unit {0}) ℤ
with_printer keys = record (at_keyboard keys) {
  basket = cart_of items;
  device = λ _. true;
  total = pos 24;
}

pub items-AllStocked : AllStocked whole server items tt
items-AllStocked = (server-Stocks, tt)

print_receipt-Prints_example :
    let w = with_printer (b'y' ∷ b'y' ∷ b'n' ∷ []) in
    Prints w (receipt_text w.settings items w.total) (copies_from 0 w.keys) (print_receipt w)
print_receipt-Prints_example =
    print_receipt-Prints items (with_printer (b'y' ∷ b'y' ∷ b'n' ∷ [])) items-AllStocked refl refl
      refl

two_copies : copies_from 0 (b'y' ∷ b'n' ∷ b'q' ∷ []) ≡ enough 2 (b'q' ∷ [])
unfolding copies_from
two_copies = refl

key_checkout_empties_example :
    let w = with_printer (b' ' ∷ b'y' ∷ b'n' ∷ b'q' ∷ []) in
    (scr : List Draw) × (key_checkout w
      ≡ done tt (record w {
        keys = b'q' ∷ [];
        screen = scr;
        conn = server.finish tt;
        printed = copies 2 (receipt_text w.settings items w.total) w.printed;
        basket = [];
        total = whole.of_int (pos 0);
      }))
unfolding server
key_checkout_empties_example =
    key_checkout_empties items (with_printer (b' ' ∷ b'y' ∷ b'n' ∷ b'q' ∷ [])) tt b' '
      (b'y' ∷ b'n' ∷ b'q' ∷ []) (b'q' ∷ []) 2 refl items-AllStocked refl refl refl refl two_copies

-- The printer is off.
abbrev without_printer : World (Unit {0}) ℤ
without_printer = record (with_printer (b' ' ∷ b' ' ∷ b'q' ∷ [])) { device = λ _. false }

key_checkout_keeps_example :
    let w = without_printer in
    (scr : List Draw) × (key_checkout w
      ≡ done tt (record w { keys = b'q' ∷ []; screen = scr; conn = server.finish tt }))
unfolding server
key_checkout_keeps_example =
    key_checkout_keeps without_printer tt b' ' b' ' (b'q' ∷ []) refl refl refl

-- The tab BASKET with two products, and the first of them selected.
abbrev at_basket : World (Unit {0}) ℤ
at_basket = record (at_keyboard []) {
  basket = two_entries;
  current_tab = basket;
  view = record { start = pos 0; stop = pos 2; selection = pos 0; indexed_selection = pos 0 };
}

key_remove_removes_example :
    let w = at_basket in
    key_remove (pos 17 ∷ pos 5941 ∷ []) w
    ≡ done tt (record w { conn = server.finish tt; basket = entry (pos 5941) (pos 2) ∷ [] })
unfolding server at remove_one eq_ℤ whole ◌-ℤ◌
key_remove_removes_example =
    key_remove_removes (pos 17 ∷ pos 5941 ∷ []) (pos 17) (rice.name ∷ []) (rice.code ∷ []) at_basket
      (entry (pos 5941) (pos 2) ∷ []) tt tt tt (omega arith) refl refl refl refl server-Serves refl
      (from_basket (entry (pos 5941) (pos 2) ∷ []) refl)
