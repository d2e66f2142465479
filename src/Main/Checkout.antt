-- ===== src/Main/Checkout.antt =====
-- The key `T` of the loop of src/main.cpp: the receipt of the basket, and what becomes of the basket.
use cli_pos.Shown.Errors
use cli_pos.Base.{
  ℕ, ◌≡◌, refl, true, false, ◌||◌, not, List, [], ◌∷◌, length, ◌==◌, Bool-cases, inl, inr,
}
use cli_pos.Base.Int.{pos}
use cli_pos.Database.Query.{finish}
use cli_pos.Fault.{answer}
use cli_pos.Receipt.Copies.{
  enough, copies_from, copies, Item, cart_of, AllStocked, receipt_text, message_lem,
  print_receipt-Prints,
}
use cli_pos.Receipt.Print.{receipt_device, print_round, print_rounds, print_receipt}
use cli_pos.Text.{codes}
use cli_pos.World.Double.{Double}
use cli_pos.World.Pqxx.{Pqxx}
use cli_pos.World.State.{World, Draw, done}
use cli_pos.Main.Keys.{key_checkout}
use cli_pos.Database.Transaction.{begin_lem}

module _ {C D : Type 0} ⦃d : Double D⦄ ⦃q : Pqxx C D⦄ where
  -- With products of the table in the basket and a device that opens, `T`, a key for the message, any
  -- number of `y` and another key write the receipt of the basket as often as print_receipt does, and
  -- leave an empty basket and a total of 0; nothing else changes but the keys that are taken, the screen
  -- and the connection.
  pub key_checkout_empties :
      (items : List (Item D)) (w : World C D) (opened : C) (key : ℕ) (keys rest : List ℕ) (n : ℕ)
      → q.begin w.conn ≡ answer opened
      → AllStocked d q items opened
      → w.basket ≡ cart_of items
      → (length w.basket == 0) ≡ false
      → w.device receipt_device ≡ true
      → w.keys ≡ key ∷ keys
      → copies_from 0 keys ≡ enough n rest
      → (scr : List Draw) × (key_checkout w
          ≡ done tt (record w {
            keys = rest;
            screen = scr;
            conn = q.finish opened;
            printed = copies n (receipt_text w.settings items w.total) w.printed;
            basket = [];
            total = d.of_int (pos 0);
          }))
  unfolding key_checkout finish
  key_checkout_empties items w opened key keys rest n b h e full opens typed c =
      let (scr, m) =
        message_lem (codes "Printing receipt") key keys (record w { conn = opened }) typed in
      let w₁ = record w { conn = opened; keys = keys; screen = scr } in
      let p = print_receipt-Prints items w₁ h e full opens in
      let (scr', p') = rw c at p in (scr', rw (begin_lem w opened b, m, p'))

  refused_lem :
      (w : World C D) (key : ℕ) (keys : List ℕ)
      → (length w.basket == 0 || not (w.device receipt_device)) ≡ true
      → w.keys ≡ key ∷ keys
      → (scr : List Draw) × (print_receipt w ≡ done false (record w { keys = keys; screen = scr }))
  unfolding print_receipt print_rounds print_round
  refused_lem w key keys refused typed = elim (Bool-cases (length w.basket == 0)) [
    | inl nothing ↦
        let (scr, m) = message_lem Errors.no_items_in_basket key keys w typed in
        (scr, rw (nothing, m))
    | inr some_items ↦
        let shut : not (w.device receipt_device) ≡ true = rw some_items at refused in
        let (scr, m) = message_lem Errors.receipt_printing key keys w typed in
        (scr, rw (some_items, shut, m))
  ]

  -- With an empty basket or a device that does not open, `T` and two keys for its messages write nothing,
  -- and leave the basket and the total as they are: nothing changes but the keys that are taken, the
  -- screen and the connection.
  pub key_checkout_keeps :
      (w : World C D) (opened : C) (key key' : ℕ) (keys : List ℕ)
      → q.begin w.conn ≡ answer opened
      → (length w.basket == 0 || not (w.device receipt_device)) ≡ true
      → w.keys ≡ key ∷ key' ∷ keys
      → (scr : List Draw) × (key_checkout w
          ≡ done tt (record w { keys = keys; screen = scr; conn = q.finish opened }))
  unfolding key_checkout finish
  key_checkout_keeps w opened key key' keys b refused typed =
      let w₁ = record w { conn = opened } in
      let (scr, m) = message_lem (codes "Printing receipt") key (key' ∷ keys) w₁ typed in
      let w₂ = record w₁ { keys = key' ∷ keys; screen = scr } in
      let (scr', p) = refused_lem w₂ key' keys refused refl in
      (scr', rw (begin_lem w opened b, m, p))
