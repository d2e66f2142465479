-- ===== src/Receipt/Copies.antt =====
-- What print_receipt of src/main.cpp writes to the printer, as a function of the keys alone.
use cli_pos.Shown.Info
use cli_pos.Base.{
  ℕ, zero, suc, ◌<◌, ◌≡◌, refl, Bool, true, false, List, [], ◌∷◌, ◌++◌, arith, length, ◌==◌,
  Bool-cases, inl, inr, ap, ◌∙◌,
}
use cli_pos.Base.Int.{ℤ}
use cli_pos.Basket.{entry}
use cli_pos.Database.Row.{RowTexts, Stocks, product-Stocks}
use cli_pos.Fault.{waiting}
use cli_pos.Product.{Product}
use cli_pos.Receipt.Print.{
  receipt_device, message, write, receipt_items, receipt, receipt_for, print_asked, print_round,
  print_rounds, print_receipt,
}
use cli_pos.Receipt.Text.{initialize, receipt_head, receipt_item, receipt_end, rule}
use cli_pos.Table.Messages.{clear_messages-IsDrawing}
use cli_pos.Text.{Text}
use cli_pos.World.Double.{Double}
use cli_pos.World.Monad.{M, getch}
use cli_pos.World.Returns.{getch_lem}
use cli_pos.World.Pqxx.{Pqxx}
use cli_pos.World.State.{World, Outcome, Draw, BasketProduct, Settings, done, stopped, printed}

-- How often the receipt is written, with the keys that are left; or how often before the program waits.
pub data Copies : Type 0 where
  enough : ℕ → List ℕ → Copies
  unanswered : ℕ → Copies

-- A receipt is written, and one more for each `y` behind it.
unfoldable pub copies_from : ℕ → List ℕ → Copies
copies_from n [] = unanswered (suc n)
copies_from n (key ∷ keys) = elim (key == b'y') [
  | true ↦ copies_from (suc n) keys
  | false ↦ enough (suc n) keys
]

-- The device's output with `n` copies of a receipt before it.
abbrev pub copies : ℕ → Text → List (Text × Text) → List (Text × Text)
copies zero bytes out = out
copies (suc n) bytes out = (receipt_device, bytes) ∷ copies n bytes out

-- A product of the table, as it is in the basket.
pub record Item (D : Type 0) : Type 0 where
  pub product : Product D
  pub texts : RowTexts
  pub quantity : D

abbrev pub cart_of : {D : Type 0} → List (Item D) → List (BasketProduct D)
cart_of [] = []
cart_of (i ∷ items) = entry i.product.code i.quantity ∷ cart_of items

abbrev pub AllStocked : {C D : Type 0} → Double D → Pqxx C D → List (Item D) → C → Type 0
AllStocked d q [] c = Unit {0}
AllStocked d q (i ∷ items) c = Stocks d q i.product i.texts c × AllStocked d q items c

module _ {D : Type 0} ⦃d : Double D⦄ where
  abbrev items_text : ℤ → List (Item D) → Text
  items_text m [] = []
  items_text m (i ∷ items) = receipt_item m i.product i.quantity ++ items_text m items

  -- The whole receipt: its head, a paragraph for each product of the basket, and the total.
  abbrev pub receipt_text : Settings D → List (Item D) → D → Text
  receipt_text s items total =
      initialize
      ++ (receipt_head s
          ++ (rule s.max_name_length
              ++ (items_text s.max_name_length items ++ receipt_end s.nr_of_newlines total)))

module _ {C D : Type 0} where
  -- The call ended as the keys have it: the copies are written, and nothing else changes but the keys
  -- to come and the screen.
  abbrev pub Prints : World C D → Text → Copies → Outcome C D Bool → Type 0
  Prints w bytes (enough n rest) o =
      (scr : List Draw) × (o
        ≡ done true (record w { keys = rest; screen = scr; printed = copies n bytes w.printed }))
  Prints w bytes (unanswered n) o =
      (scr : List Draw) × (o
        ≡ stopped waiting
            (record w { keys = []; screen = scr; printed = copies n bytes w.printed }))

  pub message_lem :
      (t : Text) (key : ℕ) (keys : List ℕ) (w : World C D)
      → w.keys ≡ key ∷ keys
      → (scr : List Draw) × (message t w ≡ done key (record w { keys = keys; screen = scr }))
  unfolding message
  message_lem t key keys w typed =
      let (scr, e) = clear_messages-IsDrawing.drawn w in
      (printed t ∷ scr, rw (e, getch_lem key keys (record w { screen = printed t ∷ scr }) typed))

  message-waits :
      (t : Text) (w : World C D)
      → (scr : List Draw) × (message t (record w { keys = [] })
          ≡ stopped waiting (record w { keys = []; screen = scr }))
  unfolding message getch
  message-waits t w =
      let (scr, e) = clear_messages-IsDrawing.drawn (record w { keys = [] }) in
      (printed t ∷ scr, rw e)

module _ {C D : Type 0} ⦃d : Double D⦄ ⦃q : Pqxx C D⦄ where
  items_lem :
      (m : ℤ) (items : List (Item D)) (w : World C D)
      → AllStocked d q items w.conn
      → receipt_items m (cart_of items) w ≡ done (items_text m items) w
  unfolding receipt_items
  items_lem m [] w h = refl
  items_lem m (i ∷ items) w h =
      rw ((product-Stocks i.product i.texts w h.0).1, items_lem m items w h.1)

  receipt_lem :
      (items : List (Item D)) (w : World C D)
      → AllStocked d q items w.conn
      → w.basket ≡ cart_of items
      → receipt w ≡ done (receipt_text w.settings items w.total) w
  unfolding receipt receipt_for
  receipt_lem items w h e =
      ap (λ cart. receipt_for w.settings cart w.total w) e
      ∙ rw (items_lem w.settings.max_name_length items w h)

  module _ (items : List (Item D)) (w : World C D) (h : AllStocked d q items w.conn)
      (e : w.basket ≡ cart_of items) where
    abbrev bytes : Text
    bytes = receipt_text w.settings items w.total

    -- The world with that many copies written.
    abbrev written : ℕ → List ℕ → List Draw → World C D
    written n keys scr = record w { keys = keys; screen = scr; printed = copies n bytes w.printed }

    asked-Prints :
        (again : M C D Bool) (n : ℕ) (keys : List ℕ) (scr : List Draw)
        → ((keys' : List ℕ) (scr' : List Draw)
            → length keys' < length keys
            → Prints w bytes (copies_from (suc n) keys') (again (written (suc n) keys' scr')))
        → Prints w bytes (copies_from n keys) (print_asked again (written n keys scr))
    unfolding print_asked write copies_from
    asked-Prints again n [] scr k =
        let (scr', m) = message-waits Info.reprint_receipt (written (suc n) [] scr) in
        rw (receipt_lem items (written n [] scr) h e, m) (scr', refl)
    asked-Prints again n (key ∷ keys) scr k =
        let question = Info.reprint_receipt in
        let (scr', m) = message_lem question key keys (written (suc n) (key ∷ keys) scr) refl in
        elim (Bool-cases (key == b'y')) [
          | inl more ↦
              rw (receipt_lem items (written n (key ∷ keys) scr) h e, m, more, copies_from)
                (k keys scr' (omega arith))
          | inr last ↦
              rw (receipt_lem items (written n (key ∷ keys) scr) h e, m, last, copies_from)
                (scr', refl)
        ]

    rounds-Prints :
        (fuel n : ℕ) (keys : List ℕ) (scr : List Draw)
        → length keys < fuel
        → (length w.basket == 0) ≡ false
        → w.device receipt_device ≡ true
        → Prints w bytes (copies_from n keys) (print_rounds fuel (written n keys scr))
    unfolding print_rounds print_round
    rounds-Prints zero n keys scr l full opens = elim l [ ]
    rounds-Prints (suc fuel) n keys scr l full opens =
        rw (full, opens)
          (asked-Prints (print_rounds fuel) n keys scr
            (λ keys' scr' l'. rounds-Prints fuel (suc n) keys' scr' (omega arith) full opens))

    -- With products of the table in the basket and a device that opens, print_receipt writes the receipt
    -- of the basket once and once more for each `y` that is pressed next, and returns true at the first
    -- other key; it takes those keys, draws, and changes nothing else. Where no other key comes it waits.
    pub print_receipt-Prints :
        (length w.basket == 0) ≡ false
        → w.device receipt_device ≡ true
        → Prints w bytes (copies_from 0 w.keys) (print_receipt w)
    unfolding print_receipt
    print_receipt-Prints full opens =
        rounds-Prints (suc (length w.keys)) 0 w.keys w.screen (omega arith) full opens
