-- ===== src/Main/Change.antt =====
-- The keys `m` and `a` of the loop of src/main.cpp, with the form of add_modify_product.
use cli_pos.Base.{ℕ, ◌^◌, ◌<◌, ◌≡◌, Bool, true, false, List, length}
use cli_pos.Base.Int.{ℤ}
use cli_pos.Database.Query.{finish}
use cli_pos.Database.Reads.{Serves, lists-Serves}
use cli_pos.Database.Row.{RowTexts, Stocks}
use cli_pos.Database.Transaction.{begin_lem, commit_lem}
use cli_pos.Edit.{Answers, add_modify_product}
use cli_pos.Edit.Form.{IsFilled, IsMade, IsStored, add_modify_product_writes}
use cli_pos.Fault.{answer, ok}
use cli_pos.Product.{Product}
use cli_pos.Text.{Text}
use cli_pos.Window.{at, is_zero}
use cli_pos.World.Double.{Double}
use cli_pos.World.Pqxx.{Pqxx}
use cli_pos.World.State.{World, Tab, products, basket, stock, Draw, done}
use cli_pos.Main.Cursor.{size_of, size_lem}
use cli_pos.Main.Keys.{key_modify, key_add, add_on}

-- The tabs on which `a` asks for a new product.
abbrev pub Stores : Tab → Type 0
Stores products = Unit {0}
Stores basket = ⊥
Stores stock = Unit {0}

-- What the user answers on the form of the product `current`, and the server where the product `p` of
-- those answers is written in an open transaction.
pub record Change {C D : Type 0} (d : Double D) (q : Pqxx C D) (m : ℤ) (current p : Product D)
    (modify : Bool) (keys left : List ℕ) (opened committed : C) : Type 0 where
  pub row : RowTexts
  pub stocks : Stocks d q current row opened
  pub answers : Answers
  pub filled : IsFilled d m current modify answers keys left
  pub made : IsMade d current answers p
  pub found : Bool
  pub stored : C
  pub writes : IsStored d q p found opened stored
  pub commits : q.commit stored ≡ answer committed

module _ {C D : Type 0} ⦃d : Double D⦄ ⦃q : Pqxx C D⦄ (list : List ℤ) (current p : Product D)
    (left : List ℕ) (names : List Text) (codes : List ℤ) (w : World C D)
    (opened committed : C) where
  form_lem :
      (modify : Bool)
      → (c : Change d q w.settings.max_name_length current p modify w.keys left opened committed)
      → (scr : List Draw) × (add_modify_product current.code modify (record w { conn = opened })
          ≡ done tt (record w { keys = left; screen = scr; conn = c.stored }))
  form_lem modify c =
      add_modify_product_writes current p c.row modify c.found c.answers left c.stored
        (record w { conn = opened }) c.stocks c.filled c.made c.writes

  -- Where the list of the tab is not empty and its selected entry is a product that the server sends, `m`
  -- shows the form of that product, and the product that the answers make is written; nothing else
  -- changes but the keys that are taken, the screen and the connection.
  pub key_modify_writes :
      length codes < 2 ^ 31
      → is_zero (size_of codes w) ≡ false
      → at list w.view.selection ≡ ok current.code
      → q.begin w.conn ≡ answer opened
      → Serves q names codes opened
      → Change d q w.settings.max_name_length current p true w.keys left opened committed
      → (scr : List Draw) × (key_modify list w
          ≡ done tt (record w { keys = left; screen = scr; conn = q.finish committed }))
  unfolding key_modify finish
  key_modify_writes small full l b s c =
      let w₁ = record w { conn = opened } in
      let (scr, e) = form_lem true c in
      let w₂ = record w₁ { keys = left; screen = scr; conn = c.stored } in
      (
        scr,
        rw (
          begin_lem w opened b,
          size_lem names codes small w₁ s,
          full,
          l,
          e,
          commit_lem w₂ committed c.commits,
        ),
      )

  add_lem :
      (tab : Tab)
      → Stores tab
      → length codes < 2 ^ 31
      → at list w.view.selection ≡ ok current.code
      → q.begin w.conn ≡ answer opened
      → Serves q names codes opened
      → Change d q w.settings.max_name_length current p false w.keys left opened committed
      → (scr : List Draw) × (add_on tab list w
          ≡ done tt (record w { keys = left; screen = scr; conn = q.finish committed }))
  unfolding add_on finish
  add_lem products h small l b s c =
      let w₁ = record w { conn = opened } in
      let (scr, e) = form_lem false c in
      let w₂ = record w₁ { keys = left; screen = scr; conn = c.stored } in
      let size = (lists-Serves names codes w₁ s small).0 in
      (scr, rw (begin_lem w opened b, size, l, e, commit_lem w₂ committed c.commits))
  add_lem stock h small l b s c =
      let w₁ = record w { conn = opened } in
      let (scr, e) = form_lem false c in
      let w₂ = record w₁ { keys = left; screen = scr; conn = c.stored } in
      let size = (lists-Serves names codes w₁ s small).0 in
      (scr, rw (begin_lem w opened b, size, l, e, commit_lem w₂ committed c.commits))
  add_lem basket h small l b s c = absurd h

  -- On the tabs PRODUCTS and STOCK, where the selected entry of the list is a product that the server
  -- sends, `a` asks for a new product, and the product that the answers make is written, with UPDATE or
  -- INSERT as its code is in the table or not; nothing else changes but the keys that are taken, the
  -- screen and the connection, on which the transaction is committed by the form and once more by the
  -- key. It does so where the eight answers end and can be read, the server lists a table of fewer than
  -- 2^31 products, and it begins the transaction and takes the statement and both commits.
  pub key_add_writes :
      Stores w.current_tab
      → length codes < 2 ^ 31
      → at list w.view.selection ≡ ok current.code
      → q.begin w.conn ≡ answer opened
      → Serves q names codes opened
      → Change d q w.settings.max_name_length current p false w.keys left opened committed
      → (scr : List Draw) × (key_add list w
          ≡ done tt (record w { keys = left; screen = scr; conn = q.finish committed }))
  unfolding key_add
  key_add_writes stores small l b s c = add_lem w.current_tab stores small l b s c
