-- ===== src/Main/Remove.antt =====
-- The key `R` of the loop of src/main.cpp.
use cli_pos.Base.{◌^◌, ◌<◌, ◌≡◌, ◌≢◌, refl, false, List, length}
use cli_pos.Base.Int.{ℤ, eq_ℤ}
use cli_pos.Basket.{remove_one}
use cli_pos.Database.Query.{finish, erase}
use cli_pos.Database.Reads.{Serves}
use cli_pos.Database.Statement.{erase_sql}
use cli_pos.Database.Transaction.{begin_lem, commit_lem, sent_lem}
use cli_pos.Fault.{answer, ok}
use cli_pos.Text.{Text}
use cli_pos.Window.{at, is_zero}
use cli_pos.World.Double.{Double}
use cli_pos.World.Pqxx.{Pqxx, Rows}
use cli_pos.World.State.{World, BasketProduct, Tab, products, basket, stock, done}
use cli_pos.Main.Cursor.{size_of, size_lem}
use cli_pos.Main.Keys.{key_remove, remove_selected, remove_on, erase_product}

-- What is removed on a tab: on BASKET one of the code, from the basket; on PRODUCTS and STOCK the row of
-- the code, from the table, in a transaction of its own. Behind it stand the basket and the connection
-- that are left.
pub data Removal {C D : Type 0} (d : Double D) (q : Pqxx C D) (code : ℤ)
    (cart : List (BasketProduct D)) (c : C) : Tab → List (BasketProduct D) → C → Type 0 where
  from_basket :
      (rest : List (BasketProduct D))
      → remove_one ⦃d = d⦄ code cart ≡ ok rest
      → Removal d q code cart c basket rest c
  from_table :
      (tab : Tab) (opened sent stored : C) (rows : Rows)
      → tab ≢ basket
      → q.begin c ≡ answer opened
      → q.exec (erase_sql code) opened ≡ answer (rows, sent)
      → q.commit sent ≡ answer stored
      → Removal d q code cart c tab cart (q.finish stored)

module _ {C D : Type 0} ⦃d : Double D⦄ ⦃q : Pqxx C D⦄ (list : List ℤ) (code : ℤ) where
  erased_lem :
      (w : World C D) (opened sent stored : C) (rows : Rows)
      → at list w.view.selection ≡ ok code
      → q.begin w.conn ≡ answer opened
      → q.exec (erase_sql code) opened ≡ answer (rows, sent)
      → q.commit sent ≡ answer stored
      → erase_product list w ≡ done tt (record w { conn = q.finish stored })
  unfolding erase_product erase finish
  erased_lem w opened sent stored rows a b e c =
      let w₁ = record w { conn = opened } in
      let w₂ = record w { conn = sent } in
      rw (begin_lem w opened b, a, sent_lem (erase_sql code) rows w₁ sent e, commit_lem w₂ stored c)

  removed_lem :
      {tab : Tab} {rest : List (BasketProduct D)} {c : C} (w : World C D)
      → at list w.view.selection ≡ ok code
      → Removal d q code w.basket w.conn tab rest c
      → remove_on tab list w ≡ done tt (record w { basket = rest; conn = c })
  unfolding remove_selected
  removed_lem w a (from_basket rest e) = rw (a, e)
  removed_lem w a (from_table products opened sent stored rows other b e c) =
      erased_lem w opened sent stored rows a b e c
  removed_lem w a (from_table stock opened sent stored rows other b e c) =
      erased_lem w opened sent stored rows a b e c
  removed_lem w a (from_table basket opened sent stored rows other b e c) = absurd (other refl)

  -- On a list that is not empty, where the selection is not at the end of the window, `R` removes the
  -- selected entry: on BASKET the basket becomes what remove_one makes of it for the code, and on PRODUCTS
  -- and STOCK the row of the code is deleted, in a transaction of its own. Nothing else changes but the
  -- connection, on which the transaction of the key is committed before that. It does so where
  -- remove_one has a result on BASKET, the server lists a table of fewer than 2^31 products, and it
  -- takes the statement and begins and commits the transactions.
  pub key_remove_removes :
      (names : List Text) (codes : List ℤ) (w : World C D) (rest : List (BasketProduct D))
      (opened committed left : C)
      → length codes < 2 ^ 31
      → is_zero (size_of codes w) ≡ false
      → eq_ℤ w.view.selection w.view.stop ≡ false
      → at list w.view.selection ≡ ok code
      → q.begin w.conn ≡ answer opened
      → Serves q names codes opened
      → q.commit opened ≡ answer committed
      → Removal d q code w.basket committed w.current_tab rest left
      → key_remove list w ≡ done tt (record w { conn = q.finish left; basket = rest })
  unfolding key_remove finish
  key_remove_removes names codes w rest opened committed left small full inside a b s c r =
      let w₁ = record w { conn = opened } in
      let w₂ = record w { conn = committed } in
      rw (
        begin_lem w opened b,
        size_lem names codes small w₁ s,
        full,
        commit_lem w₁ committed c,
        inside,
        removed_lem w₂ a r,
      )
