-- ===== src/Main/Cursor.antt =====
-- The key Down of the loop of src/main.cpp, and the move of the window that it makes.
use cli_pos.Base.{ℕ, ◌^◌, ◌<◌, ◌≡◌, refl, false, List, length, ltb, Bool-cases, inl, inr}
use cli_pos.Base.Int.{ℤ, pos}
use cli_pos.Database.Query.{finish}
use cli_pos.Database.Reads.{Serves, lists-Serves}
use cli_pos.Fault.{answer}
use cli_pos.Text.{Text}
use cli_pos.Window.{cursor_down, select_down, roll_down, last_index}
use cli_pos.Words.{to_size}
use cli_pos.World.Pqxx.{Pqxx}
use cli_pos.World.State.{World, View, Tab, products, basket, stock, done}
use cli_pos.Main.Show.{current_list_size, list_size_on}
use cli_pos.Main.Keys.{key_cursor_down}
use cli_pos.Database.Transaction.{begin_lem, commit_lem}

-- How many entries the list of a tab has, from those of the basket and of the table.
abbrev pub entries : Tab → ℕ → ℕ → ℕ
entries products in_basket in_table = in_table
entries basket in_basket in_table = in_basket
entries stock in_basket in_table = in_table

abbrev pub size_of : {C D : Type 0} → List ℤ → World C D → ℤ
size_of codes w = pos (entries w.current_tab (length w.basket) (length codes))

-- Where the first test of Down fails, the size that the second compares with does not matter.
select_down_short :
    (shown : ℕ) (n m : ℤ) (v : View)
    → ltb (to_size v.selection) (last_index shown) ≡ false
    → select_down shown n v ≡ select_down shown m v
unfolding select_down
select_down_short shown n m v h = rw (h, select_down)

module _ {C D : Type 0} ⦃q : Pqxx C D⦄ (names : List Text) (codes : List ℤ)
    (small : length codes < 2 ^ 31) where
  on_tab_lem :
      (tab : Tab) (w : World C D)
      → Serves q names codes w.conn
      → list_size_on tab w ≡ done (pos (entries tab (length w.basket) (length codes))) w
  unfolding list_size_on
  on_tab_lem products w s = (lists-Serves names codes w s small).0
  on_tab_lem basket w s = refl
  on_tab_lem stock w s = (lists-Serves names codes w s small).0

  pub size_lem :
      (w : World C D) → Serves q names codes w.conn → current_list_size w ≡ done (size_of codes w) w
  unfolding current_list_size
  size_lem w s = on_tab_lem w.current_tab w s

  moves_lem :
      (list : List ℤ) (w : World C D) (opened committed : C)
      → q.begin w.conn ≡ answer opened
      → Serves q names codes opened
      → q.commit opened ≡ answer committed
      → key_cursor_down list w
        ≡ done tt (record w {
          conn = q.finish committed;
          view =
              roll_down
                (length list)
                (size_of codes w)
                (select_down (length list) (size_of codes w) w.view);
        })
  unfolding key_cursor_down finish
  moves_lem list w opened committed b s c =
      let shown = length list in
      let w₁ = record w { conn = opened } in
      let v = select_down shown (size_of codes w) w.view in
      let w₂ = record w₁ { view = v } in
      let w₃ = record w₁ { view = roll_down shown (size_of codes w) v } in
      elim (Bool-cases (ltb (to_size w.view.selection) (last_index shown))) [
        | inl more ↦
            rw (begin_lem w opened b, more, size_lem w₁ s, size_lem w₂ s, commit_lem w₃ committed c)
        | inr less ↦ rw (
          begin_lem w opened b,
          less,
          select_down_short shown (pos 0) (size_of codes w) w.view less,
          size_lem w₂ s,
          commit_lem w₃ committed c,
        )
      ]

  -- The key Down makes the move of cursor_down on the window, against the number of entries of the tab's
  -- list: those of the basket, or of a table of fewer than 2^31 products that the server lists. Nothing
  -- else changes but the connection, whose transaction is committed.
  pub key_cursor_down_moves :
      (list : List ℤ) (w : World C D) (opened committed : C)
      → q.begin w.conn ≡ answer opened
      → Serves q names codes opened
      → q.commit opened ≡ answer committed
      → key_cursor_down list w
        ≡ done tt (record w {
          conn = q.finish committed;
          view = cursor_down (length list) (size_of codes w) w.view;
        })
  unfolding cursor_down
  key_cursor_down_moves list w opened committed b s c = moves_lem list w opened committed b s c
