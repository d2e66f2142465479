-- ===== src/Drawing.antt =====
-- src/drawing_functions.cpp, which the build leaves out: nr_length, print_product, clear_messages and
-- print_table_head_section are those of src/main.cpp word for word, and have the definitions of Table and
-- Main/Start; draw_product_list opens its own transaction.
pub mod Same
use cli_pos.Base.{List}
use cli_pos.Base.Int.{ℤ}
use cli_pos.Database.Query.{begin, commit, finish}
use cli_pos.Table.Head.{Columns, table_width, draw_head}
use cli_pos.Table.Row.{draw_rows, draw_total}
use cli_pos.World.Double.{Double}
use cli_pos.World.Monad.{M, ◌>>◌, when, with_world}
use cli_pos.World.Pqxx.{Pqxx}

module _ {C D : Type 0} ⦃d : Double D⦄ ⦃q : Pqxx C D⦄ where
  unfoldable pub draw_product_list : List ℤ → ℤ → Columns → D → M C D (Unit {0})
  draw_product_list list selection c total = with_world λ w.
      let name_length = w.settings.max_name_length in
      do
        draw_head w.current_tab c
        begin
        draw_rows 0 selection name_length c list
        when c.total (draw_total (table_width name_length c) total)
        commit
        finish
