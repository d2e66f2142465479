-- ===== src/Table/Messages.antt =====
-- clear_messages of src/main.cpp.
use cli_pos.Base.Int.{ℤ}
use cli_pos.Table.Head.{clear_lines, clear_messages}
use cli_pos.World.Drawing.{IsDrawing, world-IsDrawing, drawing}

module _ {C D : Type 0} where
  clear_lines-IsDrawing : (lines rows : ℤ) → IsDrawing {C = C} {D = D} (clear_lines lines rows)
  unfolding clear_lines
  clear_lines-IsDrawing lines rows = search drawing depth 12

  pub clear_messages-IsDrawing : IsDrawing {C = C} {D = D} clear_messages
  unfolding clear_messages
  clear_messages-IsDrawing =
      world-IsDrawing (λ w. clear_lines w.terminal.lines w.terminal.rows)
        (λ w. clear_lines-IsDrawing w.terminal.lines w.terminal.rows)
