-- ===== src/Database/Transaction.antt =====
-- The calls of libpqxx that src/database_functions.cpp and src/main.cpp make on the connection, where they
-- succeed.
use cli_pos.Base.{◌≡◌}
use cli_pos.Database.Query.{on_connection, begin, commit, exec}
use cli_pos.Fault.{Answer, answer}
use cli_pos.Text.{Text}
use cli_pos.World.Pqxx.{Pqxx, Rows}
use cli_pos.World.State.{World, done}

module _ {C D : Type 0} ⦃q : Pqxx C D⦄ where
  on_connection_lem :
      (f : C → Answer C) (w : World C D) (c : C)
      → f w.conn ≡ answer c
      → on_connection f w ≡ done tt (record w { conn = c })
  unfolding on_connection
  on_connection_lem f w c e = rw (e, on_connection)

  pub begin_lem :
      (w : World C D) (c : C)
      → q.begin w.conn ≡ answer c
      → begin w ≡ done tt (record w { conn = c })
  unfolding begin
  begin_lem w c e = on_connection_lem q.begin w c e

  pub commit_lem :
      (w : World C D) (c : C)
      → q.commit w.conn ≡ answer c
      → commit w ≡ done tt (record w { conn = c })
  unfolding commit
  commit_lem w c e = on_connection_lem q.commit w c e

  pub sent_lem :
      (sql : Text) (rows : Rows) (w : World C D) (c : C)
      → q.exec sql w.conn ≡ answer (rows, c)
      → exec sql w ≡ done rows (record w { conn = c })
  unfolding exec
  sent_lem sql rows w c e = rw (e, exec)
