-- ===== src/Tests/Table.antt =====
-- The head of a table, and the number of a product.
use cli_pos.Base.{◌≡◌, arith}
use cli_pos.Base.Int.{pos}
use cli_pos.Fault.{ok}
use cli_pos.Text.{to_string, stol}
use cli_pos.Input.{remove_non_nr}
use cli_pos.Input.RoundTrip.{code_round_trip}

code_round_trip_example :
    stol (remove_non_nr (to_string (pos 5_941_234_567_890))) ≡ ok (pos 5_941_234_567_890)
code_round_trip_example = code_round_trip 5_941_234_567_890 (omega arith)
