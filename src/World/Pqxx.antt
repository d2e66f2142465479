-- ===== src/World/Pqxx.antt =====
-- What the program calls of libpqxx, on a connection whose state is a `C`. All of it is a parameter
-- of the model: the library, the server and its data are not part of the repository's own code.
use cli_pos.Base.{ℕ, Bool, List, Option, none, some, get_elem?}
use cli_pos.Base.Int.{ℤ}
use cli_pos.Fault.{Answer, Result, checked, err, pqxx_error}
use cli_pos.Text.{Text}

-- A field is null or a text; a `result` is a list of rows.
abbrev pub Field : Type 0
Field = Option Text

abbrev pub Rows : Type 0
Rows = List (List Field)

pub record Pqxx (C D : Type 0) : Type 0 where
  -- `connection C(conn_param)`
  pub connect : Text → Answer C
  -- `work tx(C)`: fails where another transaction is open on the connection
  pub begin : C → Answer C
  -- tx.exec
  pub exec : Text → C → Answer (Rows × C)
  -- tx.commit
  pub commit : C → Answer C
  -- the destructor of `work`, which rolls back what is not committed
  pub finish : C → C
  -- field::as<T>, on a field that is not null
  pub as_long : Text → Answer ℤ
  pub as_short : Text → Answer ℤ
  pub as_bool : Text → Answer Bool
  pub as_double : Text → Answer D

-- `res[i][j].as<T>()`. A field of a row that is not there reads as null, and a null does not convert.
unfoldable pub as_field {ℓ} : {A : Type ℓ} → (Text → Answer A) → ℕ → ℕ → Rows → Result A
as_field read i j res = elim (get_elem? res i) [
  | none ↦ err pqxx_error
  | some row ↦ elim (get_elem? row j) [
    | none ↦ err pqxx_error
    | some field ↦ elim field [ none ↦ err pqxx_error | some text ↦ checked (read text) ]
  ]
]
