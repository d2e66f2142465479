-- ===== src/Database/Reads.antt =====
-- The lists that src/database_functions.cpp reads: stock_size, code_list and name_list.
use cli_pos.Base.{
  ℕ, suc, ◌+◌, ◌^◌, ◌<◌, ◌≡◌, refl, ap, Bool, true, false, List, [], ◌∷◌, some, arith, length, map,
}
use cli_pos.Base.Int.{ℤ, pos, ltb_ℤ}
use cli_pos.Fault.{Answer, answer, Result, ok}
use cli_pos.Text.{Text, to_string}
use cli_pos.Text.RoundTrip.{IsLong}
use cli_pos.Search.Order.{to_int_small}
use cli_pos.World.Pqxx.{Pqxx, Rows, as_field}
use cli_pos.World.State.{World, done}
use cli_pos.World.Monad.{M}
use cli_pos.Database.Statement.{count_sql, codes_sql, names_sql}
use cli_pos.Database.Query.{exec, stock_size, column_row, column_from, code_list, name_list}

-- A result of one column.
abbrev pub column_of : {A : Type 0} → (A → Text) → List A → Rows
column_of print xs = map (λ a. some (print a) ∷ []) xs

abbrev pub AllLong : List ℤ → Type 0
AllLong [] = Unit {0}
AllLong (z ∷ zs) = IsLong z × AllLong zs

-- Each value is read back from its print.
abbrev AllRead : {A : Type 0} → (Text → Answer A) → (A → Text) → List A → Type 0
AllRead read print [] = Unit {0}
AllRead read print (a ∷ xs) = (read (print a) ≡ answer a) × AllRead read print xs

text-AllRead : (xs : List Text) → AllRead answer (λ t. t) xs
text-AllRead [] = tt
text-AllRead (x ∷ xs) = (refl, text-AllRead xs)

long-AllRead :
    (read : Text → Answer ℤ) (zs : List ℤ)
    → ((z : ℤ) → IsLong z → read (to_string z) ≡ answer z)
    → AllLong zs
    → AllRead read to_string zs
long-AllRead read [] h l = tt
long-AllRead read (z ∷ zs) h l = (h z l.0, long-AllRead read zs h l.1)

-- A connection whose table holds products with these names and codes, in this order, none of them null.
-- A query leaves it as it is, and a `long int` is read as it was printed.
pub record Serves {C D : Type 0} (q : Pqxx C D) (names : List Text) (codes : List ℤ) (c : C)
    : Type 0 where
  pub counts : q.exec count_sql c ≡ answer (column_of to_string (pos (length codes) ∷ []), c)
  pub lists_codes : q.exec codes_sql c ≡ answer (column_of to_string codes, c)
  pub lists_names : q.exec names_sql c ≡ answer (column_of (λ t. t) names, c)
  pub long : AllLong codes
  pub reads : (z : ℤ) → IsLong z → q.as_long (to_string z) ≡ answer z
  pub in_step : length names ≡ length codes

as_field_lem :
    {A : Type 0} (read : Text → Answer A) (t : Text) (a : A)
    → read t ≡ answer a
    → as_field read 0 0 ((some t ∷ []) ∷ []) ≡ ok a
unfolding as_field
as_field_lem read t a e = rw e

module _ {C D : Type 0} ⦃q : Pqxx C D⦄ where
  row_lem :
      {A : Type 0} (more : Bool) (field : Result A) (rest : M C D (List A)) (a : A) (xs : List A)
      {w : World C D}
      → more ≡ true
      → field ≡ ok a
      → rest w ≡ done xs w
      → column_row more field rest w ≡ done (a ∷ xs) w
  unfolding column_row
  row_lem more field rest a xs m f r = rw (m, column_row, f, r)

  pub exec_lem :
      (sql : Text) (rows : Rows) (w : World C D)
      → q.exec sql w.conn ≡ answer (rows, w.conn)
      → exec sql w ≡ done rows w
  unfolding exec
  exec_lem sql rows w e = rw (e, exec)

module _ {C D : Type 0} ⦃q : Pqxx C D⦄ (names : List Text) (codes : List ℤ) (w : World C D)
    (s : Serves q names codes w.conn) (small : length codes < 2 ^ 31) where
  stock_size_lem : stock_size w ≡ done (pos (length codes)) w
  unfolding stock_size
  stock_size_lem =
      rw
        (
          exec_lem count_sql _ w s.counts,
          as_field_lem q.as_long _ (pos (length codes))
              (s.reads (pos (length codes)) (omega arith)),
        )
        (ap (λ z. done z w) (to_int_small (length codes) small))

  column_from_lem :
      {A : Type 0} (read : Text → Answer A) (print : A → Text) (i : ℕ) (xs : List A)
      → AllRead read print xs
      → i + length xs ≡ length codes
      → column_from read i (column_of print xs) w ≡ done xs w
  unfolding column_from
  column_from_lem read print i [] h e =
      let end : ltb_ℤ (pos i) (pos (length codes)) ≡ false = ground arith in
      rw (stock_size_lem, end)
  column_from_lem read print i (a ∷ xs) h e =
      let more : ltb_ℤ (pos i) (pos (length codes)) ≡ true = ground arith in
      rw stock_size_lem (
        row_lem _ _ _ a xs more (as_field_lem read (print a) a h.0)
          (column_from_lem read print (suc i) xs h.1 (omega arith)))

  -- On a table of fewer than 2^31 products, whose names and codes the server lists in one order,
  -- stock_size returns how many there are, code_list all their codes and name_list all their names, in
  -- that order; none of them changes anything.
  pub lists-Serves :
      (stock_size w ≡ done (pos (length codes)) w)
      × (code_list w ≡ done codes w)
      × (name_list w ≡ done names w)
  unfolding code_list name_list
  lists-Serves = (
    stock_size_lem,
    rw (exec_lem codes_sql _ w s.lists_codes) (
        column_from_lem q.as_long to_string 0 codes (long-AllRead q.as_long codes s.reads s.long)
          (omega arith)),
    rw (exec_lem names_sql _ w s.lists_names)
        (column_from_lem answer (λ t. t) 0 names (text-AllRead names) (omega (arith, s.in_step))),
  )
