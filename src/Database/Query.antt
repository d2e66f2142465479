-- ===== src/Database/Query.antt =====
-- The functions, over the connection of the world.
use cli_pos.Base.{ℕ, zero, suc, ◌-◌, ◌/◌, Bool, true, false, List, [], ◌∷◌, if◌then◌else◌, ◌==◌}
use cli_pos.Base.Int.{ℤ, pos, ltb_ℤ}
use cli_pos.Fault.{Answer, answer, raise, to_fault, Result, ok, err, pqxx_error}
use cli_pos.Text.{Text}
use cli_pos.Product.{Product, to_mesurments}
use cli_pos.Words.{to_int}
use cli_pos.World.Double.{Double}
use cli_pos.World.Pqxx.{Pqxx, Rows, as_field}
use cli_pos.World.State.{done, stopped}
use cli_pos.World.Monad.{M, ◌>>=◌, return, throw, lift}
use cli_pos.Database.Statement.{
  count_sql, select_sql, exists_sql, codes_sql, names_sql, erase_sql, tax_rates_sql, update_sql,
  insert_sql,
}

-- `text[0]` of a std::string, which for the empty one is the byte 0 behind its end.
unfoldable pub first_byte : Text → ℕ
first_byte [] = 0
first_byte (c ∷ s) = c

-- std::map::insert keeps the value that a key has.
unfoldable pub map_insert : ℕ → ℤ → List (ℕ × ℤ) → List (ℕ × ℤ)
map_insert key value [] = (key, value) ∷ []
map_insert key value ((k, v) ∷ m) = if k == key then (k, v) ∷ m else (k, v) ∷ map_insert key value m

unfoldable pub tax_rates_from :
    (Text → Answer ℤ) → ℕ → ℕ → Rows → List (ℕ × ℤ) → Result (List (ℕ × ℤ))
tax_rates_from read_short zero i res m = ok m
tax_rates_from read_short (suc n) i res m = elim (as_field answer i 0 res) [
  | err f ↦ err f
  | ok tax_char ↦ elim (as_field read_short i 1 res) [
    | err f ↦ err f
    | ok rate ↦ tax_rates_from read_short n (suc i) res (map_insert (first_byte tax_char) rate m)
  ]
]

module _ {C D : Type 0} ⦃q : Pqxx C D⦄ where
  -- A call of libpqxx that only changes the connection.
  unfoldable pub on_connection : (C → Answer C) → M C D (Unit {0})
  on_connection f w = elim (f w.conn) [
    | answer c ↦ done tt (record w { conn = c })
    | raise e ↦ stopped (to_fault e) w
  ]

  -- `work tx(C)`, `tx.commit()`, and the end of a transaction's scope.
  unfoldable pub begin : M C D (Unit {0})
  begin = on_connection q.begin

  unfoldable pub commit : M C D (Unit {0})
  commit = on_connection q.commit

  unfoldable pub finish : M C D (Unit {0})
  finish w = done tt (record w { conn = q.finish w.conn })

  unfoldable pub exec : Text → M C D Rows
  exec sql w = elim (q.exec sql w.conn) [
    | answer (rows, c) ↦ done rows (record w { conn = c })
    | raise e ↦ stopped (to_fault e) w
  ]

  unfoldable pub stock_size : M C D ℤ
  stock_size = do res ← exec count_sql; n ← lift (as_field q.as_long 0 0 res); return (to_int n)

  unfoldable pub product_exists : ℤ → M C D Bool
  product_exists code = do res ← exec (exists_sql code); lift (as_field q.as_bool 0 0 res)

  -- A round of the loop below, and the rounds behind it.
  unfoldable pub column_row : {A : Type 0} → Bool → Result A → M C D (List A) → M C D (List A)
  column_row false field rest = return []
  column_row true field rest = do a ← lift field; others ← rest; return (a ∷ others)

  -- `for (i = 0; i < stock_size(tx); i++) list.push_back(res[i][0].as<T>())`: the size is asked for
  -- again in each round. Behind the last row the conversion fails.
  unfoldable pub column_from : {A : Type 0} → (Text → Answer A) → ℕ → Rows → M C D (List A)
  column_from read i [] = do
    size ← stock_size
    if ltb_ℤ (pos i) size then throw pqxx_error else return []
  column_from read i (row ∷ rows) = do
    size ← stock_size
    column_row (ltb_ℤ (pos i) size) (as_field read 0 0 (row ∷ [])) (column_from read (suc i) rows)

  unfoldable pub code_list : M C D (List ℤ)
  code_list = do res ← exec codes_sql; column_from q.as_long 0 res

  unfoldable pub name_list : M C D (List Text)
  name_list = do res ← exec names_sql; column_from answer 0 res

  unfoldable pub erase : ℤ → M C D (Unit {0})
  erase code = do _ ← exec (erase_sql code); return tt

  -- The bound of the loop is `sizeof(res) / 8 - 1`, with the size of the object `res`, which is not
  -- the number of its rows.
  unfoldable pub get_tax_rates : ℕ → M C D (List (ℕ × ℤ))
  get_tax_rates sizeof_res = do
    res ← exec tax_rates_sql
    lift (tax_rates_from q.as_short (sizeof_res / 8 - 1) 0 res [])

module _ {C D : Type 0} ⦃d : Double D⦄ ⦃q : Pqxx C D⦄ where
  unfoldable pub get_product_data : ℤ → M C D (Product D)
  get_product_data code = do
    res ← exec (select_sql code)
    name ← lift (as_field answer 0 0 res)
    code' ← lift (as_field q.as_long 0 1 res)
    price ← lift (as_field q.as_double 0 2 res)
    discount ← lift (as_field q.as_short 0 3 res)
    tax ← lift (as_field answer 0 4 res)
    stock ← lift (as_field q.as_double 0 5 res)
    price_to_stock ← lift (as_field q.as_double 0 6 res)
    sold_by ← lift (as_field q.as_short 0 7 res)
    return (record {
      name = name;
      code = code';
      price = price;
      discount = discount;
      price_after_discount =
          d.sub price (d.mul (d.div price (d.of_int (pos 100))) (d.of_int discount));
      tax = first_byte tax;
      stock = stock;
      profit = d.sub price price_to_stock;
      price_to_stock = price_to_stock;
      sold_by = to_mesurments sold_by;
    })

  unfoldable pub update_stock : Product D → M C D (Unit {0})
  update_stock product = do
    found ← product_exists product.code
    _ ← exec (if found then update_sql product else insert_sql product)
    return tt
