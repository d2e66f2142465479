-- ===== src/Database/Row.antt =====
-- A product as a row of the table: get_product_data and product_exists of src/database_functions.cpp.
use cli_pos.Base.{ℕ, ◌≡◌, refl, true, List, [], ◌∷◌, some, get_elem?}
use cli_pos.Base.Int.{pos}
use cli_pos.Fault.{Answer, answer, ok}
use cli_pos.Product.{Product, to_nat, to_mesurments-to_nat}
use cli_pos.Text.{Text}
use cli_pos.World.Double.{Double}
use cli_pos.World.Pqxx.{Pqxx, Field, as_field}
use cli_pos.World.State.{World, done}
use cli_pos.Database.Statement.{exists_sql, select_sql}
use cli_pos.Database.Query.{first_byte, get_product_data, product_exists}
use cli_pos.Database.Reads.{exec_lem}

-- The fields of a row, as the server sends them.
pub record RowTexts : Type 0 where
  pub name : Text
  pub code : Text
  pub price : Text
  pub discount : Text
  pub tax : Text
  pub stock : Text
  pub price_to_stock : Text
  pub sold_by : Text

abbrev pub row_of : RowTexts → List Field
row_of t =
    some t.name
    ∷ some t.code
    ∷ some t.price
    ∷ some t.discount
    ∷ some t.tax
    ∷ some t.stock
    ∷ some t.price_to_stock
    ∷ some t.sold_by
    ∷ []

-- A connection to a table with the product `p`, whose fields the library reads from the row's texts; a
-- query leaves the connection as it is.
pub record Stocks {C D : Type 0} (d : Double D) (q : Pqxx C D) (p : Product D) (t : RowTexts)
    (c : C) : Type 0 where
  pub counted : Text
  pub counts : q.exec (exists_sql p.code) c ≡ answer ((some counted ∷ []) ∷ [], c)
  pub is_there : q.as_bool counted ≡ answer true
  pub selects : q.exec (select_sql p.code) c ≡ answer (row_of t ∷ [], c)
  pub name : t.name ≡ p.name
  pub code : q.as_long t.code ≡ answer p.code
  pub price : q.as_double t.price ≡ answer p.price
  pub discount : q.as_short t.discount ≡ answer p.discount
  pub tax : first_byte t.tax ≡ p.tax
  pub stock : q.as_double t.stock ≡ answer p.stock
  pub price_to_stock : q.as_double t.price_to_stock ≡ answer p.price_to_stock
  pub sold_by : q.as_short t.sold_by ≡ answer (pos (to_nat p.sold_by))
  pub profit : d.sub p.price p.price_to_stock ≡ p.profit
  pub price_after_discount :
      d.sub p.price (d.mul (d.div p.price (d.of_int (pos 100))) (d.of_int p.discount))
      ≡ p.price_after_discount

pub field_lem :
    {A : Type 0} (read : Text → Answer A) (row : List Field) (j : ℕ) (t : Text) (a : A)
    → get_elem? row j ≡ some (some t)
    → read t ≡ answer a
    → as_field read 0 j (row ∷ []) ≡ ok a
unfolding as_field
field_lem read row j t a e h = rw (e, as_field, h)

module _ {C D : Type 0} ⦃d : Double D⦄ ⦃q : Pqxx C D⦄ (p : Product D) (t : RowTexts) (w : World C D)
    (s : Stocks d q p t w.conn) where
  -- A product that stands in the table is found there, and read as it is; neither call changes anything.
  pub product-Stocks :
      (product_exists p.code w ≡ done true w) × (get_product_data p.code w ≡ done p w)
  unfolding product_exists get_product_data
  product-Stocks =
      let row = row_of t in
      (
        rw (
          exec_lem (exists_sql p.code) _ w s.counts,
          field_lem q.as_bool _ 0 s.counted true refl s.is_there,
        ),
        rw (
          exec_lem (select_sql p.code) _ w s.selects,
          field_lem answer row 0 t.name t.name refl refl,
          field_lem q.as_long row 1 t.code p.code refl s.code,
          field_lem q.as_double row 2 t.price p.price refl s.price,
          field_lem q.as_short row 3 t.discount p.discount refl s.discount,
          field_lem answer row 4 t.tax t.tax refl refl,
          field_lem q.as_double row 5 t.stock p.stock refl s.stock,
          field_lem q.as_double row 6 t.price_to_stock p.price_to_stock refl s.price_to_stock,
          field_lem q.as_short row 7 t.sold_by (pos (to_nat p.sold_by)) refl s.sold_by,
          s.name,
          s.tax,
          s.profit,
          s.price_after_discount,
          to_mesurments-to_nat p.sold_by,
        ),
      )
