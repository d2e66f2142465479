-- ===== src/Edit/Modify.antt =====
-- add_modify_product of src/main.cpp, to the statement that it sends, where nothing is changed.
use cli_pos.Base.{ℕ, ◌≡◌, refl, true, List, [], ◌∷◌, take}
use cli_pos.Base.Int.{ℤ, pos}
use cli_pos.Database.Query.{first_byte}
use cli_pos.Database.Row.{RowTexts, Stocks}
use cli_pos.Database.Statement.{update_sql}
use cli_pos.Edit.{Answers, add_modify_product}
use cli_pos.Edit.Form.{
  code_limit, price_limit, stock_limit, IsFilled, IsMade, IsStored, add_modify_product_writes,
}
use cli_pos.Edit.Unchanged.{IsShown, accept, accept-Answered}
use cli_pos.Fault.{answer, ok}
use cli_pos.Input.{remove_non_nr}
use cli_pos.Product.{Product, to_nat, to_mesurments-to_nat}
use cli_pos.Text.{Text, to_string, stol}
use cli_pos.Words.{to_size}
use cli_pos.World.Double.{Double}
use cli_pos.World.Monad.{key_enter}
use cli_pos.World.Pick.{pick}
use cli_pos.World.Pqxx.{Pqxx, Rows}
use cli_pos.World.State.{World, Draw, done}

-- How much of a text is an answer, to a question with that limit.
abbrev pub shown : ℤ → Text → Text
shown n s = take (to_size n) s

-- Every text that is shown for the product may be an answer, and each number is read back from what is
-- shown of it.
pub record IsReadBack {D : Type 0} (d : Double D) (m : ℤ) (p : Product D) : Type 0 where
  pub name : IsShown (to_size m) p.name
  pub name_fits : shown m p.name ≡ p.name
  pub code : IsShown (to_size code_limit) (to_string p.code)
  pub code_reads : stol (remove_non_nr (shown code_limit (to_string p.code))) ≡ ok p.code
  pub price : IsShown (to_size price_limit) (d.print p.price)
  pub price_reads : d.stod (remove_non_nr (shown price_limit (d.print p.price))) ≡ answer p.price
  pub discount : IsShown (to_size (pos 2)) (to_string p.discount)
  pub percent : D
  pub discount_reads :
      d.stod (remove_non_nr (shown (pos 2) (to_string p.discount))) ≡ answer percent
  pub percent_is : d.truncate percent ≡ p.discount
  pub tax : IsShown (to_size (pos 3)) (p.tax ∷ [])
  pub stock : IsShown (to_size stock_limit) (d.print p.stock)
  pub stock_reads : d.stod (remove_non_nr (shown stock_limit (d.print p.stock))) ≡ answer p.stock
  pub price_to_stock : IsShown (to_size price_limit) (d.print p.price_to_stock)
  pub price_to_stock_reads :
      d.stod (remove_non_nr (shown price_limit (d.print p.price_to_stock)))
      ≡ answer p.price_to_stock

module _ {D : Type 0} ⦃d : Double D⦄ (m : ℤ) (p : Product D) where
  -- Enter on each of the eight questions, with `key` where a text is longer than the limit.
  abbrev pub enters : ℕ → List ℕ → List ℕ
  enters key rest = accept (to_size m) p.name key (
      accept (to_size code_limit) (to_string p.code) key (
        accept (to_size price_limit) (d.print p.price) key (
          accept (to_size (pos 2)) (to_string p.discount) key (
            accept (to_size (pos 3)) (p.tax ∷ []) key (
              accept (to_size stock_limit) (d.print p.stock) key (
                accept (to_size price_limit) (d.print p.price_to_stock) key (key_enter ∷ rest)))))))

  abbrev answers : Answers
  answers = record {
    name = shown m p.name;
    code = shown code_limit (to_string p.code);
    price = shown price_limit (d.print p.price);
    discount = shown (pos 2) (to_string p.discount);
    tax = shown (pos 3) (p.tax ∷ []);
    stock = shown stock_limit (d.print p.stock);
    price_to_stock = shown price_limit (d.print p.price_to_stock);
    sold_by = to_nat p.sold_by;
  }

  enters-IsFilled :
      (key : ℕ) (rest : List ℕ)
      → IsReadBack d m p
      → IsFilled d m p true answers (enters key rest) rest
  unfolding pick
  enters-IsFilled key rest r = record {
    k₁ = _;
    name = accept-Answered m p.name key _ r.name;
    k₂ = _;
    code = accept-Answered code_limit (to_string p.code) key _ r.code;
    k₃ = _;
    price = accept-Answered price_limit (d.print p.price) key _ r.price;
    k₄ = _;
    discount = accept-Answered (pos 2) (to_string p.discount) key _ r.discount;
    k₅ = _;
    tax = accept-Answered (pos 3) (p.tax ∷ []) key _ r.tax;
    k₆ = _;
    stock = accept-Answered stock_limit (d.print p.stock) key _ r.stock;
    k₇ = key_enter ∷ rest;
    price_to_stock =
        accept-Answered price_limit (d.print p.price_to_stock) key (key_enter ∷ rest)
          r.price_to_stock;
    sold_by = refl;
  }

  answers-IsMade :
      d.sub p.price p.price_to_stock ≡ p.profit → IsReadBack d m p → IsMade d p answers p
  unfolding first_byte
  answers-IsMade profit r = record {
    name = r.name_fits;
    code = r.code_reads;
    price = r.price_reads;
    percent = r.percent;
    discount = r.discount_reads;
    percent_is = r.percent_is;
    tax = refl;
    stock = r.stock_reads;
    price_to_stock = r.price_to_stock_reads;
    profit = profit;
    sold_by = to_mesurments-to_nat p.sold_by;
    after = refl;
  }

module _ {C D : Type 0} ⦃d : Double D⦄ ⦃q : Pqxx C D⦄ (p : Product D) (w : World C D)
    (r : IsReadBack d w.settings.max_name_length p) where
  -- Where a product of the table is modified, and each of the eight questions is answered by Enter, with
  -- a key more where the text that is shown is longer than the question allows, what the statement
  -- UPDATE writes is the product as it was: if its name fits the column, every text that is shown may be
  -- an answer, and each number is read back from what is shown of it. Nothing else changes but the keys
  -- that are taken, the screen and the connection.
  pub add_modify_product_keeps :
      (t : RowTexts) (rows : Rows) (sent stored : C) (key : ℕ) (rest : List ℕ)
      → w.keys ≡ enters w.settings.max_name_length p key rest
      → Stocks d q p t w.conn
      → q.exec (update_sql p) w.conn ≡ answer (rows, sent)
      → q.commit sent ≡ answer stored
      → (scr : List Draw) × (add_modify_product p.code true w
          ≡ done tt (record w { keys = rest; screen = scr; conn = stored }))
  add_modify_product_keeps t rows sent stored key rest e s updates commits =
      let m = w.settings.max_name_length in
      let filled : IsFilled d m p true (answers m p) w.keys rest =
        rw e (enters-IsFilled m p key rest r) in
      let updated : IsStored d q p true w.conn stored = record {
        counted = s.counted;
        counts = s.counts;
        is_there = s.is_there;
        rows = rows;
        sent = sent;
        writes = updates;
        commits = commits;
      } in
      add_modify_product_writes p p t true true (answers m p) rest stored w s filled
        (answers-IsMade m p s.profit r) updated
