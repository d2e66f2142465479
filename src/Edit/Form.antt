-- ===== src/Edit/Form.antt =====
-- add_modify_product of src/main.cpp, from the keys that answer its questions to the statement that it
-- sends.
use cli_pos.Shown.ProductCriteria
use cli_pos.Base.{ℕ, ◌+◌, ◌≡◌, refl, ◌∙◌, Bool, true, List, [], ◌∷◌, some, if◌then◌else◌}
use cli_pos.Base.Int.{ℤ, pos}
use cli_pos.Database.Query.{commit, update_stock, first_byte, product_exists}
use cli_pos.Database.Row.{RowTexts, Stocks, product-Stocks, field_lem}
use cli_pos.Database.Reads.{exec_lem}
use cli_pos.Database.Transaction.{commit_lem, sent_lem}
use cli_pos.Database.Statement.{exists_sql, update_sql, insert_sql}
use cli_pos.Edit.{Answers, or_return, make_product, move_option, ask_product, add_modify_product}
use cli_pos.Edit.Answer.{Answered, add_modify_criteria-Answered, waits}
use cli_pos.Edit.Choice.{choose_sold_by_keys}
use cli_pos.Fault.{answer, ok}
use cli_pos.Input.{remove_non_nr}
use cli_pos.Product.{Product, to_nat, to_mesurments}
use cli_pos.Table.Pair
use cli_pos.Text.{Text, to_string, stol}
use cli_pos.World.Double.{Double}
use cli_pos.World.Monad.{M, ◌>>=◌, ◌>>◌}
use cli_pos.World.Pick.{pick, chosen}
use cli_pos.World.Pqxx.{Pqxx, Rows}
use cli_pos.World.State.{
  World, Draw, done, max_code_length, max_price_length, max_product_quanity_length,
}

abbrev pub code_limit : ℤ
code_limit = pos (max_code_length + 1)

abbrev pub price_limit : ℤ
price_limit = pos max_price_length

abbrev pub stock_limit : ℤ
stock_limit = pos max_product_quanity_length

-- The keys answer the eight questions, one behind the other: what is shown at first are the fields of
-- `p`, if it is modified.
pub record IsFilled {D : Type 0} (d : Double D) (m : ℤ) (p : Product D) (modify : Bool)
    (a : Answers) (keys rest : List ℕ) : Type 0 where
  pub k₁ : List ℕ
  pub name : Answered m (if modify then p.name else []) keys a.name k₁
  pub k₂ : List ℕ
  pub code : Answered code_limit (if modify then to_string p.code else []) k₁ a.code k₂
  pub k₃ : List ℕ
  pub price : Answered price_limit (if modify then d.print p.price else []) k₂ a.price k₃
  pub k₄ : List ℕ
  pub discount : Answered (pos 2) (if modify then to_string p.discount else []) k₃ a.discount k₄
  pub k₅ : List ℕ
  pub tax : Answered (pos 3) (if modify then p.tax ∷ [] else []) k₄ a.tax k₅
  pub k₆ : List ℕ
  pub stock : Answered stock_limit (if modify then d.print p.stock else []) k₅ a.stock k₆
  pub k₇ : List ℕ
  pub price_to_stock :
      Answered price_limit (if modify then d.print p.price_to_stock else []) k₆ a.price_to_stock k₇
  pub sold_by : pick move_option true (to_nat p.sold_by) k₇ ≡ chosen a.sold_by rest

-- The product that the answers stand for, on the form of the product `current`: its numbers are read
-- from their digits, and its profit is the difference of the prices.
pub record IsMade {D : Type 0} (d : Double D) (current : Product D) (a : Answers) (p : Product D)
    : Type 0 where
  pub name : a.name ≡ p.name
  pub code : stol (remove_non_nr a.code) ≡ ok p.code
  pub price : d.stod (remove_non_nr a.price) ≡ answer p.price
  pub percent : D
  pub discount : d.stod (remove_non_nr a.discount) ≡ answer percent
  pub percent_is : d.truncate percent ≡ p.discount
  pub tax : first_byte a.tax ≡ p.tax
  pub stock : d.stod (remove_non_nr a.stock) ≡ answer p.stock
  pub price_to_stock : d.stod (remove_non_nr a.price_to_stock) ≡ answer p.price_to_stock
  pub profit : d.sub p.price p.price_to_stock ≡ p.profit
  pub sold_by : to_mesurments (pos a.sold_by) ≡ p.sold_by
  pub after : current.price_after_discount ≡ p.price_after_discount

-- What the server answers where the product is written: whether its code is in the table, and to UPDATE
-- or INSERT.
pub record IsStored {C D : Type 0} (d : Double D) (q : Pqxx C D) (p : Product D) (found : Bool)
    (c stored : C) : Type 0 where
  pub counted : Text
  pub counts : q.exec (exists_sql p.code) c ≡ answer ((some counted ∷ []) ∷ [], c)
  pub is_there : q.as_bool counted ≡ answer found
  pub rows : Rows
  pub sent : C
  pub writes :
      q.exec (if found then update_sql ⦃d = d⦄ p else insert_sql ⦃d = d⦄ p) c ≡ answer (rows, sent)
  pub commits : q.commit sent ≡ answer stored

module _ {C D : Type 0} ⦃d : Double D⦄ ⦃q : Pqxx C D⦄ where
  ask_product_lem :
      (rest : Answers → M C D (Unit {0})) (p : Product D) (modify : Bool) (a : Answers)
      (keys left : List ℕ) (w : World C D)
      → IsFilled d w.settings.max_name_length p modify a keys left
      → (scr : List Draw) × (ask_product p modify rest (record w { keys = keys })
          ≡ rest a (waits w left scr))
  unfolding ask_product or_return
  ask_product_lem rest p modify a keys left w f =
      let m = w.settings.max_name_length in
      let (s₁, e₁) =
        add_modify_criteria-Answered ProductCriteria.name p.name (pos 0) modify m w.screen w
          f.name in
      let (s₂, e₂) =
        add_modify_criteria-Answered ProductCriteria.code (to_string p.code) Pair.upc modify
          code_limit s₁ w f.code in
      let (s₃, e₃) =
        add_modify_criteria-Answered ProductCriteria.price (d.print p.price) Pair.money modify
          price_limit s₂ w f.price in
      let (s₄, e₄) =
        add_modify_criteria-Answered ProductCriteria.discount_long (to_string p.discount)
          Pair.discount modify (pos 2) s₃ w f.discount in
      let (s₅, e₅) =
        add_modify_criteria-Answered ProductCriteria.tax (p.tax ∷ []) Pair.tax modify (pos 3) s₄ w
          f.tax in
      let (s₆, e₆) =
        add_modify_criteria-Answered ProductCriteria.stock (d.print p.stock) Pair.stock_pair modify
          stock_limit s₅ w f.stock in
      let (s₇, e₇) =
        add_modify_criteria-Answered ProductCriteria.price_to_stock (d.print p.price_to_stock)
          Pair.pts modify price_limit s₆ w f.price_to_stock in
      let asked = choose_sold_by_keys (to_nat p.sold_by) (waits w f.k₇ s₇) in
      let (s₈, e₈) = rw f.sold_by at asked in (s₈, rw (e₁, e₂, e₃, e₄, e₅, e₆, e₇, e₈))

  made_lem :
      (current p : Product D) (a : Answers) (w : World C D)
      → IsMade d current a p
      → make_product current.price_after_discount a w ≡ done p w
  unfolding make_product
  made_lem current p a w i = rw (
    i.code, i.price, i.discount, i.stock, i.price_to_stock, i.name, i.percent_is, i.tax, i.profit,
    i.sold_by, i.after,
  )

  -- The product goes into the table, and the transaction is committed.
  abbrev written : Product D → M C D (Unit {0})
  written p = do update_stock p; commit

  written_lem :
      (p : Product D) (found : Bool) (stored : C) (w : World C D)
      → IsStored d q p found w.conn stored
      → written p w ≡ done tt (record w { conn = stored })
  unfolding update_stock product_exists
  written_lem p found stored w s =
      let w₁ = record w { conn = s.sent } in
      rw (
        exec_lem (exists_sql p.code) _ w s.counts,
        field_lem q.as_bool (some s.counted ∷ []) 0 s.counted found refl s.is_there,
        sent_lem (if found then update_sql p else insert_sql p) s.rows w s.sent s.writes,
        commit_lem w₁ stored s.commits,
      )

  -- Where the keys answer the eight questions about a product that the server sends, each with a line that
  -- has no comma in what is allowed of it, behind any number of lines that have one, and the numbers can
  -- be read from the answers, the product that they make is written: with UPDATE if the server finds its
  -- code in the table, otherwise with INSERT. It has the name, the tax and the way it is sold of the
  -- answers, the numbers that are read from theirs, and for its profit the difference of the prices; an
  -- empty answer counts as 1. Nothing else changes but the keys that are taken, the screen and the
  -- connection. It does so where the server takes the statement and the commit.
  pub add_modify_product_writes :
      (current p : Product D) (t : RowTexts) (modify found : Bool) (a : Answers) (left : List ℕ)
      (stored : C) (w : World C D)
      → Stocks d q current t w.conn
      → IsFilled d w.settings.max_name_length current modify a w.keys left
      → IsMade d current a p
      → IsStored d q p found w.conn stored
      → (scr : List Draw) × (add_modify_product current.code modify w
          ≡ done tt (record w { keys = left; screen = scr; conn = stored }))
  unfolding add_modify_product
  add_modify_product_writes current p t modify found a left stored w s f i writes =
      let write = λ (a : Answers). (do
        product ← make_product current.price_after_discount a
        update_stock product
        commit) in
      let (scr, asked) = ask_product_lem write current modify a w.keys left w f in
      let w₁ = waits w left scr in
      let made = made_lem current p a w₁ i in
      (
        scr,
        rw (product-Stocks current t w s).1
            (asked ∙ rw (made, written_lem p found stored w₁ writes)),
      )
