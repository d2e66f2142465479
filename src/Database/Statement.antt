-- ===== src/Database/Statement.antt =====
-- The texts of the statements, as the functions build them.
use cli_pos.Base.{◌≡◌, refl, [], ◌∷◌, ◌++◌}
use cli_pos.Base.Int.{ℤ, pos}
use cli_pos.Text.{Text, codes, to_string, print_nat}
use cli_pos.Product.{Product, to_nat}
use cli_pos.World.Double.{Double}

-- database.products_table and database.tax_rates_table.
unfoldable pub products_table : Text
products_table = codes "products"

unfoldable pub tax_rates_table : Text
tax_rates_table = codes "tax_rates"

unfoldable pub count_sql : Text
count_sql = codes "SELECT COUNT('code') FROM " ++ (products_table ++ codes ";")

unfoldable pub select_sql : ℤ → Text
select_sql code =
    codes "SELECT * FROM "
    ++ (products_table ++ (codes " WHERE code = " ++ (to_string code ++ codes ";")))

unfoldable pub exists_sql : ℤ → Text
exists_sql code =
    codes "SELECT COUNT(code) FROM "
    ++ (products_table ++ (codes " WHERE code = " ++ to_string code))

unfoldable pub codes_sql : Text
codes_sql = codes "SELECT code FROM " ++ (products_table ++ codes " ORDER BY name ASC")

unfoldable pub names_sql : Text
names_sql = codes "SELECT name FROM " ++ (products_table ++ codes " ORDER BY name ASC")

unfoldable pub erase_sql : ℤ → Text
erase_sql code =
    codes "DELETE FROM "
    ++ (products_table ++ (codes " WHERE code = " ++ (to_string code ++ codes ";")))

unfoldable pub tax_rates_sql : Text
tax_rates_sql = codes "SELECT * FROM " ++ (tax_rates_table ++ codes " ORDER BY tax_char ASC")

module _ {D : Type 0} ⦃d : Double D⦄ where
  unfoldable pub update_sql : Product D → Text
  update_sql product =
      codes "UPDATE "
      ++ (products_table
          ++ (codes " SET "
              ++ (codes "name = '"
                  ++ (product.name
                      ++ (codes "', "
                          ++ (codes "code = "
                              ++ (to_string product.code
                                  ++ (codes ", "
                                      ++ (codes "price = "
                                          ++ (d.print product.price
                                              ++ (codes ", "
                                                  ++ (codes "discount = "
                                                      ++ (to_string product.discount
                                                          ++ (codes ", "
                                                            ++ (codes "tax = '"
                                                            ++ ((product.tax ∷ [])
                                                            ++ (codes "', "
                                                            ++ (codes "stock = "
                                                            ++ (d.print product.stock
                                                            ++ (codes ", "
                                                            ++ (codes "price_to_stock = "
                                                            ++ (d.print product.price_to_stock
                                                            ++ (codes ", "
                                                            ++ (codes "sold_by = "
                                                            ++ (to_string
                                                            (pos (to_nat product.sold_by))
                                                            ++ (codes " WHERE code = "
                                                            ++ (to_string product.code
                                                            ++ codes ";")))))))))))))))))))))))))))

  unfoldable pub insert_sql : Product D → Text
  insert_sql product =
      codes "INSERT INTO "
      ++ (products_table
          ++ (codes "(name, code, price, discount, tax, stock, price_to_stock, sold_by) VALUES ('"
              ++ (product.name
                  ++ (codes "', "
                      ++ (to_string product.code
                          ++ (codes ", "
                              ++ (d.print product.price
                                  ++ (codes ", "
                                      ++ (to_string product.discount
                                          ++ (codes ", '"
                                              ++ ((product.tax ∷ [])
                                                  ++ (codes "', "
                                                      ++ (d.print product.stock
                                                          ++ (codes ", "
                                                            ++ (d.print product.price_to_stock
                                                            ++ (codes ", "
                                                            ++ (to_string
                                                            (pos (to_nat product.sold_by))
                                                            ++ codes ");")))))))))))))))))

select_runs : select_sql (pos 42) ≡ codes "SELECT * FROM products WHERE code = 42;"
unfolding select_sql products_table to_string print_nat
select_runs = refl
