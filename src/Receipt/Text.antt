-- ===== src/Receipt/Text.antt =====
-- The bytes of a receipt.
use cli_pos.Shown.ProductCriteria
use cli_pos.Shown.Info
use cli_pos.Base.{ℕ, zero, suc, ◌+◌, [], ◌∷◌, ◌++◌, length, if◌then◌else◌}
use cli_pos.Base.Int.{ℤ, pos, ◌+ℤ◌, eq_ℤ}
use cli_pos.Product.{Product, sold_by_text}
use cli_pos.Text.{Text, codes, to_string}
use cli_pos.Words.{to_size, size_sub, to_int, count}
use cli_pos.World.Double.{Double}
use cli_pos.World.State.{Settings}

unfoldable pub repeat : ℕ → Text → Text
repeat zero t = []
repeat (suc n) t = t ++ repeat n t

unfoldable pub append_nr : ℤ → Text → Text
append_nr i t = repeat (count i) t

-- A difference in size_t that is handed over as an `int`.
abbrev pub int_sub : ℕ → ℕ → ℤ
int_sub a b = to_int (pos (size_sub a b))

abbrev pub esc : ℕ
esc = 27

-- "\x1b\x40": the printer starts afresh.
abbrev pub initialize : Text
initialize = esc ∷ b'@' ∷ []

-- The name of the shop in the middle. The literal "\x1b\x40\x1b\x61\x00" behind it is taken as a C
-- string, which ends before its last byte.
unfoldable pub receipt_head : {D : Type 0} → Settings D → Text
receipt_head s =
    (esc ∷ b'a' ∷ 1 ∷ [])
    ++ (s.shop_name
        ++ (codes "\n"
            ++ (s.shop_addres
                ++ (codes "\n"
                    ++ (Info.shop_code
                        ++ (s.shop_code
                            ++ (codes "\n\n\n" ++ (initialize ++ (esc ∷ b'a' ∷ [])))))))))

unfoldable pub rule : ℤ → Text
rule max_name_length = append_nr (max_name_length +ℤ pos 1) (codes "-") ++ codes "\n"

module _ {D : Type 0} ⦃d : Double D⦄ where
  -- "{0:.2f} x {1:.3f} {2:s} = {3:.2f}"
  unfoldable pub price_line : Product D → D → Text
  price_line p quantity =
      d.print_fixed 2 p.price
      ++ (codes " x "
          ++ (d.print_fixed 3 quantity
              ++ (codes " "
                  ++ (sold_by_text p.sold_by
                      ++ (codes " = " ++ d.print_fixed 2 (d.mul p.price quantity))))))

  unfoldable pub discount_line : Product D → D → Text
  discount_line p quantity =
      if eq_ℤ p.discount (pos 0)
      then []
      else ProductCriteria.discount_long
        ++ (codes " "
            ++ (to_string p.discount
                ++ (codes "%: -"
                    ++ (d.print_fixed 2 (
                          d.mul (d.mul (d.div p.price (d.of_int (pos 100))) (d.of_int p.discount))
                            quantity)
                        ++ codes "\n"))))

  unfoldable pub receipt_item : ℤ → Product D → D → Text
  receipt_item max_name_length p quantity =
      p.name
      ++ (append_nr (int_sub (length p.name) (to_size max_name_length)) (codes " ")
          ++ (codes "\n"
              ++ (codes "  "
                  ++ (price_line p quantity
                      ++ (append_nr
                            (int_sub (to_size max_name_length) (4 + length (price_line p quantity)))
                            (codes " ")
                          ++ ((p.tax ∷ [])
                              ++ (codes "\n"
                                  ++ (discount_line p quantity ++ rule max_name_length))))))))

  unfoldable pub receipt_end : ℤ → D → Text
  receipt_end nr_of_newlines total =
      (esc ∷ b'!' ∷ 32 ∷ [])
      ++ (Info.total
          ++ (codes ": "
              ++ (d.print_fixed 2 total
                  ++ (codes "\n" ++ (initialize ++ append_nr nr_of_newlines (codes "\n"))))))
