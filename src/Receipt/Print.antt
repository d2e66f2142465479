-- ===== src/Receipt/Print.antt =====
-- print_receipt.
use cli_pos.Shown.Errors
use cli_pos.Shown.Info
use cli_pos.Base.{
  ℕ, zero, suc, Bool, true, false, List, [], ◌∷◌, ◌++◌, length, ◌==◌, not, if◌then◌else◌,
}
use cli_pos.Base.Int.{ℤ}
use cli_pos.Database.Query.{get_product_data}
use cli_pos.Fault.{exhausted}
use cli_pos.Receipt.Text.{initialize, receipt_head, receipt_item, receipt_end, rule}
use cli_pos.Table.Head.{clear_messages}
use cli_pos.Text.{Text, codes}
use cli_pos.World.Double.{Double}
use cli_pos.World.Pqxx.{Pqxx}
use cli_pos.World.State.{BasketProduct, Settings, done}
use cli_pos.World.Monad.{M, ◌>>=◌, ◌>>◌, return, throw, printw, getch, with_world}

-- The device that is opened, whatever the setting printer_device_file says.
abbrev pub receipt_device : Text
receipt_device = codes "/dev/usb/lp3"

module _ {C D : Type 0} where
  -- A message at the bottom, until a key is pressed.
  unfoldable pub message : Text → M C D ℕ
  message t = do clear_messages; printw t; getch

  unfoldable pub write : Text → Text → M C D (Unit {0})
  write device bytes w = done tt (record w { printed = (device, bytes) ∷ w.printed })

module _ {C D : Type 0} ⦃d : Double D⦄ ⦃q : Pqxx C D⦄ where
  unfoldable pub receipt_items : ℤ → List (BasketProduct D) → M C D Text
  receipt_items max_name_length [] = return []
  receipt_items max_name_length (b ∷ basket) = do
    product ← get_product_data b.code
    rest ← receipt_items max_name_length basket
    return (receipt_item max_name_length product b.quantity ++ rest)

  unfoldable pub receipt_for : Settings D → List (BasketProduct D) → D → M C D Text
  receipt_for s basket total = do
    items ← receipt_items s.max_name_length basket
    return (
        initialize
        ++ (receipt_head s
            ++ (rule s.max_name_length ++ (items ++ receipt_end s.nr_of_newlines total))))

  unfoldable pub receipt : M C D Text
  receipt = with_world λ w. receipt_for w.settings w.basket w.total

  -- What the printer gets, the question behind it, and the round that a `y` calls for.
  unfoldable pub print_asked : M C D Bool → M C D Bool
  print_asked again = do
    bytes ← receipt
    write receipt_device bytes
    key ← message Info.reprint_receipt
    (if key == b'y' then again else return true)

  unfoldable pub print_round : M C D Bool → M C D Bool
  print_round again = with_world λ w.
      if length w.basket == 0
      then (do _ ← message Errors.no_items_in_basket; return false)
      else (if not (w.device receipt_device)
          then (do _ ← message Errors.receipt_printing; return false)
          else print_asked again)

  -- Each round takes a key, so the fuel is a bound on the keys.
  unfoldable pub print_rounds : ℕ → M C D Bool
  print_rounds zero = throw exhausted
  print_rounds (suc fuel) = print_round (print_rounds fuel)

  unfoldable pub print_receipt : M C D Bool
  print_receipt = with_world λ w. print_rounds (suc (length w.keys))
