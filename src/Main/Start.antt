-- ===== src/Main/Start.antt =====
-- The start and the end of the program: the connection, the colors, and main of src/main.cpp around its
-- loop.
use cli_pos.Shown.Errors
use cli_pos.Base.{ℕ, Bool, List, [], ◌∷◌, ◌++◌, ◌≡◌, refl, true, if◌then◌else◌}
use cli_pos.Base.Int.{ℤ, pos}
use cli_pos.Fault.{Result, ok, err, checked}
use cli_pos.Main.Color
use cli_pos.Main.Keys.{Garbage}
use cli_pos.Main.Loop.{main_loop}
use cli_pos.Main.Show.{set_tab, set_view}
use cli_pos.Menu.Run.{set_settings}
use cli_pos.Product.{Product, to_nat}
use cli_pos.Table.Pair
use cli_pos.Text.{Text, codes, to_string}
use cli_pos.Words.{to_short}
use cli_pos.World.Double.{Double}
use cli_pos.World.Pqxx.{Pqxx}
use cli_pos.World.State.{
  World, Terminal, Outcome, products, initial_settings, initialized, colors_started, unbuffered,
  keypad_on, unechoed, ended, color_made, pair_made,
}
use cli_pos.World.Monad.{M, ◌>>=◌, ◌>>◌, return, draw, printw, clear, getch, with_world}

-- `struct database`.
abbrev db_name : Text
db_name = codes "shop"

abbrev user : Text
user = codes "test"

abbrev password : Text
password = codes "test123"

abbrev hostaddr : Text
hostaddr = codes "192.168.0.163"

abbrev port : Text
port = codes "5432"

unfoldable pub conn_param : Text
conn_param =
    codes "dbname = "
    ++ (db_name
        ++ (codes " user = "
            ++ (user
                ++ (codes " password = "
                    ++ (password
                        ++ (codes " hostaddr = " ++ (hostaddr ++ (codes " port = " ++ port))))))))

conn_param_runs :
    conn_param
    ≡ codes "dbname = shop user = test password = test123 hostaddr = 192.168.0.163 port = 5432"
unfolding conn_param
conn_param_runs = refl

-- `connection C(conn_param)`, before main is called.
unfoldable pub open_connection : {C D : Type 0} → Pqxx C D → Result C
open_connection q = checked (q.connect conn_param)

abbrev pub init_pair : {C D : Type 0} → ℤ → ℤ → ℤ → M C D (Unit {0})
init_pair pair foreground background = draw (pair_made pair foreground background)

-- `(red / 255.0) * 1000.0`
abbrev per_mille : {D : Type 0} → ⦃d : Double D⦄ → ℤ → D
per_mille ⦃d⦄ channel = d.mul (d.div (d.of_int channel) (d.of_int (pos 255))) (d.of_int (pos 1000))

module _ {C D : Type 0} ⦃d : Double D⦄ where
  -- The green part goes through a float, the others through an int.
  unfoldable pub make_color : ℤ → ℤ → ℤ → ℤ → M C D (Unit {0})
  make_color color red green blue = draw (
      color_made color (to_short (d.truncate (per_mille red)))
        (d.truncate (d.to_float (per_mille green))) (to_short (d.truncate (per_mille blue))))

  unfoldable pub init_colors : M C D (Unit {0})
  init_colors = do
    init_pair Pair.white Color.white Color.black
    init_pair Pair.money Color.green Color.black
    init_pair Pair.upc Color.yellow Color.black
    init_pair Pair.qty Color.cyan Color.black
    init_pair Pair.discount Color.red Color.black
    make_color Color.orange (pos 240) (pos 107) (pos 12)
    init_pair Pair.tax Color.orange Color.black
    make_color Color.price (pos 109) (pos 245) (pos 91)
    init_pair Pair.profit Color.price Color.black
    init_pair Pair.pts Color.magenta Color.black
    make_color Color.stock (pos 133) (pos 26) (pos 7)
    init_pair Pair.stock_pair Color.stock Color.black
    make_color Color.real_black (pos 0) (pos 0) (pos 0)
    init_pair Pair.black Color.real_black Color.black
    init_pair Pair.selection Color.black Color.white

  -- Called by nothing. `%2f` prints six decimals, which are more than two characters.
  unfoldable pub print_product : Product D → M C D (Unit {0})
  print_product p = do
    printw (codes "NAME = " ++ (p.name ++ codes "\n"))
    printw (codes "CODE = " ++ (to_string p.code ++ codes "\n"))
    printw (codes "PRICE = " ++ (d.print p.price ++ codes "\n"))
    printw (codes "DISCOUNT = " ++ (to_string p.discount ++ codes "\n"))
    printw (codes "TAX = " ++ (p.tax ∷ codes "\n"))
    printw (codes "STOCK = " ++ (d.print p.stock ++ codes "\n"))
    printw (codes "PRICE TO STOCK = " ++ (d.print p.price_to_stock ++ codes "\n"))
    printw (codes "SOLD BY = " ++ (to_string (pos (to_nat p.sold_by)) ++ codes "\n"))

module _ {C D : Type 0} where
  -- On a terminal without colors the program says so, and waits for a key.
  unfoldable pub set_monochrome : M C D (Unit {0})
  set_monochrome = do
    printw Errors.terminal_no_color
    set_settings λ s. record s { monochrome_mode = true }
    _ ← getch
    clear

  unfoldable pub start_terminal : M C D (Unit {0})
  start_terminal = do
    draw initialized
    with_world λ w. if w.terminal.has_colors then draw colors_started else set_monochrome
    draw unbuffered
    draw keypad_on
    draw unechoed

module _ {C D : Type 0} ⦃d : Double D⦄ ⦃q : Pqxx C D⦄ where
  -- What follows the loop in main is never reached: it ends by `endwin(); return 0;`.
  unfoldable pub main : Garbage → M C D ℤ
  main g = do
    start_terminal
    init_colors
    set_view λ v. record v { selection = pos 0; indexed_selection = pos 0 }
    set_tab products
    main_loop g
    draw ended
    return (pos 0)

  -- The variables before main is called; `f` is the value of `test::f`.
  unfoldable pub initial_world : Terminal → List ℕ → (Text → Bool) → D → C → World C D
  initial_world terminal keys device f c = record {
    terminal = terminal;
    keys = keys;
    screen = [];
    conn = c;
    device = device;
    printed = [];
    settings = initial_settings f;
    basket = [];
    current_tab = products;
    view = record { start = pos 0; stop = pos 0; selection = pos 0; indexed_selection = pos 0 };
    total = d.of_int (pos 0);
  }

  -- The whole program: without a connection main is not called.
  unfoldable pub run_program :
      Garbage → Terminal → List ℕ → (Text → Bool) → D → Result (Outcome C D ℤ)
  run_program g terminal keys device f = elim (open_connection q) [
    | err e ↦ err e
    | ok c ↦ ok (main g (initial_world terminal keys device f c))
  ]
