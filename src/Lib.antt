-- ===== src/Lib.antt =====
-- cli_pos, a point of sale program for the terminal: a cashier picks or scans products into a basket,
-- prints a receipt, and keeps the stock, which stands in a PostgreSQL database.
--
-- The parts of the program and the files that model them (paths from the repository's root):
--
--   Search    src/binary_search.cpp: compare_string, bubble_sort, binary_search
--   Input     src/input_string.cpp: get_string, remove_non_nr
--   Product   struct product and enum mesurments (src/h_files/definitions_and_variables.h), and
--             to_mesurments of src/database_functions.cpp
--   Database  src/database_functions.cpp: the statements (Database/Statement) and the functions that
--             send them (Database/Query)
--   Basket    src/main.cpp: add_product_to_basket, and what the key `R` does to the basket
--   Window    src/main.cpp: visible_product_list, selection and indexed_selection, and the keys that
--             move them
--   Table     src/main.cpp: draw_product_list and what it calls, clear_messages
--   Drawing   src/drawing_functions.cpp: draw_product_list, an older copy that the build leaves out
--             (Drawing/Same compares it with the one of src/main.cpp)
--   Receipt   src/main.cpp: append_nr, print_receipt
--   Edit      src/main.cpp: add_modify_criteria, add_modify_product
--   Menu      src/menus.cpp: the menus (Menu/Data), selection_list and dropdown (Menu/Select), run_menu
--             start_main_menu and test_menu (Menu/Run)
--   Main      src/main.cpp: calculate_visible_product_list and the drawing part of a round (Main/Show),
--             the keys (Main/Keys), the loop (Main/Loop), and the start and the end of the program:
--             the connection, the colors, print_product and main (Main/Start, Main/Color)
--   Sale      a whole sale, through the loop of src/main.cpp: the products that are entered (Sale/Goods),
--             what is shown (Sale/Till), the rounds (Sale/Rounds, Entered, Checkout), and all of it
--             (Sale/Run); and a sale behind a change of a product (Sale/Update, Updated)
--   World     the global variables (src/definitions_and_variables.cpp, src/h_files/shop_data.h), the
--             terminal, the printer and the connection, and the calls that change them
--   Shown     src/h_files/text.h: the texts that the program prints, a module per struct
--   Base, Text, Words, Fault    numbers and lists, std::string and its conversions, the machine's
--             integers, and the ways in which a call can end without a result
--   Tests     runs at concrete inputs
--
-- Below a part's definitions stand the modules on its theorems: Search/Order, Loop, Find, Prefix
-- and Sort; Input/Line, Left, Bound, Buffer, Digits and RoundTrip; Basket/Quantity, Remove, Distinct
-- and Abstract; Window/Moves, Slice and Stale; Database/Reads, Row and Transaction; Table/Layout,
-- Messages, Draws and Listed; Receipt/Copies; Edit/Answer, Choice, Criteria, Form, Unchanged and
-- Modify; Menu/Pick, Edits, Route and Way; Main/Lookup, Found, Typed, Scan, Enter, Cursor, Change,
-- Checkout, Remove, Round, Dispatch, Session and Quit. World/Drawing, World/Pick and World/Returns
-- hold what the calls that draw, read keys and return share. Progress is about all calls at once:
-- Progress/Rules says of a call that it adds no keys, uses up no bound on the rounds of a loop, and
-- keeps a property of the basket; Progress/Calls has a rule for each way to put calls together, and
-- the modules below it, from Results to Program, apply the rules to each part. Progress/While has
-- the loop of main as a relation without a bound.
--
-- How the parts interact: a call of the program is a function from a World to an Outcome (World/Monad).
-- An outcome is a value with the world that the call leaves, or the fault that stopped it: nothing in
-- the program catches an exception, so a fault ends it. A round of the loop (Main/Loop) loads the codes
-- from the database, computes the part of the list that is on the screen from the window, draws it,
-- takes a key, and runs the handler of the key; the handlers read lines (Input), ask for a product
-- (Edit), put products into the basket (Basket), move the window (Window), search (Search), print
-- (Receipt) and open the menu (Menu).
--
-- State: World holds the keys to come (what getch will return), what was drawn and written to the
-- printer, the state of the connection, the settings, the basket, the tab, the window and the total.
-- A variable that the program reads before it sets it is an argument of the definition that reads it
-- (Main/Keys has them in a record), so a theorem holds for every value of it.
--
-- Numbers: `int`, `short int` and `long int` are integers, `size_t` numbers below 2^64; the
-- conversions between them wrap round where the source converts (Words), and a counter that would
-- overflow is the fault `undefined`, as is a vector that is read or erased past its end: so the
-- menu ends in that fault when a submenu is left. Sums of `int` that stay far below the bounds of
-- the type (coordinates, widths) are taken as exact. A character is a byte. A `double` is a type
-- with the operations of World/Double; no law of them is assumed, and a theorem that needs one has
-- it as a hypothesis.
--
-- Bounds: loops over lists are recursion on the list. binary_search has as many rounds as the range
-- has entries and one more, as a round leaves fewer of them to look at; the range is that of the
-- `int` that the vector's size is converted to. The loops that read keys have as many rounds as
-- there are keys, and one that finds none: each round takes a key, and with none left it waits (the
-- fault `waiting`). The menu has one more, in which it finds that it is to end. bubble_sort has no
-- such bound, so its definition takes one as an argument.
--
-- Not modelled: libpqxx and the server (a parameter, World/Pqxx), and ncurses (World/State keeps what is
-- drawn; where the cursor stands and whether there are colors are parameters). The functions of
-- src/drawing_functions.cpp but for draw_product_list are those of src/main.cpp word for word, and have
-- the same definitions.
pub mod Base
pub mod Fault
pub mod Text
pub mod Words
pub mod Shown
pub mod World
pub mod Search
pub mod Input
pub mod Product
pub mod Basket
pub mod Window
pub mod Table
pub mod Drawing
pub mod Receipt
pub mod Edit
pub mod Menu
pub mod Main
pub mod Sale
pub mod Progress
pub mod Database
pub mod Tests
