-- ===== src/Window.antt =====
-- The part of a list that is on the screen, and how the keys move it: the variables
-- visible_product_list, selection and indexed_selection of src/main.cpp.
pub mod Moves
pub mod Slice
pub mod Stale
use cli_pos.Base.{
  ℕ, zero, suc, ◌+◌, ◌-◌, ◌/◌, ◌^◌, ◌≡◌, refl, Bool, true, false, ◌&&◌, ◌||◌, not, List, [], ◌∷◌,
  Option, none, some, length, get_elem?, ◌==◌, ltb, leb, if◌then◌else◌,
}
use cli_pos.Base.Int.{ℤ, pos, negsuc, ◌+ℤ◌, ◌-ℤ◌, eq_ℤ, ltb_ℤ, sub_ℕ}
use cli_pos.Fault.{Result, ok, err, undefined}
use cli_pos.Words.{to_size}
use cli_pos.World.State.{View, Tab, products, basket, stock, message_section_lines}

abbrev pub one : ℤ
one = pos 1

abbrev pub is_zero : ℤ → Bool
is_zero a = eq_ℤ a (pos 0)

-- `a >= b`.
abbrev pub geb_ℤ : ℤ → ℤ → Bool
geb_ℤ a b = not (ltb_ℤ a b)

-- `a / 2` of an `int`, which rounds towards 0.
unfoldable pub half : ℤ → ℤ
half (pos n) = pos (n / 2)
half (negsuc n) = sub_ℕ 0 (suc n / 2)

-- max_products_nr: two lines of the screen for each product, one product less where the total is shown.
unfoldable pub max_products_nr : ℤ → Tab → ℤ
max_products_nr lines tab =
    let most = half (lines -ℤ pos 3 -ℤ pos message_section_lines) in
    elim tab [ basket ↦ most -ℤ one | _ ↦ most ]

-- The window's end, as calculate_visible_product_list sets it from the number of entries.
unfoldable pub set_stop : ℤ → ℤ → View → View
set_stop most size v =
    if geb_ℤ most size then record v { stop = size } else record v { stop = most +ℤ v.start }

-- `v[i]` of a std::vector at an integer.
unfoldable pub at {ℓ} : {A : Type ℓ} → List A → ℤ → Result A
at xs (pos n) = elim (get_elem? xs n) [ none ↦ err undefined | some a ↦ ok a ]
at xs (negsuc n) = err undefined

-- `for (i = start; i < start + n; i++) list.push_back(v[i])`.
unfoldable pub slice_from {ℓ} : {A : Type ℓ} → ℕ → List A → ℤ → Result (List A)
slice_from zero xs i = ok []
slice_from (suc n) xs i = elim (at xs i) [
  | err f ↦ err f
  | ok a ↦ elim (slice_from n xs (i +ℤ one)) [ err f ↦ err f | ok rest ↦ ok (a ∷ rest) ]
]

-- The rounds of a loop from `start` to `stop`.
abbrev pub rounds : ℤ → ℤ → ℕ
rounds start stop = elim (stop -ℤ start) [ pos n ↦ n | negsuc n ↦ 0 ]

unfoldable pub slice {ℓ} : {A : Type ℓ} → List A → View → Result (List A)
slice xs v = slice_from (rounds v.start v.stop) xs v.start

-- `list.size() - 1`, in a size_t.
abbrev pub last_index : ℕ → ℕ
last_index zero = 2 ^ 64 - 1
last_index (suc n) = n

abbrev pub shift : ℤ → View → View
shift by v = record v { start = v.start +ℤ by; stop = v.stop +ℤ by }

-- The top of the list, as after a change of the tab.
abbrev pub to_top : View → View
to_top v = record v { start = pos 0; indexed_selection = pos 0; selection = pos 0 }

-- The keys `w` and `s` move the window.
unfoldable pub scroll_up : View → View
scroll_up v = if is_zero v.start then v else shift (negsuc 0) v

unfoldable pub scroll_down : ℤ → View → View
scroll_down size v = if eq_ℤ v.stop size then v else shift one v

-- Up, or `k`: the selection moves, and at the top of a window that can go up, the window.
unfoldable pub select_up : View → View
select_up v = if is_zero v.selection then v else record v { selection = v.selection -ℤ one }

unfoldable pub roll_up : View → View
roll_up v =
    if not (is_zero v.start) && is_zero v.selection
    then record (shift (negsuc 0) v) { selection = v.selection +ℤ one }
    else v

unfoldable pub cursor_up : View → View
unfolding select_up roll_up
cursor_up v = roll_up (select_up v)

-- Down, or `j`, on a list of `shown` entries out of `size`. The comparisons with list.size() - 1 are
-- those of size_t.
unfoldable pub select_down : ℕ → ℤ → View → View
select_down shown size v =
    if ltb (to_size v.selection) (last_index shown) && ltb_ℤ v.indexed_selection size
    then record v { selection = v.selection +ℤ one }
    else v

unfoldable pub roll_down : ℕ → ℤ → View → View
roll_down shown size v =
    if not (eq_ℤ v.stop size) && to_size v.selection == last_index shown
    then record (shift one v) { selection = v.selection -ℤ one }
    else v

unfoldable pub cursor_down : ℕ → ℤ → View → View
unfolding select_down roll_down
cursor_down shown size v = roll_down shown size (select_down shown size v)

-- The key `R`, before it erases, where the selection stands at the window's end: it goes one up, and
-- the window with it. The test of the source is `int(…) < n <= n`, that is `(int(…) < n) <= n`, with
-- the two sizes that are asked for.
unfoldable pub roll_before_erase : ℤ → ℤ → ℤ → View → View
roll_before_erase lines size size' v =
    let most = half (lines -ℤ pos 3 -ℤ pos message_section_lines) in
    let below = if ltb_ℤ most size then pos 1 else pos 0 in
    let up = record v { selection = v.selection -ℤ one } in
    if geb_ℤ size' below then shift (negsuc 0) up else up

-- The key Tab.
unfoldable pub next_tab : Tab → Tab
next_tab basket = products
next_tab products = basket
next_tab stock = products

-- Behind a change of the tab a selection past the end of the new list goes to the top.
unfoldable pub reset_past : ℤ → ℤ → View → View
reset_past place size v = if geb_ℤ place size then to_top v else v
