-- ===== src/Main/Quit.antt =====
-- The key `q` of the loop of src/main.cpp.
use cli_pos.Shown.Errors
use cli_pos.Base.{
  ℕ, ◌^◌, ◌<◌, ◌≡◌, refl, true, List, ◌∷◌, none, ap, ◌∙◌, length, ◌==◌, if◌then◌else◌, Bool-cases,
  inl, inr,
}
use cli_pos.Base.Int.{ℤ, pos, ◌-ℤ◌}
use cli_pos.Database.Query.{finish}
use cli_pos.Database.Reads.{Serves}
use cli_pos.Fault.{answer, ok}
use cli_pos.Receipt.Copies.{Item, cart_of, AllStocked}
use cli_pos.Table.Head.{table_width}
use cli_pos.Table.Draws.{TotalFits}
use cli_pos.Table.Listed.{Listed, codes_listed, AllDrawable}
use cli_pos.Text.{Text}
use cli_pos.Window.{slice}
use cli_pos.Words.{to_size}
use cli_pos.World.Double.{Double}
use cli_pos.World.Pqxx.{Pqxx}
use cli_pos.World.Returns.{getch_lem}
use cli_pos.World.State.{World, Draw, done, printed, moved, message_x, message_dist_from_bottom}
use cli_pos.Main.Show.{columns_of, codes_of, show}
use cli_pos.Main.Keys.{Garbage, ask_quit}
use cli_pos.Main.Loop.{round, main_rounds, main_loop}
use cli_pos.Main.Round.{listed_on, view_of, total_of, loaded, AllServed, show_shows}

-- `q`, and `y` if there are products in the basket.
abbrev pub quit_keys : ℕ → List ℕ → List ℕ
quit_keys in_basket rest = b'q' ∷ (if in_basket == 0 then rest else b'y' ∷ rest)

module _ {C D : Type 0} where
  ask_quit_lem :
      (w : World C D) (rest : List ℕ)
      → w.keys ≡ (if length w.basket == 0 then rest else b'y' ∷ rest)
      → (scr : List Draw) × (ask_quit w ≡ done none (record w { keys = rest; screen = scr }))
  unfolding ask_quit
  ask_quit_lem w rest e = elim (Bool-cases (length w.basket == 0)) [
    | inl empty ↦
        let same : w.keys ≡ rest = e ∙ ap (λ b. if b then rest else b'y' ∷ rest) empty in
        (w.screen, rw empty (ap (λ keys. done none (record w { keys = keys })) same))
    | inr filled ↦
        let asked : List Draw =
          printed Errors.basket_not_empty
          ∷ moved (w.terminal.lines -ℤ pos message_dist_from_bottom) message_x
          ∷ w.screen in
        let typed : w.keys ≡ b'y' ∷ rest = e ∙ ap (λ b. if b then rest else b'y' ∷ rest) filled in
        (asked, rw (filled, getch_lem b'y' rest (record w { screen = asked }) typed) refl)
  ]

module _ {C D : Type 0} ⦃d : Double D⦄ ⦃q : Pqxx C D⦄ where
  -- A round whose list is shown, and in which the user leaves.
  pub round_quits :
      (g : Garbage) (rest : List ℕ) (lists : List ℤ × List ℤ) (w w₁ : World C D)
      → show w ≡ done lists w₁
      → w₁.keys ≡ quit_keys (length w₁.basket) rest
      → (scr : List Draw) × (round g w
          ≡ done true (record w₁ { keys = rest; screen = scr; conn = q.finish w₁.conn }))
  unfolding round finish
  round_quits g rest lists w w₁ shows k =
      let answers = if length w₁.basket == 0 then rest else b'y' ∷ rest in
      let (scr, quits) = ask_quit_lem (record w₁ { keys = answers }) rest refl in
      (scr, rw (shows, getch_lem b'q' answers w₁ k, quits) refl)

  -- On a table of fewer than 2^31 products that the server lists and sends, with products of the table in
  -- the basket, the key `q` ends main_loop, at once with an empty basket and behind a `y` otherwise.
  -- Exactly those keys are taken, however many follow; the total and the window are those that a round
  -- sets, the transaction of the round is committed and finished, and nothing else changes but the
  -- screen. It does so where the entries of the tab's list in the window are in range, each of them is a
  -- product that the server sends, with a name that fits the column, which is of less than 2^31, each
  -- quantity that is to be shown is in the basket, a total that is to be shown fits its line, and the
  -- server begins and commits the transaction.
  pub main_loop_quits :
      (g : Garbage) (rest : List ℕ) (names : List Text) (all shown : List (Listed D))
      (items : List (Item D)) (w : World C D) (opened committed : C)
      → let codes = codes_listed all in
        let columns = columns_of w.current_tab in
        let m = w.settings.max_name_length in
        let total = total_of (d.of_int (pos 0)) items in
        w.keys ≡ quit_keys (length w.basket) rest
        → q.begin w.conn ≡ answer opened
        → Serves q names codes opened
        → length codes < 2 ^ 31
        → AllServed d q all opened
        → w.basket ≡ cart_of items
        → AllStocked d q items opened
        → slice (listed_on w.current_tab codes (codes_of w.basket)) (view_of codes w)
          ≡ ok (codes_listed shown)
        → to_size m < 2 ^ 31
        → AllDrawable opened w.basket m columns shown
        → (columns.total ≡ true → TotalFits (table_width m columns) total)
        → q.commit opened ≡ answer committed
        → (scr : List Draw) × (main_loop g w
            ≡ done tt (record (loaded codes items w) {
              keys = rest;
              screen = scr;
              conn = q.finish committed;
            }))
  unfolding main_loop main_rounds
  main_loop_quits g rest names all shown items w opened committed k b s small h e st sl l dr t c =
      let (scr, shows) =
        show_shows names all shown items w opened committed b s small h e st sl l dr t c in
      let w₁ = record (loaded (codes_listed all) items w) { screen = scr; conn = committed } in
      let (scr', quits) = round_quits g rest (codes_listed all, codes_listed shown) w w₁ shows k in
      (scr', rw quits refl)
