-- ===== src/Drawing/Same.antt =====
-- The two versions of draw_product_list.
use cli_pos.Base.{ℕ, zero, suc, ◌≡◌, refl, sym, ap, ◌∙◌, Bool, true, false, List, if◌then◌else◌}
use cli_pos.Base.Int.{ℤ}
use cli_pos.Database.Query.{commit, finish}
use cli_pos.Database.Transaction.{begin_lem}
use cli_pos.Fault.{answer}
use cli_pos.Table.Head.{
  Columns, table_width, print_colored, print_table_head_section, section, draw_head,
}
use cli_pos.Table.Row.{draw_rows, draw_total}
use cli_pos.Table.Row
use cli_pos.Table.Draws.{draw_head-IsDrawing}
use cli_pos.Text.{Text}
use cli_pos.World.Double.{Double}
use cli_pos.World.Monad.{M, ◌>>◌, and_then, return, when, draw, print_times, with_world}
use cli_pos.World.Pqxx.{Pqxx}
use cli_pos.World.Sequence.{and_then_assoc}
use cli_pos.World.State.{World, Outcome, Draw, Tab, done, stopped}
use cli_pos.Drawing

-- The same end with another connection.
abbrev with_conn : {C D A : Type 0} → C → Outcome C D A → Outcome C D A
with_conn c (done a w) = done a (record w { conn = c })
with_conn c (stopped f w) = stopped f (record w { conn = c })

module _ {C D : Type 0} where
  -- The call does not look at the connection.
  pub record IsBlind (m : M C D (Unit {0})) : Type 0 where
    pub blind : (c : C) (w : World C D) → m (record w { conn = c }) ≡ with_conn c (m w)

  and_then-with_conn :
      (c : C) (o : Outcome C D (Unit {0})) (m : M C D (Unit {0}))
      → IsBlind m
      → and_then (with_conn c o) (λ _. m) ≡ with_conn c (and_then o (λ _. m))
  and_then-with_conn c (done a w) m p = p.blind c w
  and_then-with_conn c (stopped f w) m p = refl

  seq-IsBlind : {m m' : M C D (Unit {0})} → IsBlind m → IsBlind m' → IsBlind (m >> m')
  seq-IsBlind {m} {m'} p q = record {
    blind = λ c w. rw (p.blind c w) (and_then-with_conn c (m w) m' q);
  }

  draw-IsBlind : (x : Draw) → IsBlind (draw x)
  draw-IsBlind x = record { blind = λ c w. refl }

  return-IsBlind : IsBlind (return tt)
  return-IsBlind = record { blind = λ c w. refl }

  if-IsBlind :
      {m m' : M C D (Unit {0})} (b : Bool) → IsBlind m → IsBlind m' → IsBlind (if b then m else m')
  if-IsBlind true p q = p
  if-IsBlind false p q = q

  print_times-IsBlind : (n : ℕ) (t : Text) → IsBlind (print_times n t)
  unfolding print_times
  print_times-IsBlind zero t = return-IsBlind
  print_times-IsBlind (suc n) t = seq-IsBlind (draw-IsBlind _) (print_times-IsBlind n t)

  -- What is done may depend on the rest of the world.
  with_world-IsBlind :
      {g : World C D → M C D (Unit {0})}
      → ((c : C) (w : World C D) → g (record w { conn = c }) ≡ g w)
      → ((w : World C D) → IsBlind (g w))
      → IsBlind (with_world g)
  with_world-IsBlind same p = record {
    blind = λ c w. ap (λ m. m (record w { conn = c })) (same c w) ∙ (p w).blind c w;
  }

ruleset blind = (seq-IsBlind, draw-IsBlind, return-IsBlind, if-IsBlind, print_times-IsBlind)

module _ {C D : Type 0} where
  print_colored-IsBlind : (color : ℤ) (t : Text) → IsBlind {C = C} {D = D} (print_colored color t)
  unfolding print_colored
  print_colored-IsBlind color t = search (blind, with_world-IsBlind) depth 12

  head_section-IsBlind :
      (name : Text) (size color : ℤ)
      → IsBlind {C = C} {D = D} (print_table_head_section name size color)
  unfolding print_table_head_section
  head_section-IsBlind name size color = search (blind, print_colored-IsBlind) depth 9

  section-IsBlind :
      (b : Bool) (name : Text) (size color : ℤ)
      → IsBlind {C = C} {D = D} (section b name size color)
  section-IsBlind true name size color = head_section-IsBlind name size color
  section-IsBlind false name size color = return-IsBlind

  draw_head-IsBlind : (tab : Tab) (c : Columns) → IsBlind {C = C} {D = D} (draw_head tab c)
  unfolding draw_head
  draw_head-IsBlind tab c = search (blind, section-IsBlind, with_world-IsBlind) depth 30

module _ {C D : Type 0} ⦃d : Double D⦄ ⦃q : Pqxx C D⦄ where
  -- Where the server opens a transaction, the older draw_product_list does, behind its start, what the one
  -- of main does with that transaction, and then commits it, whatever the products and the columns.
  pub draw_product_list-commits :
      (list : List ℤ) (selection : ℤ) (c : Columns) (total : D) (w : World C D) (opened : C)
      → q.begin w.conn ≡ answer opened
      → Drawing.draw_product_list list selection c total w
        ≡ (Row.draw_product_list list selection c total >> (commit >> finish))
            (record w { conn = opened })
  unfolding Drawing.draw_product_list Row.draw_product_list
  draw_product_list-commits list selection c total w opened b =
      let (scr, drawn) = (draw_head-IsDrawing w.current_tab c).drawn w in
      let m = w.settings.max_name_length in
      let w₁ = record w { screen = scr; conn = opened } in
      let seen = (draw_head-IsBlind w.current_tab c).blind opened w ∙ ap (with_conn opened) drawn in
      rw (drawn, begin_lem (record w { screen = scr }) opened b, seen)
        (sym (
          and_then_assoc (draw_rows 0 selection m c list w₁)
            (λ _. when c.total (draw_total (table_width m c) total)) (λ _. commit >> finish)))
