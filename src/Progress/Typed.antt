-- ===== src/Progress/Typed.antt =====
-- The calls that wait for keys: get_string of src/input_string.cpp, selection_list of src/menus.cpp, and
-- the question how a product is sold, of src/main.cpp.
use cli_pos.Base.{
  ℕ, suc, ◌≤◌, ◌<◌, ◌%◌, Bool, true, List, [], ◌∷◌, Option, arith, length, ◌&&◌, ◌==◌, Bool-cases,
  inl, inr, if◌then◌else◌,
}
use cli_pos.Base.Int.{ℤ}
use cli_pos.Edit.{choose_sold_by, move_option}
use cli_pos.Edit.Choice.{choose_sold_by_keys}
use cli_pos.Input.{erased, typed, is_typed, get_string}
use cli_pos.Input.Line.{
  Line, entered, cancelled, pending, edit, line, limit_of, Reads, get_string-Reads,
}
use cli_pos.Menu.Data.{Menu}
use cli_pos.Menu.Pick.{selection_list-Picks}
use cli_pos.Menu.Select.{selection_list, move_selection}
use cli_pos.Text.{Text}
use cli_pos.World.Double.{Double}
use cli_pos.World.Monad.{key_enter, key_esc}
use cli_pos.World.Pick.{Pick, chosen, given_up, unanswered, pick, Picks}
use cli_pos.World.State.{World, BasketProduct, Outcome}
use cli_pos.Progress.Rules.{Left, Takes}

-- Fewer than `n` keys are left behind a line that has ended.
abbrev IsRead : ℕ → Line → Type 0
IsRead n (entered t rest) = length rest < n
IsRead n (cancelled rest) = length rest < n
IsRead n pending = Unit {0}

IsRead-suc : (n : ℕ) (l : Line) → IsRead n l → IsRead (suc n) l
IsRead-suc n (entered t rest) h = omega arith
IsRead-suc n (cancelled rest) h = omega arith
IsRead-suc n pending h = tt

edit-IsRead : (limit : ℤ) (s : Text) (keys : List ℕ) → IsRead (length keys) (edit limit s keys)
unfolding edit
edit-IsRead limit s [] = tt
edit-IsRead limit s (key ∷ keys) = elim (Bool-cases (key == key_enter)) [
  | inl enter ↦ rw (enter, edit) (omega arith)
  | inr other ↦ elim (Bool-cases (key == key_esc)) [
    | inl esc ↦ rw (other, edit, esc) (omega arith)
    | inr plain ↦
        rw (other, edit, plain)
          (IsRead-suc (length keys) (edit limit (typed key limit (erased key s)) keys)
            (edit-IsRead limit (typed key limit (erased key s)) keys))
  ]
]

line-IsRead : (m : ℤ) (s : Text) (keys : List ℕ) → IsRead (length keys) (line m s keys)
unfolding line
line-IsRead m [] keys = edit-IsRead (limit_of m) [] keys
line-IsRead m (c ∷ s) [] = tt
line-IsRead m (c ∷ s) (key ∷ keys) = elim (Bool-cases (key == key_enter)) [
  | inl enter ↦ rw (enter, line) (omega arith)
  | inr other ↦
      let first = if is_typed key then (key % 256) ∷ [] else [] in
      rw (other, line)
        (IsRead-suc (length keys) (edit (limit_of m) first keys)
          (edit-IsRead (limit_of m) first keys))
]

abbrev IsPicked : ℕ → Pick → Type 0
IsPicked n (chosen i rest) = length rest < n
IsPicked n (given_up rest) = length rest < n
IsPicked n unanswered = Unit {0}

IsPicked-suc : (n : ℕ) (p : Pick) → IsPicked n p → IsPicked (suc n) p
IsPicked-suc n (chosen i rest) h = omega arith
IsPicked-suc n (given_up rest) h = omega arith
IsPicked-suc n unanswered h = tt

pick-IsPicked :
    (step : ℕ → ℕ → ℕ) (can : Bool) (selection : ℕ) (keys : List ℕ)
    → IsPicked (length keys) (pick step can selection keys)
unfolding pick
pick-IsPicked step can selection [] = tt
pick-IsPicked step can selection (key ∷ keys) = elim (Bool-cases (key == key_enter)) [
  | inl enter ↦ rw (enter, pick) (omega arith)
  | inr other ↦ elim (Bool-cases ((key == key_esc) && can)) [
    | inl esc ↦ rw (other, pick, esc) (omega arith)
    | inr plain ↦
        rw (other, pick, plain)
          (IsPicked-suc (length keys) (pick step can (step key selection) keys)
            (pick-IsPicked step can (step key selection) keys))
  ]
]

module _ {D : Type 0} (I : List (BasketProduct D) → Type 0) {C : Type 0} where
  Reads-Left :
      (n : ℕ) (w : World C D) (l : Line) (o : Outcome C D (Option Text))
      → Reads w l o
      → IsRead (length w.keys) l
      → length w.keys ≤ n
      → I w.basket
      → Left I n o
  Reads-Left n w (entered t rest) o (scr, e) h le i = rw e (omega arith, i)
  Reads-Left n w (cancelled rest) o (scr, e) h le i = rw e (omega arith, i)
  Reads-Left n w pending o (scr, e) h le i = rw e ((λ x. cc), i)

  Picks-Left :
      (n : ℕ) (w : World C D) (p : Pick) (o : Outcome C D (Option ℕ))
      → Picks w p o
      → IsPicked (length w.keys) p
      → length w.keys ≤ n
      → I w.basket
      → Left I n o
  Picks-Left n w (chosen j rest) o (scr, e) h le i = rw e (omega arith, i)
  Picks-Left n w (given_up rest) o (scr, e) h le i = rw e (omega arith, i)
  Picks-Left n w unanswered o (scr, e) h le i = rw e ((λ x. cc), i)

module _ {D : Type 0} {I : List (BasketProduct D) → Type 0} {C : Type 0} {k : ℕ} where
  pub get_string-Takes :
      (show_text : Bool) (s : Text) (pair m : ℤ) → Takes I {C = C} k (get_string show_text s pair m)
  get_string-Takes show_text s pair m = record {
    left = λ n w h l i.
        Reads-Left I n w (line m s w.keys) _ (get_string-Reads show_text s pair m w)
          (line-IsRead m s w.keys) h i;
  }

  pub choose_sold_by-Takes : (selection : ℕ) → Takes I {C = C} k (choose_sold_by selection)
  choose_sold_by-Takes selection = record {
    left = λ n w h l i.
        Picks-Left I n w (pick move_option true selection w.keys) _
          (choose_sold_by_keys selection w) (pick-IsPicked move_option true selection w.keys) h i;
  }

  pub selection_list-Takes :
      ⦃d : Double D⦄ (menu : Menu) (selection : ℕ) (can : Bool) (space : ℕ)
      → Takes I {C = C} k (selection_list menu selection can space)
  selection_list-Takes menu selection can space = record {
    left = λ n w h l i.
        let step = move_selection (length menu.options) in
        Picks-Left I n w (pick step can selection w.keys) _
          (selection_list-Picks menu selection can space w)
          (pick-IsPicked step can selection w.keys) h i;
  }
