-- ===== src/Menu/Route.antt =====
-- The ways through the menus of src/menus.cpp, and the keys that go them.
use mathlib.Core.Option.{some-injective}
use mathlib.Core.Path.{subst}
use cli_pos.Base.{
  sym, ℕ, zero, suc, ◌+◌, ◌<◌, ◌≤◌, ◌≡◌, refl, ap, ◌∙◌, true, List, [], ◌∷◌, some, length,
  get_elem?, arith,
}
use cli_pos.Menu.Data.{MenuName, MenuItem, ItemData, to_menu, menu_of, main_menu}
use cli_pos.Menu.Edits.{edited}
use cli_pos.Menu.Select.{move_selection}
use cli_pos.World.Double.{Double}
use cli_pos.World.Monad.{key_down, key_enter, key_esc}
use cli_pos.World.Pick.{chosen, given_up, pick}
use cli_pos.World.State.{Settings}

-- From a menu the places of the options lead to an item, each but the last to a menu below.
pub data Way : MenuName → List ℕ → ItemData → Type 0 where
  here :
      {m : MenuName} {i : ℕ} {item : MenuItem}
      → get_elem? (menu_of m).options i ≡ some item
      → Way m (i ∷ []) item.kind
  there :
      {m below : MenuName} {i : ℕ} {item : MenuItem} {path : List ℕ} {kind : ItemData}
      → get_elem? (menu_of m).options i ≡ some item
      → item.kind ≡ to_menu below
      → Way below path kind
      → Way m (i ∷ path) kind

-- Down as often as the place says.
abbrev pub downs : ℕ → List ℕ → List ℕ
downs zero rest = rest
downs (suc i) rest = key_down ∷ downs i rest

-- The keys that go the way from the first option of each menu.
abbrev pub way_keys : List ℕ → List ℕ → List ℕ
way_keys [] rest = rest
way_keys (i ∷ path) rest = downs i (key_enter ∷ way_keys path rest)

pub get_elem?-some :
    {A : Type 0} (xs : List A) (i : ℕ) (a : A) → get_elem? xs i ≡ some a → i < length xs
get_elem?-some [] i a e = cc
get_elem?-some (x ∷ xs) zero a e = omega arith
get_elem?-some (x ∷ xs) (suc i) a e = omega (arith, get_elem?-some xs i a e)

move_down : (n s : ℕ) → suc s < n → move_selection n key_down s ≡ suc s
unfolding move_selection
move_down n s h = ground arith

pub pick-downs :
    (n i s : ℕ) (rest : List ℕ)
    → s + i < n
    → pick (move_selection n) true s (downs i (key_enter ∷ rest)) ≡ chosen (s + i) rest
unfolding pick
pick-downs n zero s rest h = let same : s ≡ s + 0 = omega arith in ap (λ k. chosen k rest) same
pick-downs n (suc i) s rest h =
    let same : suc s + i ≡ s + suc i = omega arith in
    rw (move_down n s (omega arith))
      (pick-downs n i (suc s) rest (omega arith) ∙ ap (λ k. chosen k rest) same)

length-downs : (i : ℕ) (rest : List ℕ) → length rest ≤ length (downs i rest)
length-downs zero rest = omega arith
length-downs (suc i) rest = omega (arith, length-downs i rest)

-- The way has at least as many keys as menus.
pub length-way_keys : (path answers : List ℕ) → length path ≤ length (way_keys path answers)
length-way_keys [] answers = omega arith
length-way_keys (i ∷ path) answers =
    omega (arith, length-downs i (key_enter ∷ way_keys path answers), length-way_keys path answers)

pub pick_esc :
    (n s : ℕ) (rest : List ℕ) → pick (move_selection n) true s (key_esc ∷ rest) ≡ given_up rest
unfolding pick
pick_esc n s rest = refl

-- The main menu itself holds no variable.
pub no_variable :
    {D : Type 0}
    → ⦃d : Double D⦄ → (i : ℕ) (item : MenuItem) (s s' : Settings D) (keys rest : List ℕ)
    → get_elem? (menu_of main_menu).options i ≡ some item
    → ¬ (edited item.kind s keys ≡ some (s', rest))
unfolding menu_of
no_variable zero item s s' keys rest found e =
    let same = some-injective _ _ found in
    let e' = subst (λ x. edited x.kind s keys ≡ some (s', rest)) (sym same) e in cc
no_variable (suc zero) item s s' keys rest found e =
    let same = some-injective _ _ found in
    let e' = subst (λ x. edited x.kind s keys ≡ some (s', rest)) (sym same) e in cc
no_variable (suc (suc i)) item s s' keys rest found e = cc
