-- ===== src/Input/Left.antt =====
-- The keys that are left behind a line that get_string of src/input_string.cpp reads.
use cli_pos.Base.{
  ℕ, suc, ◌%◌, ◌<◌, ◌≡◌, List, [], ◌∷◌, arith, length, ◌==◌, if◌then◌else◌, Bool-cases, inl, inr,
}
use cli_pos.Base.Int.{ℤ}
use cli_pos.Input.{is_typed, typed, erased}
use cli_pos.Input.Line.{Line, line, limit_of, edit, entered, cancelled, pending}
use cli_pos.Text.{Text}
use cli_pos.World.Monad.{key_enter, key_esc}

-- Fewer than `n` keys are left behind a line.
abbrev Leaves : ℕ → Line → Type 0
Leaves n (entered t rest) = length rest < n
Leaves n (cancelled rest) = Unit {0}
Leaves n pending = Unit {0}

weaker : (n : ℕ) (r : Line) → Leaves n r → Leaves (suc n) r
weaker n (entered t rest) h = omega arith
weaker n (cancelled rest) h = tt
weaker n pending h = tt

edit-Leaves : (m : ℤ) (s : Text) (keys : List ℕ) → Leaves (length keys) (edit m s keys)
unfolding edit
edit-Leaves m s [] = tt
edit-Leaves m s (key ∷ keys) = elim (Bool-cases (key == key_enter)) [
  | inl enter ↦ rw (enter, edit) (omega arith)
  | inr other ↦ elim (Bool-cases (key == key_esc)) [
    | inl esc ↦ rw (other, edit, esc) tt
    | inr more ↦
        let s' = typed key m (erased key s) in
        rw (other, edit, more) (weaker (length keys) (edit m s' keys) (edit-Leaves m s' keys))
  ]
]

line-Leaves : (m : ℤ) (s : Text) (keys : List ℕ) → Leaves (length keys) (line m s keys)
unfolding line
line-Leaves m [] keys = edit-Leaves (limit_of m) [] keys
line-Leaves m (c ∷ s) [] = tt
line-Leaves m (c ∷ s) (key ∷ keys) = elim (Bool-cases (key == key_enter)) [
  | inl enter ↦ rw (enter, line) (omega arith)
  | inr other ↦
      let first = if is_typed key then (key % 256) ∷ [] else [] in
      rw (other, line)
        (weaker (length keys) (edit (limit_of m) first keys) (edit-Leaves (limit_of m) first keys))
]

-- A line takes a key at least.
pub line_shorter :
    (m : ℤ) (s : Text) (keys : List ℕ) (t : Text) (rest : List ℕ)
    → line m s keys ≡ entered t rest
    → length rest < length keys
line_shorter m s keys t rest e = let h = line-Leaves m s keys in rw e at h
