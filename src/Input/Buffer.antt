-- ===== src/Input/Buffer.antt =====
-- The line that get_string of src/input_string.cpp reads, described as a stack of bytes.
use cli_pos.Base.{
  ℕ, zero, suc, Bool, ◌-◌, ◌%◌, ◌^◌, ◌≡◌, refl, ap, ◌∙◌, true, false, List, [], ◌∷◌, ◌++◌, arith,
  ◌==◌, ◌&&◌, ◌||◌, length, ltb, length-append, if◌then◌else◌, Bool-cases, inl, inr,
}
use cli_pos.Base.Int.{ℤ, pos, negsuc}
use cli_pos.Text.{Text, is_print}
use cli_pos.Words.{to_size}
use cli_pos.World.State.{World}
use cli_pos.World.Monad.{key_enter, key_esc, key_backspace, key_delete}
use cli_pos.Input.{pop_back, is_erase, erased, typed, get_string}
use cli_pos.Input.Line.{
  Line, entered, cancelled, pending, edit, line, limit_of, Reads, get_string-Reads,
}

-- The text of a stack: its last byte is on top.
abbrev unwound : List ℕ → Text
unwound [] = []
unwound (c ∷ stack) = unwound stack ++ (c ∷ [])

-- Backspace and Delete take the top away.
abbrev dropped : ℕ → List ℕ → List ℕ
dropped key [] = []
dropped key (c ∷ stack) = if key == key_backspace || key == key_delete then stack else c ∷ stack

-- A key whose low byte is printable puts that on top, while there is room.
abbrev pushed : ℕ → ℕ → List ℕ → List ℕ
pushed room key stack =
    if is_print (key % 256) && ltb (length stack) room then (key % 256) ∷ stack else stack

unfoldable pub stack_line : ℕ → List ℕ → List ℕ → Line
stack_line room stack [] = pending
stack_line room stack (key ∷ keys) = elim (key == key_enter) [
  | true ↦ entered (unwound stack) keys
  | false ↦ elim (key == key_esc) [
    | true ↦ cancelled keys
    | false ↦ stack_line room (pushed room key (dropped key stack)) keys
  ]
]

-- How many bytes a limit allows, as `size_t`: 0 stands for no limit.
abbrev room_of : ℤ → ℕ
room_of (pos zero) = 2 ^ 64 - 1
room_of (pos (suc n)) = suc n
room_of (negsuc n) = 2 ^ 64 - 1 - n

-- With a text shown, Enter takes it as it is, and any other key starts a new one.
unfoldable pub read_line : ℤ → Text → List ℕ → Line
unfolding stack_line
read_line limit [] keys = stack_line (room_of limit) [] keys
read_line limit (c ∷ s) [] = pending
read_line limit (c ∷ s) (key ∷ keys) = elim (key == key_enter) [
  | true ↦ entered (c ∷ s) keys
  | false ↦ stack_line (room_of limit) (if is_print (key % 256) then (key % 256) ∷ [] else []) keys
]

length-unwound : (stack : List ℕ) → length (unwound stack) ≡ length stack
length-unwound [] = refl
length-unwound (c ∷ stack) =
    omega (arith, length-append (unwound stack) (c ∷ []), length-unwound stack)

pop_back-snoc : (s : Text) (c : ℕ) → pop_back (s ++ (c ∷ [])) ≡ s
unfolding pop_back
pop_back-snoc [] c = refl
pop_back-snoc (b ∷ []) c = refl
pop_back-snoc (a ∷ b ∷ s) c = ap (λ t. a ∷ t) (pop_back-snoc (b ∷ s) c)

erased-unwound :
    (key : ℕ) (stack : List ℕ) → erased key (unwound stack) ≡ unwound (dropped key stack)
unfolding erased pop_back
erased-unwound key [] = elim (Bool-cases (is_erase key)) [ inl e ↦ rw e refl | inr e ↦ rw e refl ]
erased-unwound key (c ∷ stack) = elim (Bool-cases (is_erase key)) [
  | inl e ↦ rw e (pop_back-snoc (unwound stack) c)
  | inr e ↦ rw e refl
]

typed-unwound :
    (key : ℕ) (m : ℤ) (stack : List ℕ)
    → typed key m (unwound stack) ≡ unwound (pushed (to_size m) key stack)
unfolding typed
typed-unwound key m stack =
    rw (length-unwound stack)
      (elim (Bool-cases (is_print (key % 256) && ltb (length stack) (to_size m))) [
        | inl e ↦ rw e refl
        | inr e ↦ rw e refl
      ])

room_lem : (m : ℤ) → to_size (limit_of m) ≡ room_of m
room_lem (pos zero) = refl
room_lem (pos (suc n)) = refl
room_lem (negsuc n) = refl

erased_enter : (key : ℕ) (s : Text) → (key == key_enter) ≡ true → erased key s ≡ s
unfolding erased
erased_enter key s e = let kept : is_erase key ≡ false = ground (arith, e) in rw kept refl

edit-stack_line :
    (m : ℤ) (stack : List ℕ) (keys : List ℕ)
    → edit m (unwound stack) keys ≡ stack_line (to_size m) stack keys
unfolding edit stack_line
edit-stack_line m stack [] = refl
edit-stack_line m stack (key ∷ keys) = elim (Bool-cases (key == key_enter)) [
  | inl enter ↦
      rw (enter, edit, stack_line)
        (ap (λ t. entered t keys) (erased_enter key (unwound stack) enter))
  | inr other ↦ elim (Bool-cases (key == key_esc)) [
    | inl esc ↦ rw (other, edit, esc, stack_line) refl
    | inr more ↦
        let stack' = pushed (to_size m) key (dropped key stack) in
        let same =
          ap (typed key m) (erased-unwound key stack) ∙ typed-unwound key m (dropped key stack) in
        rw (other, edit, more, stack_line)
          (ap (λ s. edit m s keys) same ∙ edit-stack_line m stack' keys)
  ]
]

line-read_line : (m : ℤ) (s : Text) (keys : List ℕ) → line m s keys ≡ read_line m s keys
unfolding line read_line
line-read_line m [] keys =
    edit-stack_line (limit_of m) [] keys ∙ ap (λ n. stack_line n [] keys) (room_lem m)
line-read_line m (c ∷ s) [] = refl
line-read_line m (c ∷ s) (key ∷ keys) = elim (Bool-cases (key == key_enter)) [
  | inl enter ↦ rw (enter, line, read_line) refl
  | inr other ↦
      rw (other, line, read_line)
        (elim (Bool-cases (is_print (key % 256))) [
          | inl print ↦ rw print (
              edit-stack_line (limit_of m) ((key % 256) ∷ []) keys
              ∙ ap (λ n. stack_line n ((key % 256) ∷ []) keys) (room_lem m))
          | inr skip ↦
              rw skip
                (edit-stack_line (limit_of m) [] keys ∙ ap (λ n. stack_line n [] keys) (room_lem m))
        ])
]

module _ {C D : Type 0} where
  -- get_string returns the line that the keys make on a stack of bytes, from the text shown at first and
  -- the limit; it takes the keys of that line, draws, and changes nothing else. Where no key ends the line
  -- it waits for more.
  pub get_string-read_line :
      (show_text : Bool) (s : Text) (pair m : ℤ) (w : World C D)
      → Reads w (read_line m s w.keys) (get_string show_text s pair m w)
  get_string-read_line show_text s pair m w =
      let r = get_string-Reads show_text s pair m w in rw (line-read_line m s w.keys) at r
