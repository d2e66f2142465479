-- ===== src/Edit/Answer.antt =====
-- What a question of add_modify_product of src/main.cpp makes of the keys: add_modify_criteria with all
-- its rounds.
use cli_pos.Shown.Errors
use cli_pos.Shown.Info
use cli_pos.Base.{
  ℕ, zero, suc, ◌<◌, ◌≤◌, ◌≡◌, refl, ap, Bool, true, false, List, [], ◌∷◌, ◌++◌, Option, some,
  arith, length, take, ltb, ◌==◌, if◌then◌else◌, Bool-cases, inl, inr,
}
use cli_pos.Base.Int.{ℤ, pos, ◌-ℤ◌}
use cli_pos.Edit.{
  contains_comma, cut_output, refuse_commas, without_commas, take_criteria, ask_criteria,
  criteria_rounds, add_modify_criteria,
}
use cli_pos.Input.Line.{line, entered, get_string-Reads}
use cli_pos.Input.Left.{line_shorter}
use cli_pos.Table.Messages.{clear_messages-IsDrawing}
use cli_pos.Text.{Text, codes}
use cli_pos.Words.{to_size, to_short}
use cli_pos.World.State.{
  World, Draw, done, printed, moved, color_on, color_off, message_x, message_section_lines,
}
use cli_pos.World.Monad.{M, getch}

-- A key more, where a text is longer than the `n` bytes that are allowed.
abbrev pub cut_keys : ℕ → Text → ℕ → List ℕ → List ℕ
cut_keys n t key keys = if ltb n (length t) then key ∷ keys else keys

-- An empty answer stands for 1.
abbrev pub filled : Text → Text
filled t = if length t == 0 then codes "1" else t

-- The keys that answer a question with the limit `n` that shows `s`, the answer, and the keys that are
-- left: a line, with a key more where it is cut; and where it holds a comma, a key and the same again.
pub data Answered (n : ℤ) (s : Text) : List ℕ → Text → List ℕ → Type 0 where
  plain :
      {keys rest : List ℕ} (key : ℕ) (t : Text)
      → line (to_short n) s keys ≡ entered t (cut_keys (to_size n) t key rest)
      → contains_comma (take (to_size n) t) ≡ false
      → Answered n s keys (filled (take (to_size n) t)) rest
  again :
      {keys keys' rest : List ℕ} {answer : Text} (key pressed : ℕ) (t : Text)
      → line (to_short n) s keys ≡ entered t (cut_keys (to_size n) t key (pressed ∷ keys'))
      → contains_comma (take (to_size n) t) ≡ true
      → Answered n s keys' answer rest
      → Answered n s keys answer rest

filled_full : (t : Text) → (length (filled t) == 0) ≡ false
filled_full [] = refl
filled_full (c ∷ t) =
    let full : (suc (length t) == 0) ≡ false = ground arith in rw (full, full) refl

Answered-full :
    {n : ℤ} {s t : Text} {keys rest : List ℕ} → Answered n s keys t rest → (length t == 0) ≡ false
Answered-full {n = n} (plain key t e h) = filled_full (take (to_size n) t)
Answered-full (again key pressed t e h a) = Answered-full a

length-cut_keys :
    (n : ℕ) (t : Text) (key : ℕ) (keys : List ℕ) → length keys ≤ length (cut_keys n t key keys)
length-cut_keys n t key keys = elim (Bool-cases (ltb n (length t))) [
  | inl long ↦ rw long (omega arith)
  | inr fits ↦ rw fits (omega arith)
]

short_take : (n : ℕ) (s : Text) → ltb n (length s) ≡ false → take n s ≡ s
short_take zero [] h = refl
short_take zero (c ∷ s) h = ground (arith, h)
short_take (suc n) [] h = refl
short_take (suc n) (c ∷ s) h = ap (λ t. c ∷ t) (short_take n s (ground (arith, h)))

module _ {C D : Type 0} where
  -- The world with those keys to come and that screen.
  abbrev pub waits : World C D → List ℕ → List Draw → World C D
  waits w keys scr = record w { keys = keys; screen = scr }

  ask_lem :
      (criteria s : Text) (color n : ℤ) (keys : List ℕ) (t : Text) (rest : List ℕ) (scr : List Draw)
      (w : World C D)
      → line (to_short n) s keys ≡ entered t rest
      → (scr' : List Draw) × (ask_criteria criteria s color n (waits w keys scr)
          ≡ done (some t) (waits w rest scr'))
  unfolding ask_criteria
  ask_lem criteria s color n keys t rest scr w e =
      let (scr₀, cleared) = clear_messages-IsDrawing.drawn (waits w keys scr) in
      let scr₁ =
        printed (codes ": ")
        ∷ color_off color
        ∷ printed criteria
        ∷ color_on color
        ∷ printed (Info.product ++ codes " ")
        ∷ scr₀ in
      let r = get_string-Reads true s color (to_short n) (waits w keys scr₁) in
      let (scr₂, r') = rw e at r in (scr₂, rw (cleared, r'))

  cut_lem :
      (n : ℤ) (s : Text) (key : ℕ) (keys : List ℕ) (scr : List Draw) (w : World C D)
      → (scr' : List Draw) × (cut_output n s (waits w (cut_keys (to_size n) s key keys) scr)
          ≡ done (take (to_size n) s) (waits w keys scr'))
  unfolding cut_output getch
  cut_lem n s key keys scr w = elim (Bool-cases (ltb (to_size n) (length s))) [
    | inl long ↦ (printed (take (to_size n) s) ∷ scr, rw long)
    | inr fits ↦ (scr, rw (fits, short_take (to_size n) s fits))
  ]

  refuse_lem :
      (criteria : Text) (pressed : ℕ) (keys : List ℕ) (scr : List Draw) (w : World C D)
      → (scr' : List Draw) × (refuse_commas criteria (waits w (pressed ∷ keys) scr)
          ≡ done pressed (waits w keys scr'))
  unfolding refuse_commas getch
  refuse_lem criteria pressed keys scr w =
      let (scr₀, cleared) = clear_messages-IsDrawing.drawn (waits w (pressed ∷ keys) scr) in
      (
        printed (criteria ++ codes " " ++ Errors.no_commas)
            ∷ moved (w.terminal.lines -ℤ pos message_section_lines) message_x
            ∷ scr₀,
        rw cleared,
      )

  -- A line without a comma is the answer.
  plain_lem :
      (next : M C D (Option Text)) (criteria : Text) (n : ℤ) (t : Text) (key : ℕ) (keys : List ℕ)
      (scr : List Draw) (w : World C D)
      → contains_comma (take (to_size n) t) ≡ false
      → (scr' : List Draw) × (take_criteria next criteria n t
            (waits w (cut_keys (to_size n) t key keys) scr)
          ≡ done (some (filled (take (to_size n) t))) (waits w keys scr'))
  unfolding take_criteria without_commas
  plain_lem next criteria n t key keys scr w h =
      let (scr', c) = cut_lem n t key keys scr w in (scr', rw (c, h))

  -- Behind a line with a comma the next answer counts.
  again_lem :
      (next : M C D (Option Text)) (criteria : Text) (n : ℤ) (t answer : Text) (key pressed : ℕ)
      (keys rest : List ℕ) (scr : List Draw) (w : World C D)
      → contains_comma (take (to_size n) t) ≡ true
      → (length answer == 0) ≡ false
      → ((scr : List Draw)
          → (scr' : List Draw) × (next (waits w keys scr) ≡ done (some answer) (waits w rest scr')))
      → (scr' : List Draw) × (take_criteria next criteria n t
            (waits w (cut_keys (to_size n) t key (pressed ∷ keys)) scr)
          ≡ done (some answer) (waits w rest scr'))
  unfolding take_criteria without_commas
  again_lem next criteria n t answer key pressed keys rest scr w h full answers =
      let (scr₁, c) = cut_lem n t key (pressed ∷ keys) scr w in
      let (scr₂, r) = refuse_lem criteria pressed keys scr₁ w in
      let (scr₃, a) = answers scr₂ in (scr₃, rw (c, h, r, a, full))

  rounds_lem :
      (fuel : ℕ) (criteria s : Text) (color n : ℤ) {keys rest : List ℕ} {answer : Text}
      (scr : List Draw) (w : World C D)
      → length keys < fuel
      → Answered n s keys answer rest
      → (scr' : List Draw) × (criteria_rounds fuel criteria s color n (waits w keys scr)
          ≡ done (some answer) (waits w rest scr'))
  unfolding criteria_rounds
  rounds_lem zero criteria s color n scr w l a = elim l [ ]
  rounds_lem (suc fuel) criteria s color n {keys = keys} {rest = rest} scr w l (plain key t e h) =
      let next = criteria_rounds fuel criteria s color n in
      let left = cut_keys (to_size n) t key rest in
      let (scr₁, asked) = ask_lem criteria s color n keys t left scr w e in
      let (scr₂, taken) = plain_lem next criteria n t key rest scr₁ w h in (scr₂, rw (asked, taken))
  rounds_lem (suc fuel) criteria s color n {keys = keys} {rest = rest} scr w l
        (again {keys' = keys'} {answer = answer} key pressed t e h a) =
      let next = criteria_rounds fuel criteria s color n in
      let left = cut_keys (to_size n) t key (pressed ∷ keys') in
      let (scr₁, asked) = ask_lem criteria s color n keys t left scr w e in
      let shorter = line_shorter (to_short n) s keys t left e in
      let fewer = length-cut_keys (to_size n) t key (pressed ∷ keys') in
      let (scr₂, taken) =
        again_lem next criteria n t answer key pressed keys' rest scr₁ w h (Answered-full a)
          (λ scr'. rounds_lem fuel criteria s color n scr' w (omega (arith, shorter, fewer)) a) in
      (scr₂, rw (asked, taken))

  -- The question returns the answer that the keys make, behind any number of lines with a comma in
  -- them; nothing else changes but the keys that are taken and the screen.
  pub add_modify_criteria-Answered :
      (criteria s : Text) (color : ℤ) (modify : Bool) (n : ℤ) {keys rest : List ℕ} {answer : Text}
      (scr : List Draw) (w : World C D)
      → Answered n (if modify then s else []) keys answer rest
      → (scr' : List Draw) × (add_modify_criteria criteria s color modify n (waits w keys scr)
          ≡ done (some answer) (waits w rest scr'))
  unfolding add_modify_criteria
  add_modify_criteria-Answered criteria s color modify n {keys = keys} scr w a =
      rounds_lem (suc (length keys)) criteria (if modify then s else []) color n scr w (omega arith)
        a
