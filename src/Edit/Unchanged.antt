-- ===== src/Edit/Unchanged.antt =====
-- add_modify_product of src/main.cpp on a product whose questions are all answered with Enter.
use cli_pos.Base.{ℕ, zero, suc, ◌<◌, ◌≡◌, refl, false, List, [], ◌∷◌, arith, length, take, ◌==◌}
use cli_pos.Base.Int.{ℤ}
use cli_pos.Edit.{contains_comma}
use cli_pos.Edit.Answer.{Answered, plain, cut_keys, filled}
use cli_pos.Input.Line.{line, entered}
use cli_pos.Text.{Text}
use cli_pos.Words.{to_size, to_short}
use cli_pos.World.Monad.{key_enter}

-- Enter, and a key more where the text that is shown is longer than the `n` bytes that are allowed.
abbrev pub accept : ℕ → Text → ℕ → List ℕ → List ℕ
accept n s key keys = key_enter ∷ cut_keys n s key keys

-- A text that may be an answer as it is shown, as far as it is allowed.
abbrev pub IsShown : ℕ → Text → Type 0
IsShown n s = (contains_comma (take n s) ≡ false) × (0 < length (take n s))

line_enter :
    (m : ℤ) (s : Text) (keys : List ℕ) → 0 < length s → line m s (key_enter ∷ keys) ≡ entered s keys
unfolding line
line_enter m [] keys h = elim h [ ]
line_enter m (c ∷ s) keys h = refl

full_take : (n : ℕ) (s : Text) → 0 < length (take n s) → 0 < length s
full_take zero s h = elim h [ ]
full_take (suc n) [] h = elim h [ ]
full_take (suc n) (c ∷ s) h = omega arith

-- Enter is the answer that is shown.
pub accept-Answered :
    (n : ℤ) (s : Text) (key : ℕ) (keys : List ℕ)
    → IsShown (to_size n) s
    → Answered n s (accept (to_size n) s key keys) (take (to_size n) s) keys
accept-Answered n s key keys (plain_text, full) =
    let left = cut_keys (to_size n) s key keys in
    let some_text : (length (take (to_size n) s) == 0) ≡ false = ground arith in
    let a : Answered n s (accept (to_size n) s key keys) (filled (take (to_size n) s)) keys =
      plain key s (line_enter (to_short n) s left (full_take (to_size n) s full)) plain_text in
    rw some_text at a
