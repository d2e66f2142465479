-- ===== src/Input/Bound.antt =====
-- The length of a line that get_string of src/input_string.cpp reads.
use cli_pos.Base.{
  ℕ, suc, Bool, Option, some, none, ◌+◌, ◌%◌, ◌≤◌, ◌<◌, ◌≡◌, refl, ◌∙◌, sym, ap, true, false, List,
  [], ◌∷◌, ◌++◌, arith, ◌==◌, ltb, length, length-append, append_assoc, append-nil, Bool-cases, inl,
  inr, ◌&&◌, if◌then◌else◌,
}
use Prim.Native.Nat.{max}
use cli_pos.Base.Int.{ℤ, pos}
use cli_pos.Text.{Text, is_print}
use cli_pos.Words.{to_size}
use cli_pos.World.Monad.{key_enter, key_esc}
use cli_pos.Input.{pop_back, is_typed, erased, typed, get_string}
use cli_pos.Fault.{waiting}
use cli_pos.World.State.{World, Outcome, done, stopped}
use cli_pos.Input.Line.{
  Line, entered, cancelled, pending, edit, line, limit_of, Reads, get_string-Reads,
}

abbrev pub IsShort : ℕ → Line → Type 0
IsShort n (entered t rest) = length t ≤ n
IsShort n (cancelled rest) = Unit {0}
IsShort n pending = Unit {0}

length-pop_back : (s : Text) → length (pop_back s) ≤ length s
unfolding pop_back
length-pop_back [] = omega arith
length-pop_back (c ∷ []) = omega arith
length-pop_back (c ∷ d ∷ s) = omega (arith, length-pop_back (d ∷ s))

length-erased : (key : ℕ) (s : Text) → length (erased key s) ≤ length s
unfolding erased
length-erased key s = ground (arith, length-pop_back s)

length-typed :
    (key n : ℕ) (m : ℤ) (s : Text) → length s ≤ n → to_size m ≤ n → length (typed key m s) ≤ n
unfolding typed
length-typed key n m s h k = elim (Bool-cases (is_typed key && ltb (length s) (to_size m))) [
  | inl e ↦ rw (e, typed) (ground (arith, length-append s ((key % 256) ∷ [])))
  | inr e ↦ rw (e, typed) h
]

edit-IsShort :
    (n : ℕ) (m : ℤ) (s : Text) (keys : List ℕ)
    → length s ≤ n
    → to_size m ≤ n
    → IsShort n (edit m s keys)
unfolding edit
edit-IsShort n m s [] h k = tt
edit-IsShort n m s (key ∷ keys) h k = elim (Bool-cases (key == key_enter)) [
  | inl e ↦ rw (e, edit) (omega (arith, length-erased key s))
  | inr e ↦ elim (Bool-cases (key == key_esc)) [
    | inl esc ↦ rw (e, esc, edit) tt
    | inr other ↦
        rw (e, other, edit)
          (edit-IsShort n m (typed key m (erased key s)) keys
            (length-typed key n m (erased key s) (omega (arith, length-erased key s)) k) k)
  ]
]

line-IsShort :
    (n : ℕ) (s : Text) (keys : List ℕ)
    → IsShort (max (suc n) (length s)) (line (pos (suc n)) s keys)
unfolding line
line-IsShort n [] keys = edit-IsShort _ (pos (suc n)) [] keys (omega arith) (omega arith)
line-IsShort n (c ∷ s) [] = tt
line-IsShort n (c ∷ s) (key ∷ keys) = elim (Bool-cases (key == key_enter)) [
  | inl e ↦ rw (e, line) (omega arith)
  | inr e ↦
      rw (e, line)
        (edit-IsShort _ (pos (suc n)) (if is_typed key then (key % 256) ∷ [] else []) keys
          (ground arith) (omega arith))
]

abbrev pub AllTyped : List ℕ → Type 0
AllTyped [] = Unit {0}
AllTyped (key ∷ keys) = (is_print key ≡ true) × AllTyped keys

-- A printable key is no erasing key, neither Enter nor Esc, and is added as it is.
erased_typed : (key : ℕ) (s : Text) → is_print key ≡ true → erased key s ≡ s
unfolding erased is_print
erased_typed key s p = ground arith

typed-typed :
    (key : ℕ) (m : ℤ) (s : Text)
    → is_print key ≡ true
    → length s < to_size m
    → typed key m s ≡ s ++ (key ∷ [])
unfolding typed is_print
typed-typed key m s p h =
    let e : key % 256 ≡ key = ground arith in
    let room : ltb (length s) (to_size m) ≡ true = ground arith in
    let print : is_typed key ≡ true = rw e p in rw (print, room, e, typed)

neither :
    (key : ℕ) → is_print key ≡ true → ((key == key_enter) ≡ false) × ((key == key_esc) ≡ false)
unfolding is_print
neither key p = (ground arith, ground arith)

edit_key :
    (m : ℤ) (s : Text) (key : ℕ) (keys : List ℕ)
    → is_print key ≡ true
    → length s < to_size m
    → edit m s (key ∷ keys) ≡ edit m (s ++ (key ∷ [])) keys
unfolding edit
edit_key m s key keys p h =
    let (enter, esc) = neither key p in
    rw (enter, edit, esc, erased_typed key s p, typed-typed key m s p h)

erased_enter : (s : Text) → erased key_enter s ≡ s
unfolding erased
erased_enter s = refl

edit_typed :
    (m : ℤ) (s : Text) (keys rest : List ℕ)
    → AllTyped keys
    → length s + length keys ≤ to_size m
    → edit m s (keys ++ (key_enter ∷ rest)) ≡ entered (s ++ keys) rest
unfolding edit
edit_typed m s [] rest p h = ap (λ t. entered t rest) (erased_enter s ∙ sym (append-nil s))
edit_typed m s (key ∷ keys) rest p h =
    edit_key m s key (keys ++ (key_enter ∷ rest)) p.0 (omega arith)
    ∙ edit_typed m (s ++ (key ∷ [])) keys rest p.1 (omega (arith, length-append s (key ∷ [])))
    ∙ ap (λ t. entered t rest) (append_assoc s (key ∷ []) keys)

-- On no text shown, printable keys, no more than the limit allows, that are ended by Enter are the
-- line.
pub line_typed :
    (m : ℤ) (keys rest : List ℕ)
    → AllTyped keys
    → length keys ≤ to_size (limit_of m)
    → line m [] (keys ++ (key_enter ∷ rest)) ≡ entered keys rest
unfolding line
line_typed m keys rest p h = edit_typed (limit_of m) [] keys rest p (omega arith)

module _ {C D : Type 0} where
  -- The call returns a text of at most `n` bytes, or none, or waits for a key.
  abbrev pub IsBounded : ℕ → Outcome C D (Option Text) → Type 0
  IsBounded n (done (some t) w) = length t ≤ n
  IsBounded n (done none w) = Unit {0}
  IsBounded n (stopped f w) = f ≡ waiting

  bounded_lem :
      (n : ℕ) (l : Line) (w : World C D) (o : Outcome C D (Option Text))
      → IsShort n l
      → Reads w l o
      → IsBounded n o
  bounded_lem n (entered t rest) w o h (scr, e) = rw e h
  bounded_lem n (cancelled rest) w o h (scr, e) = rw e tt
  bounded_lem n pending w o h (scr, e) = rw e refl

  -- With a limit of at least one byte, the text that get_string returns has at most as many bytes as the
  -- limit, or as the text that was shown at first if that is longer; else it returns nothing or waits
  -- for a key.
  pub get_string-IsBounded :
      (show_text : Bool) (s : Text) (pair : ℤ) (n : ℕ) (w : World C D)
      → IsBounded (max (suc n) (length s)) (get_string show_text s pair (pos (suc n)) w)
  get_string-IsBounded show_text s pair n w =
      bounded_lem (max (suc n) (length s)) (line (pos (suc n)) s w.keys) w _
        (line-IsShort n s w.keys) (get_string-Reads show_text s pair (pos (suc n)) w)
