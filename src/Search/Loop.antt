-- ===== src/Search/Loop.antt =====
-- A round of the loop of binary_search of src/binary_search.cpp, by what it finds at the middle.
use cli_pos.Base.{
  ℕ, zero, suc, ◌^◌, ◌+◌, ◌-◌, ◌/◌, ◌<◌, ◌≡◌, refl, lt→ltb, true, false, List, [], ◌∷◌, some, arith,
  ltb, length, get_elem?,
}
use cli_pos.Fault.{ok}
use cli_pos.Text.{Text, text_eq}
use cli_pos.Search.{compare_string, search_loop}
use cli_pos.Base.Int.{pos}
use cli_pos.Words.{to_int, size_sub}
use cli_pos.Search.{stop_of}
use cli_pos.Search.Order.{to_int_small}

pub get_elem?_lt {ℓ} :
    {A : Type ℓ} (v : List A) (i : ℕ) → i < length v → (a : A) × (get_elem? v i ≡ some a)
get_elem?_lt [] i h = elim h [ ]
get_elem?_lt (x ∷ v) zero h = (x, refl)
get_elem?_lt (x ∷ v) (suc i) h = get_elem?_lt v i (omega arith)

pub lt_get_elem? {ℓ} :
    {A : Type ℓ} (v : List A) (i : ℕ) (a : A) → get_elem? v i ≡ some a → i < length v
lt_get_elem? [] i a h = cc
lt_get_elem? (x ∷ v) zero a h = omega arith
lt_get_elem? (x ∷ v) (suc i) a h = omega (arith, lt_get_elem? v i a h)

abbrev pub middle : ℕ → ℕ → ℕ
middle start stop = start + (stop - 1 - start) / 2

-- A round of the loop, by what it finds at the middle.
module _ (fuel : ℕ) (v : List Text) (w : Text) (start stop mid : ℕ) where
  pub loop_done : ¬ (start < stop) → search_loop (suc fuel) v w start stop mid ≡ ok mid
  unfolding search_loop
  loop_done h = let e : ltb start stop ≡ false = ground arith in rw (e, search_loop)

  module _ (word : Text) (at : get_elem? v (middle start stop) ≡ some word)
      (more : start < stop) where
    pub loop_hit :
        text_eq word w ≡ true → search_loop (suc fuel) v w start stop mid ≡ ok (middle start stop)
    unfolding search_loop
    loop_hit h = rw (lt→ltb start stop more, search_loop, at, h)

    pub loop_up :
        middle start stop + 1 < 2 ^ 31
        → text_eq word w ≡ false
        → compare_string w word ≡ true
        → search_loop (suc fuel) v w start stop mid
          ≡ search_loop fuel v w (middle start stop + 1) stop (middle start stop)
    unfolding search_loop
    loop_up small h k = rw (
      lt→ltb start stop more,
      search_loop,
      at,
      h,
      k,
      lt→ltb (middle start stop + 1) (2 ^ 31) small,
    )

    pub loop_down :
        text_eq word w ≡ false
        → compare_string w word ≡ false
        → search_loop (suc fuel) v w start stop mid
          ≡ search_loop fuel v w start (middle start stop) (middle start stop)
    unfolding search_loop
    loop_down h k = rw (lt→ltb start stop more, search_loop, at, h, k)

-- The length less one fits an `int`.
pub stop_lem : (n : ℕ) → 0 < n → n < 2 ^ 31 → stop_of (to_int (pos (size_sub n 1))) ≡ n
unfolding size_sub
stop_lem zero h b = elim h [ ]
stop_lem (suc n) h b =
    let less : size_sub (suc n) 1 ≡ n = omega arith in rw (less, to_int_small n (omega arith))
