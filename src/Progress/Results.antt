-- ===== src/Progress/Results.antt =====
-- The calls that return or throw: std::stol and std::stoi, the reads of a vector, the search of
-- src/binary_search.cpp, and remove_one of the basket.
use cli_pos.Base.{
  ℕ, zero, suc, ◌+◌, ◌-◌, ◌<◌, dec_lt, lt→ltb, ltb, length, ◌^◌, Bool, true, false, List, [], ◌∷◌,
  Option, none, some, get_elem?, if◌then◌else◌, arith,
}
use cli_pos.Base.Int.{ℤ, pos, negsuc, ◌+ℤ◌, eq_ℤ}
use cli_pos.Basket.{remove_one, entry}
use cli_pos.Fault.{
  Answer, answer, raise, Exception, no_number, too_large, failed, Fault, Result, ok, err, to_fault,
  checked, or_fail, undefined, invalid_argument, out_of_range,
}
use cli_pos.Search.{binary_search, search_loop, stop_of, compare_string}
use cli_pos.Search.Loop.{middle, loop_done}
use cli_pos.Words.{to_int, size_sub}
use cli_pos.Text.{Text, text_eq, stol, stoi, read_sign, read_magnitude, skip_space}
use cli_pos.Window.{at, slice, slice_from}
use cli_pos.World.Double.{Double}
use cli_pos.World.State.{View, BasketProduct}
use cli_pos.Progress.Rules.{IsReal, IsSafe, value, fault}

-- The faults that the libraries raise.
pub to_fault-IsReal : (e : Exception) → IsReal (to_fault e)
to_fault-IsReal no_number x = cc
to_fault-IsReal too_large x = cc
to_fault-IsReal failed x = cc

pub undefined-IsReal : IsReal undefined
undefined-IsReal x = cc

pub checked-IsSafe : {A : Type 0} (a : Answer A) → IsSafe (checked a)
checked-IsSafe (answer a) = value a
checked-IsSafe (raise e) = fault (to_fault e) (to_fault-IsReal e)

pub or_fail-IsSafe : {A : Type 0} (o : Option A) (f : Fault) → IsReal f → IsSafe (or_fail o f)
or_fail-IsSafe none f h = fault f h
or_fail-IsSafe (some a) f h = value a

then-IsSafe :
    {A B : Type 0} (r : Result A) (f : A → Result B)
    → IsSafe r
    → ((a : A) → IsSafe (f a))
    → IsSafe (elim r [ err e ↦ err e | ok a ↦ f a ])
then-IsSafe r f (value a) h = h a
then-IsSafe r f (fault e real) h = fault e real

if-IsSafe :
    {A : Type 0} {r s : Result A} (b : Bool) → IsSafe r → IsSafe s → IsSafe (if b then r else s)
if-IsSafe true p q = p
if-IsSafe false p q = q

ruleset texts = (if-IsSafe, value, fault)

invalid-IsReal : IsReal invalid_argument
invalid-IsReal x = cc

range-IsReal : IsReal out_of_range
range-IsReal x = cc

read_magnitude-IsSafe :
    (limit : ℕ) (minus : Bool) (s : Text) → IsSafe (read_magnitude limit minus s)
unfolding read_magnitude
read_magnitude-IsSafe limit minus s = search (texts, invalid-IsReal, range-IsReal)

read_sign-IsSafe : (limit : ℕ) (s : Text) → IsSafe (read_sign limit s)
unfolding read_sign
read_sign-IsSafe limit [] = fault invalid_argument invalid-IsReal
read_sign-IsSafe limit (c ∷ s) = search (if-IsSafe, read_magnitude-IsSafe)

pub stol-IsSafe : (s : Text) → IsSafe (stol s)
unfolding stol
stol-IsSafe s = read_sign-IsSafe (2 ^ 63) (skip_space s)

pub stoi-IsSafe : (s : Text) → IsSafe (stoi s)
unfolding stoi
stoi-IsSafe s = read_sign-IsSafe (2 ^ 31) (skip_space s)

module _ {A : Type 0} where
  pub at-IsSafe : (xs : List A) (i : ℤ) → IsSafe (at xs i)
  unfolding at
  at-IsSafe xs (pos n) = go (get_elem? xs n)
    where
      go : (o : Option A) → IsSafe (elim o [ none ↦ err undefined | some a ↦ ok a ])
      go none = fault undefined undefined-IsReal
      go (some a) = value a
  at-IsSafe xs (negsuc n) = fault undefined undefined-IsReal

  slice_from-IsSafe : (n : ℕ) (xs : List A) (i : ℤ) → IsSafe (slice_from n xs i)
  unfolding slice_from
  slice_from-IsSafe zero xs i = value []
  slice_from-IsSafe (suc n) xs i =
      let rest = slice_from n xs (i +ℤ pos 1) in
      let rest_safe = slice_from-IsSafe n xs (i +ℤ pos 1) in
      then-IsSafe (at xs i) (λ a. elim rest [ err f ↦ err f | ok rest ↦ ok (a ∷ rest) ])
        (at-IsSafe xs i)
        (λ a. then-IsSafe rest (λ rest. ok (a ∷ rest)) rest_safe (λ rest. value (a ∷ rest)))

  pub slice-IsSafe : (xs : List A) (v : View) → IsSafe (slice xs v)
  unfolding slice
  slice-IsSafe xs v = slice_from-IsSafe _ xs v.start

-- The bound on the rounds of the search is enough for every vector, however long.
search_loop-IsSafe :
    (fuel : ℕ) (v : List Text) (w : Text) (start stop mid : ℕ)
    → stop - start < fuel
    → IsSafe (search_loop fuel v w start stop mid)
unfolding search_loop
search_loop-IsSafe zero v w start stop mid h = elim h [ ]
search_loop-IsSafe (suc fuel) v w start stop mid h = elim (dec_lt start stop) [
  | no out ↦ rw (loop_done fuel v w start stop mid out) (value mid)
  | yes more ↦
      rw (lt→ltb start stop more, search_loop)
        (read (get_elem? v (middle start stop))
          (search_loop-IsSafe fuel v w (middle start stop + 1) stop (middle start stop)
            (omega arith))
          (search_loop-IsSafe fuel v w start (middle start stop) (middle start stop) (omega arith)))
]
  where
    turn : Text → Result ℕ
    turn word = elim (compare_string w word) [
      | true ↦ elim (ltb (middle start stop + 1) (2 ^ 31)) [
        | true ↦ search_loop fuel v w (middle start stop + 1) stop (middle start stop)
        | false ↦ err undefined
      ]
      | false ↦ search_loop fuel v w start (middle start stop) (middle start stop)
    ]

    turn-IsSafe :
        (word : Text)
        → IsSafe (search_loop fuel v w (middle start stop + 1) stop (middle start stop))
        → IsSafe (search_loop fuel v w start (middle start stop) (middle start stop))
        → IsSafe (turn word)
    turn-IsSafe word up down =
        elim (compare_string w word)
          as (λ up. IsSafe (elim up [
            | true ↦ elim (ltb (middle start stop + 1) (2 ^ 31)) [
              | true ↦ search_loop fuel v w (middle start stop + 1) stop (middle start stop)
              | false ↦ err undefined
            ]
            | false ↦ search_loop fuel v w start (middle start stop) (middle start stop)
          ])) [
            | true ↦
                elim (ltb (middle start stop + 1) (2 ^ 31))
                  as (λ b. IsSafe (elim b [
                    | true ↦ search_loop fuel v w (middle start stop + 1) stop (middle start stop)
                    | false ↦ err undefined
                  ])) [ true ↦ up | false ↦ fault undefined undefined-IsReal ]
            | false ↦ down
          ]

    read :
        (o : Option Text)
        → IsSafe (search_loop fuel v w (middle start stop + 1) stop (middle start stop))
        → IsSafe (search_loop fuel v w start (middle start stop) (middle start stop))
        → IsSafe (elim o [
          | none ↦ err undefined
          | some word ↦ elim (text_eq word w) [ true ↦ ok (middle start stop) | false ↦ turn word ]
        ])
    read none up down = fault undefined undefined-IsReal
    read (some word) up down =
        elim (text_eq word w)
          as (λ b. IsSafe (elim b [ true ↦ ok (middle start stop) | false ↦ turn word ])) [
            | true ↦ value (middle start stop)
            | false ↦ turn-IsSafe word up down
          ]

pub binary_search-IsSafe :
    (garbage : ℕ) (v : List Text) (word : Text) → IsSafe (binary_search garbage v word)
unfolding binary_search
binary_search-IsSafe garbage v word =
    search_loop-IsSafe _ v word 0 (stop_of (to_int (pos (size_sub (length v) 1)))) garbage
      (omega arith)

module _ {D : Type 0} ⦃d : Double D⦄ where
  pub remove_one-IsSafe : (code : ℤ) (cart : List (BasketProduct D)) → IsSafe (remove_one code cart)
  unfolding remove_one
  remove_one-IsSafe code [] = fault undefined undefined-IsReal
  remove_one-IsSafe code (b ∷ cart) = go (eq_ℤ b.code code) (remove_one-IsSafe code cart)
    where
      less : D
      less = d.sub b.quantity (d.of_int (pos 1))

      kept : Result (List (BasketProduct D)) → Result (List (BasketProduct D))
      kept r = elim r [ ok rest ↦ ok (b ∷ rest) | err f ↦ err f ]

      go :
          (e : Bool)
          → IsSafe (remove_one code cart)
          → IsSafe (elim e [
            | true ↦ ok (if d.eq less (d.of_int (pos 0)) then cart else entry b.code less ∷ cart)
            | false ↦ kept (remove_one code cart)
          ])
      go true h = value _
      go false h =
          then-IsSafe (remove_one code cart) (λ rest. ok (b ∷ rest)) h (λ rest. value (b ∷ rest))

pub ruleset safe = (
  at-IsSafe, slice-IsSafe, stol-IsSafe, stoi-IsSafe, checked-IsSafe, or_fail-IsSafe,
  binary_search-IsSafe,
)
