-- ===== src/Window/Slice.antt =====
-- The entries that calculate_visible_product_list of src/main.cpp picks.
use cli_pos.Base.{
  ℕ, zero, suc, ◌+◌, ◌-◌, ◌≤◌, ◌<◌, ◌≡◌, refl, ap, sym, ◌∙◌, Bool-cases, inl, inr, length-drop,
  false, List, [], ◌∷◌, some, arith, leb, dec_lt, ◌⊎◌, length, get_elem?, take, drop, if◌then◌else◌,
}
use cli_pos.Base.Int.{pos, ◌+ℤ◌, ◌-ℤ◌}
use mathlib.Core.Option.{some-injective}
use cli_pos.Fault.{ok, err, undefined}
use cli_pos.Search.Loop.{get_elem?_lt}
use cli_pos.World.State.{View}
use cli_pos.Window.{one, at, slice_from, slice, rounds, set_stop}

next_place : (m : ℕ) → pos m +ℤ one ≡ pos (suc m)
unfolding ◌+ℤ◌
next_place m = ground arith

module _ {ℓ} {A : Type ℓ} where
  pub at_lem : (xs : List A) (n : ℕ) (a : A) → get_elem? xs n ≡ some a → at xs (pos n) ≡ ok a
  unfolding at
  at_lem xs n a e = rw (e, at)

  at_none : (xs : List A) (n : ℕ) → length xs ≤ n → at xs (pos n) ≡ err undefined
  unfolding at
  at_none [] n h = refl
  at_none (x ∷ xs) zero h = elim h [ ]
  at_none (x ∷ xs) (suc n) h = at_none xs n (omega arith)

  take-drop-suc :
      (xs : List A) (n m : ℕ) (a : A)
      → get_elem? xs m ≡ some a
      → take (suc n) (drop m xs) ≡ a ∷ take n (drop (suc m) xs)
  take-drop-suc [] n m a e = cc
  take-drop-suc (x ∷ xs) n zero a e = ap (λ y. y ∷ take n xs) (some-injective _ _ e)
  take-drop-suc (x ∷ xs) n (suc m) a e = take-drop-suc xs n m a e

  -- A round that reads in range, and one that does not.
  slice_hit :
      (xs : List A) (n m : ℕ) (a : A)
      → get_elem? xs m ≡ some a
      → slice_from (suc n) xs (pos m)
        ≡ (elim (slice_from n xs (pos (suc m))) [ err f ↦ err f | ok rest ↦ ok (a ∷ rest) ])
  unfolding slice_from
  slice_hit xs n m a e = rw (at_lem xs m a e, slice_from, next_place m)

  slice_miss :
      (xs : List A) (n m : ℕ) → length xs ≤ m → slice_from (suc n) xs (pos m) ≡ err undefined
  unfolding slice_from
  slice_miss xs n m h = rw (at_none xs m h, slice_from)

  slice_from_lem :
      (xs : List A) (n m : ℕ)
      → m + n ≤ length xs
      → slice_from n xs (pos m) ≡ ok (take n (drop m xs))
  slice_from_lem xs zero m h = unfold slice_from in refl
  slice_from_lem xs (suc n) m h =
      let (a, e) = get_elem?_lt xs m (omega arith) in
      rw (slice_hit xs n m a e, slice_from_lem xs n (suc m) (omega arith), take-drop-suc xs n m a e)

  slice_from_past :
      (xs : List A) (n m : ℕ)
      → m ≤ length xs
      → length xs < m + n
      → slice_from n xs (pos m) ≡ err undefined
  slice_from_past xs zero m l h = absurd (omega arith)
  slice_from_past xs (suc n) m l h = elim (dec_lt m (length xs)) [
    | yes more ↦
        let (a, e) = get_elem?_lt xs m more in
        rw (slice_hit xs n m a e, slice_from_past xs n (suc m) more (omega arith))
    | no done ↦ slice_miss xs n m (omega arith)
  ]

rounds_lem : (a b : ℕ) → rounds (pos a) (pos b) ≡ b - a
unfolding ◌-ℤ◌
rounds_lem a b = ground arith

set_stop_lem :
    (most size : ℕ) (v : View) (a : ℕ)
    → v.start ≡ pos a
    → set_stop (pos most) (pos size) v
      ≡ record v { stop = pos (if leb size most then size else most + a) }
unfolding set_stop ◌+ℤ◌
set_stop_lem most size v a e = ground arith

module _ {ℓ} {A : Type ℓ} where
  slice_at :
      (xs : List A) (v : View) (a b : ℕ)
      → v.start ≡ pos a
      → v.stop ≡ pos b
      → slice xs v ≡ slice_from (b - a) xs (pos a)
  unfolding slice
  slice_at xs v a b e f = rw (e, f, slice, rounds_lem a b)

  take_long : (n : ℕ) (xs : List A) → length xs ≤ n → take n xs ≡ xs
  take_long zero [] h = refl
  take_long zero (x ∷ xs) h = elim h [ ]
  take_long (suc n) [] h = refl
  take_long (suc n) (x ∷ xs) h = ap (◌∷◌ x) (take_long n xs (omega arith))

  slice_rest :
      (xs : List A) (most a : ℕ)
      → length xs ≤ most
      → a ≤ length xs
      → slice_from (length xs - a) xs (pos a) ≡ ok (take most (drop a xs))
  slice_rest xs most a h l =
      slice_from_lem xs (length xs - a) a (omega arith)
      ∙ ap ok (
          take_long (length xs - a) (drop a xs) (omega (arith, length-drop a xs))
          ∙ sym (take_long most (drop a xs) (omega (arith, length-drop a xs))))

  -- From a start in range, a list with no more entries than the screen has room for is shown to its
  -- end, and a longer one, with at least as many entries behind the start as there is room for, is
  -- shown for that many entries.
  pub slice-visible :
      (xs : List A) (most a : ℕ) (v : View)
      → v.start ≡ pos a
      → a ≤ length xs
      → (length xs ≤ most) ⊎ (a + most ≤ length xs)
      → slice xs (set_stop (pos most) (pos (length xs)) v) ≡ ok (take most (drop a xs))
  slice-visible xs most a v e l h =
      rw (set_stop_lem most (length xs) v a e) (elim (Bool-cases (leb (length xs) most)) [
        | inl short ↦
            rw short (slice_at xs _ a (length xs) e refl ∙ slice_rest xs most a (ground arith) l)
        | inr long ↦
            let fits : a + most ≤ length xs = ground arith in
            let n : most + a - a ≡ most = omega arith in
            rw long (
              slice_at xs _ a (most + a) e refl
              ∙ ap (λ k. slice_from k xs (pos a)) n
              ∙ slice_from_lem xs most a fits)
      ])

  -- On a list that is longer than the screen has room for, a window that starts in range with fewer
  -- entries behind its start than there is room for runs past the end: an entry that is not there is
  -- read.
  pub slice_stale :
      (xs : List A) (most a : ℕ) (v : View)
      → v.start ≡ pos a
      → a ≤ length xs
      → most < length xs
      → length xs < a + most
      → slice xs (set_stop (pos most) (pos (length xs)) v) ≡ err undefined
  slice_stale xs most a v e l m h =
      let long : leb (length xs) most ≡ false = ground arith in
      let n : most + a - a ≡ most = omega arith in
      rw (set_stop_lem most (length xs) v a e, long)
        (slice_at xs _ a (most + a) e refl
          ∙ ap (λ k. slice_from k xs (pos a)) n
          ∙ slice_from_past xs most a l h)
