-- ===== src/Search/Find.antt =====
-- What binary_search of src/binary_search.cpp returns.
use cli_pos.Base.{
  ℕ, zero, suc, ◌^◌, ◌+◌, ◌-◌, ◌≤◌, ◌<◌, ◌≡◌, sym, ap, ◌∙◌, dec_lt, ◌⊎◌, inl, inr, true, false,
  List, [], ◌∷◌, some, arith, length, get_elem?, Bool-cases,
}
use mathlib.Core.Option.{some-injective}
use cli_pos.Fault.{Result, ok, err}
use cli_pos.Text.{Text, text_eq}
use cli_pos.Search.{compare_string, search_loop, binary_search}
use cli_pos.Search.Loop.{
  get_elem?_lt, lt_get_elem?, middle, loop_done, loop_hit, loop_up, loop_down, stop_lem,
}
use cli_pos.Search.Order.{
  compare_string-Above, Above, Above-trans, Above-irrefl, compare_string_iff, text_eq_iff,
}

-- A place below `n`.
abbrev pub IsBelow : ℕ → Result ℕ → Type 0
IsBelow n (ok i) = i < n
IsBelow n (err f) = ⊥

pub search_loop-IsBelow :
    (fuel : ℕ) (v : List Text) (w : Text) (start stop mid n : ℕ)
    → length v < 2 ^ 31
    → stop - start < fuel
    → stop ≤ n
    → n ≤ length v
    → (start < stop) ⊎ (mid < n)
    → IsBelow n (search_loop fuel v w start stop mid)
search_loop-IsBelow zero v w start stop mid n b f h l m = elim f [ ]
search_loop-IsBelow (suc fuel) v w start stop mid n b f h l m = elim (dec_lt start stop) [
  | yes more ↦
      let i = middle start stop in
      let (word, at) = get_elem?_lt v i (omega arith) in
      elim (Bool-cases (text_eq word w)) [
        | inl hit ↦ rw (loop_hit fuel v w start stop mid word at more hit) (omega arith)
        | inr miss ↦ elim (Bool-cases (compare_string w word)) [
          | inl up ↦ rw (loop_up fuel v w start stop mid word at more (omega arith) miss up) (
              search_loop-IsBelow fuel v w (i + 1) stop i n b (omega arith) h l (inr (omega arith)))
          | inr down ↦ rw (loop_down fuel v w start stop mid word at more miss down) (
              search_loop-IsBelow fuel v w start i i n b (omega arith) (omega arith) l
                (inr (omega arith)))
        ]
      ]
  | no done ↦ rw (loop_done fuel v w start stop mid done) (omega arith)
]

-- On a vector that is not empty and has fewer than 2^31 elements the search ends, overflows nowhere, reads
-- nothing out of range, and returns the place of an element, whatever the order of the vector and
-- whatever `mid` held at first.
pub binary_search-IsBelow :
    (garbage : ℕ) (v : List Text) (w : Text)
    → 0 < length v
    → length v < 2 ^ 31
    → IsBelow (length v) (binary_search garbage v w)
unfolding binary_search
binary_search-IsBelow garbage v w h b = rw (stop_lem (length v) h b) (
    search_loop-IsBelow (suc (length v)) v w 0 (length v) garbage (length v) b (omega arith)
      (omega arith) (omega arith) (inl h))

abbrev pub AllAbove : Text → List Text → Type 0
AllAbove s [] = Unit {0}
AllAbove s (t ∷ v) = Above t s × AllAbove s v

-- Every later text is above every earlier one.
abbrev pub IsAscending : List Text → Type 0
IsAscending [] = Unit {0}
IsAscending (s ∷ v) = AllAbove s v × IsAscending v

AllAbove-get_elem? :
    (s : Text) (v : List Text) (j : ℕ) (t : Text)
    → AllAbove s v
    → get_elem? v j ≡ some t
    → Above t s
AllAbove-get_elem? s [] j t a e = cc
AllAbove-get_elem? s (x ∷ v) zero t a e = ground (arith, a.0)
AllAbove-get_elem? s (x ∷ v) (suc j) t a e = AllAbove-get_elem? s v j t a.1 e

ascending_at :
    (v : List Text) (i j : ℕ) (s t : Text)
    → IsAscending v
    → i < j
    → get_elem? v i ≡ some s
    → get_elem? v j ≡ some t
    → Above t s
ascending_at [] i j s t a h p q = cc
ascending_at (x ∷ v) zero zero s t a h p q = absurd (omega arith)
ascending_at (x ∷ v) zero (suc j) s t a h p q =
    AllAbove-get_elem? s v j t (rw (some-injective _ _ p) at a.0) q
ascending_at (x ∷ v) (suc i) zero s t a h p q = absurd (omega arith)
ascending_at (x ∷ v) (suc i) (suc j) s t a h p q = ascending_at v i j s t a.1 (omega arith) p q

above_self :
    (v : List Text) (i j : ℕ) (w : Text)
    → IsAscending v
    → get_elem? v i ≡ some w
    → get_elem? v j ≡ some w
    → ¬ (i < j)
above_self v i j w a p q h = Above-irrefl w (ascending_at v i j w w a h p q)

-- An ascending vector holds a text once.
only :
    (v : List Text) (i j : ℕ) (w : Text)
    → IsAscending v
    → get_elem? v i ≡ some w
    → get_elem? v j ≡ some w
    → i ≡ j
only v i j w a p q = omega (arith, above_self v i j w a p q, above_self v j i w a q p)

-- Where the search goes up, the wanted place lies above the middle.
goes_up :
    (v : List Text) (m i : ℕ) (word w : Text)
    → IsAscending v
    → get_elem? v m ≡ some word
    → get_elem? v i ≡ some w
    → compare_string w word ≡ true
    → m < i
goes_up v m i word w a p q up =
    let above = compare_string-Above w word up in
    elim (dec_lt m i) [
      | yes h ↦ h
      | no h ↦ elim (dec_lt i m) [
        | yes k ↦ absurd (Above-irrefl w (Above-trans w word w above (earlier k)))
        | no k ↦ absurd (Above-irrefl w (rw (same (omega arith)) at above))
      ]
    ]
  where
    earlier : i < m → Above word w
    earlier k = ascending_at v i m w word a k q p

    same : m ≡ i → word ≡ w
    same k = some-injective _ _ (sym p ∙ ap (get_elem? v) k ∙ q)

-- Where it goes down, the place lies below the middle.
goes_down :
    (v : List Text) (m i : ℕ) (word w : Text)
    → IsAscending v
    → get_elem? v m ≡ some word
    → get_elem? v i ≡ some w
    → length w < 2 ^ 31
    → text_eq word w ≡ false
    → compare_string w word ≡ false
    → i < m
goes_down v m i word w a p q small miss down = elim (dec_lt i m) [
  | yes h ↦ h
  | no h ↦ elim (dec_lt m i) [
    | yes k ↦ cc ((compare_string_iff w word small).1 (ascending_at v m i word w a k p q))
    | no k ↦ cc ((text_eq_iff word w).1 (same (omega arith)))
  ]
]
  where
    same : m ≡ i → word ≡ w
    same k = some-injective _ _ (sym p ∙ ap (get_elem? v) k ∙ q)

search_loop_finds :
    (fuel : ℕ) (v : List Text) (w : Text) (start stop mid i : ℕ)
    → length v < 2 ^ 31
    → length w < 2 ^ 31
    → stop - start < fuel
    → stop ≤ length v
    → start ≤ i
    → i < stop
    → IsAscending v
    → get_elem? v i ≡ some w
    → search_loop fuel v w start stop mid ≡ ok i
search_loop_finds zero v w start stop mid i b c f h l r a e = elim f [ ]
search_loop_finds (suc fuel) v w start stop mid i b c f h l r a e =
    let m = middle start stop in
    let (word, at) = get_elem?_lt v m (omega arith) in
    elim (Bool-cases (text_eq word w)) [
      | inl hit ↦
          let at' : get_elem? v m ≡ some w = rw ((text_eq_iff word w).0 hit) at at in
          loop_hit fuel v w start stop mid word at (omega arith) hit ∙ ap ok (only v m i w a at' e)
      | inr miss ↦ elim (Bool-cases (compare_string w word)) [
        | inl up ↦
            loop_up fuel v w start stop mid word at (omega arith) (omega arith) miss up
            ∙ search_loop_finds fuel v w (m + 1) stop m i b c (omega arith) h
                (omega (arith, goes_up v m i word w a at e up)) r a e
        | inr down ↦
            loop_down fuel v w start stop mid word at (omega arith) miss down
            ∙ search_loop_finds fuel v w start m m i b c (omega arith) (omega arith) l
                (goes_down v m i word w a at e c miss down) a e
      ]
    ]

-- In a vector of fewer than 2^31 names, where every later name is above every earlier one, the search
-- returns the place of the name of fewer than 2^31 bytes that it is asked for, whatever `mid` held at
-- first.
pub binary_search_finds :
    (garbage : ℕ) (v : List Text) (i : ℕ) (w : Text)
    → length v < 2 ^ 31
    → length w < 2 ^ 31
    → IsAscending v
    → get_elem? v i ≡ some w
    → binary_search garbage v w ≡ ok i
unfolding binary_search
binary_search_finds garbage v i w b c a e =
    let within = lt_get_elem? v i w e in
    rw (stop_lem (length v) (omega arith) b) (
      search_loop_finds (suc (length v)) v w 0 (length v) garbage i b c (omega arith) (omega arith)
        (omega arith) within a e)
