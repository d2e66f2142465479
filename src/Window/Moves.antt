-- ===== src/Window/Moves.antt =====
-- The keys of src/main.cpp that move the window and the selection: Up, Down, `w` and `s`.
use cli_pos.Base.{
  ℕ, suc, ◌+◌, ◌-◌, ◌≤◌, ◌<◌, ◌≡◌, refl, true, ◌&&◌, not, arith, ◌==◌, ltb, Bool-cases, inl, inr,
  if◌then◌else◌,
}
use cli_pos.Base.Int.{ℤ, pos, ◌+ℤ◌, ◌-ℤ◌, eq_ℤ}
use cli_pos.World.State.{View}
use cli_pos.Window.{
  scroll_up, scroll_down, select_up, roll_up, cursor_up, select_down, roll_down, cursor_down,
}

abbrev pub view : ℕ → ℕ → ℕ → ℤ → View
view start shown selection indexed = record {
  start = pos start;
  stop = pos (start + shown);
  selection = pos selection;
  indexed_selection = indexed;
}

-- The window shows `shown` of `n` entries, all of them in range, and the selection is one of them.
abbrev pub IsWindow : ℕ → ℕ → View → Type 0
IsWindow shown n v =
    (start : ℕ) × (selection : ℕ) × (v ≡ view start shown selection v.indexed_selection)
    × (start + shown ≤ n)
    × (selection < shown)

select_up_lem : (a s shown : ℕ) (i : ℤ) → select_up (view a shown s i) ≡ view a shown (s - 1) i
unfolding select_up eq_ℤ ◌-ℤ◌
select_up_lem a s shown i = ground arith

roll_up_lem :
    (a s shown : ℕ) (i : ℤ)
    → roll_up (view a shown s i)
      ≡ (if not (a == 0) && (s == 0) then view (a - 1) shown 1 i else view a shown s i)
unfolding roll_up eq_ℤ ◌+ℤ◌
roll_up_lem a s shown i = ground arith

select_down_lem :
    (a s shown n : ℕ) (i : ℕ)
    → select_down (suc shown) (pos n) (view a (suc shown) s (pos i)) ≡ (
        if ltb s shown && ltb i n
        then view a (suc shown) (s + 1) (pos i)
        else view a (suc shown) s (pos i))
unfolding select_down ◌+ℤ◌
select_down_lem a s shown n i = ground arith

roll_down_lem :
    (a s shown n : ℕ) (i : ℤ)
    → 0 < shown
    → roll_down (suc shown) (pos n) (view a (suc shown) s i) ≡ (
        if not (a + suc shown == n) && (s == shown)
        then view (a + 1) (suc shown) (s - 1) i
        else view a (suc shown) s i)
unfolding roll_down eq_ℤ ◌+ℤ◌ ◌-ℤ◌
roll_down_lem a s shown n i h = ground arith

-- The entry that the selection stands on.
abbrev pub place : ℕ → ℕ → ℕ
place start selection = start + selection

-- What a move makes of a window: a window of the same size, with the place that is given.
abbrev pub MovesTo : ℕ → ℕ → ℕ → View → Type 0
MovesTo shown n p v =
    (start : ℕ) × (selection : ℕ) × (v ≡ view start shown selection v.indexed_selection)
    × (start + shown ≤ n)
    × (selection < shown)
    × (place start selection ≡ p)

-- On a window in range of at least two entries, with the selection in it and indexed_selection up
-- to date, the key Down leaves a window of the same size in range with the selection in it, and the
-- selected entry is the next one, or the same one if the selection stood on the last row of the
-- window.
pub cursor_down-MovesTo :
    (a s shown n : ℕ)
    → a + suc shown ≤ n
    → s ≤ shown
    → 0 < shown
    → MovesTo
        (suc shown)
        n
        (if ltb s shown then a + s + 1 else a + s)
        (cursor_down (suc shown) (pos n) (view a (suc shown) s (pos (a + s))))
unfolding cursor_down
cursor_down-MovesTo a s shown n fits l h =
    let i : ℤ = pos (a + s) in
    elim (Bool-cases (ltb s shown)) [
      | inl more ↦
          let room : ltb (a + s) n ≡ true = ground arith in
          rw (select_down_lem a s shown n (a + s), more, room, roll_down_lem a (s + 1) shown n i h)
            (elim (Bool-cases (not (a + suc shown == n) && (s + 1 == shown))) [
              | inl roll ↦ rw roll (a + 1, s + 1 - 1, refl, ground arith, omega arith, omega arith)
              | inr stay ↦ rw stay (a, s + 1, refl, fits, ground arith, omega arith)
            ])
      | inr last ↦
          rw (select_down_lem a s shown n (a + s), last, roll_down_lem a s shown n i h)
            (elim (Bool-cases (not (a + suc shown == n) && (s == shown))) [
              | inl roll ↦ rw roll (a + 1, s - 1, refl, ground arith, omega arith, ground arith)
              | inr stay ↦ rw stay (a, s, refl, fits, omega arith, refl)
            ])
    ]

-- On a window in range of at least two entries, with the selection in it, the key Up leaves a
-- window of the same size in range with the selection in it, and the selected entry is the one
-- before, or the same one if the selection stood on the first row of the window.
pub cursor_up-MovesTo :
    (a s shown n : ℕ) (i : ℤ)
    → a + shown ≤ n
    → s < shown
    → 1 < shown
    → MovesTo shown n (if s == 0 then a else a + s - 1) (cursor_up (view a shown s i))
unfolding cursor_up
cursor_up-MovesTo a s shown n i fits l h =
    rw (select_up_lem a s shown i, roll_up_lem a (s - 1) shown i)
      (elim (Bool-cases (not (a == 0) && (s - 1 == 0))) [
        | inl roll ↦ rw roll (a - 1, 1, refl, omega arith, h, ground arith)
        | inr stay ↦ rw stay (a, s - 1, refl, fits, omega arith, ground arith)
      ])

scroll_up_lem : (a s shown : ℕ) (i : ℤ) → scroll_up (view a shown s i) ≡ view (a - 1) shown s i
unfolding scroll_up eq_ℤ ◌+ℤ◌
scroll_up_lem a s shown i = ground arith

scroll_down_lem :
    (a s shown n : ℕ) (i : ℤ)
    → scroll_down (pos n) (view a shown s i)
      ≡ (if a + shown == n then view a shown s i else view (a + 1) shown s i)
unfolding scroll_down eq_ℤ ◌+ℤ◌
scroll_down_lem a s shown n i = ground arith

-- From a window in range with the selection in it, the keys `w` and `s` leave a window of the same
-- size in range, with the selection in it.
pub scroll-IsWindow :
    (a s shown n : ℕ) (i : ℤ)
    → a + shown ≤ n
    → s < shown
    → IsWindow shown n (scroll_up (view a shown s i))
      × IsWindow shown n (scroll_down (pos n) (view a shown s i))
scroll-IsWindow a s shown n i fits l = (
  rw (scroll_up_lem a s shown i) (a - 1, s, refl, omega arith, l),
  rw (scroll_down_lem a s shown n i) (elim (Bool-cases (a + shown == n)) [
    | inl end ↦ rw end (a, s, refl, fits, l)
    | inr more ↦ rw more (a + 1, s, refl, ground arith, l)
  ]),
)
