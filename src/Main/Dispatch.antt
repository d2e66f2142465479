-- ===== src/Main/Dispatch.antt =====
-- Which handler the loop of src/main.cpp runs for a key: its tests stand one behind the other, with no
-- `else` between them.
use cli_pos.Base.{
  ℕ, ◌≡◌, refl, ◌∙◌, Bool, true, false, List, [], ◌∷◌, ◌++◌, arith, ◌==◌, ◌||◌, if◌then◌else◌,
  Bool-cases, inl, inr,
}
use cli_pos.Base.Int.{ℤ, pos, eq_ℤ}
use cli_pos.Database.Query.{finish}
use cli_pos.Edit.{is_up, is_down}
use cli_pos.Menu.Run.{start_main_menu}
use cli_pos.World.Double.{Double}
use cli_pos.World.Pqxx.{Pqxx}
use cli_pos.World.Sequence.{and_then_cong, and_then_assoc}
use cli_pos.World.State.{World, stock}
use cli_pos.World.Monad.{M, ◌>>=◌, ◌>>◌, and_then, return, when, with_world, key_esc, key_enter}
use cli_pos.Main.Keys.{
  Garbage, key_remove, key_add, key_tab, key_modify, key_scroll_up, key_scroll_down,
  key_enter_product, key_search, key_print, key_checkout, key_cursor_up, key_cursor_down, key_scan,
}
use cli_pos.Main.Show.{set_tab}
use cli_pos.Main.Loop.{handle_key, first_keys, last_keys}

-- A test of the key, with the handler that it guards.
pub record Binding (C D : Type 0) : Type 0 where
  pub hit : Bool
  pub handler : M C D (Unit {0})

module _ {C D : Type 0} where
  -- Every handler whose test holds, in their order, and what stands behind them.
  abbrev all_hits : List (Binding C D) → M C D (Unit {0}) → M C D (Unit {0})
  all_hits [] k = k
  all_hits (b ∷ bs) k = when b.hit b.handler >> all_hits bs k

  -- The handler of the first test that holds.
  abbrev pub first_hit : List (Binding C D) → M C D (Unit {0})
  first_hit [] = return tt
  first_hit (b ∷ bs) = if b.hit then b.handler else first_hit bs

  abbrev any_hit : List (Binding C D) → Bool
  any_hit [] = false
  any_hit (b ∷ bs) = b.hit || any_hit bs

  -- No two tests hold.
  abbrev Exclusive : List (Binding C D) → Type 0
  Exclusive [] = Unit {0}
  Exclusive (b ∷ bs) = (b.hit ≡ true → any_hit bs ≡ false) × Exclusive bs

  all_hits_cong :
      (bs : List (Binding C D)) (k k' : M C D (Unit {0}))
      → ((w : World C D) → k w ≡ k' w)
      → (w : World C D) → all_hits bs k w ≡ all_hits bs k' w
  all_hits_cong [] k k' h w = h w
  all_hits_cong (b ∷ bs) k k' h w =
      and_then_cong (when b.hit b.handler w) _ _ (λ _. all_hits_cong bs k k' h)

  all_hits_then :
      (bs : List (Binding C D)) (k k' : M C D (Unit {0})) (w : World C D)
      → and_then (all_hits bs k w) (λ _. k') ≡ all_hits bs (k >> k') w
  all_hits_then [] k k' w = refl
  all_hits_then (b ∷ bs) k k' w =
      and_then_assoc (when b.hit b.handler w) _ _
      ∙ and_then_cong (when b.hit b.handler w) _ _ (λ _. all_hits_then bs k k')

  no_hit_lem :
      (bs : List (Binding C D)) (k : M C D (Unit {0})) (w : World C D)
      → any_hit bs ≡ false
      → all_hits bs k w ≡ k w
  no_hit_lem [] k w e = refl
  no_hit_lem (b ∷ bs) k w e =
      let off : b.hit ≡ false = ground arith in rw off (no_hit_lem bs k w (ground arith))

  -- Where no two tests hold it does not matter that no `else` stands between them.
  all_hits-first_hit :
      (bs : List (Binding C D)) (k : M C D (Unit {0})) (w : World C D)
      → Exclusive bs
      → all_hits bs k w ≡ (first_hit bs >> k) w
  all_hits-first_hit [] k w x = refl
  all_hits-first_hit (b ∷ bs) k w (x, xs) = elim (Bool-cases b.hit) [
    | inl hit ↦ rw hit (and_then_cong (b.handler w) _ _ (λ _ w'. no_hit_lem bs k w' (x hit)))
    | inr miss ↦ rw miss (all_hits-first_hit bs k w xs)
  ]

module _ {C D : Type 0} ⦃d : Double D⦄ ⦃q : Pqxx C D⦄ where
  -- The keys before `/` in the loop, but for Enter, which is the last of them.
  abbrev eight_keys : List ℤ → ℕ → List (Binding C D)
  eight_keys list key =
      record { hit = key == key_esc; handler = start_main_menu }
      ∷ record { hit = key == b'R'; handler = key_remove list }
      ∷ record { hit = key == b'a'; handler = key_add list }
      ∷ record { hit = key == 9; handler = key_tab }
      ∷ record { hit = key == b'r'; handler = set_tab stock }
      ∷ record { hit = key == b'm'; handler = key_modify list }
      ∷ record { hit = key == b'w'; handler = key_scroll_up }
      ∷ record { hit = key == b's'; handler = key_scroll_down }
      ∷ []

  abbrev pub before_search : Garbage → List ℤ → ℕ → List (Binding C D)
  before_search g list key =
      eight_keys list key
      ++ (record { hit = key == key_enter; handler = key_enter_product g list } ∷ [])

  -- The keys behind it.
  abbrev pub behind_search : List ℤ → ℕ → List (Binding C D)
  behind_search list key =
      record { hit = key == b't'; handler = key_print }
      ∷ record { hit = key == b'T'; handler = key_checkout }
      ∷ record { hit = is_up key; handler = key_cursor_up }
      ∷ record { hit = is_down key; handler = key_cursor_down list }
      ∷ []

  -- The last test, with the prefix that the settings have by then, and the end of the transaction.
  abbrev pub scan_if_prefix : Garbage → ℕ → M C D (Unit {0})
  scan_if_prefix g key =
      with_world λ w. when (eq_ℤ (pos key) w.settings.barcode_prefix) (key_scan g)

module _ (C D : Type 0) ⦃d : Double D⦄ ⦃q : Pqxx C D⦄ where
  behind-Exclusive : (list : List ℤ) (key : ℕ) → Exclusive (behind_search {C = C} {D = D} list key)
  behind-Exclusive list key =
      ((λ e. ground arith), ((λ e. ground arith), ((λ e. ground arith), ((λ e. refl), tt))))

  all-Exclusive :
      (g : Garbage) (list : List ℤ) (key : ℕ)
      → Exclusive (before_search {C = C} {D = D} g list key ++ behind_search list key)
  all-Exclusive g list key = (
    (λ e. ground arith),
    (
      (λ e. ground arith),
      (
        (λ e. ground arith),
        (
          (λ e. ground arith),
          (
            (λ e. ground arith),
            (
              (λ e. ground arith),
              (
                (λ e. ground arith),
                ((λ e. ground arith), ((λ e. ground arith), behind-Exclusive list key)),
              ),
            ),
          ),
        ),
      ),
    ),
  )

  search_only :
      (g : Garbage) (list : List ℤ) → any_hit (before_search {C = C} {D = D} g list b'/') ≡ false
  search_only g list = refl

module _ {C D : Type 0} ⦃d : Double D⦄ ⦃q : Pqxx C D⦄ where
  last_keys_lem :
      (g : Garbage) (list : List ℤ) (key : ℕ) (w : World C D)
      → and_then (last_keys g list key w) (λ _. finish)
        ≡ all_hits (behind_search list key) (scan_if_prefix g key >> finish) w
  unfolding last_keys
  last_keys_lem g list key w =
      all_hits_then (behind_search list key) (scan_if_prefix g key) finish w

  -- For every key handle_key runs what one choice between the keys runs: `/` the search, and then what
  -- the key that the search leaves stands for among those behind it, any other key the one handler that
  -- it stands for. The test for the barcode prefix and the end of the transaction come last.
  pub handle_key_chooses :
      (g : Garbage) (product_codes list : List ℤ) (key : ℕ) (w : World C D)
      → handle_key g product_codes list key w
        ≡ (if key == b'/'
              then (key_search g product_codes key >>= λ key'.
                  first_hit (behind_search list key') >> (scan_if_prefix g key' >> finish))
              else (first_hit (before_search g list key ++ behind_search list key)
                  >> (scan_if_prefix g key >> finish)))
            w
  unfolding handle_key first_keys
  handle_key_chooses g product_codes list key w =
      let next : M C D ℕ = if key == b'/' then key_search g product_codes key else return key in
      let end : M C D (Unit {0}) = next >>= λ key'. last_keys g list key' >> finish in
      let first : handle_key g product_codes list key w
          ≡ all_hits (before_search g list key) end w =
        all_hits_then (eight_keys list key) (when (key == key_enter) (key_enter_product g list)) end
          w in
      let before = before_search g list key in
      first ∙ elim (Bool-cases (key == b'/')) [
        | inl e ↦
            no_hit_lem before end w (ground arith)
            ∙ rw e (
                and_then_cong (key_search g product_codes key w) _ _ (λ key' w'.
                  last_keys_lem g list key' w'
                  ∙ all_hits-first_hit (behind_search list key') (scan_if_prefix g key' >> finish)
                      w' (behind-Exclusive C D list key')))
        | inr e ↦ rw e (
            all_hits_cong before (last_keys g list key >> finish)
              (all_hits (behind_search list key) (scan_if_prefix g key >> finish))
              (last_keys_lem g list key) w
            ∙ all_hits-first_hit (before ++ behind_search list key) (scan_if_prefix g key >> finish)
                w (all-Exclusive C D g list key))
      ]
