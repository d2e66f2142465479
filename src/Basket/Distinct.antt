-- ===== src/Basket/Distinct.antt =====
-- The codes of the basket of src/main.cpp, and the operations that change them.
use cli_pos.Base.{
  ◌≡◌, refl, Bool, true, false, List, [], ◌∷◌, ◌++◌, arith, Bool-cases, inl, inr, if◌then◌else◌,
}
use cli_pos.Base.Int.{ℤ, eq_ℤ, eq_ℤ_iff}
use cli_pos.Fault.{Result, ok, err, undefined}
use cli_pos.Product.{Product}
use cli_pos.World.Double.{Double}
use cli_pos.World.State.{BasketProduct}
use cli_pos.Basket.{entry, add_from, add_product_to_basket, remove_one}
use cli_pos.Basket.Quantity.{Absent, IsDistinct, add_from-cons}

eq_ℤ_sym : (a b : ℤ) → eq_ℤ a b ≡ false → eq_ℤ b a ≡ false
eq_ℤ_sym a b h = ground (arith, eq_ℤ_iff a b, eq_ℤ_iff b a)

module _ {D : Type 0} where
  Absent-append :
      (c : ℤ) (xs : List (BasketProduct D)) (b : BasketProduct D)
      → Absent c xs
      → eq_ℤ b.code c ≡ false
      → Absent c (xs ++ (b ∷ []))
  Absent-append c [] b h k = (k, tt)
  Absent-append c (x ∷ xs) b h k = (h.0, Absent-append c xs b h.1 k)

  IsDistinct-append :
      (xs : List (BasketProduct D)) (b : BasketProduct D)
      → IsDistinct xs
      → Absent b.code xs
      → IsDistinct (xs ++ (b ∷ []))
  IsDistinct-append [] b h k = (tt, tt)
  IsDistinct-append (x ∷ xs) b h k =
      (Absent-append x.code xs b h.0 (eq_ℤ_sym x.code b.code k.0), IsDistinct-append xs b h.1 k.1)

-- The basket that the key leaves holds each code once; or the code was not in the basket.
abbrev pub DistinctOrMissing :
    {D : Type 0} → ℤ → List (BasketProduct D) → Result (List (BasketProduct D)) → Type 0
DistinctOrMissing code basket (ok r) = IsDistinct r
DistinctOrMissing code basket (err f) = (f ≡ undefined) × Absent code basket

abbrev AbsentOnSuccess : {D : Type 0} → ℤ → Result (List (BasketProduct D)) → Type 0
AbsentOnSuccess c (ok r) = Absent c r
AbsentOnSuccess c (err f) = Unit {0}

module _ {D : Type 0} ⦃d : Double D⦄ where
  Absent-add_from :
      (c code : ℤ) (q : D) (basket : List (BasketProduct D))
      → Absent c basket
      → Absent c (add_from false code q basket).1
  unfolding add_from
  Absent-add_from c code q [] h = tt
  Absent-add_from c code q (b ∷ basket) h = elim (Bool-cases (eq_ℤ b.code code)) [
    | inl e ↦ rw (e, add_from) h
    | inr e ↦ rw (e, add_from) (h.0, Absent-add_from c code q basket h.1)
  ]

  add_from-IsDistinct :
      (code : ℤ) (q : D) (basket : List (BasketProduct D))
      → IsDistinct basket
      → IsDistinct (add_from false code q basket).1
  unfolding add_from
  add_from-IsDistinct code q [] h = tt
  add_from-IsDistinct code q (b ∷ basket) h = elim (Bool-cases (eq_ℤ b.code code)) [
    | inl e ↦ rw (e, add_from) h
    | inr e ↦
        rw (e, add_from)
          (Absent-add_from b.code code q basket h.0, add_from-IsDistinct code q basket h.1)
  ]

  add_from-Absent :
      (code : ℤ) (q : D) (basket : List (BasketProduct D))
      → (add_from false code q basket).0 ≡ false
      → Absent code (add_from false code q basket).1
  unfolding add_from
  add_from-Absent code q [] h = tt
  add_from-Absent code q (b ∷ basket) h = elim (Bool-cases (eq_ℤ b.code code)) [
    | inl e ↦ absurd (let k : true ≡ false = rw (e, add_from) at h in cc)
    | inr e ↦ rw (e, add_from) (e, add_from-Absent code q basket (rw (e, add_from) at h))
  ]

  -- A round of the loop at an entry with another code.
  abbrev kept : BasketProduct D → Result (List (BasketProduct D)) → Result (List (BasketProduct D))
  kept b o = elim o [ ok rest ↦ ok (b ∷ rest) | err f ↦ err f ]

  kept-AbsentOnSuccess :
      (c : ℤ) (b : BasketProduct D) (o : Result (List (BasketProduct D)))
      → eq_ℤ b.code c ≡ false
      → AbsentOnSuccess c o
      → AbsentOnSuccess c (kept b o)
  kept-AbsentOnSuccess c b (ok r) h k = (h, k)
  kept-AbsentOnSuccess c b (err f) h k = tt

  Absent-less :
      (c : ℤ) (b : BasketProduct D) (q : D) (basket : List (BasketProduct D)) (gone : Bool)
      → Absent c (b ∷ basket)
      → Absent c (if gone then basket else entry b.code q ∷ basket)
  Absent-less c b q basket true h = h.1
  Absent-less c b q basket false h = h

  remove_one-AbsentOnSuccess :
      (c code : ℤ) (basket : List (BasketProduct D))
      → Absent c basket
      → AbsentOnSuccess c (remove_one code basket)
  unfolding remove_one
  remove_one-AbsentOnSuccess c code [] h = tt
  remove_one-AbsentOnSuccess c code (b ∷ basket) h = elim (Bool-cases (eq_ℤ b.code code)) [
    | inl e ↦ rw (e, remove_one) (Absent-less c b _ basket _ h)
    | inr e ↦
        rw (e, remove_one)
          (kept-AbsentOnSuccess c b _ h.0 (remove_one-AbsentOnSuccess c code basket h.1))
  ]

  IsDistinct-less :
      (b : BasketProduct D) (q : D) (basket : List (BasketProduct D)) (gone : Bool)
      → IsDistinct (b ∷ basket)
      → IsDistinct (if gone then basket else entry b.code q ∷ basket)
  IsDistinct-less b q basket true h = h.1
  IsDistinct-less b q basket false h = h

  kept-DistinctOrMissing :
      (code : ℤ) (b : BasketProduct D) (basket : List (BasketProduct D))
      (o : Result (List (BasketProduct D)))
      → eq_ℤ b.code code ≡ false
      → AbsentOnSuccess b.code o
      → DistinctOrMissing code basket o
      → DistinctOrMissing code (b ∷ basket) (kept b o)
  kept-DistinctOrMissing code b basket (ok r) e h k = (h, k)
  kept-DistinctOrMissing code b basket (err f) e h k = (k.0, (e, k.1))

  -- On a basket that holds each code once, the key `R` leaves a basket that does, unless the code is not
  -- in the basket, where it reads past the end.
  pub remove_one-DistinctOrMissing :
      (code : ℤ) (basket : List (BasketProduct D))
      → IsDistinct basket
      → DistinctOrMissing code basket (remove_one code basket)
  unfolding remove_one
  remove_one-DistinctOrMissing code [] h = (refl, tt)
  remove_one-DistinctOrMissing code (b ∷ basket) h = elim (Bool-cases (eq_ℤ b.code code)) [
    | inl e ↦ rw (e, remove_one) (IsDistinct-less b _ basket _ h)
    | inr e ↦
        rw (e, remove_one)
          (kept-DistinctOrMissing code b basket _ e
            (remove_one-AbsentOnSuccess b.code code basket h.0)
            (remove_one-DistinctOrMissing code basket h.1))
  ]

  put_last :
      (code : ℤ) (q : D) (basket : List (BasketProduct D)) (found : Bool)
      → (add_from false code q basket).0 ≡ found
      → IsDistinct basket
      → let r = add_from false code q basket in
        IsDistinct (if found then r.1 else r.1 ++ (entry code q ∷ []))
  put_last code q basket true e h = add_from-IsDistinct code q basket h
  put_last code q basket false e h =
      IsDistinct-append _ (entry code q) (add_from-IsDistinct code q basket h)
        (add_from-Absent code q basket e)

  -- A basket that holds each code once still does when a product is added.
  pub add-IsDistinct :
      (garbage : Bool) (p : Product D) (q : D) (basket : List (BasketProduct D))
      → IsDistinct basket
      → IsDistinct (add_product_to_basket garbage p q basket)
  unfolding add_product_to_basket add_from
  add-IsDistinct true p q [] h = tt
  add-IsDistinct false p q [] h = (tt, tt)
  add-IsDistinct garbage p q (b ∷ basket) h =
      rw (add_from-cons garbage p.code q b basket, add_product_to_basket)
        (put_last p.code q (b ∷ basket) _ refl h)
