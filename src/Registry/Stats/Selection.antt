-- ===== src/Registry/Stats/Selection.antt =====
-- Which mirrors the adaptive strategy selects.
use mathlib.Core.List.{Perm}
use mathlib.Core.List.Perm
use pulld.Base.{
  ℕ, zero, suc, ◌≡◌, refl, Bool, true, false, List, [], ◌∷◌, ◌++◌, map, length, take, drop, min,
  arith, Bool-cases, inl, inr, All, length-take,
}
use pulld.Text.{Text}
use pulld.Registry.Stats.{
  Float, Stats, Scored, score_from, insert_scored, sort_scored, select_adaptive,
  max_adaptive_mirrors,
}

-- What holds of the order of floating-point numbers: a NaN, which is no number, is less than nothing
-- and more than nothing, so only a number links what is not less.
pub record IsOrder (X : Float) : Type 0 where
  pub is_number : X.F → Bool
  pub asymmetric : (a b : X.F) → X.lt a b ≡ true → X.lt b a ≡ false
  pub not_lt_trans :
      (a b c : X.F) → is_number b ≡ true → X.lt a b ≡ false → X.lt b c ≡ false → X.lt a c ≡ false

module _ (X : Float) where
  insert_scored-perm : (x : Scored X) (ys : List (Scored X)) → Perm (insert_scored X x ys) (x ∷ ys)
  unfolding insert_scored
  insert_scored-perm x [] = Perm.refl _
  insert_scored-perm x (y ∷ ys) = elim (Bool-cases (X.lt x.1 y.1)) [
    | inl e ↦
        rw (e, insert_scored)
          (Perm.trans (Perm.cons y (insert_scored-perm x ys)) (Perm.swap x y ys))
    | inr e ↦ rw (e, insert_scored) (Perm.refl _)
  ]

  sort_scored-perm : (xs : List (Scored X)) → Perm (sort_scored X xs) xs
  unfolding sort_scored
  sort_scored-perm [] = Perm.refl _
  sort_scored-perm (x ∷ xs) =
      Perm.trans (insert_scored-perm x (sort_scored X xs)) (Perm.cons x (sort_scored-perm xs))

  -- No score in the list is higher than that of `x`.
  abbrev pub IsTop : Scored X → List (Scored X) → Type 0
  IsTop x ys = All (λ (y : Scored X). X.lt x.1 y.1 ≡ false) ys

  abbrev IsFalling : List (Scored X) → Type 0
  IsFalling [] = Unit
  IsFalling (x ∷ xs) = IsTop x xs × IsFalling xs

  module _ (O : IsOrder X) where
    -- The scores are numbers.
    abbrev pub AllNumbers : List (Scored X) → Type 0
    AllNumbers xs = All (λ (x : Scored X). O.is_number x.1 ≡ true) xs

    insert_scored-AllNumbers :
        (x : Scored X) (ys : List (Scored X))
        → O.is_number x.1 ≡ true
        → AllNumbers ys
        → AllNumbers (insert_scored X x ys)
    unfolding insert_scored
    insert_scored-AllNumbers x [] n h = (n, tt)
    insert_scored-AllNumbers x (y ∷ ys) n (p, h) = elim (Bool-cases (X.lt x.1 y.1)) [
      | inl e ↦ rw (e, insert_scored) (p, insert_scored-AllNumbers x ys n h)
      | inr e ↦ rw (e, insert_scored) (n, (p, h))
    ]

    sort_scored-AllNumbers : (xs : List (Scored X)) → AllNumbers xs → AllNumbers (sort_scored X xs)
    unfolding sort_scored
    sort_scored-AllNumbers [] h = tt
    sort_scored-AllNumbers (x ∷ xs) (n, h) =
        insert_scored-AllNumbers x (sort_scored X xs) n (sort_scored-AllNumbers xs h)

    IsTop-trans :
        (x y : Scored X) (zs : List (Scored X))
        → O.is_number y.1 ≡ true
        → X.lt x.1 y.1 ≡ false
        → IsTop y zs
        → IsTop x zs
    IsTop-trans x y [] n e h = tt
    IsTop-trans x y (z ∷ zs) n e (p, h) =
        (O.not_lt_trans x.1 y.1 z.1 n e p, IsTop-trans x y zs n e h)

    IsTop-insert_scored :
        (x y : Scored X) (zs : List (Scored X))
        → X.lt y.1 x.1 ≡ false
        → IsTop y zs
        → IsTop y (insert_scored X x zs)
    unfolding insert_scored
    IsTop-insert_scored x y [] e h = (e, tt)
    IsTop-insert_scored x y (z ∷ zs) e (p, h) = ground (arith, IsTop-insert_scored x y zs e h)

    insert_scored-IsFalling :
        (x : Scored X) (ys : List (Scored X))
        → AllNumbers ys
        → IsFalling ys
        → IsFalling (insert_scored X x ys)
    unfolding insert_scored
    insert_scored-IsFalling x [] n h = (tt, tt)
    insert_scored-IsFalling x (y ∷ ys) (n, ns) (top, h) = elim (Bool-cases (X.lt x.1 y.1)) [
      | inl e ↦
          rw (e, insert_scored)
            (
              IsTop-insert_scored x y ys (O.asymmetric x.1 y.1 e) top,
              insert_scored-IsFalling x ys ns h,
            )
      | inr e ↦ rw (e, insert_scored) ((e, IsTop-trans x y ys n e top), (top, h))
    ]

    sort_scored-IsFalling : (xs : List (Scored X)) → AllNumbers xs → IsFalling (sort_scored X xs)
    unfolding sort_scored
    sort_scored-IsFalling [] ns = tt
    sort_scored-IsFalling (x ∷ xs) (n, ns) =
        insert_scored-IsFalling x (sort_scored X xs) (sort_scored-AllNumbers xs ns)
          (sort_scored-IsFalling xs ns)

  IsTop-drop : (x : Scored X) (n : ℕ) (ys : List (Scored X)) → IsTop x ys → IsTop x (drop n ys)
  IsTop-drop x zero ys h = h
  IsTop-drop x (suc n) [] h = tt
  IsTop-drop x (suc n) (y ∷ ys) (p, h) = IsTop-drop x n ys h

  cut : (n : ℕ) (xs : List (Scored X)) → IsFalling xs → All (λ x. IsTop x (drop n xs)) (take n xs)
  cut zero xs h = tt
  cut (suc n) [] h = tt
  cut (suc n) (x ∷ xs) (top, h) = (IsTop-drop x n xs top, cut n xs h)

take-append-drop {ℓ} : {A : Type ℓ} (n : ℕ) (xs : List A) → take n xs ++ drop n xs ≡ xs
take-append-drop zero xs = refl
take-append-drop (suc n) [] = refl
take-append-drop (suc n) (x ∷ xs) = rw (take-append-drop n xs)

length-score_from :
    (X : Float) (stats : Stats X) (i : ℕ) (ms : List Text)
    → length (score_from X stats i ms) ≡ length ms
unfolding score_from
length-score_from X stats i [] = refl
length-score_from X stats i (m ∷ ms) = omega (arith, length-score_from X stats (suc i) ms)

length-insert_scored :
    (X : Float) (x : Scored X) (ys : List (Scored X))
    → length (insert_scored X x ys) ≡ suc (length ys)
unfolding insert_scored
length-insert_scored X x [] = refl
length-insert_scored X x (y ∷ ys) = ground (arith, length-insert_scored X x ys)

length-sort_scored : (X : Float) (xs : List (Scored X)) → length (sort_scored X xs) ≡ length xs
unfolding sort_scored
length-sort_scored X [] = refl
length-sort_scored X (x ∷ xs) =
    omega (arith, length-insert_scored X x (sort_scored X xs), length-sort_scored X xs)

-- Where every mirror's score is a number and no NaN, the mirrors with their scores fall into those that
-- are selected and the others: three are selected, or all where there are fewer, and no other mirror
-- has a higher score than one that is.
pub select_adaptive-best :
    (X : Float) (O : IsOrder X) (stats : Stats X) (mirrors : List Text)
    → AllNumbers X O (score_from X stats 0 mirrors)
    → (chosen : List (Scored X)) × (others : List (Scored X)) × (select_adaptive X stats mirrors
        ≡ map (λ x. x.0) chosen)
      × (length chosen ≡ min max_adaptive_mirrors (length mirrors))
      × Perm (chosen ++ others) (score_from X stats 0 mirrors)
      × All (λ x. IsTop X x others) chosen
unfolding select_adaptive
select_adaptive-best X O stats mirrors numbers =
    let scored = score_from X stats 0 mirrors in
    let n = min max_adaptive_mirrors (length mirrors) in
    (
      take n (sort_scored X scored),
      drop n (sort_scored X scored),
      refl,
      omega (
        arith,
        length-take {0} n (sort_scored X scored),
        length-sort_scored X scored,
        length-score_from X stats 0 mirrors,
      ),
      rw (take-append-drop n (sort_scored X scored)) (sort_scored-perm X scored),
      cut X n (sort_scored X scored) (sort_scored-IsFalling X O scored numbers),
    )
