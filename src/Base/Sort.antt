-- ===== src/Base/Sort.antt =====
-- A stable sort by a total order, as `sort_by` and `sort_by_key` are: sorted, and the same elements.
use dummy_benchmark.Base.{
  ◌≡◌, inl, inr, ◌↔◌, Bool, true, false, List, [], ◌∷◌, if◌then◌else◌, Bool-cases,
}

-- `x` is an element of the list.
pub data Among {ℓ} {A : Type ℓ} (x : A) : List A → Type ℓ where
  first : {y : A} {ys : List A} → x ≡ y → Among x (y ∷ ys)
  later : {y : A} {ys : List A} → Among x ys → Among x (y ∷ ys)

module _ {ℓ} {A : Type ℓ} {z : A} where
  pub Among-cons :
      (x : A) (xs ys : List A) → (Among z xs → Among z ys) → Among z (x ∷ xs) → Among z (x ∷ ys)
  Among-cons x xs ys f (first e) = first e
  Among-cons x xs ys f (later m) = later (f m)

  Among-swap : (x y : A) (ys : List A) → Among z (x ∷ y ∷ ys) → Among z (y ∷ x ∷ ys)
  Among-swap x y ys (first e) = later (first e)
  Among-swap x y ys (later (first e)) = first e
  Among-swap x y ys (later (later m)) = later (later m)

module _ {ℓ} {A : Type ℓ} (le : A → A → Bool) where
  -- In front of the first element that is not less.
  unfoldable pub insert_by : A → List A → List A
  insert_by x [] = x ∷ []
  insert_by x (y ∷ ys) = let rest = insert_by x ys in if le x y then x ∷ y ∷ ys else y ∷ rest

  unfoldable pub sort_by : List A → List A
  unfolding insert_by
  sort_by [] = []
  sort_by (x ∷ xs) = insert_by x (sort_by xs)

  -- `x` is at most the head, if there is one.
  abbrev pub LeHead : A → List A → Type 0
  LeHead x [] = Unit
  LeHead x (y ∷ ys) = le x y ≡ true

  -- Each element is at most the next.
  abbrev pub IsSortedBy : List A → Type 0
  IsSortedBy [] = Unit
  IsSortedBy (x ∷ xs) = LeHead x xs × IsSortedBy xs

  LeHead-insert_by :
      (y x : A) (ys : List A) → le y x ≡ true → LeHead y ys → LeHead y (insert_by x ys)
  unfolding insert_by
  LeHead-insert_by y x [] le_x h = le_x
  LeHead-insert_by y x (z ∷ zs) le_x h = elim (Bool-cases (le x z)) [
    | inl e ↦ rw (e) le_x
    | inr e ↦ rw (e) h
  ]

  module _ (total : (x y : A) → le x y ≡ false → le y x ≡ true) where
    insert_by-IsSortedBy : (x : A) (ys : List A) → IsSortedBy ys → IsSortedBy (insert_by x ys)
    unfolding insert_by
    insert_by-IsSortedBy x [] h = (tt, tt)
    insert_by-IsSortedBy x (y ∷ ys) h = elim (Bool-cases (le x y)) [
      | inl e ↦ rw (e) (e, h)
      | inr e ↦ rw (e) (LeHead-insert_by y x ys (total x y e) h.0, insert_by-IsSortedBy x ys h.1)
    ]

    pub sort_by-IsSortedBy : (xs : List A) → IsSortedBy (sort_by xs)
    unfolding sort_by
    sort_by-IsSortedBy [] = tt
    sort_by-IsSortedBy (x ∷ xs) = insert_by-IsSortedBy x (sort_by xs) (sort_by-IsSortedBy xs)

  Among-insert_by : (z x : A) (ys : List A) → Among z (insert_by x ys) → Among z (x ∷ ys)
  unfolding insert_by
  Among-insert_by z x [] h = h
  Among-insert_by z x (y ∷ ys) h =
      let ih = Among-insert_by z x ys in
      elim (Bool-cases (le x y)) [
        | inl e ↦ rw e at h
        | inr e ↦ Among-swap y x ys (Among-cons y (insert_by x ys) (x ∷ ys) ih (rw e at h))
      ]

  insert_by-Among : (z x : A) (ys : List A) → Among z (x ∷ ys) → Among z (insert_by x ys)
  unfolding insert_by
  insert_by-Among z x [] h = h
  insert_by-Among z x (y ∷ ys) h =
      let ih = insert_by-Among z x ys in
      elim (Bool-cases (le x y)) [
        | inl e ↦ rw (e) h
        | inr e ↦ rw (e) (Among-cons y (x ∷ ys) (insert_by x ys) ih (Among-swap x y ys h))
      ]

  -- The sort keeps the elements.
  pub Among-sort_by : (z : A) (xs : List A) → Among z (sort_by xs) ↔ Among z xs
  unfolding sort_by
  Among-sort_by z [] = (λ h. h, λ h. h)
  Among-sort_by z (x ∷ xs) =
      let ih = Among-sort_by z xs in
      (
        λ h. Among-cons x (sort_by xs) xs ih.0 (Among-insert_by z x (sort_by xs) h),
        λ h. insert_by-Among z x (sort_by xs) (Among-cons x xs (sort_by xs) ih.1 h),
      )
