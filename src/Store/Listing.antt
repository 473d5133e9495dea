-- ===== src/Store/Listing.antt =====
-- The queries of the repositories that list rows: the rows of a table that pass a test, by id, and
-- then sorted by a key, as `ORDER BY key, id` does.
use whcms.Base.{
  ℕ, zero, suc, ◌≡◌, refl, Bool, true, false, Option, none, some, List, [], ◌∷◌, ◌++◌,
  if◌then◌else◌, ltb, leb, inl, inr, Bool-cases, arith, ◌==◌, any, is_empty, ◌≤◌, All, All-append,
  ◌||◌, ◌&&◌, ◌∙◌,
}

module _ {ℓ} {A : Type ℓ} where
  abbrev pub row_if : (A → Bool) → Option A → List A
  row_if p none = []
  row_if p (some x) = if p x then x ∷ [] else []

  -- The rows with an id below `n`, in the order of their ids.
  unfoldable pub rows_below : (ℕ → Option A) → (A → Bool) → ℕ → List A
  rows_below table p zero = []
  rows_below table p (suc n) = rows_below table p n ++ row_if p (table n)

  -- A row goes before the first one with a key at least its own.
  unfoldable pub insert_by : (A → ℕ) → A → List A → List A
  insert_by key x [] = x ∷ []
  insert_by key x (y ∷ rest) =
      let later = insert_by key x rest in if leb (key x) (key y) then x ∷ y ∷ rest else y ∷ later

  unfoldable pub sort_by : (A → ℕ) → List A → List A
  unfolding insert_by
  sort_by key [] = []
  sort_by key (x ∷ rest) = insert_by key x (sort_by key rest)

  any-append : (p : A → Bool) (xs ys : List A) → any p (xs ++ ys) ≡ (any p xs || any p ys)
  any-append p [] ys = refl
  any-append p (x ∷ xs) ys = ground (arith, any-append p xs ys)

  any-insert_by :
      (p : A → Bool) (key : A → ℕ) (x : A) (xs : List A)
      → any p (insert_by key x xs) ≡ (p x || any p xs)
  unfolding insert_by
  any-insert_by p key x [] = ground arith
  any-insert_by p key x (y ∷ xs) = ground (arith, any-insert_by p key x xs)

  -- Sorting loses no row and makes none up.
  pub any-sort_by : (p : A → Bool) (key : A → ℕ) (xs : List A) → any p (sort_by key xs) ≡ any p xs
  unfolding sort_by
  any-sort_by p key [] = refl
  any-sort_by p key (x ∷ xs) =
      ground (arith, any-insert_by p key x (sort_by key xs), any-sort_by p key xs)

  -- The row of an id passes the test.
  abbrev pub passes : (A → Bool) → Option A → Bool
  passes q none = false
  passes q (some x) = q x

  abbrev pub under : (A → ℕ) → ℕ → Option A → Bool
  under id k none = true
  under id k (some x) = id x == k

  any-row_if :
      (id : A → ℕ) (q : A → Bool) (k n : ℕ) (o : Option A)
      → under id n o ≡ true
      → any (λ x. id x == k) (row_if q o) ≡ (k == n && passes q o)
  any-row_if id q k n none h = ground arith
  any-row_if id q k n (some x) h = ground arith

  -- A row is listed exactly when its id is in use and it passes the test.
  pub any-rows_below :
      (id : A → ℕ) (table : ℕ → Option A) (q : A → Bool) (k n : ℕ)
      → ((j : ℕ) → under id j (table j) ≡ true)
      → any (λ x. id x == k) (rows_below table q n) ≡ (ltb k n && passes q (table k))
  unfolding rows_below
  any-rows_below id table q k zero h = ground arith
  any-rows_below id table q k (suc n) h =
      any-append (λ x. id x == k) (rows_below table q n) (row_if q (table n))
      ∙ (let here = any-row_if id q k n (table n) (h n) in
          let below = any-rows_below id table q k n h in
          elim (Bool-cases (k == n)) [
            | inl e ↦
                let same_id : k ≡ n = ground arith in rw (below, here) (rw same_id (ground arith))
            | inr e ↦ ground (arith, here, below, e)
          ])

  All-insert_by {κ} :
      (P : A → Type κ) (key : A → ℕ) (x : A) (xs : List A)
      → P x
      → All P xs
      → All P (insert_by key x xs)
  unfolding insert_by
  All-insert_by P key x [] h k = (h, tt)
  All-insert_by P key x (y ∷ xs) h k =
      let later = All-insert_by P key x xs h k.1 in
      elim (Bool-cases (leb (key x) (key y))) [ inl e ↦ rw e (h, k) | inr e ↦ rw e (k.0, later) ]

  All-sort_by {κ} : (P : A → Type κ) (key : A → ℕ) (xs : List A) → All P xs → All P (sort_by key xs)
  unfolding sort_by
  All-sort_by P key [] h = tt
  All-sort_by P key (x ∷ xs) h =
      All-insert_by P key x (sort_by key xs) h.0 (All-sort_by P key xs h.1)

  All-row_if : (q : A → Bool) (o : Option A) → All (λ x. q x ≡ true) (row_if q o)
  All-row_if q none = tt
  All-row_if q (some x) = elim (Bool-cases (q x)) [ inl e ↦ rw e (e, tt) | inr e ↦ rw e tt ]

  All-rows_below :
      (table : ℕ → Option A) (q : A → Bool) (n : ℕ) → All (λ x. q x ≡ true) (rows_below table q n)
  unfolding rows_below
  All-rows_below table q zero = tt
  All-rows_below table q (suc n) =
      All-append (λ x. q x ≡ true) (rows_below table q n) (row_if q (table n))
        (All-rows_below table q n) (All-row_if q (table n))

  -- Every listed row passes the test.
  pub listed-All :
      (key : A → ℕ) (table : ℕ → Option A) (q : A → Bool) (n : ℕ)
      → All (λ x. q x ≡ true) (sort_by key (rows_below table q n))
  listed-All key table q n =
      All-sort_by (λ x. q x ≡ true) key (rows_below table q n) (All-rows_below table q n)

  -- The first row of `ys`, if there is one, has the least key of `xs`.
  abbrev pub HeadLeast : (A → ℕ) → List A → List A → Type 0
  HeadLeast key [] xs = is_empty xs ≡ true
  HeadLeast key (y ∷ rest) xs = All (λ x. key y ≤ key x) xs

  All-le_trans :
      (key : A → ℕ) (a b : ℕ) (xs : List A)
      → a ≤ b
      → All (λ x. b ≤ key x) xs
      → All (λ x. a ≤ key x) xs
  All-le_trans key a b [] h k = tt
  All-le_trans key a b (x ∷ xs) h k = (omega arith, All-le_trans key a b xs h k.1)

  insert_by-HeadLeast :
      (key : A → ℕ) (x : A) (ys xs : List A)
      → HeadLeast key ys xs
      → HeadLeast key (insert_by key x ys) (x ∷ xs)
  unfolding insert_by
  insert_by-HeadLeast key x [] [] h = (omega arith, tt)
  insert_by-HeadLeast key x [] (y ∷ xs) h = cc
  insert_by-HeadLeast key x (y ∷ rest) xs h = elim (Bool-cases (leb (key x) (key y))) [
    | inl e ↦ rw e (omega arith, All-le_trans key (key x) (key y) xs (ground arith) h)
    | inr e ↦ rw e (ground arith, h)
  ]

  -- The first of the sorted rows has the least key.
  pub sort_by-HeadLeast : (key : A → ℕ) (xs : List A) → HeadLeast key (sort_by key xs) xs
  unfolding sort_by
  sort_by-HeadLeast key [] = refl
  sort_by-HeadLeast key (x ∷ xs) =
      insert_by-HeadLeast key x (sort_by key xs) xs (sort_by-HeadLeast key xs)
