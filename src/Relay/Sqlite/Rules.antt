-- ===== src/Relay/Sqlite/Rules.antt =====
-- Relay.Rows: the rows that statements leave.
use codewire.Base.{◌≡◌, refl, ◌∙◌, Bool, true, false, List, [], ◌∷◌, arith, if_cases, All}
use codewire.Relay.Rows.{has_row, delete_rows, update_rows, insert_or_ignore, upsert}

module _ {R : Type 0} where
  pub All-delete :
      (P : R → Type 0) (test : R → Bool) (xs : List R) → All P xs → All P (delete_rows test xs)
  unfolding delete_rows
  All-delete P test [] h = tt
  All-delete P test (x ∷ xs) h =
      if_cases (All P) (test x) (λ c. All-delete P test xs h.1)
        (λ c. (h.0, All-delete P test xs h.1))

  pub All-deleted :
      (test : R → Bool) (xs : List R) → All (λ x. test x ≡ false) (delete_rows test xs)
  unfolding delete_rows
  All-deleted test [] = tt
  All-deleted test (x ∷ xs) =
      if_cases (All (λ y. test y ≡ false)) (test x) (λ c. All-deleted test xs)
        (λ c. (c, All-deleted test xs))

  pub has_row_cons :
      (test : R → Bool) (x : R) (xs : List R)
      → has_row test xs ≡ true
      → has_row test (x ∷ xs) ≡ true
  unfolding has_row
  has_row_cons test x xs h = ground arith

  pub has_row_here :
      (test : R → Bool) (x : R) (xs : List R) → test x ≡ true → has_row test (x ∷ xs) ≡ true
  unfolding has_row
  has_row_here test x xs h = ground arith

  -- The rows of another test stay.
  pub has_row-delete :
      (test other : R → Bool) (xs : List R)
      → ((x : R) → test x ≡ true → other x ≡ false)
      → has_row test xs ≡ true
      → has_row test (delete_rows other xs) ≡ true
  unfolding has_row delete_rows
  has_row-delete test other [] apart h = cc
  has_row-delete test other (x ∷ xs) apart h =
      ground (arith, apart x, has_row-delete test other xs apart)

  pub has_row-update :
      (test other : R → Bool) (f : R → R) (xs : List R)
      → ((x : R) → test (f x) ≡ test x)
      → has_row test (update_rows other f xs) ≡ has_row test xs
  unfolding has_row update_rows
  has_row-update test other f [] same = refl
  has_row-update test other f (x ∷ xs) same =
      ground (arith, same x, has_row-update test other f xs same)

  pub All-update :
      (P : R → Type 0) (other : R → Bool) (f : R → R) (xs : List R)
      → ((x : R) → P x → P (f x))
      → All P xs
      → All P (update_rows other f xs)
  unfolding update_rows
  All-update P other f [] keeps h = tt
  All-update P other f (x ∷ xs) keeps h =
      (if_cases P (other x) (λ c. keeps x h.0) (λ c. h.0), All-update P other f xs keeps h.1)

  pub All-insert_or_ignore :
      (P : R → Type 0) (test : R → Bool) (x : R) (xs : List R)
      → P x
      → All P xs
      → All P (insert_or_ignore test x xs)
  unfolding insert_or_ignore
  All-insert_or_ignore P test x xs h k = if_cases (All P) (has_row test xs) (λ c. k) (λ c. (h, k))

  pub has_row-insert_or_ignore :
      (test other : R → Bool) (x : R) (xs : List R)
      → has_row test xs ≡ true
      → has_row test (insert_or_ignore other x xs) ≡ true
  unfolding insert_or_ignore
  has_row-insert_or_ignore test other x xs h =
      if_cases (λ ys. has_row test ys ≡ true) (has_row other xs) (λ c. h)
        (λ c. has_row_cons test x xs h)

  pub has_row_inserted :
      (test : R → Bool) (x : R) (xs : List R)
      → test x ≡ true
      → has_row test (insert_or_ignore test x xs) ≡ true
  unfolding insert_or_ignore
  has_row_inserted test x xs h =
      if_cases (λ ys. has_row test ys ≡ true) (has_row test xs) (λ c. c)
        (λ c. has_row_here test x xs h)

  pub has_row-upsert :
      (test other : R → Bool) (f : R → R) (x : R) (xs : List R)
      → ((y : R) → test (f y) ≡ test y)
      → has_row test xs ≡ true
      → has_row test (upsert other f x xs) ≡ true
  unfolding upsert
  has_row-upsert test other f x xs same h =
      if_cases (λ ys. has_row test ys ≡ true) (has_row other xs)
        (λ c. has_row-update test other f xs same ∙ h) (λ c. has_row_cons test x xs h)

  pub All-upsert :
      (P : R → Type 0) (other : R → Bool) (f : R → R) (x : R) (xs : List R)
      → ((y : R) → P y → P (f y))
      → P x
      → All P xs
      → All P (upsert other f x xs)
  unfolding upsert
  All-upsert P other f x xs keeps h k =
      if_cases (All P) (has_row other xs) (λ c. All-update P other f xs keeps k) (λ c. (h, k))
