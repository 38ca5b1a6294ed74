-- ===== src/Relay/Rows.antt =====
-- Tables of a database as lists of rows, with what the statements of internal/store/sqlite.go do to
-- them. A test picks the rows of a `WHERE` clause, or the row of a primary key.
use codewire.Base.{Bool, true, false, Option, none, some, List, [], ◌∷◌, leb, ◌==◌, if◌then◌else◌}
use codewire.Base.Text.{Text}

module _ {R : Type 0} where
  -- `SELECT COUNT(*) ... > 0`.
  unfoldable pub has_row : (R → Bool) → List R → Bool
  has_row test [] = false
  has_row test (x ∷ xs) = let rest = has_row test xs in if test x then true else rest

  -- `SELECT` of one row.
  unfoldable pub first_row : (R → Bool) → List R → Option R
  first_row test [] = none
  first_row test (x ∷ xs) = let rest = first_row test xs in if test x then some x else rest

  -- `SELECT` of rows.
  unfoldable pub rows_where : (R → Bool) → List R → List R
  rows_where test [] = []
  rows_where test (x ∷ xs) = let rest = rows_where test xs in if test x then x ∷ rest else rest

  -- `DELETE`.
  unfoldable pub delete_rows : (R → Bool) → List R → List R
  delete_rows test [] = []
  delete_rows test (x ∷ xs) = let rest = delete_rows test xs in if test x then rest else x ∷ rest

  -- `UPDATE`.
  unfoldable pub update_rows : (R → Bool) → (R → R) → List R → List R
  update_rows test f [] = []
  update_rows test f (x ∷ xs) =
      let rest = update_rows test f xs in (if test x then f x else x) ∷ rest

  -- `INSERT OR IGNORE`.
  unfoldable pub insert_or_ignore : (R → Bool) → R → List R → List R
  unfolding has_row
  insert_or_ignore test x xs = if has_row test xs then xs else x ∷ xs

  -- `INSERT ... ON CONFLICT DO UPDATE`.
  unfoldable pub upsert : (R → Bool) → (R → R) → R → List R → List R
  unfolding has_row update_rows
  upsert test f x xs = if has_row test xs then update_rows test f xs else x ∷ xs

  unfoldable pub insert_ordered : (R → R → Bool) → R → List R → List R
  insert_ordered before x [] = x ∷ []
  insert_ordered before x (y ∷ ys) =
      let rest = insert_ordered before x ys in if before y x then y ∷ rest else x ∷ y ∷ ys

  -- `ORDER BY`.
  unfoldable pub order_by : (R → R → Bool) → List R → List R
  unfolding insert_ordered
  order_by before [] = []
  order_by before (x ∷ xs) = insert_ordered before x (order_by before xs)

-- The order of texts, by their bytes.
unfoldable pub text_before : Text → Text → Bool
text_before [] t = true
text_before (c ∷ s) [] = false
text_before (c ∷ s) (d ∷ t) = let rest = text_before s t in if c == d then rest else leb c d
