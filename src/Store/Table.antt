-- ===== src/Store/Table.antt =====
-- Statements on a table as a list of rows, and the view of a table as a partial map of its key.
use telemux.Base.{
  ℕ, ◌+◌, ◌≤◌, String, Bool, not, Option, none, some, List, [], ◌∷◌, ◌==◌, string_eq, if◌then◌else◌,
  keep,
}

module _ {R : Type 0} where
  -- UPDATE … SET f WHERE p
  unfoldable pub set_where : (R → Bool) → (R → R) → List R → List R
  set_where p f [] = []
  set_where p f (r ∷ rs) = (if p r then f r else r) ∷ set_where p f rs

  -- The number of rows that a WHERE clause fits.
  unfoldable pub affected : (R → Bool) → List R → ℕ
  affected p [] = 0
  affected p (r ∷ rs) = (if p r then 1 else 0) + affected p rs

  -- DELETE … WHERE p
  unfoldable pub delete_where : (R → Bool) → List R → List R
  delete_where p rs = keep (λ r. not (p r)) rs

  -- ORDER BY: `before a b` where `a` may stand before `b`.
  unfoldable pub insert_sorted : (R → R → Bool) → R → List R → List R
  insert_sorted before r [] = r ∷ []
  insert_sorted before r (s ∷ rs) =
      let rest = insert_sorted before r rs in if before r s then r ∷ s ∷ rs else s ∷ rest

  unfoldable pub order_by : (R → R → Bool) → List R → List R
  order_by before [] = []
  order_by before (r ∷ rs) = insert_sorted before r (order_by before rs)

module _ {R : Type 0} (key : R → String) where
  abbrev pub has_key : String → R → Bool
  has_key k r = k == key r

  abbrev pub with_key : String → List R → ℕ
  with_key k rs = affected (has_key k) rs

  -- The first row of a key.
  unfoldable pub find : String → List R → Option R
  find k [] = none
  find k (r ∷ rs) = if k == key r then some r else find k rs

  -- The constraint UNIQUE.
  abbrev pub IsUnique : List R → Type 0
  IsUnique rs = (k : String) → with_key k rs ≤ 1
