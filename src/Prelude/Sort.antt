-- ===== src/Prelude/Sort.antt =====
-- The sorts of the standard library: a stable sort by a test for `≤`.
use ethereum_consensus.Prelude.{ℕ, Bool, List, [], ◌∷◌, leb, if◌then◌else◌}

module _ {A : Type 0} (le : A → A → Bool) where
  unfoldable pub insert_by : A → List A → List A
  insert_by x [] = x ∷ []
  insert_by x (y ∷ ys) = if le x y then x ∷ y ∷ ys else y ∷ insert_by x ys

  unfoldable pub sort_by : List A → List A
  sort_by [] = []
  sort_by (x ∷ xs) = insert_by x (sort_by xs)

-- `sort_unstable` on indices, which cannot be told from a stable sort.
unfoldable pub sort : List ℕ → List ℕ
sort = sort_by leb
