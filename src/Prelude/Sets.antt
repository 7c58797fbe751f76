-- ===== src/Prelude/Sets.antt =====
-- `HashSet<usize>` as a list with no element twice, in the order of insertion. Where the source
-- goes over a set, the order is not specified.
use ethereum_consensus.Prelude.{
  ℕ, Bool, false, ◌||◌, List, [], ◌∷◌, ◌++◌, ◌==◌, if◌then◌else◌, filter,
}

unfoldable pub contains : ℕ → List ℕ → Bool
contains a [] = false
contains a (x ∷ xs) = a == x || contains a xs

unfoldable pub insert : ℕ → List ℕ → List ℕ
insert a xs = if contains a xs then xs else xs ++ a ∷ []

-- `HashSet::from_iter`, onto the elements that are there already.
unfoldable pub insert_all : List ℕ → List ℕ → List ℕ
insert_all [] set = set
insert_all (x ∷ xs) set = insert_all xs (insert x set)

unfoldable pub from_iter : List ℕ → List ℕ
from_iter xs = insert_all xs []

unfoldable pub intersection : List ℕ → List ℕ → List ℕ
intersection xs ys = filter (λ x. contains x ys) xs
