-- ===== src/Helpers/Attestations/Indices.antt =====
-- The check that the indices of an attestation are in order, and who passes it.
use ethereum_consensus.Prelude.{
  ℕ, ◌≤◌, ◌<◌, ◌≡◌, ◌≢◌, ◌↔◌, refl, ap, sym, ◌∙◌, inl, inr, Bool, true, false, not, ◌||◌, List, [],
  ◌∷◌, ◌++◌, length, length-append, is_empty, arith, ltb, leb, ◌==◌, Bool-cases, le→ltb, ne→==,
}
use mathlib.Core.Path.{subst}
use ethereum_consensus.Prelude.Sets.{insert, contains}
use ethereum_consensus.Prelude.Sort.{insert_by, sort_by, sort}
use ethereum_consensus.Types.{
  ValidatorIndex, AttestationData, Attestation, IndexedAttestation, BeaconState,
}
use ethereum_consensus.Outcome.{ok, ok-injective, >>=-eq-ok, fail_if-eq-ok}
use ethereum_consensus.Action.{err≢ok}
use ethereum_consensus.Env.{Env}
use ethereum_consensus.Helpers.Committees.{get_beacon_committee}
use ethereum_consensus.Helpers.Attestations.{
  members_with_bit, scan_indices, check_indices, get_attesting_indices, get_indexed_attestation,
}

-- A list of indices in strictly increasing order, with at least one of them.
pub data IsIncreasing : List ValidatorIndex → Type 0 where
  last : (i : ValidatorIndex) → IsIncreasing (i ∷ [])
  before :
      {i j : ValidatorIndex} {js : List ValidatorIndex}
      → i < j
      → IsIncreasing (j ∷ js)
      → IsIncreasing (i ∷ j ∷ js)

length-insert : (a : ℕ) (xs : List ℕ) → length xs ≤ length (insert a xs)
unfolding insert
length-insert a xs = ground (arith, length-append xs (a ∷ []))

scan_indices-grows :
    (prev : ℕ) (xs duplicates : List ℕ) {r : List ℕ}
    → scan_indices prev xs duplicates ≡ ok r
    → length duplicates ≤ length r
unfolding scan_indices
scan_indices-grows prev [] duplicates h = ground arith
scan_indices-grows prev (x ∷ xs) duplicates h = elim (Bool-cases (ltb x prev)) [
  | inl wrong ↦ absurd (err≢ok (rw wrong at h))
  | inr right ↦
      let k = scan_indices-grows x xs _ (rw right at h) in
      ground (arith, length-insert x duplicates)
]

-- Without a duplicate at the end, the scan went up at every step.
scan_indices-increasing :
    (prev : ℕ) (xs : List ℕ) → scan_indices prev xs [] ≡ ok [] → IsIncreasing (prev ∷ xs)
unfolding scan_indices insert contains
scan_indices-increasing prev [] h = last prev
scan_indices-increasing prev (x ∷ xs) h = elim (Bool-cases (ltb x prev)) [
  | inl wrong ↦ absurd (err≢ok (rw wrong at h))
  | inr right ↦ elim (Bool-cases (x == prev)) [
    | inl same ↦ absurd (omega (arith, scan_indices-grows x xs (x ∷ []) (rw (right, same) at h)))
    | inr differ ↦ before (ground arith) (scan_indices-increasing x xs (rw (right, differ) at h))
  ]
]

increasing-scan :
    (prev : ℕ) (xs : List ℕ) → IsIncreasing (prev ∷ xs) → scan_indices prev xs [] ≡ ok []
unfolding scan_indices
increasing-scan prev [] h = refl
increasing-scan prev (x ∷ xs) (before lt h) =
    rw (le→ltb x prev (omega arith), ne→== x prev (omega arith)) (increasing-scan x xs h)

is_empty-nil : (xs : List ℕ) → not (is_empty xs) ≡ false → xs ≡ []
is_empty-nil [] h = refl
is_empty-nil (x ∷ xs) h = cc

-- `is_valid_indexed_attestation` finds nothing wrong with the order of the indices exactly if
-- there is one and they strictly increase.
pub check_indices_iff :
    (indices : List ValidatorIndex) → (check_indices indices ≡ ok tt) ↔ IsIncreasing indices
unfolding check_indices
check_indices_iff [] = (λ h. absurd (err≢ok h), λ h. elim h [ ])
check_indices_iff (first ∷ indices) = (
  λ h.
      let (duplicates, scanned, none_left) = >>=-eq-ok _ _ h in
      let empty = is_empty-nil duplicates (fail_if-eq-ok _ _ none_left) in
      scan_indices-increasing first indices (scanned ∙ ap ok empty),
  λ h. rw (increasing-scan first indices h) refl,
)

-- A list in which no index stands twice.
IsDistinct : List ℕ → Type 0
IsDistinct [] = Unit
IsDistinct (x ∷ xs) = (contains x xs ≡ false) × IsDistinct xs

contains-append : (a b : ℕ) (xs : List ℕ) → contains a (xs ++ b ∷ []) ≡ contains a xs || a == b
unfolding contains
contains-append a b [] = ground arith
contains-append a b (x ∷ xs) = ground (arith, contains-append a b xs)

append-IsDistinct :
    (a : ℕ) (xs : List ℕ) → contains a xs ≡ false → IsDistinct xs → IsDistinct (xs ++ a ∷ [])
unfolding contains IsDistinct
append-IsDistinct a [] h d = (refl, tt)
append-IsDistinct a (x ∷ xs) h (fresh, d) =
    (ground (arith, contains-append x a xs), append-IsDistinct a xs (ground arith) d)

insert-IsDistinct : (a : ℕ) (xs : List ℕ) → IsDistinct xs → IsDistinct (insert a xs)
unfolding insert
insert-IsDistinct a xs d = elim (Bool-cases (contains a xs)) [
  | inl old ↦ rw old d
  | inr new ↦ rw new (append-IsDistinct a xs new d)
]

members_with_bit-IsDistinct :
    (bits : List Bool) (committee indices : List ℕ)
    → IsDistinct indices
    → IsDistinct (members_with_bit bits committee indices)
unfolding members_with_bit
members_with_bit-IsDistinct [] committee indices d = d
members_with_bit-IsDistinct (bit ∷ bits) [] indices d = d
members_with_bit-IsDistinct (true ∷ bits) (member ∷ committee) indices d =
    members_with_bit-IsDistinct bits committee _ (insert-IsDistinct member indices d)
members_with_bit-IsDistinct (false ∷ bits) (member ∷ committee) indices d =
    members_with_bit-IsDistinct bits committee indices d

contains-insert_by :
    (a x : ℕ) (xs : List ℕ) → contains a (insert_by leb x xs) ≡ a == x || contains a xs
unfolding contains insert_by
contains-insert_by a x [] = ground arith
contains-insert_by a x (y ∷ ys) = ground (arith, contains-insert_by a x ys)

contains-sort : (a : ℕ) (xs : List ℕ) → contains a (sort_by leb xs) ≡ contains a xs
unfolding contains sort_by
contains-sort a [] = refl
contains-sort a (x ∷ xs) =
    contains-insert_by a x (sort_by leb xs) ∙ ap (λ b. a == x || b) (contains-sort a xs)

-- Inserting into the tail of a list keeps its head, which is below what is inserted.
insert_by-IsIncreasing :
    (x y : ℕ) (ys : List ℕ)
    → contains x (y ∷ ys) ≡ false
    → IsIncreasing (y ∷ ys)
    → IsIncreasing (insert_by leb x (y ∷ ys))
unfolding contains insert_by
insert_by-IsIncreasing x y [] h i = elim (Bool-cases (leb x y)) [
  | inl below ↦ rw below (before (ground arith) i)
  | inr above ↦ rw above (before (ground arith) (last x))
]
insert_by-IsIncreasing x y (z ∷ zs) h (before lt i) =
    let rest = insert_by-IsIncreasing x z zs (ground arith) i in
    elim (Bool-cases (leb x y)) [
      | inl below ↦ rw below (before (ground arith) (before lt i))
      | inr above ↦ rw above (elim (Bool-cases (leb x z)) [
        | inl below ↦ rw below (before (ground arith) (rw below at rest))
        | inr over ↦ rw over (before lt (rw over at rest))
      ])
    ]

sort_by-IsIncreasing :
    (x : ℕ) (xs : List ℕ) → IsDistinct (x ∷ xs) → IsIncreasing (sort_by leb (x ∷ xs))
unfolding sort_by IsDistinct insert_by
sort_by-IsIncreasing x [] d = last x
sort_by-IsIncreasing x (y ∷ ys) (fresh, d) =
    sorted_insert x (sort_by leb (y ∷ ys)) (contains-sort x (y ∷ ys) ∙ fresh)
      (sort_by-IsIncreasing y ys d)
  where
    sorted_insert :
        (x : ℕ) (xs : List ℕ)
        → contains x xs ≡ false
        → IsIncreasing xs
        → IsIncreasing (insert_by leb x xs)
    sorted_insert x [] fresh i = elim i [ ]
    sorted_insert x (y ∷ ys) fresh i = insert_by-IsIncreasing x y ys fresh i

sort-IsIncreasing :
    (xs : List ℕ) → IsDistinct xs → sort_by leb xs ≢ [] → IsIncreasing (sort_by leb xs)
unfolding sort_by
sort-IsIncreasing [] d some_one = absurd (some_one refl)
sort-IsIncreasing (x ∷ xs) d some_one = sort_by-IsIncreasing x xs d

module _ (env : Env) where
  get_attesting_indices-members :
      (d : AttestationData) (bits : List Bool) (s : BeaconState) {indices : List ValidatorIndex}
      → get_attesting_indices env d bits s ≡ ok indices
      → (committee : List ValidatorIndex) × (members_with_bit bits committee [] ≡ indices)
  unfolding get_attesting_indices
  get_attesting_indices-members d bits s h =
      let (committee, _, e) = >>=-eq-ok (get_beacon_committee env d.slot d.index s) _ h in
      elim (Bool-cases (not (length bits == length committee))) [
        | inl wrong ↦ absurd (err≢ok (rw wrong at e))
        | inr right ↦ (committee, ok-injective (rw right at e))
      ]

  -- If `get_indexed_attestation` returns for an attestation in which anyone takes part, the
  -- indices that it returns strictly increase, and so pass the check on their order that
  -- `is_valid_indexed_attestation` makes.
  pub get_indexed_attestation-check :
      (a : Attestation) (s : BeaconState) {indexed : IndexedAttestation}
      → get_indexed_attestation env a s ≡ ok indexed
      → indexed.attesting_indices ≢ []
      → IsIncreasing indexed.attesting_indices × (check_indices indexed.attesting_indices ≡ ok tt)
  unfolding get_indexed_attestation sort IsDistinct
  get_indexed_attestation-check a s {indexed} h some_one =
      let d = a.attestation_data in
      let (indices, e, made) = >>=-eq-ok (get_attesting_indices env d a.aggregation_bits s) _ h in
      let (committee, members) = get_attesting_indices-members d a.aggregation_bits s e in
      let distinct =
        subst IsDistinct members (members_with_bit-IsDistinct a.aggregation_bits committee [] tt) in
      let is_sorted : sort_by leb indices ≡ indexed.attesting_indices =
        ap (λ (r : IndexedAttestation). r.attesting_indices) (ok-injective made) in
      let increasing =
        subst IsIncreasing is_sorted
          (sort-IsIncreasing indices distinct (λ empty. some_one (sym is_sorted ∙ empty))) in
      (increasing, (check_indices_iff indexed.attesting_indices).1 increasing)
