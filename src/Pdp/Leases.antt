-- ===== src/Pdp/Leases.antt =====
-- apps/api/src/pdp/transmission.service.ts: which rows a claim takes, and for how long nobody else
-- takes them.
use validateur_facturx.Common.{
  ℕ, zero, suc, ◌+◌, ◌≤◌, ◌≡◌, refl, sym, ap, arith, Bool, true, false, List, [], ◌∷◌, ◌++◌, map,
  All, length, take, drop, keep, Bool-cases, inl, inr, take-append-drop, All-take, All-drop,
}
use validateur_facturx.Common.Sorting.{
  sort_by, sort_by-All, IsSorted, sort_by-IsSorted, sort_by-perm,
}
use validateur_facturx.Common.Text.{Text, includes}
use validateur_facturx.Pdp.Store.{Transmission}
use validateur_facturx.Pdp.Queue.{
  is_due, due_time, selected, claim, stamp, stamp_rows, id_of, claim_lease_ms,
}
use mathlib.Core.Path.{subst}
use mathlib.Core.List.{Perm}

keep-All : (q : Transmission → Bool) (ts : List Transmission) → All (λ t. q t ≡ true) (keep q ts)
keep-All q [] = tt
keep-All q (t ∷ ts) = elim (Bool-cases (q t)) [
  | inl e ↦ rw e (e, keep-All q ts)
  | inr e ↦ rw e (keep-All q ts)
]

pub selected-All :
    (limit now : ℕ) (locked : List Text) (ts : List Transmission)
    → All (λ t. is_due now locked t ≡ true) (selected limit now locked ts)
unfolding selected
selected-All limit now locked ts =
    All-take (λ t. is_due now locked t ≡ true) limit
      (sort_by due_time (keep (is_due now locked) ts))
      (sort_by-All due_time (λ t. is_due now locked t ≡ true) (keep (is_due now locked) ts)
        (keep-All (is_due now locked) ts))

-- Every due time in the first list is no later than any in the second.
pub Before : List Transmission → List Transmission → Type 0
Before [] us = Unit
Before (t ∷ ts) us = All (λ u. due_time t ≤ due_time u) us × Before ts us

take-Before :
    (n : ℕ) (ts : List Transmission) → IsSorted due_time ts → Before (take n ts) (drop n ts)
unfolding IsSorted Before
take-Before zero ts h = tt
take-Before (suc n) [] h = tt
take-Before (suc n) (t ∷ ts) (p, h) =
    (All-drop (λ u. due_time t ≤ due_time u) n ts p, take-Before n ts h)

length-take_le : (n : ℕ) (ts : List Transmission) → length (take n ts) ≤ n
length-take_le zero ts = omega arith
length-take_le (suc n) [] = omega arith
length-take_le (suc n) (t ∷ ts) = omega (arith, length-take_le n ts)

length-take_full :
    (n : ℕ) (ts : List Transmission) → 1 ≤ length (drop n ts) → length (take n ts) ≡ n
length-take_full zero ts h = refl
length-take_full (suc n) [] h = absurd (omega arith)
length-take_full (suc n) (t ∷ ts) h = omega (arith, length-take_full n ts h)

-- The claimed rows and what is left over are together the due rows: those that are `PENDING`, whose
-- time has come, without a live lease and not locked. The claimed rows are the earliest, at most as
-- many as the limit, and rows are left over only when the limit is reached.
pub selected_sound :
    (limit now : ℕ) (locked : List Text) (ts : List Transmission)
    → (rest : List Transmission) × Perm
        (keep (is_due now locked) ts)
        (selected limit now locked ts ++ rest)
      × Before (selected limit now locked ts) rest
      × (length (selected limit now locked ts) ≤ limit)
      × (1 ≤ length rest → length (selected limit now locked ts) ≡ limit)
unfolding selected
selected_sound limit now locked ts =
    let sorted = sort_by due_time (keep (is_due now locked) ts) in
    (
      drop limit sorted,
      subst (Perm (keep (is_due now locked) ts)) (sym (take-append-drop limit sorted))
          (sort_by-perm due_time (keep (is_due now locked) ts)),
      take-Before limit sorted (sort_by-IsSorted due_time (keep (is_due now locked) ts)),
      length-take_le limit sorted,
      length-take_full limit sorted,
    )

module _ (P : Transmission → Type 0) where
  All-keep :
      (q : Transmission → Bool) (ts : List Transmission)
      → All (λ t. q t ≡ true → P t) ts
      → All P (keep q ts)
  All-keep q [] h = tt
  All-keep q (t ∷ ts) (p, h) = elim (Bool-cases (q t)) [
    | inl e ↦ rw e (p e, All-keep q ts h)
    | inr e ↦ rw e (All-keep q ts h)
  ]

  All-map :
      (f : Transmission → Transmission) (ts : List Transmission)
      → All (λ t. P (f t)) ts
      → All P (map f ts)
  All-map f [] h = tt
  All-map f (t ∷ ts) (p, h) = (p, All-map f ts h)

-- A stamped row is not due again while its lease runs.
stamped_not_due :
    (ids : List Text) (worker : Text) (now now2 : ℕ) (locked : List Text) (ts : List Transmission)
    → now2 ≤ now + claim_lease_ms
    → All
        (λ t. is_due now2 locked t ≡ true → includes ids t.id ≡ false)
        (stamp_rows ids worker now ts)
stamped_not_due ids worker now now2 locked [] h = tt
stamped_not_due ids worker now now2 locked (t ∷ ts) h = elim (Bool-cases (includes ids t.id)) [
  | inl e ↦ rw e (ground arith, stamped_not_due ids worker now now2 locked ts h)
  | inr e ↦ rw e ((λ _. e), stamped_not_due ids worker now now2 locked ts h)
]

map-id_of-stamp :
    (worker : Text) (now : ℕ) (ts : List Transmission)
    → map id_of (map (stamp worker now) ts) ≡ map id_of ts
map-id_of-stamp worker now [] = refl
map-id_of-stamp worker now (t ∷ ts) = ap (λ r. t.id ∷ r) (map-id_of-stamp worker now ts)

-- A row that one worker has claimed is not claimed again, by any worker, on the table that the first
-- claim has left, until five minutes have passed.
pub claim_exclusive :
    (worker worker2 : Text) (limit limit2 now now2 : ℕ) (locked locked2 : List Text)
    (ts : List Transmission)
    → now2 ≤ now + claim_lease_ms
    → let first = claim worker limit now locked ts in
      let second = claim worker2 limit2 now2 locked2 first.1 in
      All (λ t. includes (map id_of first.0) t.id ≡ false) second.0
unfolding claim selected
claim_exclusive worker worker2 limit limit2 now now2 locked locked2 ts h =
    let rows = selected limit now locked ts in
    let ids = map id_of rows in
    let P : Transmission → Type 0 = λ t. includes ids t.id ≡ false in
    let table = stamp_rows ids worker now ts in
    rw (map-id_of-stamp worker now rows) (
      All-map P (stamp worker2 now2) (selected limit2 now2 locked2 table) (
        All-take P limit2 (sort_by due_time (keep (is_due now2 locked2) table)) (
          sort_by-All due_time P (keep (is_due now2 locked2) table) (
            All-keep P (is_due now2 locked2) table
              (stamped_not_due ids worker now now2 locked2 ts h)))))
