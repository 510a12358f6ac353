-- ===== src/SortedMap.antt =====
-- `std::map<uint32_t, V>` as LAB6/client.cpp uses it: the entries in the order of their keys.
use comp_net.Prelude.{
  length, suc, ◌≤◌, ℕ, ◌<◌, ◌≡◌, refl, subst, inl, inr, false, Option, none, some, List, [], ◌∷◌,
  arith, ltb, ◌==◌, if◌then◌else◌, ltb→lt, ==_iff, Bool-cases, All, All-map,
}

abbrev pub Map {ℓ} : Type ℓ → Type ℓ
Map V = List (ℕ × V)

-- `find`.
unfoldable pub find {ℓ} : {V : Type ℓ} → ℕ → Map V → Option V
find k [] = none
find k (e ∷ m) = if e.0 == k then some e.1 else find k m

-- `m[k] = v`.
unfoldable pub insert {ℓ} : {V : Type ℓ} → ℕ → V → Map V → Map V
insert k v [] = (k, v) ∷ []
insert k v (e ∷ m) =
    let rest = insert k v m in
    if ltb k e.0 then (k, v) ∷ e ∷ m else if e.0 == k then (k, v) ∷ m else e ∷ rest

-- `erase`.
unfoldable pub erase {ℓ} : {V : Type ℓ} → ℕ → Map V → Map V
erase k [] = []
erase k (e ∷ m) = let rest = erase k m in if e.0 == k then m else e ∷ rest

-- A write through the iterator that `find` gives, if it gives one.
unfoldable pub adjust {ℓ} : {V : Type ℓ} → ℕ → (V → V) → Map V → Map V
adjust k f [] = []
adjust k f (e ∷ m) = let rest = adjust k f m in if e.0 == k then (e.0, f e.1) ∷ m else e ∷ rest

-- The keys increase.
abbrev pub IsSorted {ℓ} : {V : Type ℓ} → Map V → Type 0
IsSorted [] = Unit
IsSorted (e ∷ m) = All (λ e'. e.0 < e'.0) m × IsSorted m

pub find-insert {ℓ} : {V : Type ℓ} (k : ℕ) (v : V) (m : Map V) → find k (insert k v m) ≡ some v
unfolding find insert
find-insert k v [] = ground arith
find-insert k v (e ∷ m) = ground (arith, find-insert k v m)

pub find-insert_other {ℓ} :
    {V : Type ℓ} (k k' : ℕ) (v : V) (m : Map V)
    → (k == k') ≡ false
    → find k' (insert k v m) ≡ find k' m
unfolding find insert
find-insert_other k k' v [] h = ground arith
find-insert_other k k' v (e ∷ m) h = ground (arith, find-insert_other k k' v m h)

pub find_above {ℓ} : {V : Type ℓ} (k : ℕ) (m : Map V) → All (λ e'. k < e'.0) m → find k m ≡ none
unfolding find
find_above k [] h = refl
find_above k (e ∷ m) (h, hs) = ground (arith, find_above k m hs)

pub find-erase {ℓ} : {V : Type ℓ} (k : ℕ) (m : Map V) → IsSorted m → find k (erase k m) ≡ none
unfolding find erase
find-erase k [] h = refl
find-erase k (e ∷ m) (above, h) = elim (Bool-cases (e.0 == k)) [
  | inl same ↦
      rw same (find_above k m (subst (λ k. All (λ e'. k < e'.0) m) ((==_iff e.0 k).0 same) above))
  | inr other ↦ rw (other, find, other) (find-erase k m h)
]

pub find-erase_other {ℓ} :
    {V : Type ℓ} (k k' : ℕ) (m : Map V) → (k == k') ≡ false → find k' (erase k m) ≡ find k' m
unfolding find erase
find-erase_other k k' [] h = refl
find-erase_other k k' (e ∷ m) h = ground (arith, find-erase_other k k' m h)

pub find-adjust {ℓ} :
    {V : Type ℓ} (k : ℕ) (f : V → V) (v : V) (m : Map V)
    → find k m ≡ some v
    → find k (adjust k f m) ≡ some (f v)
unfolding find adjust
find-adjust k f v [] h = ground arith
find-adjust k f v (e ∷ m) h = elim (Bool-cases (e.0 == k)) [
  | inl same ↦ ground (arith, h)
  | inr other ↦ rw (other, find, other) (find-adjust k f v m (ground arith))
]

pub adjust-none {ℓ} :
    {V : Type ℓ} (k : ℕ) (f : V → V) (m : Map V) → find k m ≡ none → adjust k f m ≡ m
unfolding find adjust
adjust-none k f [] h = refl
adjust-none k f (e ∷ m) h = ground (arith, h, adjust-none k f m)

-- Every entry, with its key.
abbrev pub AllEntries {ℓ κ} : {V : Type ℓ} → (ℕ → V → Type κ) → Map V → Type κ
AllEntries P = All (λ e. P e.0 e.1)

pub insert-AllEntries {ℓ κ} :
    {V : Type ℓ} (P : ℕ → V → Type κ) (k : ℕ) (v : V) (m : Map V)
    → P k v
    → AllEntries P m
    → AllEntries P (insert k v m)
unfolding insert
insert-AllEntries P k v [] p h = (p, tt)
insert-AllEntries P k v (e ∷ m) p (q, h) = elim (Bool-cases (ltb k e.0)) [
  | inl low ↦ rw low (p, (q, h))
  | inr not_low ↦ elim (Bool-cases (e.0 == k)) [
    | inl same ↦ rw (not_low, same) (p, h)
    | inr other ↦ rw (not_low, other) (q, insert-AllEntries P k v m p h)
  ]
]

pub erase-AllEntries {ℓ κ} :
    {V : Type ℓ} (P : ℕ → V → Type κ) (k : ℕ) (m : Map V)
    → AllEntries P m
    → AllEntries P (erase k m)
unfolding erase
erase-AllEntries P k [] h = tt
erase-AllEntries P k (e ∷ m) (q, h) = elim (Bool-cases (e.0 == k)) [
  | inl same ↦ rw same h
  | inr other ↦ rw other (q, erase-AllEntries P k m h)
]

pub adjust-AllEntries {ℓ κ} :
    {V : Type ℓ} (P : ℕ → V → Type κ) (k : ℕ) (f : V → V) (m : Map V)
    → ((k : ℕ) (v : V) → P k v → P k (f v))
    → AllEntries P m
    → AllEntries P (adjust k f m)
unfolding adjust
adjust-AllEntries P k f [] g h = tt
adjust-AllEntries P k f (e ∷ m) g (q, h) = elim (Bool-cases (e.0 == k)) [
  | inl same ↦ rw same (g e.0 e.1 q, h)
  | inr other ↦ rw other (q, adjust-AllEntries P k f m g h)
]

pub insert-IsSorted {ℓ} :
    {V : Type ℓ} (k : ℕ) (v : V) (m : Map V) → IsSorted m → IsSorted (insert k v m)
unfolding insert
insert-IsSorted k v [] h = (tt, tt)
insert-IsSorted k v (e ∷ m) (above, h) = elim (Bool-cases (ltb k e.0)) [
  | inl low ↦ rw low (
    (
      ltb→lt k e.0 low,
      All-map (λ e'. e.0 < e'.0) (λ e'. k < e'.0) m (λ e' p. omega (arith, ltb→lt k e.0 low)) above,
    ),
    (above, h),
  )
  | inr not_low ↦ elim (Bool-cases (e.0 == k)) [
    | inl same ↦
        rw (not_low, same) (subst (λ k. All (λ e'. k < e'.0) m) ((==_iff e.0 k).0 same) above, h)
    | inr other ↦
        rw (not_low, other)
          (insert-AllEntries (λ k' _. e.0 < k') k v m (ground arith) above, insert-IsSorted k v m h)
  ]
]

pub erase-IsSorted {ℓ} : {V : Type ℓ} (k : ℕ) (m : Map V) → IsSorted m → IsSorted (erase k m)
unfolding erase
erase-IsSorted k [] h = tt
erase-IsSorted k (e ∷ m) (above, h) = elim (Bool-cases (e.0 == k)) [
  | inl same ↦ rw same h
  | inr other ↦ rw other (erase-AllEntries (λ k' _. e.0 < k') k m above, erase-IsSorted k m h)
]

pub adjust-IsSorted {ℓ} :
    {V : Type ℓ} (k : ℕ) (f : V → V) (m : Map V) → IsSorted m → IsSorted (adjust k f m)
unfolding adjust
adjust-IsSorted k f [] h = tt
adjust-IsSorted k f (e ∷ m) (above, h) = elim (Bool-cases (e.0 == k)) [
  | inl same ↦ rw same (above, h)
  | inr other ↦
      rw other
        (adjust-AllEntries (λ k' _. e.0 < k') k f m (λ k v p. p) above, adjust-IsSorted k f m h)
]

-- What holds of every entry holds of the one that is found.
pub find-AllEntries {ℓ κ} :
    {V : Type ℓ} (P : ℕ → V → Type κ) (k : ℕ) (v : V) (m : Map V)
    → find k m ≡ some v
    → AllEntries P m
    → P k v
unfolding find
find-AllEntries P k v [] h all = ground arith
find-AllEntries P k v (e ∷ m) h (p, all) = elim (Bool-cases (e.0 == k)) [
  | inl same ↦
      let value : e.1 ≡ v = ground arith in
      subst (λ k. P k v) ((==_iff e.0 k).0 same) (subst (λ v. P e.0 v) value p)
  | inr other ↦ find-AllEntries P k v m (ground arith) all
]

-- As above, where only the entry that is there is written.
pub adjust_found-AllEntries {ℓ κ} :
    {V : Type ℓ} (P : ℕ → V → Type κ) (k : ℕ) (f : V → V) (v : V) (m : Map V)
    → find k m ≡ some v
    → ((k : ℕ) → P k (f v))
    → AllEntries P m
    → AllEntries P (adjust k f m)
unfolding adjust find
adjust_found-AllEntries P k f v [] h g all = tt
adjust_found-AllEntries P k f v (e ∷ m) h g (q, all) = elim (Bool-cases (e.0 == k)) [
  | inl same ↦
      let value : v ≡ e.1 = ground arith in rw same (subst (λ v. P e.0 (f v)) value (g e.0), all)
  | inr other ↦ rw other (q, adjust_found-AllEntries P k f v m (ground arith) g all)
]

pub length-adjust {ℓ} :
    {V : Type ℓ} (k : ℕ) (f : V → V) (m : Map V) → length (adjust k f m) ≡ length m
unfolding adjust
length-adjust k f [] = refl
length-adjust k f (e ∷ m) = ground (arith, length-adjust k f m)

pub length-insert {ℓ} :
    {V : Type ℓ} (k : ℕ) (v : V) (m : Map V) → length (insert k v m) ≤ suc (length m)
unfolding insert
length-insert k v [] = omega arith
length-insert k v (e ∷ m) = ground (arith, length-insert k v m)

-- No entry under a key that is above all.
pub find_fresh {ℓ} :
    {V : Type ℓ} (k : ℕ) (m : Map V) → AllEntries (λ k' _. k' < k) m → find k m ≡ none
unfolding find
find_fresh k [] h = refl
find_fresh k (e ∷ m) (h, hs) = ground (arith, find_fresh k m hs)
