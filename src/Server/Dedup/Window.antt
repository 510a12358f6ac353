-- ===== src/Server/Dedup/Window.antt =====
-- The array of the last ids is a window over the history of ids: the last `DEDUP_WINDOW` of them,
-- oldest first.
use comp_net.Prelude.{
  ℕ, zero, suc, ◌+◌, ◌-◌, ◌≤◌, ◌<◌, ◌≡◌, refl, sym, ap, subst, ◌∙◌, inl, inr, Bool, true, false,
  ◌||◌, List, [], ◌∷◌, ◌++◌, append-nil, append_assoc, arith, ltb, ◌==◌, ltb→lt, Bool-cases, length,
  get_or, set, take, drop, length-append, length-set, length-take, length-drop, take_all,
  get_or-append_length, set-append_length, take-set, drop-get_or, drop-append_le, drop-drop,
}
use comp_net.Server.{Client, dedup_window}
use comp_net.Server.Dedup.{seen_loop, has_seen_message_id, shift_loop, remember_message_id}

pub record IsWindow (c : Client) : Type 0 where
  pub size : length c.last_ids ≡ dedup_window
  pub count : c.last_ids_count ≤ dedup_window

-- The remembered ids, oldest first.
unfoldable pub window : Client → List ℕ
window c = take c.last_ids_count c.last_ids

abbrev pub contains : List ℕ → ℕ → Bool
contains [] id = false
contains (x ∷ xs) id = x == id || contains xs id

-- The last `n` entries of a list.
unfoldable pub last_of {ℓ} : {A : Type ℓ} → ℕ → List A → List A
last_of n xs = drop (length xs - n) xs

seen_loop-contains :
    (ids : List ℕ) (rounds i id : ℕ)
    → i + rounds ≤ length ids
    → seen_loop ids rounds i id ≡ contains (take rounds (drop i ids)) id
unfolding seen_loop
seen_loop-contains ids zero i id h = refl
seen_loop-contains ids (suc rounds) i id h =
    let next : i + 1 ≡ suc i = omega arith in
    let ih = seen_loop-contains ids rounds (i + 1) id (omega arith) in
    rw (drop-get_or i ids 0 (omega arith)) (ground (arith, rw next at ih, next))

-- The code's loop answers whether the id is in the window.
pub has_seen-contains :
    (c : Client) (id : ℕ) → IsWindow c → has_seen_message_id c id ≡ contains (window c) id
unfolding has_seen_message_id window
has_seen-contains c id v =
    seen_loop-contains c.last_ids c.last_ids_count 0 id (omega (arith, v.count, v.size))

-- What the array holds after the shift: the first entry is gone, the last one is there twice.
shifted : ℕ → List ℕ → List ℕ
shifted x [] = x ∷ []
shifted x (y ∷ ys) = y ∷ shifted y ys

shift_loop-shifted :
    (t pre : List ℕ) (x : ℕ) (xs : List ℕ) (i : ℕ)
    → t ≡ pre ++ x ∷ xs
    → i ≡ suc (length pre)
    → shift_loop t (length xs) i ≡ pre ++ shifted x xs
unfolding shift_loop shifted
shift_loop-shifted t pre x [] i e len = e
shift_loop-shifted t pre x (y ∷ ys) i e len =
    let assoc : (pre ++ y ∷ []) ++ y ∷ ys ≡ pre ++ y ∷ y ∷ ys =
      append_assoc pre (y ∷ []) (y ∷ ys) in
    let long : length (pre ++ x ∷ []) ≡ length pre + 1 = length-append pre (x ∷ []) in
    let at : get_or t i 0 ≡ y =
      rw (e, len, ← append_assoc pre (x ∷ []) (y ∷ ys))
        (subst (λ k. get_or ((pre ++ x ∷ []) ++ y ∷ ys) k 0 ≡ y) (omega arith)
          (get_or-append_length (pre ++ x ∷ []) y ys 0)) in
    let before : i - 1 ≡ length pre = omega arith in
    let written : set t (i - 1) (get_or t i 0) ≡ (pre ++ y ∷ []) ++ y ∷ ys =
      rw (at, before, e) (set-append_length pre x y (y ∷ ys) ∙ sym assoc) in
    shift_loop-shifted (set t (i - 1) (get_or t i 0)) (pre ++ y ∷ []) y ys (i + 1) written
      (omega (arith, length-append pre (y ∷ [])))
    ∙ append_assoc pre (y ∷ []) (shifted y ys)

set-shifted : (x : ℕ) (xs : List ℕ) (id : ℕ) → set (shifted x xs) (length xs) id ≡ xs ++ id ∷ []
unfolding shifted
set-shifted x [] id = refl
set-shifted x (y ∷ ys) id = ap (◌∷◌ y) (set-shifted y ys id)

-- The full array after the `else` branch.
shift_and_set :
    (ids : List ℕ) (n id : ℕ)
    → length ids ≡ suc n
    → set (shift_loop ids n 1) n id ≡ drop 1 ids ++ id ∷ []
shift_and_set [] n id e = absurd (omega arith)
shift_and_set (x ∷ xs) n id e =
    let k : n ≡ length xs = omega arith in
    rw (k, shift_loop-shifted (x ∷ xs) [] x xs 1 refl refl) (set-shifted x xs id)

pub remember-IsWindow : (c : Client) (id : ℕ) → IsWindow c → IsWindow (remember_message_id c id)
unfolding remember_message_id
remember-IsWindow c id v = elim (Bool-cases (ltb c.last_ids_count dedup_window)) [
  | inl e ↦ rw e (record {
    size = length-set c.last_ids c.last_ids_count id ∙ v.size;
    count = omega (arith, ltb→lt _ _ e);
  })
  | inr e ↦ rw e (record {
    size =
        ap length (shift_and_set c.last_ids (dedup_window - 1) id v.size)
        ∙ omega
            (arith, length-append (drop 1 c.last_ids) (id ∷ []), length-drop 1 c.last_ids, v.size);
    count = v.count;
  })
]

-- Remembering an id appends it to the window, which keeps its last `DEDUP_WINDOW` entries.
pub window-remember :
    (c : Client) (id : ℕ)
    → IsWindow c
    → window (remember_message_id c id) ≡ last_of dedup_window (window c ++ id ∷ [])
unfolding remember_message_id window last_of
window-remember c id v = elim (Bool-cases (ltb c.last_ids_count dedup_window)) [
  | inl e ↦
      let n = c.last_ids_count in
      let room : n < length c.last_ids = omega (arith, ltb→lt _ _ e, v.size) in
      let next : n + 1 ≡ suc n = omega arith in
      let none_lost : length (take n c.last_ids ++ id ∷ []) - dedup_window ≡ 0 = omega (
        arith,
        length-append (take n c.last_ids) (id ∷ []),
        length-take n c.last_ids,
        ltb→lt _ _ e,
      ) in
      rw (e, none_lost, next) (take-set n c.last_ids id room)
  | inr e ↦
      let ids = c.last_ids in
      let full : c.last_ids_count ≡ dedup_window = ground arith in
      let all : take dedup_window ids ≡ ids = take_all dedup_window ids (omega (arith, v.size)) in
      let written = shift_and_set ids (dedup_window - 1) id v.size in
      let size : length (drop 1 ids ++ id ∷ []) ≡ dedup_window =
        omega (arith, length-append (drop 1 ids) (id ∷ []), length-drop 1 ids, v.size) in
      let one_lost : length (ids ++ id ∷ []) - dedup_window ≡ 1 =
        omega (arith, length-append ids (id ∷ []), v.size) in
      rw (e, full, all, written, one_lost)
        (take_all dedup_window _ (omega (arith, size))
          ∙ sym (drop-append_le 1 ids (id ∷ []) (omega (arith, v.size))))
]

last_of-last_of {ℓ} :
    {A : Type ℓ} (n : ℕ) (xs ys : List A) → last_of n (last_of n xs ++ ys) ≡ last_of n (xs ++ ys)
unfolding last_of
last_of-last_of n xs ys =
    let k = length xs - n in
    let count : k + (length (drop k xs ++ ys) - n) ≡ length (xs ++ ys) - n =
      omega (arith, length-append (drop k xs) ys, length-drop k xs, length-append xs ys) in
    rw (
      ← drop-append_le k xs ys (omega arith),
      drop-drop,
      drop-append_le k xs ys (omega arith),
      count,
    )

-- Remembering a sequence of ids.
pub remember_all : Client → List ℕ → Client
remember_all c [] = c
remember_all c (id ∷ ids) = remember_all (remember_message_id c id) ids

remember_all-IsWindow : (c : Client) (ids : List ℕ) → IsWindow c → IsWindow (remember_all c ids)
unfolding remember_all
remember_all-IsWindow c [] v = v
remember_all-IsWindow c (id ∷ ids) v =
    remember_all-IsWindow (remember_message_id c id) ids (remember-IsWindow c id v)

window-le : (c : Client) → IsWindow c → length (window c) ≤ dedup_window
unfolding window
window-le c v = omega (arith, length-take c.last_ids_count c.last_ids, v.count)

last_of-short {ℓ} : {A : Type ℓ} (n : ℕ) (xs : List A) → length xs ≤ n → last_of n xs ≡ xs
unfolding last_of
last_of-short n xs h = let e : length xs - n ≡ 0 = omega arith in rw e

window-remember_all :
    (c : Client) (ids : List ℕ)
    → IsWindow c
    → window (remember_all c ids) ≡ last_of dedup_window (window c ++ ids)
unfolding remember_all
window-remember_all c [] v =
    rw append-nil (sym (last_of-short dedup_window (window c) (window-le c v)))
window-remember_all c (id ∷ ids) v =
    window-remember_all (remember_message_id c id) ids (remember-IsWindow c id v)
    ∙ rw (window-remember c id v, last_of-last_of)
        (ap (last_of dedup_window) (append_assoc (window c) (id ∷ []) ids))

-- An id is a duplicate exactly if it is one of the last `DEDUP_WINDOW` ids that were remembered.
pub has_seen-remember_all :
    (c : Client) (ids : List ℕ) (id : ℕ)
    → IsWindow c
    → has_seen_message_id (remember_all c ids) id
      ≡ contains (last_of dedup_window (window c ++ ids)) id
has_seen-remember_all c ids id v =
    has_seen-contains _ id (remember_all-IsWindow c ids v)
    ∙ ap (λ xs. contains xs id) (window-remember_all c ids v)

contains-append : (xs : List ℕ) (id : ℕ) → contains (xs ++ id ∷ []) id ≡ true
contains-append [] id = ground arith
contains-append (x ∷ xs) id = ground (arith, contains-append xs id)

-- An id that has just been remembered is seen.
pub has_seen-remember :
    (c : Client) (id : ℕ) → IsWindow c → has_seen_message_id (remember_message_id c id) id ≡ true
has_seen-remember c id v =
    let xs = window c in
    let lost = length (xs ++ id ∷ []) - dedup_window in
    let few : lost ≤ length xs = omega (arith, length-append xs (id ∷ [])) in
    has_seen-contains _ id (remember-IsWindow c id v)
    ∙ rw (window-remember c id v) (
        unfold last_of in
        rw (drop-append_le lost xs (id ∷ []) few) (contains-append (drop lost xs) id))
