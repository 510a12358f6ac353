-- ===== src/ChatClient/Patience/Fate.antt =====
-- When LAB6/client.cpp gives a message up that nobody acknowledges.
use comp_net.Prelude.{
  ℕ, ◌<◌, ◌≡◌, refl, ap, subst, ◌∙◌, inl, inr, Bool, true, false, ◌&&◌, ◌||◌, Option, none, some,
  List, [], ◌∷◌, map, arith, ◌==◌, ==_iff, Bool-cases, All,
}
use comp_net.SortedMap.{Map, find, erase, IsSorted, find-erase, find-erase_other, erase-IsSorted}
use comp_net.ChatClient.{ChatClient, PendingMsg}
use comp_net.ChatClient.Sending.{now_ms}
use comp_net.ChatClient.Retry.{Verdict, waits, expires, resends, verdict, bump, retry_round}
use comp_net.ChatClient.Patience.{rescheduled, expired, erase_all, retry_round-pending}

contains : List ℕ → ℕ → Bool
contains [] id = false
contains (x ∷ xs) id = x == id || contains xs id

abbrev pub reschedule : ℕ → Map PendingMsg → Map PendingMsg
reschedule current = map (λ e. (e.0, rescheduled current e.1))

find-reschedule :
    (current id : ℕ) (p : PendingMsg) (m : Map PendingMsg)
    → find id m ≡ some p
    → find id (reschedule current m) ≡ some (rescheduled current p)
unfolding find
find-reschedule current id p [] h = ground arith
find-reschedule current id p (e ∷ m) h = elim (Bool-cases (e.0 == id)) [
  | inl same ↦ let value : e.1 ≡ p = ground arith in rw (same, value) refl
  | inr other ↦ rw other (find-reschedule current id p m (ground arith))
]

above-reschedule :
    (current key : ℕ) (m : Map PendingMsg)
    → All (λ e. key < e.0) m
    → All (λ e. key < e.0) (reschedule current m)
above-reschedule current key [] h = tt
above-reschedule current key (e ∷ m) (h, hs) = (h, above-reschedule current key m hs)

pub reschedule-IsSorted :
    (current : ℕ) (m : Map PendingMsg) → IsSorted m → IsSorted (reschedule current m)
reschedule-IsSorted current [] h = tt
reschedule-IsSorted current (e ∷ m) (above, h) =
    (above-reschedule current e.0 m above, reschedule-IsSorted current m h)

find-erase_all_other :
    (id : ℕ) (ids : List ℕ) (m : Map PendingMsg)
    → contains ids id ≡ false
    → find id (erase_all ids m) ≡ find id m
unfolding erase_all contains
find-erase_all_other id [] m h = refl
find-erase_all_other id (x ∷ ids) m h =
    find-erase_all_other id ids (erase x m) (ground arith) ∙ find-erase_other x id m (ground arith)

erase-none : (id : ℕ) (m : Map PendingMsg) → find id m ≡ none → erase id m ≡ m
unfolding find erase
erase-none id [] h = refl
erase-none id (e ∷ m) h = elim (Bool-cases (e.0 == id)) [
  | inl same ↦ ground arith
  | inr other ↦ rw other (ap (λ m. e ∷ m) (erase-none id m (ground arith)))
]

find-erase_all-none :
    (id : ℕ) (ids : List ℕ) (m : Map PendingMsg)
    → find id m ≡ none
    → find id (erase_all ids m) ≡ none
unfolding erase_all
find-erase_all-none id [] m h = h
find-erase_all-none id (x ∷ ids) m h = elim (Bool-cases (x == id)) [
  | inl same ↦
      find-erase_all-none id ids (erase x m)
        (ap (find id) (erase-none x m (rw ((==_iff x id).0 same) h)) ∙ h)
  | inr other ↦ find-erase_all-none id ids (erase x m) (find-erase_other x id m other ∙ h)
]

find-erase_all :
    (id : ℕ) (ids : List ℕ) (m : Map PendingMsg)
    → IsSorted m
    → contains ids id ≡ true
    → find id (erase_all ids m) ≡ none
unfolding erase_all contains
find-erase_all id [] m sorted h = ground arith
find-erase_all id (x ∷ ids) m sorted h = elim (Bool-cases (x == id)) [
  | inl same ↦
      let gone : find id (erase x m) ≡ none = rw ((==_iff x id).0 same) (find-erase id m sorted) in
      find-erase_all-none id ids (erase x m) gone
  | inr other ↦ find-erase_all id ids (erase x m) (erase-IsSorted x m sorted) (ground arith)
]

expired_above :
    (current id : ℕ) (m : Map PendingMsg)
    → All (λ e. id < e.0) m
    → contains (expired current m) id ≡ false
unfolding contains expired
expired_above current id [] h = refl
expired_above current id (e ∷ m) (h, hs) = ground (arith, expired_above current id m hs)

abbrev is_expired : Verdict → Bool
is_expired waits = false
is_expired expires = true
is_expired resends = false

contains_head :
    (v : Verdict) (key id : ℕ) (rest : List ℕ)
    → contains (elim v [ waits ↦ rest | expires ↦ key ∷ rest | resends ↦ rest ]) id
      ≡ ((is_expired v && (key == id)) || contains rest id)
unfolding contains
contains_head waits key id rest = refl
contains_head expires key id rest = refl
contains_head resends key id rest = refl

contains-expired :
    (current id : ℕ) (p : PendingMsg) (m : Map PendingMsg)
    → IsSorted m
    → find id m ≡ some p
    → contains (expired current m) id ≡ is_expired (verdict current p)
unfolding contains expired find
contains-expired current id p [] sorted h = ground arith
contains-expired current id p (e ∷ m) (above, sorted) h = elim (Bool-cases (e.0 == id)) [
  | inl same ↦
      let value : e.1 ≡ p = ground arith in
      let key = (==_iff e.0 id).0 same in
      let rest = expired_above current id m (subst (λ k. All (λ e. k < e.0) m) key above) in
      contains_head (verdict current e.1) e.0 id (expired current m)
      ∙ ground (arith, same, rest, ap (λ p. is_expired (verdict current p)) value)
  | inr other ↦
      let rest = contains-expired current id p m sorted (ground arith) in
      contains_head (verdict current e.1) e.0 id (expired current m) ∙ ground (arith, other, rest)
]

-- What a round makes of a message that waits.
unfoldable pub fate : ℕ → PendingMsg → Option PendingMsg
fate current p = elim (verdict current p) [
  | waits ↦ some p
  | expires ↦ none
  | resends ↦ some (bump current p)
]

fate_cases :
    (id current : ℕ) (p : PendingMsg) (m : Map PendingMsg)
    → IsSorted m
    → find id m ≡ some p
    → (v : Verdict) → verdict current p ≡ v
    → find id (erase_all (expired current m) (reschedule current m)) ≡ fate current p
unfolding fate rescheduled
fate_cases id current p m sorted h waits e =
    rw (e, fate)
      (find-erase_all_other id (expired current m) (reschedule current m)
          (contains-expired current id p m sorted h ∙ ap is_expired e)
        ∙ find-reschedule current id p m h
        ∙ rw (e, rescheduled) refl)
fate_cases id current p m sorted h expires e =
    rw (e, fate)
      (find-erase_all id (expired current m) (reschedule current m)
        (reschedule-IsSorted current m sorted)
        (contains-expired current id p m sorted h ∙ ap is_expired e))
fate_cases id current p m sorted h resends e =
    rw (e, fate)
      (find-erase_all_other id (expired current m) (reschedule current m)
          (contains-expired current id p m sorted h ∙ ap is_expired e)
        ∙ find-reschedule current id p m h
        ∙ rw (e, rescheduled) refl)

-- A round of the retry thread decides on each waiting message by its own age and count: one that was
-- sent less than two seconds ago waits on as it is, one that was sent again three times is given up,
-- and any other one is sent again and waits with its count one higher and its time set to now. The
-- client must be connected, and the map be in the order of its keys.
pub retry_round-find :
    (id : ℕ) (p : PendingMsg) (s : ChatClient)
    → s.running ≡ true
    → IsSorted s.pending
    → find id s.pending ≡ some p
    → find id (retry_round s).pending ≡ fate (now_ms s).0 p
retry_round-find id p s on sorted h =
    ap (find id) (retry_round-pending s on)
    ∙ fate_cases id (now_ms s).0 p s.pending sorted h (verdict (now_ms s).0 p) refl
