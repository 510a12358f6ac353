-- ===== src/Server/Loading/Search.antt =====
-- The search of `loadHistoryFromFile` in a whole history file finds its objects and nothing else.
use comp_net.Prelude.{
  ℕ, zero, suc, ◌^◌, ◌≤◌, ◌<◌, ◌≡◌, refl, ap, Bool, true, false, none, some, List, [], ◌∷◌, ◌++◌,
  map, append_assoc, arith, ◌==◌, length, is_empty, All,
}
use comp_net.Text.{Text, codes}
use comp_net.Text.Regex.{match_here, match_regex, match_lit, regex_matches}
use comp_net.Text.Regex.Greedy.{match_here-Takes}
use comp_net.Server.{HistoryRecord}
use comp_net.Server.History.{render_record, render_records, render_history}
use comp_net.Server.Loading.{record_pattern}
use comp_net.Server.Loading.Objects.{
  groups_of, object, tail, render_record-object, Takes-object, length-object,
}

-- The matches in a text, on any fuel that is enough.
abbrev pub Finds : Text → List (List Text) → Type 0
Finds s found = (fuel : ℕ) → length s ≤ fuel → regex_matches record_pattern fuel s ≡ found

-- The time of the record is not negative.
abbrev pub IsTimed : HistoryRecord → Type 0
IsTimed rec = rec.timestamp < 2 ^ 63

no_brace : (c : ℕ) (s : Text) → (123 == c) ≡ false → match_here record_pattern (c ∷ s) ≡ none
unfolding match_here match_regex match_lit record_pattern codes
no_brace c s h = rw h refl

Finds-skip :
    (c : ℕ) (s : Text) (found : List (List Text))
    → (123 == c) ≡ false
    → Finds s found
    → Finds (c ∷ s) found
unfolding regex_matches
Finds-skip c s found h hs zero p = absurd (omega arith)
Finds-skip c s found h hs (suc fuel) p = rw (regex_matches, no_brace c s h) (hs fuel (omega arith))

Finds-match :
    (s rest groups : _) (found : List (List Text))
    → match_here record_pattern s ≡ some (groups, rest)
    → length rest < length s
    → Finds rest found
    → Finds s (groups ∷ found)
unfolding regex_matches
Finds-match [] rest groups found h l hs fuel p = absurd (omega arith)
Finds-match (c ∷ s) rest groups found h l hs zero p = absurd (omega arith)
Finds-match (c ∷ s) rest groups found h l hs (suc fuel) p =
    rw (regex_matches, h) (ap (◌∷◌ groups) (hs fuel (omega arith)))

Finds-object :
    (rec : HistoryRecord) (s : Text) (found : List (List Text))
    → rec.timestamp < 2 ^ 63
    → Finds s found
    → Finds (object rec s) (groups_of rec ∷ found)
Finds-object rec s found h =
    Finds-match (object rec s) s (groups_of rec) found
      (match_here-Takes record_pattern (object rec s) s (groups_of rec) (Takes-object rec s h))
      (length-object rec s)

Finds-tail :
    (last : Bool) (s : Text) (found : List (List Text))
    → Finds s found
    → Finds (tail last ++ s) found
unfolding codes
Finds-tail true s found h = Finds-skip 10 s found refl h
Finds-tail false s found h = Finds-skip 44 (10 ∷ s) found refl (Finds-skip 10 s found refl h)

Finds-spaces : (s : Text) (found : List (List Text)) → Finds s found → Finds (codes "  " ++ s) found
unfolding codes
Finds-spaces s found h = Finds-skip 32 (32 ∷ s) found refl (Finds-skip 32 s found refl h)

Finds-render_records :
    (recs : List HistoryRecord) (s : Text)
    → All IsTimed recs
    → Finds s []
    → Finds (render_records recs ++ s) (map groups_of recs)
unfolding render_records
Finds-render_records [] s timed h = h
Finds-render_records (rec ∷ recs) s (time, timed) h =
    let more = render_records recs ++ s in
    rw
      (
        append_assoc (render_record rec (is_empty recs)) (render_records recs) s,
        render_record-object rec (is_empty recs) more,
      )
      (Finds-spaces _ _ (
        Finds-object rec _ (map groups_of recs) time
          (Finds-tail (is_empty recs) more _ (Finds-render_records recs s timed h))))

Finds-nil : Finds [] []
unfolding regex_matches
Finds-nil zero p = refl
Finds-nil (suc fuel) p = refl

pub Finds-render_history :
    (recs : List HistoryRecord)
    → All IsTimed recs
    → Finds (render_history recs) (map groups_of recs)
unfolding render_history codes
Finds-render_history recs timed =
    let end = Finds-skip 93 (10 ∷ []) [] refl (Finds-skip 10 [] [] refl Finds-nil) in
    let all = Finds-render_records recs (93 ∷ 10 ∷ []) timed end in
    Finds-skip 91 _ (map groups_of recs) refl (Finds-skip 10 _ (map groups_of recs) refl all)
