-- ===== src/Server/Loading/Objects.antt =====
-- The expression that `loadHistoryFromFile` searches for takes a whole object of the history file.
use comp_net.Prelude.{
  ℕ, ◌^◌, ◌<◌, ◌≡◌, refl, sym, Bool, true, false, List, [], ◌∷◌, ◌++◌, append-nil, append_assoc,
  arith, if◌then◌else◌, lt→ltb, length, take, length-append,
}
use comp_net.Text.{Text, codes, is_space}
use comp_net.Text.Json.{json_escape}
use comp_net.Text.Number.{print_nat, is_digit}
use comp_net.Text.Regex.{Regex, space}
use comp_net.Text.Number.Printed.{print_nat-Digits}
use comp_net.Text.Regex.Greedy.{Takes, Stops, Takes-seq, Takes-lit, Takes-star_one}
use comp_net.Server.{HistoryRecord}
use comp_net.Server.History.{print_time, bool_text, render_record}
use comp_net.Server.Loading.{field, number, string, boolean, comma, record_pattern}
use comp_net.Server.Loading.Fields.{written, Takes-field, Takes-number, Takes-string, Takes-boolean}

-- What stands in the file behind an object.
abbrev pub tail : Bool → Text
tail last = (if last then [] else codes ",") ++ codes "\n"

number_field : Text → ℕ → Text → Text
number_field name n s = written name (print_nat n ++ (codes "," ++ s))

time_field : Text → ℕ → Text → Text
time_field name time s = written name (print_time time ++ (codes "," ++ s))

string_field : Text → Text → Text → Text
string_field name t s = written name (34 ∷ json_escape t ++ (34 ∷ codes "," ++ s))

-- An object, and the text behind it.
pub object : HistoryRecord → Text → Text
unfolding number_field time_field string_field
object rec s =
    codes "{"
    ++ number_field (codes "\"msg_id\":") rec.msg_id (
        time_field (codes "\"timestamp\":") rec.timestamp (
          string_field (codes "\"sender\":") rec.sender (
            string_field (codes "\"receiver\":") rec.receiver (
              string_field (codes "\"type\":") rec.type (
                string_field (codes "\"text\":") rec.text (
                  written (codes "\"delivered\":") (
                    bool_text rec.delivered
                    ++ (codes ","
                        ++ written (codes "\"is_offline\":")
                            (bool_text rec.is_offline ++ (codes "\n  " ++ (codes "}" ++ s)))))))))))

pub render_record-object :
    (rec : HistoryRecord) (last : Bool) (s : Text)
    → render_record rec last ++ s ≡ codes "  " ++ object rec (tail last ++ s)
unfolding render_record object codes
render_record-object rec last s = simp append_assoc refl

pub print_time_lem : (time : ℕ) → time < 2 ^ 63 → print_time time ≡ print_nat time
unfolding print_time
print_time_lem time h = rw (lt→ltb time (2 ^ 63) h) refl

comma-Stops : (s : Text) → Stops is_digit (codes "," ++ s)
unfolding codes is_digit
comma-Stops s = refl

digit-not_space : (c : ℕ) → is_digit c ≡ true → is_space c ≡ false
unfolding is_digit is_space
digit-not_space c h = ground arith

print_nat-Stops : (n : ℕ) (s : Text) → Stops is_space (print_nat n ++ s)
print_nat-Stops n s = let (c, w, e, hc, hw) = print_nat-Digits n in rw e (digit-not_space c hc)

quote-Stops : (s : Text) → Stops is_space (34 ∷ s)
unfolding is_space
quote-Stops s = refl

bool_text-Stops : (b : Bool) (s : Text) → Stops is_space (bool_text b ++ s)
unfolding bool_text codes is_space
bool_text-Stops true s = refl
bool_text-Stops false s = refl

-- A field, a comma, and what follows.
module _ (name : Text) (starts : (z : Text) → Stops is_space (name ++ z)) where
  Takes-part :
      (value q : Regex) (s t u : Text) (found more : List Text)
      → Stops is_space s
      → Takes value s found (codes "," ++ t)
      → Takes q t more u
      → Takes (Regex.seq (field name value) (Regex.seq comma q)) (written name s) (more ++ found) u
  Takes-part value q s t u found more hs hv hq =
      Takes-seq (field name value) (Regex.seq comma q) (written name s) (codes "," ++ t) u found
        more (Takes-field value name s (codes "," ++ t) found (starts (codes " " ++ s)) hs hv)
        (rw (sym (append-nil more))
          (Takes-seq comma q (codes "," ++ t) t u [] more (Takes-lit (codes ",") t) hq))

  Takes-number_part :
      (q : Regex) (n : ℕ) (t u : Text) (more : List Text)
      → Takes q t more u
      → Takes
          (Regex.seq (field name number) (Regex.seq comma q))
          (number_field name n t)
          (more ++ print_nat n ∷ [])
          u
  unfolding number_field
  Takes-number_part q n t u more =
      Takes-part number q (print_nat n ++ (codes "," ++ t)) t u (print_nat n ∷ []) more
        (print_nat-Stops n (codes "," ++ t)) (Takes-number n (codes "," ++ t) (comma-Stops t))

  -- A time that is not negative is written in digits.
  Takes-time_part :
      (q : Regex) (time : ℕ) (t u : Text) (more : List Text)
      → time < 2 ^ 63
      → Takes q t more u
      → Takes
          (Regex.seq (field name number) (Regex.seq comma q))
          (time_field name time t)
          (more ++ print_time time ∷ [])
          u
  unfolding time_field
  Takes-time_part q time t u more h hq =
      rw (print_time_lem time h) (unfold number_field in Takes-number_part q time t u more hq)

  Takes-string_part :
      (q : Regex) (v t u : Text) (more : List Text)
      → Takes q t more u
      → Takes
          (Regex.seq (field name string) (Regex.seq comma q))
          (string_field name v t)
          (more ++ json_escape v ∷ [])
          u
  unfolding string_field
  Takes-string_part q v t u more =
      Takes-part string q _ t u (json_escape v ∷ []) more
        (quote-Stops (json_escape v ++ (34 ∷ codes "," ++ t))) (Takes-string v (codes "," ++ t))

  Takes-boolean_part :
      (q : Regex) (b : Bool) (t u : Text) (more : List Text)
      → Takes q t more u
      → Takes
          (Regex.seq (field name boolean) (Regex.seq comma q))
          (written name (bool_text b ++ (codes "," ++ t)))
          (more ++ bool_text b ∷ [])
          u
  Takes-boolean_part q b t u more =
      Takes-part boolean q (bool_text b ++ (codes "," ++ t)) t u (bool_text b ∷ []) more
        (bool_text-Stops b (codes "," ++ t)) (Takes-boolean b (codes "," ++ t))

end-Takes :
    (s : Text)
    → Takes
        (Regex.seq (Regex.star space) (Regex.lit (codes "}")))
        (codes "\n  " ++ (codes "}" ++ s))
        []
        s
unfolding codes is_space
end-Takes s =
    Takes-seq (Regex.star space) (Regex.lit (codes "}")) (codes "\n  " ++ (codes "}" ++ s))
      (codes "}" ++ s) s [] []
      (Takes-star_one is_space (codes "\n  ") (codes "}" ++ s) (refl, (refl, (refl, tt))) refl)
      (Takes-lit (codes "}") s)

-- The groups of the match, the last first.
abbrev pub groups_of : HistoryRecord → List Text
groups_of rec =
    bool_text rec.is_offline
    ∷ bool_text rec.delivered
    ∷ json_escape rec.text
    ∷ json_escape rec.type
    ∷ json_escape rec.receiver
    ∷ json_escape rec.sender
    ∷ print_time rec.timestamp
    ∷ print_nat rec.msg_id
    ∷ []

pub Takes-object :
    (rec : HistoryRecord) (s : Text)
    → rec.timestamp < 2 ^ 63
    → Takes record_pattern (object rec s) (groups_of rec) s
unfolding record_pattern object codes is_space
Takes-object rec s h =
    Takes-seq (Regex.lit (codes "{")) _ _ _ s [] (groups_of rec) (Takes-lit (codes "{") _) (
      Takes-number_part (codes "\"msg_id\":") (λ z. refl) _ rec.msg_id _ s (take 7 (groups_of rec))
        (Takes-time_part (codes "\"timestamp\":") (λ z. refl) _ rec.timestamp _ s
          (take 6 (groups_of rec)) h
          (Takes-string_part (codes "\"sender\":") (λ z. refl) _ rec.sender _ s
            (take 5 (groups_of rec))
            (Takes-string_part (codes "\"receiver\":") (λ z. refl) _ rec.receiver _ s
              (take 4 (groups_of rec))
              (Takes-string_part (codes "\"type\":") (λ z. refl) _ rec.type _ s
                (take 3 (groups_of rec))
                (Takes-string_part (codes "\"text\":") (λ z. refl) _ rec.text _ s
                  (take 2 (groups_of rec))
                  (Takes-boolean_part (codes "\"delivered\":") (λ z. refl) _ rec.delivered _ s
                    (bool_text rec.is_offline ∷ [])
                    (Takes-seq (field (codes "\"is_offline\":") boolean) _ _
                      (codes "\n  " ++ (codes "}" ++ s)) s (bool_text rec.is_offline ∷ []) []
                      (Takes-field boolean (codes "\"is_offline\":") _ _
                        (bool_text rec.is_offline ∷ []) refl (bool_text-Stops rec.is_offline _)
                        (Takes-boolean rec.is_offline _))
                      (end-Takes s)))))))))

pub length-object : (rec : HistoryRecord) (s : Text) → length s < length (object rec s)
unfolding object number_field time_field string_field codes
length-object rec s = simp length-append (omega arith)
