-- ===== src/Server/Replies.antt =====
-- What a client gets for MSG_HISTORY and MSG_LIST from LAB6/server.cpp.
use comp_net.Prelude.{
  ℕ, ◌-◌, ◌<◌, min, ◌≡◌, refl, sym, ap, ◌∙◌, inl, inr, false, some, List, [], ◌∷◌, ◌++◌, map,
  map-append, append-nil, append_assoc, arith, ltb, if◌then◌else◌, Bool-cases, length, take,
  is_empty, length-drop, take-append-drop,
}
use comp_net.Text.{Text, codes}
use comp_net.Text.CString.{c_str, c_str-buffer}
use comp_net.Message.{fill_message, max_payload, msg_history_data, msg_server_info}
use comp_net.Server.{Server, Client, HistoryRecord, Sent}
use comp_net.Server.Io.{
  make_message, send_message, now, fetch_msg_id, send_server_info, server_name,
}
use comp_net.Server.History.{get_last_history, format_history_line}
use comp_net.Server.Handlers.{
  history_count, send_history_loop, send_last, handle_history_request, list_loop,
  handle_list_request,
}
use comp_net.Server.Frame.{make_message-Quiet, send_message-Quiet, send_server_info-Quiet}

-- What a receiver sees of a message: the socket, the type, the text.
abbrev pub told : List Sent → List (ℕ × ℕ × Text)
told = map (λ sent. (sent.sock, sent.msg.type, c_str sent.msg.payload))

-- A text as it arrives in a payload.
unfoldable pub cut : Text → Text
cut text = take (max_payload - 1) (c_str text)

told-message :
    (sock type : ℕ) (sender receiver payload : Text) (s : Server)
    → let (msg, s1) = make_message type sender receiver payload 0 0 s in
      told (send_message sock msg s1).1.outbox ≡ told s.outbox ++ (sock, type, cut payload) ∷ []
unfolding make_message send_message fill_message cut now fetch_msg_id
told-message sock type sender receiver payload s =
    map-append _ s.outbox _
    ∙ ap (λ text. told s.outbox ++ (sock, type, text) ∷ [])
        (c_str-buffer max_payload payload (omega arith))

told-send_server_info :
    (sock : ℕ) (text : Text) (s : Server)
    → told (send_server_info sock text s).outbox
      ≡ told s.outbox ++ (sock, msg_server_info, cut text) ∷ []
unfolding send_server_info
told-send_server_info sock text s = told-message sock msg_server_info server_name [] text s

-- A line of the history depends on the system's clock format only.
format_history_line-os :
    (s t : Server) (rec : HistoryRecord)
    → t.os ≡ s.os
    → format_history_line t rec ≡ format_history_line s rec
unfolding format_history_line
format_history_line-os s t rec e = rw e

abbrev pub line : ℕ → Server → HistoryRecord → ℕ × ℕ × Text
line sock s rec = (sock, msg_history_data, cut (format_history_line s rec))

send_history_loop-told :
    (sock : ℕ) (recs : List HistoryRecord) (s t : Server)
    → t.os ≡ s.os
    → told (send_history_loop sock recs t).outbox ≡ told t.outbox ++ map (line sock s) recs
unfolding send_history_loop
send_history_loop-told sock [] s t e = sym (append-nil _)
send_history_loop-told sock (rec ∷ recs) s t e =
    let text = format_history_line t rec in
    let (msg, t1) = make_message msg_history_data server_name [] text 0 0 t in
    let t2 = (send_message sock msg t1).1 in
    let os2 =
      (send_message-Quiet sock msg t1).os
      ∙ (make_message-Quiet msg_history_data server_name [] text 0 0 t).os
      ∙ e in
    send_history_loop-told sock recs s t2 os2
    ∙ ap (λ o. o ++ map (line sock s) recs)
        (told-message sock msg_history_data server_name [] text t)
    ∙ append_assoc (told t.outbox) ((sock, msg_history_data, cut text) ∷ [])
        (map (line sock s) recs)
    ∙ ap (λ l. told t.outbox ++ (sock, msg_history_data, cut l) ∷ map (line sock s) recs)
        (format_history_line-os s t rec e)

get_last_history_lem :
    (n : ℕ) (s : Server)
    → (front : List HistoryRecord) × (s.history_records ≡ front ++ get_last_history n s)
      × (length (get_last_history n s) ≡ min n (length s.history_records))
unfolding get_last_history
get_last_history_lem n s =
    let size = length s.history_records in
    let start = if ltb n size then size - n else 0 in
    (
      take start s.history_records,
      sym (take-append-drop start s.history_records),
      ground (arith, length-drop start s.history_records),
    )

history_count-pos : (payload : Text) (n : ℕ) → history_count payload ≡ some n → 0 < n
unfolding history_count
history_count-pos payload n h = ground arith

is_empty_of_pos {ℓ} : {A : Type ℓ} (xs : List A) → 0 < length xs → is_empty xs ≡ false
is_empty_of_pos [] h = absurd (omega arith)
is_empty_of_pos (x ∷ xs) h = refl

length_of_some {ℓ} : {A : Type ℓ} (xs : List A) → is_empty xs ≡ false → 0 < length xs
length_of_some [] h = ground arith
length_of_some (x ∷ xs) h = omega arith

send_last-told :
    (sock : ℕ) (recs : List HistoryRecord) (s : Server)
    → is_empty recs ≡ false
    → told (send_last sock recs s).outbox ≡ told s.outbox ++ map (line sock s) recs
unfolding send_last
send_last-told sock [] s h = ground arith
send_last-told sock (rec ∷ recs) s h = send_history_loop-told sock (rec ∷ recs) s s refl

handle_history_request-some :
    (sock n : ℕ) (payload : Text) (s : Server)
    → history_count payload ≡ some n
    → handle_history_request sock payload s ≡ send_last sock (get_last_history n s) s
unfolding handle_history_request
handle_history_request-some sock n payload s count = rw (count, handle_history_request) refl

-- A request for `n` lines, with something in the history: the client gets the last `n` records, or
-- all if there are fewer, oldest first, each as one MSG_HISTORY_DATA with its line, cut to fit; and
-- nobody gets anything else.
pub history_reply :
    (sock n : ℕ) (payload : Text) (s : Server)
    → history_count payload ≡ some n
    → is_empty s.history_records ≡ false
    → (front last : List HistoryRecord) × (s.history_records ≡ front ++ last)
      × (length last ≡ min n (length s.history_records))
      × (told (handle_history_request sock payload s).outbox
          ≡ told s.outbox ++ map (line sock s) last)
history_reply sock n payload s count some_records =
    let last = get_last_history n s in
    let (front, split, size) = get_last_history_lem n s in
    let many : 0 < length last = omega (
      arith,
      size,
      history_count-pos payload n count,
      length_of_some s.history_records some_records,
    ) in
    (
      front,
      last,
      split,
      size,
      ap (λ t. told t.outbox) (handle_history_request-some sock n payload s count)
          ∙ send_last-told sock last s (is_empty_of_pos last many),
    )

-- The nicknames of the authenticated clients, in the order of the registry.
unfoldable pub nicknames : (ℕ → Client) → List ℕ → List Text
nicknames heap [] = []
nicknames heap (ref ∷ refs) =
    let rest = nicknames heap refs in
    if (heap ref).authenticated then c_str (heap ref).nickname ∷ rest else rest

abbrev pub entry : ℕ → Text → ℕ × ℕ × Text
entry sock text = (sock, msg_server_info, cut text)

list_loop-told :
    (sock : ℕ) (refs : List ℕ) (s : Server)
    → told (list_loop sock refs s).outbox
      ≡ told s.outbox ++ map (entry sock) (nicknames s.heap refs)
unfolding list_loop nicknames
list_loop-told sock [] s = sym (append-nil _)
list_loop-told sock (ref ∷ refs) s = elim (Bool-cases (s.heap ref).authenticated) [
  | inl e ↦
      let name = c_str (s.heap ref).nickname in
      rw (e, list_loop)
        (list_loop-told sock refs (send_server_info sock name s)
          ∙ rw ((send_server_info-Quiet sock name s).heap, told-send_server_info sock name s)
              (append_assoc (told s.outbox) (entry sock name ∷ []) _))
  | inr e ↦ rw (e, list_loop) (list_loop-told sock refs s)
]

-- The answer to MSG_LIST: a heading, and then each authenticated client's nickname once, in the
-- order of the registry, all to the client who asked.
pub list_reply :
    (sock : ℕ) (s : Server)
    → told (handle_list_request sock s).outbox
      ≡ told s.outbox ++ map (entry sock) (codes "Online users" ∷ nicknames s.heap s.clients)
unfolding handle_list_request
list_reply sock s =
    let heading = codes "Online users" in
    let q = send_server_info-Quiet sock heading s in
    list_loop-told sock (send_server_info sock heading s).clients (send_server_info sock heading s)
    ∙ rw (q.heap, q.clients, told-send_server_info sock heading s)
        (append_assoc (told s.outbox) (entry sock heading ∷ []) _)
