-- ===== src/ChatClient/Counters/Series.antt =====
-- A series of pings of LAB6/client.cpp, from its start on, and the counters.
use comp_net.Prelude.{
  ℕ, zero, suc, ◌+◌, ◌%◌, ◌≤◌, ◌<◌, ◌≡◌, refl, inl, inr, Bool, true, false, none, [], ◌∷◌, arith,
  ◌==◌, Bool-cases, Option-cases, length, All-map,
}
use comp_net.Text.Number.{pos}
use comp_net.Message.{MessageEx}
use comp_net.SortedMap.{
  Map, find, insert, AllEntries, adjust-AllEntries, insert-AllEntries, length-adjust, length-insert,
  find_fresh,
}
use comp_net.ChatClient.{ChatClient, PingState, Diag}
use comp_net.ChatClient.Output.{print}
use comp_net.ChatClient.Sending.{
  now_ms, make_message, send_raw_message, send_reliable_message, announce, register, touch,
}
use comp_net.ChatClient.Ping.{
  find_open, expire, count_loss, on_ping_timeout, series_diag, first_state, send_ping, ping_loop,
  start_ping_series,
}
use comp_net.Message.{fill_message, word}
use comp_net.Text.{Text, codes}
use comp_net.ChatClient.Ping.{open_ping}
use comp_net.ChatClient.Counters.{
  tally, one_if, IsDecided, Counts, IsCounted, touch-Counts, on_ping_timeout-IsCounted,
}

-- During a series, with `k` pings to come: there are ids and room for them.
record IsSeries (k : ℕ) (s : ChatClient) : Type 0 where
  counted : IsCounted s
  fresh : AllEntries (λ key _. key < s.next_local_id) s.ping_states
  room : length s.ping_states + k ≤ s.diag.requested
  ids : s.next_local_id + k < word

register-IsSeries :
    (k : ℕ) (msg : MessageEx) (is_ping : Bool) (time : ℕ) (s : ChatClient)
    → IsSeries k s
    → IsSeries k (register msg is_ping time s)
unfolding register
register-IsSeries k msg true time s h = record {
  counted = touch-Counts msg.msg_id time s.ping_states s.diag h.counted;
  fresh =
      adjust-AllEntries (λ key _. key < s.next_local_id) msg.msg_id (touch time) s.ping_states
        (λ _ _ p. p) h.fresh;
  room = omega (arith, h.room, length-adjust msg.msg_id (touch time) s.ping_states);
  ids = h.ids;
}
register-IsSeries k msg false time s h = record {
  counted = h.counted;
  fresh = h.fresh;
  room = h.room;
  ids = h.ids;
}

send_raw-IsSeries :
    (k : ℕ) (msg : MessageEx) (s : ChatClient)
    → IsSeries k s
    → IsSeries k (send_raw_message msg (announce msg s)).1
unfolding send_raw_message announce print
send_raw-IsSeries k msg s h = record {
  counted = h.counted;
  fresh = h.fresh;
  room = h.room;
  ids = h.ids;
}

now_ms-IsSeries : (k : ℕ) (s : ChatClient) → IsSeries k s → IsSeries k (now_ms s).1
unfolding now_ms
now_ms-IsSeries k s h = record { counted = h.counted; fresh = h.fresh; room = h.room; ids = h.ids }

send_reliable-IsSeries :
    (k : ℕ) (msg : MessageEx) (is_ping : Bool) (s : ChatClient)
    → IsSeries k s
    → IsSeries k (send_reliable_message msg is_ping s).1
unfolding send_reliable_message
send_reliable-IsSeries k msg is_ping s h =
    let r = send_raw_message msg (announce msg s) in
    let sent = send_raw-IsSeries k msg s h in
    elim (Bool-cases r.0) [
      | inl e ↦
          rw (e, send_reliable_message)
            (register-IsSeries k msg is_ping (now_ms r.1).0 (now_ms r.1).1
              (now_ms-IsSeries k r.1 sent))
      | inr e ↦ rw (e, send_reliable_message) sent
    ]

print-IsSeries : (k : ℕ) (text : Text) (s : ChatClient) → IsSeries k s → IsSeries k (print text s)
unfolding print
print-IsSeries k text s h = record {
  counted = h.counted;
  fresh = h.fresh;
  room = h.room;
  ids = h.ids;
}

on_ping_timeout-IsSeries :
    (k key : ℕ) (s : ChatClient) → IsSeries k s → IsSeries k (on_ping_timeout key s)
unfolding on_ping_timeout print count_loss
on_ping_timeout-IsSeries k key s h = elim (Option-cases (find_open key s.ping_states)) [
  | inl e ↦ rw (e, on_ping_timeout) h
  | inr (state, e) ↦
      let counted = on_ping_timeout-IsCounted key s h.counted in
      rw (e, on_ping_timeout)
        (record {
          counted = rw (e, on_ping_timeout) at counted;
          fresh =
              adjust-AllEntries (λ key _. key < s.next_local_id) key expire s.ping_states
                (λ _ _ p. p) h.fresh;
          room = omega (arith, h.room, length-adjust key expire s.ping_states);
          ids = h.ids;
        })
]

tally-insert :
    (f : PingState → Bool) (key : ℕ) (state : PingState) (m : Map PingState)
    → find key m ≡ none
    → tally f (insert key state m) ≡ tally f m + one_if (f state)
unfolding tally insert find
tally-insert f key state [] h = ground arith
tally-insert f key state (e ∷ m) h = elim (Bool-cases (e.0 == key)) [
  | inl same ↦ ground arith
  | inr other ↦
      let h' : find key m ≡ none = ground arith in ground (arith, tally-insert f key state m h')
]

-- The state of a new ping is counted nowhere.
insert-Counts :
    (key index time : ℕ) (states : Map PingState) (d : Diag)
    → find key states ≡ none
    → length states + 1 ≤ d.requested
    → Counts states d
    → Counts (insert key (first_state index time) states) d
unfolding first_state
insert-Counts key index time states d new room c =
    let state = first_state index time in
    record {
      received = omega (arith, c.received, tally-insert (λ p. p.completed) key state states new);
      lost = omega (arith, c.lost, tally-insert (λ p. p.timed_out) key state states new);
      rtts = c.rtts;
      jitters = c.jitters;
      decided = insert-AllEntries IsDecided key state states refl c.decided;
      short = omega (arith, room, length-insert key state states);
    }

open_ping-IsSeries :
    (k index : ℕ) (s : ChatClient) → IsSeries (suc k) s → IsSeries k (open_ping index s).1
unfolding open_ping make_message fill_message now_ms
open_ping-IsSeries k index s h =
    let key = s.next_local_id in
    let state = first_state index (s.os.now_ms (s.calls + 1)) in
    let step : (key + 1) % word ≡ key + 1 = omega (arith, h.ids) in
    record {
      counted =
          insert-Counts key index (s.os.now_ms (s.calls + 1)) s.ping_states s.diag
            (find_fresh key s.ping_states h.fresh) (omega (arith, h.room)) h.counted;
      fresh =
          insert-AllEntries (λ id _. id < (key + 1) % word) key state s.ping_states
            (omega (arith, step))
            (All-map (λ e. e.0 < key) (λ e. e.0 < (key + 1) % word) s.ping_states
              (λ e p. omega (arith, step)) h.fresh);
      room = omega (arith, h.room, length-insert key state s.ping_states);
      ids = omega (arith, h.ids, step);
    }

send_ping-IsSeries :
    (k index : ℕ) (s : ChatClient) → IsSeries (suc k) s → IsSeries k (send_ping index s)
unfolding send_ping
send_ping-IsSeries k index s h =
    let (ping, s1) = open_ping index s in
    let r = send_reliable_message ping true s1 in
    let sent = send_reliable-IsSeries k ping true s1 (open_ping-IsSeries k index s h) in
    let failed =
      on_ping_timeout-IsSeries k ping.msg_id _
        (print-IsSeries k (codes "Send error during ping series\n") r.1 sent) in
    elim (Bool-cases r.0) [ inl e ↦ rw (e, send_ping) sent | inr e ↦ rw (e, send_ping) failed ]

ping_loop-IsSeries :
    (k index : ℕ) (s : ChatClient) → IsSeries k s → IsSeries 0 (ping_loop k index s)
unfolding ping_loop
ping_loop-IsSeries zero index s h = h
ping_loop-IsSeries (suc k) index s h =
    ping_loop-IsSeries k (index + 1) (send_ping index s) (send_ping-IsSeries k index s h)

pub start_ping_series-IsCounted :
    (n : ℕ) (s : ChatClient)
    → s.next_local_id + suc n < word
    → IsCounted (start_ping_series (pos (suc n)) s)
unfolding start_ping_series series_diag tally
start_ping_series-IsCounted n s h =
    (ping_loop-IsSeries (suc n) 1 (record s { diag = series_diag (suc n); ping_states = [] })
      (record {
        counted = record {
          received = refl;
          lost = refl;
          rtts = refl;
          jitters = omega arith;
          decided = tt;
          short = omega arith;
        };
        fresh = tt;
        room = omega arith;
        ids = h;
      })).counted
