-- ===== src/ChatClient/Counters/Lasting.antt =====
-- What follows a series of pings in LAB6/client.cpp leaves the counters right.
use comp_net.Prelude.{
  ℕ, suc, ◌+◌, ◌≤◌, ◌<◌, inl, inr, Bool, true, false, ◌||◌, [], ◌∷◌, arith, ◌==◌, Bool-cases,
  length,
}
use comp_net.Text.Number.{pos}
use comp_net.Message.{MessageEx}
use comp_net.SortedMap.{Map, AllEntries}
use comp_net.ChatClient.{ChatClient, PingState}
use comp_net.ChatClient.Output.{print, print_chat_message}
use comp_net.ChatClient.Sending.{
  now_ms, send_raw_message, send_reliable_message, announce, register,
}
use comp_net.ChatClient.Ping.{handle_ack, start_ping_series}
use comp_net.ChatClient.Receive.{receive}
use comp_net.Message.{
  word, msg_text, msg_private, msg_server_info, msg_error, msg_history_data, msg_ack, msg_pong,
}
use comp_net.ChatClient.Copies.Events.{Event, Events, retries, receives, sends, done, next}
use comp_net.ChatClient.Counters.{
  tally, IsDecided, IsCounted, touch-Counts, on_ping_success-IsCounted, handle_ack-IsCounted,
}
use comp_net.ChatClient.Counters.Retries.{retry_round-IsCounted}
use comp_net.ChatClient.Counters.Series.{start_ping_series-IsCounted}

-- Whatever is received, the counters stay right.
receive-IsCounted : (msg : MessageEx) (s : ChatClient) → IsCounted s → IsCounted (receive msg s)
unfolding receive print print_chat_message
receive-IsCounted msg s c =
    elim (Bool-cases ((msg.type == msg_text) || (msg.type == msg_private))) [
      | inl e ↦ rw (e, receive) c
      | inr n1 ↦ elim (Bool-cases (msg.type == msg_server_info)) [
        | inl e ↦ rw (n1, receive, e) c
        | inr n2 ↦ elim (Bool-cases (msg.type == msg_error)) [
          | inl e ↦ rw (n1, receive, n2, e) c
          | inr n3 ↦ elim (Bool-cases (msg.type == msg_history_data)) [
            | inl e ↦ rw (n1, receive, n2, n3, e) c
            | inr n4 ↦ elim (Bool-cases (msg.type == msg_ack)) [
              | inl e ↦ rw (n1, receive, n2, n3, n4, e) (handle_ack-IsCounted msg.msg_id s c)
              | inr n5 ↦ elim (Bool-cases (msg.type == msg_pong)) [
                | inl e ↦
                    rw (n1, receive, n2, n3, n4, n5, e)
                      (on_ping_success-IsCounted msg.msg_id (handle_ack msg.msg_id s)
                        (handle_ack-IsCounted msg.msg_id s c))
                | inr n6 ↦ rw (n1, receive, n2, n3, n4, n5, n6) c
              ]
            ]
          ]
        ]
      ]
    ]

register-IsCounted :
    (msg : MessageEx) (is_ping : Bool) (time : ℕ) (s : ChatClient)
    → IsCounted s
    → IsCounted (register msg is_ping time s)
unfolding register
register-IsCounted msg true time s c = touch-Counts msg.msg_id time s.ping_states s.diag c
register-IsCounted msg false time s c = c

announced-IsCounted :
    (msg : MessageEx) (s : ChatClient)
    → IsCounted s
    → IsCounted (send_raw_message msg (announce msg s)).1
unfolding send_raw_message announce print
announced-IsCounted msg s c = c

now_ms-IsCounted : (s : ChatClient) → IsCounted s → IsCounted (now_ms s).1
unfolding now_ms
now_ms-IsCounted s c = c

send_reliable-IsCounted :
    (msg : MessageEx) (is_ping : Bool) (s : ChatClient)
    → IsCounted s
    → IsCounted (send_reliable_message msg is_ping s).1
unfolding send_reliable_message
send_reliable-IsCounted msg is_ping s c =
    let r = send_raw_message msg (announce msg s) in
    let sent = announced-IsCounted msg s c in
    elim (Bool-cases r.0) [
      | inl e ↦
          rw (e, send_reliable_message)
            (register-IsCounted msg is_ping (now_ms r.1).0 (now_ms r.1).1
              (now_ms-IsCounted r.1 sent))
      | inr e ↦ rw (e, send_reliable_message) sent
    ]

Event-IsCounted : (id : ℕ) (s t : ChatClient) → Event id s t → IsCounted s → IsCounted t
Event-IsCounted id _ _ (retries s) c = retry_round-IsCounted s c
Event-IsCounted id _ _ (receives msg s) c = receive-IsCounted msg s c
Event-IsCounted id _ _ (sends msg is_ping s h) c = send_reliable-IsCounted msg is_ping s c

Events-IsCounted : (id : ℕ) (s t : ChatClient) → Events id s t → IsCounted s → IsCounted t
Events-IsCounted id s _ done c = c
Events-IsCounted id s u (next {t = t} e es) c =
    Events-IsCounted id t u es (Event-IsCounted id s t e c)

-- No ping is counted twice.
tally_both :
    (m : Map PingState)
    → AllEntries IsDecided m
    → tally (λ p. p.completed) m + tally (λ p. p.timed_out) m ≤ length m
unfolding tally
tally_both [] h = omega arith
tally_both (e ∷ m) (h, hs) = ground (arith, tally_both m hs)

-- After `startPingSeries` and whatever rounds of the retry thread, messages received and other
-- messages sent come then, the counters are right: received and lost are the numbers of pings that
-- were answered and given up, no ping is both, each answer has its round trip, and received and lost
-- together are no more than requested. The ids must not wrap within the series.
pub series_adds_up :
    (n id : ℕ) (s t : ChatClient)
    → s.next_local_id + suc n < word
    → Events id (start_ping_series (pos (suc n)) s) t
    → IsCounted t × (t.diag.received + t.diag.lost ≤ t.diag.requested)
series_adds_up n id s t h es =
    let c =
      Events-IsCounted id (start_ping_series (pos (suc n)) s) t es
        (start_ping_series-IsCounted n s h) in
    (c, omega (arith, c.received, c.lost, c.short, tally_both t.ping_states c.decided))
