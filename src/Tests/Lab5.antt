-- ===== src/Tests/Lab5.antt =====
-- The theorems on LAB5 at concrete data.
use comp_net.Prelude.{◌≡◌, refl, true, List, [], ◌∷◌, ◌++◌, arith}
use comp_net.Text.{codes}
use comp_net.Text.CString.{c_str}
use comp_net.Message.{
  MessageEx, msg_hello, msg_auth, msg_text, msg_private, msg_bye, max_name, max_payload,
}
use comp_net.ChatClient.{Sent}
use comp_net.Lab5.{Server, null_client}
use comp_net.Lab5.Io.{end_arrays}
use comp_net.Lab5.History.{mark_history_delivered}
use comp_net.Lab5.Session.{handle_client, parse_private}
use comp_net.Lab5.ChatClient.{ChatClient}
use comp_net.Lab5.ChatClient.Commands.{handle_line}
use comp_net.Message.Sealed.{FitsArray}
use comp_net.Lab5.Whisper.{whisper_line, handle_line-parse_private}
use comp_net.Lab5.Ids.{IsNumbered}
use comp_net.Lab5.Ids.Connection.{handle_client-IsNumbered}
use comp_net.Lab5.Interleaving.{World}
use comp_net.Lab5.Interleaving.Unique.{IsUnique, count, handle_client-IsUnique}
use comp_net.Lab5.Interleaving.Marking.{mark_all, mark_history_delivered-mark_all}
use comp_net.Tests.Clients.{
  client_os, amy_one_word, amy_trimmed, text_trimmed, amy_there, text_there,
}
use comp_net.Tests.{test_os, old_record, message}

-- A server with two records, of which the first was not delivered.
abbrev numbered : Server
numbered = record {
  os = test_os;
  calls = 0;
  client_queue = [];
  heap = λ _. null_client;
  next_ref = 0;
  clients = [];
  offline_queue = [];
  history_records = old_record ∷ record old_record { msg_id = 5; delivered = true } ∷ [];
  history_file = [];
  next_msg_id = 7;
  ids_taken = 6;
  outbox = [];
  closed = [];
}

numbered-IsNumbered : IsNumbered numbered
numbered-IsNumbered = record {
  counter = omega arith;
  rises = λ l. (omega arith, (omega arith, omega arith));
}

abbrev visit : List MessageEx
visit =
    message msg_hello [] (codes "HELLO")
    ∷ message msg_auth [] (codes "bob")
    ∷ message msg_text [] (codes "hi")
    ∷ message msg_private (codes "amy") (codes "there")
    ∷ message msg_bye [] (codes "BYE")
    ∷ []

numbered_example : IsNumbered (handle_client 4 visit numbered)
numbered_example = handle_client-IsNumbered 4 visit numbered numbered-IsNumbered

-- A second thread has taken the id 4.
abbrev world : World
world = record { held = 4 ∷ []; server = numbered }

world-IsUnique : IsUnique world
unfolding count
world-IsUnique = record { counter = omega arith; once = λ l x. ground arith }

interleaved_example : IsUnique (record { held = 4 ∷ []; server = handle_client 4 visit numbered })
interleaved_example = handle_client-IsUnique (4 ∷ []) 4 visit numbered world-IsUnique

mark_all_example :
    (mark_history_delivered 3 numbered).history_records ≡ mark_all 3 numbered.history_records
mark_all_example = mark_history_delivered-mark_all 3 world world-IsUnique (omega arith)

abbrev typing : ChatClient
typing = record {
  os = client_os;
  calls = 1;
  sock = 4;
  running = true;
  next_local_id = 9;
  nickname = codes "bob";
  outbox = [];
  console = [];
  closed = [];
}

amy_fits : FitsArray max_name (codes "amy")
unfolding c_str codes
amy_fits = (refl, omega arith)

text_fits : FitsArray max_payload (codes "how are you")
unfolding c_str codes
text_fits = (refl, omega arith)

whisper_parse_example :
    (sent : Sent) × ((handle_line
        (whisper_line (codes "amy") (codes "how are you"))
        typing).1.outbox
      ≡ [] ++ sent ∷ [])
    × (sent.msg.type ≡ msg_private)
    × (parse_private (end_arrays sent.msg) ≡ (codes "amy", codes "how are you"))
whisper_parse_example =
    handle_line-parse_private (codes "amy") (codes "how are you") typing amy_one_word amy_trimmed
      text_trimmed amy_there text_there amy_fits text_fits
