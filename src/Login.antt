-- ===== src/Login.antt =====
-- LAB6/client.cpp and LAB6/server.cpp together: `connectAndAuthorize` against `handleClient`, from
-- the connection to the answer to MSG_AUTH. Here are the messages of the two sides; the modules below
-- follow them.
pub mod Served
pub mod Asked
pub mod Agreement
use comp_net.Prelude.{ℕ, Bool, []}
use comp_net.Text.{codes}
use comp_net.Message.{MessageEx, msg_hello, msg_welcome, msg_auth}
use comp_net.Server.{Server}
use comp_net.Server.Io
use comp_net.Server.Io.{server_name}
use comp_net.ChatClient.{ChatClient}
use comp_net.ChatClient.Sending.{make_message, send_raw_message}

-- The two messages of the client, each with the state that it is sent in.
abbrev pub hello : ChatClient → MessageEx × ChatClient
hello c = make_message msg_hello (codes "HELLO") [] c

abbrev pub greeted : ChatClient → Bool × ChatClient
greeted c = send_raw_message (hello c).0 (hello c).1

abbrev pub auth : ChatClient → MessageEx × ChatClient
auth c = make_message msg_auth c.nickname [] (greeted c).1

abbrev pub asked : ChatClient → Bool × ChatClient
asked c = send_raw_message (auth c).0 (auth c).1

-- The welcome of the server, with the state that it is sent in.
abbrev pub welcoming : Server → MessageEx × Server
welcoming s = Io.make_message msg_welcome server_name [] (codes "WELCOME") 0 0 s

abbrev pub welcomed : ℕ → Server → Bool × Server
welcomed sock s = Io.send_message sock (welcoming s).0 (welcoming s).1
