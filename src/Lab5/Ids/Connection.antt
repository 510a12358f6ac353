-- ===== src/Lab5/Ids/Connection.antt =====
-- A whole connection of LAB5/server.cpp keeps the ids of the history in order.
use comp_net.Prelude.{ℕ, List}
use comp_net.Message.{MessageEx}
use comp_net.Lab5.{Server}
use comp_net.Lab5.Session.{handle_client}
use comp_net.Lab5.Keeps.Connection.{handle_client-kept}
use comp_net.Lab5.Ids.{IsNumbered, numbered}

-- A connection of LAB5 that runs alone, whatever comes in over it, keeps this: the counter of ids
-- is right, and as long as it has not wrapped around, the ids in the history rise from one record
-- to the next and stay below the next id.
pub handle_client-IsNumbered :
    (sock : ℕ) (frames : List MessageEx) (s : Server)
    → IsNumbered s
    → IsNumbered (handle_client sock frames s)
handle_client-IsNumbered sock frames s = handle_client-kept numbered sock frames s
