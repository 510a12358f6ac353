-- ===== src/Server/NetSim.antt =====
-- `random01`, `randomIndex` and `applyNetworkSimulation` of LAB6/server.cpp. The delay is a sleep and
-- is left out, as it changes nothing.
pub mod Corruption
use comp_net.Prelude.{
  ℕ, ◌+◌, ◌-◌, ◌%◌, Bool, false, Option, none, some, ltb, ◌==◌, if◌then◌else◌, length, get_or, set,
}
use comp_net.Text.{Text}
use comp_net.Text.CString.{c_str}
use comp_net.Message.{MessageEx, max_payload, word}
use comp_net.Server.{Double, Server}

unfoldable pub draw01 : Server → ℕ × Server
draw01 s = (s.os.random01 s.calls, record s { calls = s.calls + 1 })

unfoldable pub draw_index : ℕ → Server → ℕ × Server
draw_index max_exclusive s =
    (s.os.random_index s.calls max_exclusive, record s { calls = s.calls + 1 })

-- `rate > 0.0`
unfoldable pub is_positive : Double → Bool
is_positive Double.below = false
is_positive (Double.units n) = ltb 0 n
is_positive Double.nan = false

-- `value < rate`
unfoldable pub is_under : ℕ → Double → Bool
is_under value Double.below = false
is_under value (Double.units n) = ltb value n
is_under value Double.nan = false

-- `rate > 0.0 && random01() < rate`: with a rate of 0 nothing is drawn.
unfoldable pub hits : Double → Server → Bool × Server
hits rate s =
    let (value, s1) = draw01 s in if is_positive rate then (is_under value rate, s1) else (false, s)

-- The payload with one character replaced, and its length anew.
unfoldable pub corrupt_at : ℕ → MessageEx → MessageEx
corrupt_at idx msg =
    let original = get_or msg.payload idx 0 in
    let written = set msg.payload idx (if original == b'#' then b'@' else b'#') in
    let payload = set written (max_payload - 1) 0 in
    record msg { payload = payload; length = length (c_str payload) % word }

unfoldable pub corrupt : MessageEx → Server → MessageEx × Server
corrupt msg s = let (idx, s1) = draw_index msg.length s in (corrupt_at idx msg, s1)

-- `corrupt_rate > 0.0 && msg.length > 0 && random01() < corrupt_rate`
unfoldable pub corrupt_hits : MessageEx → Server → Bool × Server
corrupt_hits msg s = if ltb 0 msg.length then hits s.sim.corrupt_rate s else (false, s)

unfoldable pub apply_network_simulation : MessageEx → Server → Option MessageEx × Server
apply_network_simulation msg s =
    let (dropped, s1) = hits s.sim.drop_rate s in
    let (corrupted, s2) = corrupt_hits msg s1 in
    let (changed, s3) = corrupt msg s2 in
    if dropped then (none, s1) else if corrupted then (some changed, s3) else (some msg, s2)
