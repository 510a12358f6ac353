-- ===== src/Server/Startup.antt =====
-- `parseArgs` of LAB6/server.cpp, and `main` up to its loop.
pub mod Options
use comp_net.Prelude.{
  ℕ, zero, suc, ◌^◌, Bool, Option, none, some, List, [], ◌∷◌, ◌++◌, ltb, if◌then◌else◌, drop,
}
use comp_net.Text.{Text, codes}
use comp_net.Text.CString.{c_str}
use comp_net.Text.Number.{ℤ, pos, negsuc, atoi}
use comp_net.Text.Search.{starts_with}
use comp_net.Server.{Server, Double, NetSimConfig}
use comp_net.Server.Loading.{load_history_from_file}

-- 1.0 in the units of the rates.
abbrev pub one : ℕ
one = 2 ^ 1074

-- `if (rate < 0.0) rate = 0.0;`, then `if (rate > 1.0) rate = 1.0;`. Both comparisons fail for a NaN.
unfoldable pub clamp : Double → Double
clamp Double.below = Double.units 0
clamp (Double.units n) = if ltb one n then Double.units one else Double.units n
clamp Double.nan = Double.nan

-- `std::max(0, n)`
unfoldable pub max_zero : ℤ → ℕ
max_zero (pos n) = n
max_zero (negsuc n) = 0

-- One round of the loop. The argument ends at its first NUL. `atof` is that of the C library.
unfoldable pub parse_arg : (Text → Double) → Text → NetSimConfig → NetSimConfig
unfolding clamp max_zero
parse_arg atof arg sim =
    if starts_with (codes "--delay=") arg
    then record sim { delay_ms = max_zero (atoi (drop 8 arg)) }
    else if starts_with (codes "--drop=") arg
    then record sim { drop_rate = clamp (atof (drop 7 arg)) }
    else if starts_with (codes "--corrupt=") arg
    then record sim { corrupt_rate = clamp (atof (drop 10 arg)) }
    else sim

-- The arguments behind the name of the program.
unfoldable pub parse_args : (Text → Double) → List Text → NetSimConfig → NetSimConfig
unfolding parse_arg
parse_args atof [] sim = sim
parse_args atof (arg ∷ args) sim = parse_args atof args (parse_arg atof arg sim)

-- How the program gets on: an exception that nobody catches, the exit code of `main`, or the loop
-- of `accept` on a socket.
pub data Started : Type 0 where
  crashed : Started
  exited : ℕ → Server → Started
  listening : ℕ → Server → Started

-- The setup of the socket, from the results of `socket` (`none` is a negative one), `bind` and
-- `listen`. What it closes is recorded.
unfoldable pub open_server : Option ℕ → Bool → Bool → Server → Started
open_server none bound listens s = Started.exited 1 s
open_server (some sock) bound listens s =
    let shut = Started.exited 1 (record s { closed = s.closed ++ sock ∷ [] }) in
    if bound then (if listens then Started.listening sock s else shut) else shut

-- `main` up to its loop, from the arguments and the file, if it is there.
unfoldable pub main :
    (Text → Double) → List Text → Option Text → Option ℕ → Bool → Bool → Server → Started
unfolding parse_args open_server
main atof args file socket bound listens s =
    elim (load_history_from_file file (record s { sim = parse_args atof args s.sim })) [
      | none ↦ Started.crashed
      | some s1 ↦ open_server socket bound listens s1
    ]
