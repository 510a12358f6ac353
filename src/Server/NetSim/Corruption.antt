-- ===== src/Server/NetSim/Corruption.antt =====
-- What `applyNetworkSimulation` of LAB6/server.cpp may do to a message.
use comp_net.Prelude.{
  ℕ, zero, suc, ◌-◌, ◌<◌, ◌≡◌, refl, sym, ap, subst, ◌∙◌, ◌≢◌, inl, inr, true, false, Option, none,
  some, [], ◌∷◌, arith, ◌==◌, if◌then◌else◌, Bool-cases, length, get_or, set, length-set,
}
use comp_net.Text.{Text}
use comp_net.Text.CString.{c_str}
use comp_net.Message.{MessageEx, max_payload}
use comp_net.Message.Sealed.{IsSealed, set_zero-sealed}
use comp_net.Server.{Double, Server, Os}
use comp_net.Server.NetSim.{
  draw01, draw_index, is_positive, hits, corrupt_at, corrupt, corrupt_hits,
  apply_network_simulation,
}

-- The character that is written over another one.
unfoldable pub corrupted_char : ℕ → ℕ
corrupted_char c = if c == b'#' then b'@' else b'#'

c_str-set :
    (xs : Text) (i v : ℕ)
    → i < length (c_str xs)
    → (v == 0) ≡ false
    → c_str (set xs i v) ≡ set (c_str xs) i v
unfolding c_str
c_str-set [] i v h e = refl
c_str-set (x ∷ xs) zero v h e = ground arith
c_str-set (x ∷ xs) (suc i) v h e = ground (arith, c_str-set xs i v)

get_or-c_str : (xs : Text) (i : ℕ) → i < length (c_str xs) → get_or xs i 0 ≡ get_or (c_str xs) i 0
unfolding c_str
get_or-c_str [] i h = refl
get_or-c_str (x ∷ xs) zero h = ground arith
get_or-c_str (x ∷ xs) (suc i) h = ground (arith, get_or-c_str xs i)

-- One character of the payload is another one, and all else is as it was.
pub record IsCorrupted (msg m : MessageEx) : Type 0 where
  pub at : ℕ
  pub within : at < msg.length
  pub payload :
      c_str m.payload
      ≡ set (c_str msg.payload) at (corrupted_char (get_or (c_str msg.payload) at 0))
  pub changed : corrupted_char (get_or (c_str msg.payload) at 0) ≢ get_or (c_str msg.payload) at 0
  pub same_length : m.length ≡ msg.length
  pub same_type : m.type ≡ msg.type
  pub same_id : m.msg_id ≡ msg.msg_id
  pub same_sender : m.sender ≡ msg.sender
  pub same_receiver : m.receiver ≡ msg.receiver
  pub same_time : m.timestamp ≡ msg.timestamp

corrupted_char_lem : (c : ℕ) → (corrupted_char c ≢ c) × ((corrupted_char c == 0) ≡ false)
unfolding corrupted_char
corrupted_char_lem c = ground arith

corrupt_at-IsCorrupted :
    (idx : ℕ) (msg : MessageEx)
    → IsSealed msg
    → idx < msg.length
    → IsCorrupted msg (corrupt_at idx msg)
unfolding corrupt_at corrupted_char
corrupt_at-IsCorrupted idx msg v h =
    let text = c_str msg.payload in
    let inside : idx < length text = omega (arith, v.counted) in
    let c = get_or msg.payload idx 0 in
    let same : c ≡ get_or text idx 0 = get_or-c_str msg.payload idx inside in
    let ch = corrupted_char c in
    let written = set msg.payload idx ch in
    let text_of : c_str written ≡ set text idx ch =
      c_str-set msg.payload idx ch inside (corrupted_char_lem c).1 in
    let long : length (c_str written) ≡ length text = ap length text_of ∙ length-set text idx ch in
    let closed : c_str (set written (max_payload - 1) 0) ≡ c_str written =
      set_zero-sealed written (max_payload - 1) (length-set msg.payload idx ch ∙ v.sized.payload)
        (omega (arith, long, v.payload)) in
    record {
      at = idx;
      within = h;
      payload = closed ∙ text_of ∙ ap (λ x. set text idx (corrupted_char x)) same;
      changed = (corrupted_char_lem (get_or text idx 0)).0;
      same_length = omega (arith, ap length closed, long, v.counted, v.payload);
      same_type = refl;
      same_id = refl;
      same_sender = refl;
      same_receiver = refl;
      same_time = refl;
    }

-- `std::uniform_int_distribution<int>(0, n - 1)` draws below `n`.
pub record DrawsBelow (s : Server) : Type 0 where
  pub below : (call n : ℕ) → 0 < n → s.os.random_index call n < n

-- What comes out of the simulation.
pub data Outcome (msg : MessageEx) : Option MessageEx → Type 0 where
  dropped : Outcome msg none
  passed : Outcome msg (some msg)
  corrupted : {m : MessageEx} → IsCorrupted msg m → Outcome msg (some m)

corrupt-IsCorrupted :
    (msg : MessageEx) (s : Server)
    → IsSealed msg
    → DrawsBelow s
    → 0 < msg.length
    → IsCorrupted msg (corrupt msg s).0
unfolding corrupt draw_index
corrupt-IsCorrupted msg s v d h = corrupt_at-IsCorrupted _ msg v (d.below s.calls msg.length h)

hits-os : (rate : Double) (s : Server) → (hits rate s).1.os ≡ s.os
unfolding hits draw01
hits-os rate s = ground arith

corrupt_hits-os : (msg : MessageEx) (s : Server) → (corrupt_hits msg s).1.os ≡ s.os
unfolding corrupt_hits
corrupt_hits-os msg s = ground (arith, hits-os s.sim.corrupt_rate s)

corrupt_hits-pos : (msg : MessageEx) (s : Server) → (corrupt_hits msg s).0 ≡ true → 0 < msg.length
unfolding corrupt_hits
corrupt_hits-pos msg s h = ground arith

-- A well-formed message is dropped, or it passes as it is, or one character of its payload is
-- another one and it stays as long as it was: no other field is touched. The draws must keep to
-- their range.
pub apply_network_simulation-Outcome :
    (msg : MessageEx) (s : Server)
    → IsSealed msg
    → DrawsBelow s
    → Outcome msg (apply_network_simulation msg s).0
unfolding apply_network_simulation
apply_network_simulation-Outcome msg s v d =
    let s1 = (hits s.sim.drop_rate s).1 in
    let s2 = (corrupt_hits msg s1).1 in
    let same : s2.os ≡ s.os = corrupt_hits-os msg s1 ∙ hits-os s.sim.drop_rate s in
    let draws : DrawsBelow s2 = record {
      below =
          λ call n p. subst (λ (os : Os). os.random_index call n < n) (sym same) (d.below call n p);
    } in
    elim (Bool-cases (hits s.sim.drop_rate s).0) [
      | inl e ↦ rw e dropped
      | inr e ↦ elim (Bool-cases (corrupt_hits msg s1).0) [
        | inl f ↦
            rw (e, f) (corrupted (corrupt-IsCorrupted msg s2 v draws (corrupt_hits-pos msg s1 f)))
        | inr f ↦ rw (e, f) passed
      ]
    ]

hits_off : (rate : Double) (s : Server) → is_positive rate ≡ false → hits rate s ≡ (false, s)
unfolding hits
hits_off rate s h = rw h refl

corrupt_hits_off :
    (msg : MessageEx) (s : Server)
    → is_positive s.sim.corrupt_rate ≡ false
    → corrupt_hits msg s ≡ (false, s)
unfolding corrupt_hits
corrupt_hits_off msg s h = rw (hits_off s.sim.corrupt_rate s h) (ground arith)

-- With both rates at 0, or NaN, every message passes, and nothing is drawn.
pub apply_network_simulation_off :
    (msg : MessageEx) (s : Server)
    → is_positive s.sim.drop_rate ≡ false
    → is_positive s.sim.corrupt_rate ≡ false
    → apply_network_simulation msg s ≡ (some msg, s)
unfolding apply_network_simulation
apply_network_simulation_off msg s a b =
    rw (hits_off s.sim.drop_rate s a, corrupt_hits_off msg s b) refl
