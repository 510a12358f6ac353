-- ===== src/Message/Sealed.antt =====
-- The messages that LAB6/server.cpp and LAB6/client.cpp build and receive are well formed.
use comp_net.Prelude.{
  ℕ, zero, suc, ◌-◌, ◌≤◌, ◌<◌, ◌≡◌, refl, ap, ◌∙◌, [], ◌∷◌, arith, length, set, take, length-set,
  length-take, take_all,
}
use comp_net.Text.{Text}
use comp_net.Text.CString.{IsCString, c_str, buffer, length-buffer, c_str-buffer}
use comp_net.Message.{max_name, max_payload, MessageEx, fill_message, seal_message}

-- The arrays have their sizes.
pub record IsSized (msg : MessageEx) : Type 0 where
  pub sender : length msg.sender ≡ max_name
  pub receiver : length msg.receiver ≡ max_name
  pub payload : length msg.payload ≡ max_payload

-- A message in memory: the arrays have their sizes and hold a NUL, and `length` is the payload's
-- `strlen`.
pub record IsSealed (msg : MessageEx) : Type 0 where
  pub sized : IsSized msg
  pub sender : length (c_str msg.sender) < max_name
  pub receiver : length (c_str msg.receiver) < max_name
  pub payload : length (c_str msg.payload) < max_payload
  pub counted : msg.length ≡ length (c_str msg.payload)

length-c_str-buffer : (size : ℕ) (s : Text) → 0 < size → length (c_str (buffer size s)) < size
length-c_str-buffer size s p =
    omega (arith, ap length (c_str-buffer size s p), length-take (size - 1) (c_str s))

-- Every message that the program builds is well formed, whatever the texts.
pub fill_message-IsSealed :
    (type : ℕ) (sender receiver payload : Text) (id timestamp : ℕ)
    → IsSealed (fill_message type sender receiver payload id timestamp)
unfolding fill_message
fill_message-IsSealed type sender receiver payload id timestamp =
    let short = length-c_str-buffer max_payload payload (omega arith) in
    record {
      sized = record {
        sender = length-buffer max_name sender;
        receiver = length-buffer max_name receiver;
        payload = length-buffer max_payload payload;
      };
      sender = length-c_str-buffer max_name sender (omega arith);
      receiver = length-c_str-buffer max_name receiver (omega arith);
      payload = short;
      counted = omega (arith, short);
    }

c_str-set_zero : (xs : Text) (i : ℕ) → i < length xs → length (c_str (set xs i 0)) ≤ i
unfolding c_str
c_str-set_zero [] i h = absurd (omega arith)
c_str-set_zero (x ∷ xs) zero h = omega arith
c_str-set_zero (x ∷ xs) (suc i) h = ground (arith, c_str-set_zero xs i)

-- Whatever bytes came in, the message that `recvMessage` hands on is well formed.
pub seal_message-IsSealed : (msg : MessageEx) → IsSized msg → IsSealed (seal_message msg)
unfolding seal_message
seal_message-IsSealed msg v =
    let short = c_str-set_zero msg.payload (max_payload - 1) (omega arith) in
    record {
      sized = record {
        sender = length-set msg.sender (max_name - 1) 0 ∙ v.sender;
        receiver = length-set msg.receiver (max_name - 1) 0 ∙ v.receiver;
        payload = length-set msg.payload (max_payload - 1) 0 ∙ v.payload;
      };
      sender = omega (arith, c_str-set_zero msg.sender (max_name - 1) (omega arith));
      receiver = omega (arith, c_str-set_zero msg.receiver (max_name - 1) (omega arith));
      payload = omega (arith, short);
      counted = omega (arith, short);
    }

pub set_zero-sealed :
    (xs : Text) (i : ℕ)
    → length xs ≡ suc i
    → length (c_str xs) < suc i
    → c_str (set xs i 0) ≡ c_str xs
unfolding c_str
set_zero-sealed [] i h k = absurd (omega arith)
set_zero-sealed (x ∷ xs) zero h k = ground arith
set_zero-sealed (x ∷ xs) (suc i) h k = ground (arith, set_zero-sealed xs i)

-- A message that is well formed reads the same after `recvMessage`: the three texts, the length and
-- the header are kept.
pub seal_message_keeps :
    (msg : MessageEx)
    → IsSealed msg
    → (c_str (seal_message msg).sender ≡ c_str msg.sender)
      × (c_str (seal_message msg).receiver ≡ c_str msg.receiver)
      × (c_str (seal_message msg).payload ≡ c_str msg.payload)
      × ((seal_message msg).length ≡ msg.length)
      × ((seal_message msg).type ≡ msg.type)
      × ((seal_message msg).msg_id ≡ msg.msg_id)
      × ((seal_message msg).timestamp ≡ msg.timestamp)
unfolding seal_message
seal_message_keeps msg v =
    let payload = set_zero-sealed msg.payload (max_payload - 1) v.sized.payload v.payload in
    (
      set_zero-sealed msg.sender (max_name - 1) v.sized.sender v.sender,
      set_zero-sealed msg.receiver (max_name - 1) v.sized.receiver v.receiver,
      payload,
      rw payload (omega (arith, v.payload, v.counted)),
      refl,
      refl,
      refl,
    )

-- A text that an array of the size holds whole.
abbrev pub FitsArray : ℕ → Text → Type 0
FitsArray size s = IsCString s × (length s < size)

pub c_str-set-buffer :
    (i : ℕ) (s : Text) → FitsArray (suc i) s → c_str (set (buffer (suc i) s) i 0) ≡ s
c_str-set-buffer i s (whole, fits) =
    let front : suc i - 1 ≡ i = omega arith in
    let kept : c_str (buffer (suc i) s) ≡ s =
      c_str-buffer (suc i) s (omega arith)
      ∙ ap (λ n. take n (c_str s)) front
      ∙ ap (take i) whole
      ∙ take_all i s (omega arith) in
    set_zero-sealed (buffer (suc i) s) i (length-buffer (suc i) s) (rw kept fits) ∙ kept
