-- ===== src/ChatClient/Offline.antt =====
-- An offline message of LAB6/server.cpp as LAB6/client.cpp shows it.
use comp_net.Prelude.{
  ◌-◌, ◌≡◌, refl, ap, ◌∙◌, true, ◌++◌, arith, take, take-append_length, drop-append_length,
}
use comp_net.Text.{Text, codes, text_eq_refl}
use comp_net.Text.Search.{starts_with}
use comp_net.Text.CString.{c_str, c_str-buffer, c_str-c_str}
use comp_net.Message.{MessageEx, fill_message, max_payload, msg_private}
use comp_net.Server.{OfflineMsg}
use comp_net.Server.Delivery.{offline_message}
use comp_net.ChatClient.Output.{shown_text, offline_prefix}

-- The text of a delivered offline message, with the prefix in front.
payload-offline_message :
    (item : OfflineMsg)
    → c_str (offline_message item).payload
      ≡ take (max_payload - 1) (c_str (offline_prefix ++ c_str item.text))
unfolding offline_message fill_message
payload-offline_message item = c_str-buffer max_payload _ (omega arith)

c_str-offline_prefix : (text : Text) → c_str (offline_prefix ++ text) ≡ offline_prefix ++ c_str text
unfolding c_str codes
c_str-offline_prefix text = refl

take-offline_prefix :
    (text : Text)
    → take (max_payload - 1) (offline_prefix ++ text)
      ≡ offline_prefix ++ take (max_payload - 1 - 10) text
unfolding codes
take-offline_prefix text = refl

starts_with_prefix : (prefix text : Text) → starts_with prefix (prefix ++ text) ≡ true
unfolding starts_with
starts_with_prefix prefix text = rw (take-append_length prefix text) (text_eq_refl prefix)

shown_text_prefixed :
    (msg : MessageEx) (text : Text)
    → msg.type ≡ msg_private
    → c_str msg.payload ≡ offline_prefix ++ text
    → shown_text msg ≡ (true, text)
unfolding shown_text
shown_text_prefixed msg text type payload =
    rw
      (
        payload,
        starts_with_prefix offline_prefix text,
        drop-append_length offline_prefix text,
        type,
      )
      refl

-- The client recognizes what the server delivers from its queue: the message is shown as an offline
-- one, and its text is the text that was stored, without the prefix and cut to what fits behind it.
pub shown-offline_message :
    (item : OfflineMsg)
    → shown_text (offline_message item) ≡ (true, take (max_payload - 1 - 10) (c_str item.text))
unfolding offline_message fill_message
shown-offline_message item =
    shown_text_prefixed (offline_message item) (take (max_payload - 1 - 10) (c_str item.text)) refl
      (payload-offline_message item
        ∙ ap (take (max_payload - 1)) (c_str-offline_prefix (c_str item.text))
        ∙ take-offline_prefix (c_str (c_str item.text))
        ∙ ap (λ text. offline_prefix ++ take (max_payload - 1 - 10) text) (c_str-c_str item.text))
