-- ===== src/Webhook/Events.antt =====
-- internal/webhook/normalize.go: the names of events that webhooks are told.
use fmxevolution_go.Base.{
  String, Bool, false, ◌||◌, some, List, [], ◌∷◌, str_eq, if◌then◌else◌, trim_space, to_lower,
  replace_char,
}
use fmxevolution_go.Webhook.Values.{flag, Fields, get, among, any_string}

abbrev pub event_message_received : String
event_message_received = "message.received"

abbrev pub event_message_sent : String
event_message_sent = "message.sent"

abbrev pub event_message_delivered : String
event_message_delivered = "message.delivered"

abbrev pub event_message_read : String
event_message_read = "message.read"

abbrev pub event_message_failed : String
event_message_failed = "message.failed"

abbrev pub event_instance_connected : String
event_instance_connected = "instance.connected"

abbrev pub event_instance_disconnected : String
event_instance_disconnected = "instance.disconnected"

abbrev pub event_qr_updated : String
event_qr_updated = "qr.updated"

abbrev pub event_auth_failed : String
event_auth_failed = "auth.failed"

-- The text of a key in lower case, or that of another where it is empty.
lower_text : String → String → Fields → String
unfolding any_string
lower_text key other values =
    let s = to_lower (any_string key values) in
    if str_eq s "" then to_lower (any_string other values) else s

unfoldable pub connection_state : Fields → String
unfolding lower_text among
connection_state values =
    let state = lower_text "state" "status" values in
    if among state ("open" ∷ "connected" ∷ "online" ∷ [])
    then event_instance_connected
    else if among state ("close" ∷ "closed" ∷ "disconnected" ∷ "offline" ∷ [])
    then event_instance_disconnected
    else event_instance_connected

unfoldable pub status_from_ack : Fields → String
unfolding lower_text among
status_from_ack values =
    let ack = lower_text "ack" "status" values in
    if among ack ("read" ∷ "3" ∷ "4" ∷ [])
    then event_message_read
    else if among ack ("delivered" ∷ "delivery.ack" ∷ "2" ∷ [])
    then event_message_delivered
    else if among ack ("error" ∷ "failed" ∷ "-1" ∷ [])
    then event_message_failed
    else event_message_delivered

-- The first key with a Boolean decides.
first_flag : List String → Fields → Bool
first_flag [] values = false
first_flag (key ∷ keys) values = elim (get key values) [
  | some (flag b) ↦ b
  | _ ↦ first_flag keys values
]

unfoldable pub is_from_me : Fields → Bool
unfolding first_flag
is_from_me = first_flag ("from_me" ∷ "fromMe" ∷ "isFromMe" ∷ [])

-- The raw name in lower case and with dots.
unfoldable pub event_key : String → String
event_key raw = replace_char "_" "." (replace_char "-" "." (to_lower (trim_space raw)))

-- What a case of the switch answers to.
pub data Group : Type 0 where
  message sent ack delivered read failed connection disconnected qr auth : Group

unfoldable pub names : Group → List String
names message =
    "message" ∷ "messages.upsert" ∷ "message.upsert" ∷ "message.received" ∷ "messages.received" ∷ []
names sent = "message.sent" ∷ "messages.sent" ∷ "send.message" ∷ "message.send" ∷ []
names ack = "messages.update" ∷ "message.update" ∷ "message.ack" ∷ "messages.ack" ∷ []
names delivered = "message.delivered" ∷ "messages.delivered" ∷ []
names read = "message.read" ∷ "messages.read" ∷ "read" ∷ []
names failed = "message.failed" ∷ "messages.failed" ∷ "send.failed" ∷ []
names connection =
    "connection.update" ∷ "connection" ∷ "instance.connected" ∷ "connected" ∷ "open" ∷ []
names disconnected = "instance.disconnected" ∷ "disconnected" ∷ "close" ∷ "logout" ∷ []
names qr = "qr" ∷ "qr.updated" ∷ "qrcode.updated" ∷ "qrcode" ∷ "qr.code" ∷ []
names auth = "auth.failure" ∷ "auth.failed" ∷ "authentication.failure" ∷ []

unfoldable pub name_of : Group → String → Fields → String
name_of message direction values =
    if str_eq direction "outbound" || is_from_me values
    then event_message_sent
    else event_message_received
name_of sent direction values = event_message_sent
name_of ack direction values = status_from_ack values
name_of delivered direction values = event_message_delivered
name_of read direction values = event_message_read
name_of failed direction values = event_message_failed
name_of connection direction values = connection_state values
name_of disconnected direction values = event_instance_disconnected
name_of qr direction values = event_qr_updated
name_of auth direction values = event_auth_failed

-- The cases of the switch in their order, and the key itself where none of them answers.
unfoldable pub select : List Group → String → String → Fields → String
select [] key direction values = key
select (g ∷ gs) key direction values =
    let rest = select gs key direction values in
    if among key (names g) then name_of g direction values else rest

abbrev pub groups : List Group
groups =
    message ∷ sent ∷ ack ∷ delivered ∷ read ∷ failed ∷ connection ∷ disconnected ∷ qr ∷ auth ∷ []

unfoldable pub normalize_event_type : String → String → Fields → String
unfolding select
normalize_event_type raw direction values = select groups (event_key raw) direction values
