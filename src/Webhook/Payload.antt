-- ===== src/Webhook/Payload.antt =====
-- `NormalizePayload` of internal/webhook/normalize.go, and what internal/webhook/service.go reads
-- from the data of a message.
use fmxevolution_go.Base.{
  String, Bool, ◌||◌, Option, none, some, List, [], ◌∷◌, str_eq, if◌then◌else◌, Time, trim_space,
  to_lower, concat, before_char, or_else,
}
use fmxevolution_go.Webhook.Values.{
  Value, text, time, object, Fields, empty, get, of_list, among, any_string, first_non_empty_string,
  message_text_from_data, first_named_text, is_set, sub_map,
}
use fmxevolution_go.Webhook.Model.{DispatchInput, InboundMessage}

unfoldable pub conversation_key_from_data : DispatchInput → String
unfolding first_named_text concat
conversation_key_from_data input =
    let named =
      first_named_text
        ("conversation_key" ∷ "conversationKey" ∷ "from" ∷ "contact_id" ∷ "contactId" ∷ "chat_id"
          ∷ "chatId" ∷ [])
        input.values in
    let inst = trim_space input.instance_id in
    let msg = trim_space input.message_id in
    if str_eq named ""
    then if str_eq inst ""
      then ""
      else if str_eq msg ""
      then inst
      else concat (inst ∷ ":" ∷ msg ∷ [])
    else named

unfoldable pub is_inbound_conversation_event : String → Bool
unfolding among
is_inbound_conversation_event event =
    among (to_lower (trim_space event))
      ("message" ∷ "message.received" ∷ "messages.upsert" ∷ "message.upsert" ∷ [])

unfoldable pub normalized_webhook_message_payload : Fields → Fields
unfolding sub_map
normalized_webhook_message_payload values = elim (sub_map "Message" values) [
  | some payload ↦ payload
  | none ↦ or_else (sub_map "message" values) values
]

unfoldable pub inferred_webhook_message_type : Fields → String
unfolding is_set any_string
inferred_webhook_message_type payload =
    if is_set "imageMessage" payload
    then "imageMessage"
    else if is_set "videoMessage" payload
    then "videoMessage"
    else if is_set "audioMessage" payload
    then "audioMessage"
    else if is_set "documentMessage" payload
    then "documentMessage"
    else if is_set "extendedTextMessage" payload
    then "conversation"
    else if str_eq (any_string "conversation" payload) ""
    then ""
    else "conversation"

unfoldable pub trim_remote_jid : String → String
unfolding before_char
trim_remote_jid jid = before_char "@" (trim_space jid)

-- The first key with a time, or a text that reads as one, decides.
timestamp_of : (String → Option Time) → Time → List String → Fields → Time
timestamp_of parse now [] values = now
timestamp_of parse now (key ∷ keys) values =
    let rest = timestamp_of parse now keys values in
    elim (get key values) [
      | some (text s) ↦ or_else (parse (trim_space s)) rest
      | some (time t) ↦ t
      | _ ↦ rest
    ]

-- `parse` is `time.Parse` with RFC 3339.
unfoldable pub timestamp_from_webhook_input : (String → Option Time) → Time → Fields → Time
unfolding timestamp_of
timestamp_from_webhook_input parse now =
    timestamp_of parse now ("timestamp" ∷ "message_timestamp" ∷ "messageTimestamp" ∷ [])

-- The first of two keys with a text in the data, else in the payload.
in_either : String → String → Fields → Fields → String
unfolding first_non_empty_string any_string
in_either key other values payload = first_non_empty_string (
    any_string key values
    ∷ any_string other values
    ∷ any_string key payload
    ∷ any_string other payload
    ∷ [])

message_type_of : Fields → Fields → String
unfolding first_non_empty_string any_string
message_type_of values payload = first_non_empty_string (
    any_string "message_type" values
    ∷ any_string "messageType" values
    ∷ inferred_webhook_message_type payload
    ∷ [])

text_of : Fields → Fields → String
unfolding first_non_empty_string
text_of values payload =
    first_non_empty_string (message_text_from_data values ∷ message_text_from_data payload ∷ [])

caption_of : Fields → Fields → String
unfolding first_non_empty_string any_string
caption_of values payload =
    first_non_empty_string (any_string "caption" values ∷ any_string "caption" payload ∷ [])

-- `out["media"]`, where there is a URL
media : Fields → Fields → Fields
unfolding of_list in_either caption_of
media values payload =
    let url = in_either "media_url" "mediaUrl" values payload in
    if str_eq url ""
    then empty
    else of_list
        ((
          "media",
          object (
              of_list
                (("url", text url)
                  ∷ ("mime_type", text (in_either "mime_type" "mimeType" values payload))
                  ∷ ("file_name", text (in_either "file_name" "fileName" values payload))
                  ∷ ("caption", text (caption_of values payload))
                  ∷ [])
                empty),
        )
          ∷ [])
        empty

-- A missing longitude is a nil.
location : Fields → Fields → Fields
unfolding of_list any_string
location values rest =
    if str_eq (any_string "latitude" values) ""
    then rest
    else of_list
        ((
          "location",
          object (
              of_list
                (("latitude", or_else (get "latitude" values) Value.null)
                  ∷ ("longitude", or_else (get "longitude" values) Value.null)
                  ∷ [])
                empty),
        )
          ∷ [])
        rest

unfoldable pub normalize_payload : (String → Option Time) → Time → DispatchInput → String → Fields
unfolding of_list any_string first_non_empty_string message_type_of text_of location media
normalize_payload parse now input direction =
    let values = input.values in
    let payload = normalized_webhook_message_payload values in
    let id = trim_space input.message_id in
    of_list
      (("provider", text "whatsapp")
        ∷ ("direction", text direction)
        ∷ ("instance_id", text (trim_space input.instance_id))
        ∷ (
          "message_id",
          text (
              first_non_empty_string
                (id ∷ any_string "message_id" values ∷ any_string "wamid" values ∷ [])),
        )
        ∷ ("wamid", text (first_non_empty_string (any_string "wamid" values ∷ id ∷ [])))
        ∷ (
          "from",
          text (
              first_non_empty_string (
                any_string "from" values
                ∷ any_string "remote_jid" values
                ∷ any_string "remoteJid" values
                ∷ [])),
        )
        ∷ (
          "to",
          text (
              first_non_empty_string (any_string "to" values ∷ any_string "recipient" values ∷ [])),
        )
        ∷ ("message_type", text (message_type_of values payload))
        ∷ ("text", text (text_of values payload))
        ∷ ("timestamp", time (timestamp_from_webhook_input parse now values))
        ∷ ("raw", object values)
        ∷ [])
      (location values (media values payload))

-- The message that `notifyInboundConversationFallback` reports, if it reports one.
unfoldable pub fallback_message :
    (String → Option Time) → Time → DispatchInput → Option InboundMessage
unfolding any_string first_non_empty_string message_type_of text_of in_either caption_of
fallback_message parse now input =
    let values = input.values in
    let payload = normalized_webhook_message_payload values in
    let inst = trim_space input.instance_id in
    let msg = trim_space input.message_id in
    let jid = first_non_empty_string (
      any_string "remote_jid" values
      ∷ any_string "remoteJid" values
      ∷ any_string "chat_id" values
      ∷ any_string "chatId" values
      ∷ any_string "from" values
      ∷ []) in
    if is_inbound_conversation_event input.event_type
    then if str_eq inst "" || str_eq msg "" || str_eq jid ""
      then none
      else some (record {
        instance_id = inst;
        message_id = msg;
        remote_jid = jid;
        push_name =
            first_non_empty_string
              (any_string "push_name" values ∷ any_string "pushName" values ∷ []);
        message_type = message_type_of values payload;
        body = text_of values payload;
        source = trim_remote_jid jid;
        media_url = in_either "media_url" "mediaUrl" values payload;
        mime_type = in_either "mime_type" "mimeType" values payload;
        file_name = in_either "file_name" "fileName" values payload;
        caption = caption_of values payload;
        message = payload;
        timestamp = timestamp_from_webhook_input parse now values;
      })
    else none
