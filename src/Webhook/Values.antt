-- ===== src/Webhook/Values.antt =====
-- What a `map[string]any` of a webhook holds, and the functions of internal/webhook/service.go that
-- read texts from it.
--
-- A nil map reads as the empty one; only inside another map the two are told apart. No key comes
-- twice. The values of other types, which the code only passes on, are opaque.
use fmxevolution_go.Base.{
  ℕ, String, Bool, true, false, Option, none, some, List, [], ◌∷◌, str_eq, if◌then◌else◌, Time,
  trim_space, is_blank, any,
}

mutual
  pub data Value : Type 0 where
    null nil_map : Value
    text : String → Value
    flag : Bool → Value
    time : Time → Value
    object : Fields → Value
    opaque : ℕ → Value

  pub data Fields : Type 0 where
    empty : Fields
    field : String → Value → Fields → Fields

-- `value, ok := data[key]`
unfoldable pub get : String → Fields → Option Value
get key empty = none
get key (field k v rest) = let later = get key rest in if str_eq k key then some v else later

-- A literal of a map.
unfoldable pub of_list : List (String × Value) → Fields → Fields
of_list [] rest = rest
of_list ((k, v) ∷ kvs) rest = field k v (of_list kvs rest)

-- A text that is one of those of a `case`.
unfoldable pub among : String → List String → Bool
among s = any (str_eq s)

-- `anyString(data[key])`
unfoldable pub any_string : String → Fields → String
any_string key values = elim (get key values) [ some (text s) ↦ trim_space s | _ ↦ "" ]

unfoldable pub first_non_empty_string : List String → String
first_non_empty_string [] = ""
first_non_empty_string (s ∷ ss) =
    let rest = first_non_empty_string ss in if is_blank s then rest else trim_space s

-- The first key with a text decides, even where the text is empty.
first_text : List String → Fields → String
first_text [] values = ""
first_text (key ∷ keys) values = elim (get key values) [
  | some (text s) ↦ trim_space s
  | _ ↦ first_text keys values
]

unfoldable pub message_text_from_data : Fields → String
unfolding first_text
message_text_from_data = first_text ("message" ∷ "text" ∷ "body" ∷ "content" ∷ [])

-- The first key with a text that is not blank decides.
unfoldable pub first_named_text : List String → Fields → String
first_named_text [] values = ""
first_named_text (key ∷ keys) values =
    let rest = first_named_text keys values in
    elim (get key values) [ some (text s) ↦ if is_blank s then rest else trim_space s | _ ↦ rest ]

-- `payload[key] != nil`
unfoldable pub is_set : String → Fields → Bool
is_set key values = elim (get key values) [ none ↦ false | some null ↦ false | _ ↦ true ]

-- `payload, ok := data[key].(map[string]any); ok && payload != nil`
unfoldable pub sub_map : String → Fields → Option Fields
sub_map key values = elim (get key values) [ some (object fields) ↦ some fields | _ ↦ none ]
