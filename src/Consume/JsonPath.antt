-- ===== src/Consume/JsonPath.antt =====
-- backend/internal/kafkaconn/messages.go: the paths into JSON values of the field filters (`parseJSONPath`,
-- `jsonPathValue`). The loops over a part of a path, which cut off one bracket after another, are one scan of its
-- characters. What `json.Unmarshal` makes of a text and how numbers, lists and objects are written are
-- parameters; a number is its text, and the names of an object differ.
use Prim.Native.Char.{Char, code}
use Prim.Native.String.{[] as nil, ◌∷◌ as cons, ◌++◌ as cat}
use dbx_plugin_kafka.Base.{
  ℕ, zero, suc, ◌+◌, ◌-◌, ◌*◌, ◌^◌, String, Bool, true, false, ◌&&◌, ◌||◌, Option, none, some, List,
  [], ◌∷◌, if◌then◌else◌, ltb, leb, ◌==◌, string_eq, nat_eq,
}
use dbx_plugin_kafka.Base.Strings.{trim_space}

pub data JsonPathToken : Type 0 where
  key : String → JsonPathToken
  index : ℕ → JsonPathToken

-- The value of decimal digits after those read.
unfoldable pub digits : ℕ → String → Option ℕ
digits n nil = some n
digits n (cons c s) = elim (leb b'0' (code c) && leb (code c) b'9') [
  | true ↦ digits (n * 10 + (code c - b'0')) s
  | false ↦ none
]

abbrev number_below : ℕ → String → Option ℕ
unfolding digits
number_below bound nil = none
number_below bound (cons c s) = elim (digits 0 (cons c s)) [
  | none ↦ none
  | some n ↦ if ltb n bound then some n else none
]

abbrev is_zero : Option ℕ → Option ℕ
is_zero (some zero) = some 0
is_zero _ = none

-- `strconv.Atoi` where its result is not negative; `none` stands for an error and for the others.
unfoldable pub index_value : String → Option ℕ
unfolding number_below
index_value nil = none
index_value (cons c s) =
    if code c == b'-'
    then is_zero (number_below (2 ^ 63 + 1) s)
    else if code c == b'+'
    then number_below (2 ^ 63) s
    else number_below (2 ^ 63) (cons c s)

-- Where in a part the scan is: in a key, in brackets, or behind them.
pub data PartPlace : Type 0 where
  in_key : String → PartPlace
  in_brackets : String → PartPlace
  behind : PartPlace

abbrev with_key : String → Option (List JsonPathToken) → Option (List JsonPathToken)
with_key name none = none
with_key name (some tokens) = if name == "" then some tokens else some (key name ∷ tokens)

abbrev with_index : Option ℕ → Option (List JsonPathToken) → Option (List JsonPathToken)
with_index (some n) (some tokens) = some (index n ∷ tokens)
with_index _ _ = none

-- The tokens of the rest of a part that is not empty.
unfoldable pub parse_part : PartPlace → String → Option (List JsonPathToken)
unfolding index_value
parse_part (in_key name) nil = with_key name (some [])
parse_part (in_key name) (cons c s) = elim (code c == b'[') [
  | true ↦ with_key name (parse_part (in_brackets "") s)
  | false ↦ parse_part (in_key (cat name (cons c nil))) s
]
parse_part (in_brackets text) nil = none
parse_part (in_brackets text) (cons c s) = elim (code c == b']') [
  | true ↦ with_index (index_value text) (parse_part behind s)
  | false ↦ parse_part (in_brackets (cat text (cons c nil))) s
]
parse_part behind nil = some []
parse_part behind (cons c s) = elim (code c == b'[') [
  | true ↦ parse_part (in_brackets "") s
  | false ↦ none
]

abbrev add_front : Char → List String → List String
add_front c [] = cons c nil ∷ []
add_front c (part ∷ parts) = cons c part ∷ parts

-- `Split(path, ".")`
unfoldable pub split_dot : String → List String
split_dot nil = nil ∷ []
split_dot (cons c s) =
    let rest = split_dot s in if code c == b'.' then nil ∷ rest else add_front c rest

abbrev joined :
    Option (List JsonPathToken) → Option (List JsonPathToken) → Option (List JsonPathToken)
joined (some here) (some rest) = some (append here rest)
  where
    append : List JsonPathToken → List JsonPathToken → List JsonPathToken
    append [] ts = ts
    append (t ∷ us) ts = t ∷ append us ts
joined _ _ = none

unfoldable pub parse_parts : List String → Option (List JsonPathToken)
unfolding parse_part
parse_parts [] = some []
parse_parts (nil ∷ parts) = none
parse_parts (cons c s ∷ parts) = joined (parse_part (in_key "") (cons c s)) (parse_parts parts)

-- `TrimPrefix` of one character.
abbrev without_first : ℕ → String → String
without_first n nil = nil
without_first n (cons c s) = if code c == n then s else cons c s

unfoldable pub parse_json_path : String → Option (List JsonPathToken)
unfolding parse_parts split_dot
parse_json_path path =
    let rest = without_first b'.' (without_first b'$' (trim_space path)) in
    if rest == "" then some [] else parse_parts (split_dot rest)

mutual
  pub data Json : Type 0 where
    null : Json
    bool : Bool → Json
    number text : String → Json
    array : Items → Json
    object : Entries → Json

  pub data Items : Type 0 where
    no_items : Items
    item : Json → Items → Items

  pub data Entries : Type 0 where
    no_entries : Entries
    entry : String → Json → Entries → Entries

abbrev item_at : Items → ℕ → Option Json
item_at no_items n = none
item_at (item v items) zero = some v
item_at (item v items) (suc n) = item_at items n

abbrev entry_at : Entries → String → Option Json
entry_at no_entries k = none
entry_at (entry name v entries) k = if name == k then some v else entry_at entries k

abbrev step : Json → JsonPathToken → Option Json
step (array items) (index n) = item_at items n
step (object entries) (key k) = entry_at entries k
step _ _ = none

-- The loop over the tokens.
unfoldable pub at_path : Json → List JsonPathToken → Option Json
at_path value [] = some value
at_path value (t ∷ ts) = elim (step value t) [ none ↦ none | some next ↦ at_path next ts ]

unfoldable pub json_value_string : (Json → String) → Json → String
json_value_string marshal null = ""
json_value_string marshal (bool true) = "true"
json_value_string marshal (bool false) = "false"
json_value_string marshal (number t) = t
json_value_string marshal (text t) = t
json_value_string marshal value = marshal value

-- `string(data)`
abbrev pub text_of : Option String → String
text_of none = ""
text_of (some t) = t

-- `none` as bytes is `nil`; `string(data), data != nil` are the bytes themselves.
unfoldable pub json_path_value :
    (String → Option Json) → (Json → String) → Option String → String → Option String
unfolding parse_json_path at_path json_value_string
json_path_value unmarshal marshal bytes path =
    if trim_space path == "" || trim_space path == "$"
    then bytes
    else elim (unmarshal (text_of bytes)) [
      | none ↦ none
      | some decoded ↦ elim (parse_json_path path) [
        | none ↦ none
        | some tokens ↦ elim (at_path decoded tokens) [
          | none ↦ none
          | some found ↦ some (json_value_string marshal found)
        ]
      ]
    ]
