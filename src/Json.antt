-- ===== src/Json.antt =====
-- JSON values, and `json.dumps(value, sort_keys=True)` with its default separators and with
-- every character outside ASCII escaped. Numbers are the whole numbers that the program dumps.
use Prim.Native.Char.{code}
use Prim.Native.String
use riskflow.Prelude.{
  ℕ, zero, suc, ◌+◌, ◌-◌, ◌/◌, ◌%◌, Bool, true, false, ◌&&◌, List, [], ◌∷◌, String, ltb, leb, eqb,
  if◌then◌else◌,
}
use riskflow.Prelude.Sort.{text_leb}

mutual
  pub data Json : Type 0 where
    null : Json
    boolean : Bool → Json
    text : String → Json
    array : Items → Json
    object : Fields → Json

  pub data Items : Type 0 where
    nil : Items
    cons : Json → Items → Items

  pub data Fields : Type 0 where
    end : Fields
    field : String → Json → Fields → Fields

-- Concatenation of texts.
infixr 65 ◌<>◌
abbrev pub ◌<>◌ : String → String → String
s <> t = String.◌++◌ s t

hex_digits : List String
hex_digits =
    "0" ∷ "1" ∷ "2" ∷ "3" ∷ "4" ∷ "5" ∷ "6" ∷ "7" ∷ "8" ∷ "9" ∷ "a" ∷ "b" ∷ "c" ∷ "d" ∷ "e" ∷ "f"
    ∷ []

nth : List String → ℕ → String
nth [] i = ""
nth (s ∷ ss) zero = s
nth (s ∷ ss) (suc i) = nth ss i

hex_digit : ℕ → String
unfolding hex_digits nth
hex_digit n = nth hex_digits (n % 16)

-- "\uXXXX"
unicode_escape : ℕ → String
unfolding hex_digit
unicode_escape n =
    "\\u" <> hex_digit (n / 4096) <> hex_digit (n / 256) <> hex_digit (n / 16) <> hex_digit n

escape_code : ℕ → String → String
unfolding unicode_escape
escape_code c plain =
    if eqb c 34
    then "\\\""
    else if eqb c 92
    then "\\\\"
    else if eqb c 10
    then "\\n"
    else if eqb c 13
    then "\\r"
    else if eqb c 9
    then "\\t"
    else if eqb c 12
    then "\\f"
    else if eqb c 8
    then "\\b"
    else if leb 32 c && leb c 126
    then plain
    else if ltb c 65536
    then unicode_escape c
    else unicode_escape (55296 + (c - 65536) / 1024) <> unicode_escape (56320 + (c - 65536) % 1024)

escape : String → String
unfolding escape_code
escape String.[] = ""
escape (String.◌∷◌ c s) = escape_code (code c) (String.◌∷◌ c "") <> escape s

abbrev quoted : String → String
quoted s = "\"" <> escape s <> "\""

-- `sort_keys`: the keys of a dict are distinct.
unfoldable pub insert_field : String → Json → Fields → Fields
insert_field k v end = field k v end
insert_field k v (field j w fs) =
    let rest = insert_field k v fs in
    if text_leb k j then field k v (field j w fs) else field j w rest

unfoldable pub sort_fields : Fields → Fields
unfolding insert_field text_leb
sort_fields end = end
sort_fields (field k v fs) = insert_field k v (sort_fields fs)

mutual
  unfolding escape

  -- `dumps` of a value whose objects are sorted already.
  pub print : Json → String
  print null = "null"
  print (boolean true) = "true"
  print (boolean false) = "false"
  print (text s) = quoted s
  print (array nil) = "[]"
  print (array (cons v vs)) = "[" <> print v <> print_items vs <> "]"
  print (object end) = "{}"
  print (object (field k v fs)) = "{" <> quoted k <> ": " <> print v <> print_fields fs <> "}"

  pub print_items : Items → String
  print_items nil = ""
  print_items (cons v vs) = ", " <> print v <> print_items vs

  pub print_fields : Fields → String
  print_fields end = ""
  print_fields (field k v fs) = ", " <> quoted k <> ": " <> print v <> print_fields fs
