-- ===== src/Values.antt =====
-- Values whose type the code does not know (`unknown`), and JavaScript numbers as far as the code
-- tells them apart.
pub mod Numbers
use ldapwarden.Prelude.{
  leb, ◌==◌, if◌then◌else◌, trim_start, decimal, decimal_value, JsString, text, ◌===◌, ℕ, suc, Bool,
  true, false, ◌&&◌, List, [], ◌∷◌,
}

-- `whole n` and `below_zero n` are the integers n and -(n + 1); a finite number that is no integer
-- keeps its printed form.
pub data JsNumber : Type 0 where
  nan : JsNumber
  infinity minus_infinity : JsNumber
  whole below_zero : ℕ → JsNumber
  fraction : JsString → JsNumber

mutual
  pub data Value : Type 0 where
    undefined null : Value
    boolean : Bool → Value
    number : JsNumber → Value
    string : JsString → Value
    array : Items → Value
    object : Fields → Value

  pub data Items : Type 0 where
    nil : Items
    cons : Value → Items → Items

  pub data Fields : Type 0 where
    end : Fields
    field : JsString → Value → Fields → Fields

-- `raw.key`, `undefined` where it is missing.
unfoldable pub get : JsString → Fields → Value
get key end = undefined
get key (field k v fs) = if k === key then v else get key fs

-- The string values of a list: `filter((w): w is string => typeof w === 'string')`.
unfoldable pub strings : Items → List JsString
strings nil = []
strings (cons (string s) vs) = s ∷ strings vs
strings (cons _ vs) = strings vs

-- `Number(value)`. Text is read by `parse`, and an array by its text, as ECMAScript says.
module _ (parse : JsString → JsNumber) (shown : Items → JsString) where
  unfoldable pub to_number : Value → JsNumber
  to_number undefined = nan
  to_number null = whole 0
  to_number (boolean true) = whole 1
  to_number (boolean false) = whole 0
  to_number (number n) = n
  to_number (string s) = parse s
  to_number (array vs) = parse (shown vs)
  to_number (object fs) = nan

-- `String(n)`, for a number below 10 ^ 21.
unfoldable pub number_text : JsNumber → JsString
number_text nan = text "NaN"
number_text infinity = text "Infinity"
number_text minus_infinity = text "-Infinity"
number_text (whole n) = decimal n
number_text (below_zero n) = b'-' ∷ decimal (suc n)
number_text (fraction s) = s

-- `parseInt(s, 10)`: white space, a sign, and the digits up to the first other character.
abbrev pub digit_prefix : JsString → JsString
digit_prefix [] = []
digit_prefix (c ∷ s) = if leb b'0' c && leb c b'9' then c ∷ digit_prefix s else []

abbrev parse_digits : JsString → JsNumber
parse_digits [] = nan
parse_digits (c ∷ s) = whole (decimal_value (c ∷ s))

abbrev negated : JsNumber → JsNumber
negated (whole (suc n)) = below_zero n
negated n = n

abbrev parse_signed : JsString → JsNumber
parse_signed [] = nan
parse_signed (c ∷ s) =
    if c == b'-'
    then negated (parse_digits (digit_prefix s))
    else if c == b'+'
    then parse_digits (digit_prefix s)
    else parse_digits (digit_prefix (c ∷ s))

unfoldable pub parse_int : JsString → JsNumber
parse_int s = parse_signed (trim_start s)

-- The fields of an object that `JSON.stringify` writes.
unfoldable pub stringified : Fields → Fields
stringified end = end
stringified (field k undefined fs) = stringified fs
stringified (field k v fs) = field k v (stringified fs)
