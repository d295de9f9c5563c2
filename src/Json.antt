-- ===== src/Json.antt =====
-- JSON values as the server's handlers hold them after `JSON.parse`, with the JavaScript operations that
-- they apply: property access, spread, `delete`, `String(value)` and `JSON.stringify(value)`.
-- A number is held by the text that JavaScript prints for it; fields come in JavaScript's own order.
pub mod Laws
mod Tests
use Prim.Native.Nat.{ℕ, suc}
use printer_repo.Prelude.{
  Bool, true, false, ◌||◌, ◌&&◌, [], ◌∷◌, ◌++◌, Option, none, some, if◌then◌else◌, ltb, leb, ◌==◌,
  ◌+◌, ◌/◌, ◌%◌,
}
use printer_repo.Prelude.Text.{Text, text, text_eq}
use printer_repo.Prelude.Decimal.{decimal}

mutual
  pub data Json : Type 0 where
    null : Json
    boolean : Bool → Json
    number : Text → Json
    str : Text → Json
    arr : Items → Json
    obj : Fields → Json

  pub data Items : Type 0 where
    nil : Items
    cons : Json → Items → Items

  pub data Fields : Type 0 where
    done : Fields
    field : Text → Json → Fields → Fields

-- `fields[key]`, `none` for `undefined`.
unfoldable pub get : Text → Fields → Option Json
get key done = none
get key (field k v rest) = let later = get key rest in if text_eq k key then some v else later

-- `delete fields[key]`
unfoldable pub delete : Text → Fields → Fields
delete key done = done
delete key (field k v rest) =
    let later = delete key rest in if text_eq k key then later else field k v later

-- `fields[key] = value` for a key that is there.
unfoldable pub assign : Text → Json → Fields → Fields
assign key value done = done
assign key value (field k v rest) =
    let later = assign key value rest in
    if text_eq k key then field k value later else field k v later

unfoldable pub index_fields : ℕ → Items → Fields
index_fields i nil = done
index_fields i (cons v rest) = field (decimal i) v (index_fields (suc i) rest)

-- `{ ...value }` where `value && typeof value === "object"`.
unfoldable pub spread : Json → Option Fields
unfolding index_fields
spread (obj fields) = some fields
spread (arr items) = some (index_fields 0 items)
spread _ = none

-- `value?.[key]`, for a key that names no method of a built-in prototype.
unfoldable pub member : Text → Option Json → Option Json
member key (some (obj fields)) = get key fields
member key _ = none

-- `typeof value === "string" ? value : …`
abbrev pub string_of : Option Json → Option Text
string_of (some (str t)) = some t
string_of _ = none

-- `[].concat` of the texts with a comma between two.
abbrev pub comma_joined : Bool → Text → Text → Text
comma_joined true t rest = t
comma_joined false t rest = t ++ (b',' ∷ rest)

abbrev pub is_nil : Items → Bool
is_nil nil = true
is_nil (cons v rest) = false

-- What `Array.prototype.join` does with an element.
abbrev pub blank_null : Json → Option Text → Option Text
blank_null null t = some []
blank_null _ t = t

abbrev pub both : Option Text → Option Text → (Text → Text → Text) → Option Text
both (some a) (some b) f = some (f a b)
both _ _ f = none

abbrev pub has_key : Text → Fields → Bool
has_key key done = false
has_key key (field k v rest) = text_eq k key || has_key key rest

-- `String(value)`; `none` where it throws, since an own `toString` of a parsed object is no function.
unfoldable mutual
  unfolding text text_eq

  pub to_string : Json → Option Text
  to_string null = some (text "null")
  to_string (boolean true) = some (text "true")
  to_string (boolean false) = some (text "false")
  to_string (number t) = some t
  to_string (str t) = some t
  to_string (arr items) = join_items items
  to_string (obj fields) =
      if has_key (text "toString") fields then none else some (text "[object Object]")

  pub join_items : Items → Option Text
  join_items nil = some []
  join_items (cons v rest) =
      both (blank_null v (to_string v)) (join_items rest) (comma_joined (is_nil rest))

hex_digit : ℕ → ℕ
hex_digit d = if ltb d 10 then b'0' + d else b'W' + d

-- `\u` and four hexadecimal digits.
unicode_escape : ℕ → Text
unfolding hex_digit
unicode_escape c =
    92
    ∷ b'u'
    ∷ hex_digit (c / 4096 % 16)
    ∷ hex_digit (c / 256 % 16)
    ∷ hex_digit (c / 16 % 16)
    ∷ hex_digit (c % 16)
    ∷ []

-- The unit `c` inside a JSON string, surrogates left aside.
escape_unit : ℕ → Text
unfolding unicode_escape
escape_unit c =
    if c == 34 || c == 92
    then 92 ∷ c ∷ []
    else if c == 8
    then 92 ∷ b'b' ∷ []
    else if c == 9
    then 92 ∷ b't' ∷ []
    else if c == 10
    then 92 ∷ b'n' ∷ []
    else if c == 12
    then 92 ∷ b'f' ∷ []
    else if c == 13
    then 92 ∷ b'r' ∷ []
    else if ltb c 32
    then unicode_escape c
    else c ∷ []

abbrev is_high : ℕ → Bool
is_high c = leb 0xd800 c && leb c 0xdbff

abbrev is_low : ℕ → Bool
is_low c = leb 0xdc00 c && leb c 0xdfff

abbrev is_low_first : Text → Bool
is_low_first [] = false
is_low_first (c ∷ s) = is_low c

-- The units of a string; `paired` says that the unit before was a high surrogate. A surrogate with no
-- partner is escaped.
escape : Bool → Text → Text
unfolding escape_unit unicode_escape
escape paired [] = []
escape paired (c ∷ s) =
    let rest = escape (is_high c) s in
    if is_high c
    then (if is_low_first s then c ∷ rest else unicode_escape c ++ rest)
    else if is_low c
    then (if paired then c ∷ rest else unicode_escape c ++ rest)
    else escape_unit c ++ rest

unfoldable pub quote : Text → Text
unfolding escape
quote t = 34 ∷ (escape false t ++ (34 ∷ []))

-- `JSON.parse` reads 1e999 as an infinity, which is written as `null`.
abbrev is_infinite : Text → Bool
is_infinite t = text_eq t (text "Infinity") || text_eq t (text "-Infinity")

-- `JSON.stringify(value)`
unfoldable mutual
  unfolding text text_eq

  pub stringify : Json → Text
  stringify null = text "null"
  stringify (boolean true) = text "true"
  stringify (boolean false) = text "false"
  stringify (number t) = if is_infinite t then text "null" else t
  stringify (str t) = quote t
  stringify (arr nil) = text "[]"
  stringify (arr (cons v rest)) = b'[' ∷ (stringify v ++ stringify_items rest)
  stringify (obj done) = text "{}"
  stringify (obj (field k v rest)) =
      b'{' ∷ (quote k ++ (b':' ∷ (stringify v ++ stringify_fields rest)))

  -- The elements after the first, and the bracket.
  pub stringify_items : Items → Text
  stringify_items nil = b']' ∷ []
  stringify_items (cons v rest) = b',' ∷ (stringify v ++ stringify_items rest)

  pub stringify_fields : Fields → Text
  stringify_fields done = b'}' ∷ []
  stringify_fields (field k v rest) =
      b',' ∷ (quote k ++ (b':' ∷ (stringify v ++ stringify_fields rest)))
