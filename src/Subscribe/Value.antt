-- ===== src/Subscribe/Value.antt =====
-- The decoded documents that backend/internal/subscribe reads (the YAML of a Clash profile, the JSON of
-- an outbound), the lenient readers of clashimport.go and parse.go, and what `encoding/json` makes of a
-- value that is written and read back.
use singboxhub.Prelude.{
  ℕ, zero, suc, ◌+◌, ◌*◌, ◌/◌, ◌%◌, ◌^◌, String, Bool, true, false, ◌||◌, ◌&&◌, Option, none, some,
  List, [], ◌∷◌, ltb, ◌==◌, str_eq, if◌then◌else◌, not,
}
use singboxhub.Prelude.Int.{ℤ, pos, negsuc, leb_ℤ}
use singboxhub.Prelude.Itoa.{itoa}
use Prim.Native.String.{◌++◌ as ◌++ˢ◌}

-- A Go value of type `any`. A float64 is its whole part and its shortest decimal text, since the code
-- reads no more of it; `other` is a value that `encoding/json` refuses, such as a map whose keys are
-- not texts.
mutual
  pub data Value : Type 0 where
    null : Value
    boolean : Bool → Value
    int : ℤ → Value
    float : ℤ → String → Value
    text : String → Value
    array : Items → Value
    object : Fields → Value
    other : Value

  pub data Items : Type 0 where
    nil : Items
    item : Value → Items → Items

  pub data Fields : Type 0 where
    end : Fields
    field : String → Value → Fields → Fields

-- `m[key]`; `none` is the nil of a missing key.
unfoldable pub lookup : String → Fields → Option Value
lookup k end = none
lookup k (field j v m) = if str_eq j k then some v else lookup k m

-- `m[key] = value`
unfoldable pub store : String → Value → Fields → Fields
store k v end = field k v end
store k v (field j w m) = if str_eq j k then field k v m else field j w (store k v m)

-- `len(m) == 0`
abbrev pub is_empty : Fields → Bool
is_empty end = true
is_empty (field _ _ _) = false

-- `strconv.FormatInt`
unfoldable pub format_int : ℤ → String
format_int (pos n) = itoa n
format_int (negsuc n) = "-" ++ˢ itoa (suc n)

abbrev pub min_int : ℤ
min_int = negsuc 9223372036854775807

abbrev pub max_int : ℤ
max_int = pos 9223372036854775807

-- `int(f)` of a float64 with this whole part; beyond int64 it is what amd64 gives.
unfoldable pub int_of_float : ℤ → ℤ
int_of_float w = if leb_ℤ min_int w && leb_ℤ w max_int then w else min_int

-- clashimport.go's readers
unfoldable pub as_string : Option Value → String
unfolding format_int
as_string (some (text s)) = s
as_string (some (int n)) = format_int n
as_string (some (float w t)) = t
as_string _ = ""

unfoldable pub as_int : Option Value → ℤ
unfolding int_of_float
as_int (some (int n)) = n
as_int (some (float w t)) = int_of_float w
as_int _ = pos 0

unfoldable pub as_bool : Option Value → Bool
as_bool (some (boolean b)) = b
as_bool _ = false

-- A nil map reads as an empty one.
abbrev pub object_or_empty : Option Value → Fields
object_or_empty (some (object m)) = m
object_or_empty _ = end

unfoldable pub get_map_val : Fields → String → Fields
unfolding lookup
get_map_val m key = object_or_empty (lookup key m)

unfoldable pub strings_of : Items → List String
unfolding as_string
strings_of nil = []
strings_of (item v vs) =
    let rest = strings_of vs in
    if str_eq (as_string (some v)) "" then rest else as_string (some v) ∷ rest

unfoldable pub as_string_slice : Option Value → List String
unfolding strings_of
as_string_slice (some (array vs)) = strings_of vs
as_string_slice _ = []

unfoldable pub or_default_str : String → String → String
or_default_str v d = if str_eq v "" then d else v

-- parse.go's readers, which take no scalar for another.
abbrev pub text_or_empty : Option Value → String
text_or_empty (some (text s)) = s
text_or_empty _ = ""

unfoldable pub get_str : Fields → String → String
unfolding lookup
get_str m key = text_or_empty (lookup key m)

unfoldable pub get_int : Fields → String → ℤ
unfolding lookup as_int
get_int m key = as_int (lookup key m)

pub get_bool : Fields → String → Bool
unfolding lookup as_bool
get_bool m key = as_bool (lookup key m)

abbrev pub object_of : Option Value → Option Fields
object_of (some (object m)) = some m
object_of _ = none

pub get_map : Fields → String → Option Fields
unfolding lookup
get_map m key = object_of (lookup key m)

-- The texts among the items; the others are dropped.
pub texts_of : Items → List String
texts_of nil = []
texts_of (item (text s) vs) = s ∷ texts_of vs
texts_of (item _ vs) = texts_of vs

pub get_str_slice : Fields → String → List String
unfolding lookup texts_of
get_str_slice m key = elim (lookup key m) [ none ↦ [] | some v ↦ texts_in v ]
  where
    texts_in : Value → List String
    texts_in (array vs) = texts_of vs
    texts_in _ = []

-- The float64 nearest to n, ties to even; below 2 ^ 53 it is n.
unfoldable pub excess : ℕ → ℕ → ℕ
excess zero n = 0
excess (suc f) n = let more = excess f (n / 2) in if ltb n 9007199254740992 then 0 else suc more

abbrev pub round_half : ℕ → ℕ → ℕ → ℕ
round_half q r unit = if ltb unit (2 * r) || (2 * r == unit && q % 2 == 1) then q + 1 else q

abbrev pub round_at : ℕ → ℕ → ℕ
round_at n e = round_half (n / 2 ^ e) (n % 2 ^ e) (2 ^ e) * 2 ^ e

-- An int64 has at most eleven bits too many.
unfoldable pub nearest : ℕ → ℕ
unfolding excess
nearest n = round_at n (excess 11 n)

abbrev pub negate : ℕ → ℤ
negate zero = pos 0
negate (suc n) = negsuc n

unfoldable pub nearest_ℤ : ℤ → ℤ
unfolding nearest
nearest_ℤ (pos n) = pos (nearest n)
nearest_ℤ (negsuc n) = negate (nearest (suc n))

-- The texts that stand for a float64 that JSON has no number for.
abbrev pub is_finite : String → Bool
is_finite t = not (str_eq t "NaN" || (str_eq t "+Inf" || str_eq t "-Inf"))

-- One value under a constructor, or two.
abbrev pub one {ℓ} : {A B : Type ℓ} → (A → B) → Option A → Option B
one f none = none
one f (some a) = some (f a)

abbrev pub both {ℓ} : {A B C : Type ℓ} → (A → B → C) → Option A → Option B → Option C
both f none _ = none
both f (some _) none = none
both f (some a) (some b) = some (f a b)

-- `json.Marshal` and then `json.Unmarshal` into an `any`: `none` where it cannot be written, and every
-- number is a float64 afterwards. A text is valid UTF-8 here, so it is kept.
unfoldable mutual
  unfolding nearest_ℤ format_int

  pub json : Value → Option Value
  json (int n) = some (float (nearest_ℤ n) (format_int (nearest_ℤ n)))
  json (float w t) = if is_finite t then some (float w t) else none
  json (array vs) = one array (json_items vs)
  json (object m) = one object (json_fields m)
  json other = none
  json v = some v

  pub json_items : Items → Option Items
  json_items nil = some nil
  json_items (item v vs) = both item (json v) (json_items vs)

  pub json_fields : Fields → Option Fields
  json_fields end = some end
  json_fields (field k v m) = both (field k) (json v) (json_fields m)
