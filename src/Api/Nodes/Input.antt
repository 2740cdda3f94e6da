-- ===== src/Api/Nodes/Input.antt =====
-- backend/internal/api/nodes_util.go: what POST /nodes checks of its fields. The validity of JSON is an
-- argument.
use singboxhub.Prelude.{
  String, Bool, not, ◌&&◌, ◌||◌, Option, none, some, List, [], ◌∷◌, ltb, leb, ◌==◌, str_eq,
  if◌then◌else◌,
}
use Prim.Native.Char.{Char, code}
use Prim.Native.String.{len}
use text.Mathlib.Text.{starts_with}
use mathlib.Core.List.{◌++◌ as ◌++ᴸ◌}

-- `unicode.IsSpace`
abbrev is_space : Char → Bool
is_space c =
    (leb 9 (code c) && leb (code c) 13)
    || ((code c == 32)
        || ((code c == 133)
            || ((code c == 160)
                || ((code c == 5760)
                    || ((leb 8192 (code c) && leb (code c) 8202)
                        || ((code c == 8232)
                            || ((code c == 8233)
                                || ((code c == 8239)
                                    || ((code c == 8287) || (code c == 12288))))))))))

trim_left : String → String
trim_left String.[] = ""
trim_left (String.◌∷◌ c s) = if is_space c then trim_left s else String.◌∷◌ c s

trim_right : (Char → Bool) → String → String
trim_right p String.[] = ""
trim_right p (String.◌∷◌ c s) =
    let rest = trim_right p s in if str_eq rest "" && p c then "" else String.◌∷◌ c rest

-- `strings.TrimSpace`
unfoldable pub trim_space : String → String
unfolding trim_left trim_right
trim_space s = trim_right is_space (trim_left s)

-- `strings.TrimRight(s, "/")`
unfoldable pub trim_slashes : String → String
unfolding trim_right
trim_slashes s = trim_right (λ c. code c == b'/') s

pub record Input : Type 0 where
  pub name : String
  pub api_url : String
  pub api_secret : String
  pub outbound_json : Option String
  pub config_url : String
  pub kce_key : String
  pub tags : List String
  pub enabled : Option Bool
  pub remark : String

pub data FieldErr : Type 0 where
  name_length api_url_scheme api_secret_missing outbound_invalid config_url_scheme : FieldErr

abbrev pub is_http_url : String → Bool
is_http_url u = starts_with u "http://" || starts_with u "https://"

abbrev when : Bool → FieldErr → List FieldErr
when b e = if b then e ∷ [] else []

abbrev outbound_errors : (String → Bool) → Option String → List FieldErr
outbound_errors is_json none = []
outbound_errors is_json (some raw) =
    when (not (str_eq (trim_space raw) "") && not (is_json raw)) outbound_invalid

-- `validateNodeInput`, for a node that is created.
unfoldable pub validate_node_input : (String → Bool) → Input → List FieldErr
unfolding trim_space trim_slashes
validate_node_input is_json input =
    let name = trim_space input.name in
    let config_url = trim_slashes (trim_space input.config_url) in
    when (str_eq name "" || ltb 64 (len name)) name_length
    ++ᴸ (when (not (is_http_url (trim_slashes input.api_url))) api_url_scheme
        ++ᴸ (when (str_eq (trim_space input.api_secret) "") api_secret_missing
            ++ᴸ (outbound_errors is_json input.outbound_json
                ++ᴸ when (not (str_eq config_url "") && not (is_http_url config_url))
                    config_url_scheme)))
