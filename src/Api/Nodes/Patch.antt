-- ===== src/Api/Nodes/Patch.antt =====
-- backend/internal/api/nodes_util.go, applyNodePatch, and the fields of a configuration in handleUpdateNode
-- of nodes.go. A field of the patch is absent, null, a value of its type, or of another type. Encryption
-- is an argument.
use singboxhub.Prelude.{
  String, Bool, true, false, not, ◌&&◌, ◌||◌, Option, none, some, List, ltb, str_eq, if◌then◌else◌,
}
use Prim.Native.String.{len}
use singboxhub.Store.Nodes.{Node}
use singboxhub.Api.Nodes.Input.{trim_space, trim_slashes, is_http_url}

pub data Field (A : Type 0) : Type 0 where
  absent null bad : Field A
  value : A → Field A

pub record NodePatch : Type 0 where
  pub config_url : Field String
  pub kce_key : Field String
  pub name : Field String
  pub api_url : Field String
  pub api_secret : Field String
  pub outbound_json : Field String
  pub tags : Field (List String)
  pub enabled : Field Bool
  pub remark : Field String

-- A field that null leaves alone; `none` is an error.
abbrev merge : {A : Type 0} → Field A → (A → Node → Option Node) → Node → Option Node
merge absent set n = some n
merge null set n = some n
merge bad set n = none
merge (value v) set n = set v n

abbrev and_then : Option Node → (Node → Option Node) → Option Node
and_then none set = none
and_then (some n) set = set n

abbrev set_name : String → Node → Option Node
set_name v n =
    let name = trim_space v in
    if str_eq name "" || ltb 64 (len name) then none else some (record n { name = name })

abbrev set_api_url : String → Node → Option Node
set_api_url v n = if is_http_url v then some (record n { api_url = trim_slashes v }) else none

abbrev with_secret : Node → Option String → Option Node
with_secret n none = none
with_secret n (some enc) = some (record n { api_secret_enc = enc })

abbrev with_outbound : Node → Option String → Option Node
with_outbound n none = none
with_outbound n (some enc) = some (record n { outbound_enc = enc })

-- Null removes the outbound.
abbrev patch_outbound : (String → Option String) → Field String → Node → Option Node
patch_outbound seal absent n = some n
patch_outbound seal null n = some (record n { outbound_enc = "" })
patch_outbound seal bad n = none
patch_outbound seal (value raw) n = with_outbound n (seal (trim_space raw))

unfoldable pub apply_node_patch : (String → Option String) → NodePatch → Node → Option Node
apply_node_patch seal p n = and_then (merge p.name set_name n) (λ n1.
    and_then (merge p.api_url set_api_url n1) (λ n2.
      and_then (merge p.api_secret (λ v. λ m. with_secret m (seal v)) n2) (λ n3.
        and_then (patch_outbound seal p.outbound_json n3) (λ n4.
          and_then (merge p.tags (λ v. λ m. some (record m { tags = v })) n4) (λ n5.
            and_then (merge p.enabled (λ v. λ m. some (record m { enabled = v })) n5)
              (λ n6. merge p.remark (λ v. λ m. some (record m { remark = v })) n6))))))

-- Null removes the address and the key.
unfoldable pub patch_config_url : Field String → Node → Option Node
patch_config_url absent n = some n
patch_config_url null n = some (record n { config_url = ""; kce_key_enc = "" })
patch_config_url bad n = none
patch_config_url (value v) n =
    let url = trim_slashes (trim_space v) in
    if not (str_eq url "") && not (is_http_url url)
    then none
    else some (record n { config_url = url })

abbrev pub is_present : {A : Type 0} → Field A → Bool
is_present absent = false
is_present _ = true
