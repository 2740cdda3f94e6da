-- ===== src/Subscribe/Inversion.antt =====
-- clashimport.go: what is known of a proxy that became a node.
use singboxhub.Prelude.{
  ◌≡◌, refl, ap, ◌∙◌, sym, String, Bool, true, false, Option, none, some, str_eq, if◌then◌else◌,
}
use singboxhub.Prelude.Dict.{Dict}
use singboxhub.Subscribe.Value.{object, Fields, lookup, as_int, one, json, json_fields}
use singboxhub.Subscribe.Parse.{Node, Result, fail, ok, no_server_port}
use singboxhub.Subscribe.Unique.{unique_name}
use singboxhub.Subscribe.Outbound.{
  Kind, str, kind_of, protocol_fields, apply_clash_tls, apply_clash_transport, base_outbound,
  bad_address, finish, convert, clash_to_outbound,
}
use singboxhub.Subscribe.Import.{skipped, imported, marshalled, converted, import_proxy}

-- The proxy `p` was converted to `written`, of the case `kind`, and became `n`.
pub record IsImport (p : Fields) (tag : String) (n : Node) : Type 0 where
  pub kind : Kind
  pub fields : Fields
  pub changed : Fields
  pub written : Fields
  pub is_kind : kind_of (str p "type") ≡ some kind
  pub has_address : bad_address (str p "server") (as_int (lookup "port" p)) ≡ false
  pub has_fields :
      protocol_fields kind p (base_outbound (str p "type") tag p) ≡ ok (fields, changed)
  pub is_written :
      json_fields (apply_clash_transport (apply_clash_tls fields changed) changed) ≡ some written
  pub is_named : n.name ≡ tag
  pub holds : n.outbound ≡ some (object written)

-- The outbound that `clashToOutbound` gives, and how it came about.
record IsConverted (p : Fields) (tag : String) (ob : Fields) : Type 0 where
  kind : Kind
  fields : Fields
  changed : Fields
  is_kind : kind_of (str p "type") ≡ some kind
  has_address : bad_address (str p "server") (as_int (lookup "port" p)) ≡ false
  has_fields : protocol_fields kind p (base_outbound (str p "type") tag p) ≡ ok (fields, changed)
  is_finished : apply_clash_transport (apply_clash_tls fields changed) changed ≡ ob

clash_to_outbound-IsConverted :
    (p : Fields) (tag : String) (ob : Fields)
    → clash_to_outbound p tag ≡ ok ob
    → IsConverted p tag ob
unfolding clash_to_outbound
clash_to_outbound-IsConverted p tag ob e =
    at_address (bad_address (str p "server") (as_int (lookup "port" p))) (kind_of (str p "type"))
      refl refl e
  where
    base : Fields
    base = base_outbound (str p "type") tag p

    at_fields :
        (k : Kind) (r : Result (Fields × Fields))
        → kind_of (str p "type") ≡ some k
        → bad_address (str p "server") (as_int (lookup "port" p)) ≡ false
        → protocol_fields k p base ≡ r
        → finish r ≡ ok ob
        → IsConverted p tag ob
    at_fields k (fail why) ke be re e' = absurd (cc e')
    at_fields k (ok (fields, changed)) ke be re e' = record {
      kind = k;
      fields = fields;
      changed = changed;
      is_kind = ke;
      has_address = be;
      has_fields = re;
      is_finished = cc e';
    }

    at_kind :
        (o : Option Kind)
        → kind_of (str p "type") ≡ o
        → bad_address (str p "server") (as_int (lookup "port" p)) ≡ false
        → convert (str p "type") o p base ≡ ok ob
        → IsConverted p tag ob
    at_kind none ke be e' = absurd (cc e')
    at_kind (some k) ke be e' = at_fields k (protocol_fields k p base) ke be refl e'

    at_address :
        (b : Bool) (o : Option Kind)
        → bad_address (str p "server") (as_int (lookup "port" p)) ≡ b
        → kind_of (str p "type") ≡ o
        → (if b then fail no_server_port else convert (str p "type") o p base) ≡ ok ob
        → IsConverted p tag ob
    at_address true o be ke e' = absurd (cc e')
    at_address false o be ke e' = at_kind o ke be e'

pub import_proxy-IsImport :
    (p : Fields) (seen : Dict Bool) (n : Node)
    → import_proxy p seen ≡ imported n
    → IsImport p (unique_name (str p "name") seen) n
unfolding import_proxy json
import_proxy-IsImport p seen n e = at_name (str_eq (str p "name") "") e
  where
    tag : String
    tag = unique_name (str p "name") seen

    at_json :
        (ob : Fields) (o : Option Fields)
        → json_fields ob ≡ o
        → IsConverted p tag ob
        → marshalled (str p "name") tag (one object o) ≡ imported n
        → IsImport p tag n
    at_json ob none je c e' = absurd (cc e')
    at_json ob (some d) je c e' =
        let same : record { name = tag; outbound = some (object d) } ≡ n = cc e' in
        record {
          kind = c.kind;
          fields = c.fields;
          changed = c.changed;
          written = d;
          is_kind = c.is_kind;
          has_address = c.has_address;
          has_fields = c.has_fields;
          is_written = ap json_fields c.is_finished ∙ je;
          is_named = ap (λ m. m.name) (sym same);
          holds = ap (λ m. m.outbound) (sym same);
        }

    at_outbound :
        (r : Result Fields)
        → clash_to_outbound p tag ≡ r
        → converted (str p "name") tag r ≡ imported n
        → IsImport p tag n
    at_outbound (fail why) re e' = absurd (cc e')
    at_outbound (ok ob) re e' =
        at_json ob (json_fields ob) refl (clash_to_outbound-IsConverted p tag ob re) e'

    at_name :
        (b : Bool)
        → (if b
            then skipped "<unnamed>"
            else converted (str p "name") tag (clash_to_outbound p tag))
          ≡ imported n
        → IsImport p tag n
    at_name true e' = absurd (cc e')
    at_name false e' = at_outbound (clash_to_outbound p tag) refl e'
