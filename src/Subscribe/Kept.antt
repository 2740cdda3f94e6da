-- ===== src/Subscribe/Kept.antt =====
-- What the later steps of a conversion leave as it is: the outbound's own fields under its TLS and
-- transport objects, and a field that JSON carries.
use singboxhub.Prelude.{
  ℕ, suc, ◌≡◌, ◌≤◌, refl, ap, ◌∙◌, String, Bool, true, false, Option, none, some, arith, str_eq,
  if◌then◌else◌, not, ◌&&◌,
}
use singboxhub.Prelude.Int.{ℤ, pos, negsuc}
use singboxhub.Subscribe.Value.{
  Value, object, Fields, int, text, lookup, store, is_empty, as_bool, as_int, get_map_val, get_str,
  get_map, nearest, nearest_ℤ, excess, round_at, int_of_float, json, json_fields,
}
use singboxhub.Subscribe.Fields.{lookup-store_other, lookup-json_fields, json?}
use singboxhub.Subscribe.Parse.{
  Outbound, ok, top_fields, with_tls, with_transport, with_obfs, parse_fields,
}
use singboxhub.Subscribe.Outbound.{
  store_some, store_if, str, tls_object, apply_clash_tls, transport_object, store_transport,
  apply_clash_transport,
}

module _ (j : String) where
  pub lookup-store_if :
      (b : Bool) (k : String) (v : Value) (m : Fields)
      → str_eq k j ≡ false
      → lookup j (store_if b k v m) ≡ lookup j m
  lookup-store_if true k v m e = lookup-store_other k j v m e
  lookup-store_if false k v m e = refl

  pub lookup-store_some :
      (k s : String) (m : Fields) → str_eq k j ≡ false → lookup j (store_some k s m) ≡ lookup j m
  lookup-store_some k s m e = at_text (str_eq s "")
    where
      at_text : (b : Bool) → lookup j (if b then m else store k (text s) m) ≡ lookup j m
      at_text true = refl
      at_text false = lookup-store_other k j (text s) m e

  pub lookup-apply_clash_tls :
      (ob p : Fields) → str_eq "tls" j ≡ false → lookup j (apply_clash_tls ob p) ≡ lookup j ob
  unfolding apply_clash_tls
  lookup-apply_clash_tls ob p e =
      at_guard (not (as_bool (lookup "tls" p)) && is_empty (get_map_val p "reality-opts"))
    where
      tls : Value
      tls = object (tls_object (get_map_val p "reality-opts") p)

      at_guard : (b : Bool) → lookup j (if b then ob else store "tls" tls ob) ≡ lookup j ob
      at_guard true = refl
      at_guard false = lookup-store_other "tls" j tls ob e

  pub lookup-apply_clash_transport :
      (ob p : Fields)
      → str_eq "transport" j ≡ false
      → lookup j (apply_clash_transport ob p) ≡ lookup j ob
  unfolding apply_clash_transport
  lookup-apply_clash_transport ob p e = at_object (transport_object (str p "network") p)
    where
      at_object : (o : Option Fields) → lookup j (store_transport o ob) ≡ lookup j ob
      at_object none = refl
      at_object (some tr) = lookup-store_other "transport" j (object tr) ob e

  -- A field of the outbound, in its JSON.
  pub lookup-written :
      (ob p d : Fields)
      → json_fields (apply_clash_transport (apply_clash_tls ob p) p) ≡ some d
      → str_eq "tls" j ≡ false
      → str_eq "transport" j ≡ false
      → lookup j d ≡ json? (lookup j ob)
  lookup-written ob p d w e e' =
      lookup-json_fields j _ d w
      ∙ ap json?
          (lookup-apply_clash_transport (apply_clash_tls ob p) p e' ∙ lookup-apply_clash_tls ob p e)

-- Below 2 ^ 53 a float64 is exact.
nearest_lem : (n : ℕ) → n ≤ 9007199254740991 → nearest n ≡ n
unfolding nearest
nearest_lem n h = ap (round_at n) (excess_lem 10) ∙ (ground arith)
  where
    excess_lem : (f : ℕ) → excess (suc f) n ≡ 0
    excess_lem f = unfold excess in (ground arith)

abbrev pub IsExact : ℤ → Type 0
IsExact (pos n) = n ≤ 9007199254740991
IsExact (negsuc n) = n ≤ 9007199254740990

pub as_int-json : (n : ℤ) → IsExact n → as_int (json? (some (int n))) ≡ n
unfolding as_int json nearest_ℤ int_of_float
as_int-json (pos n) h = rw (nearest_lem n h) (ground arith)
as_int-json (negsuc n) h = rw (nearest_lem (suc n) (omega (arith, h))) (ground arith)

-- The fields that an outbound has of its own.
abbrev pub Top : Type 0
Top = String × String × String × ℤ × String × String × String × String × ℤ × String × String

abbrev pub top : Outbound → Top
top o = (
  o.kind, o.tag, o.server, o.server_port, o.uuid, o.password, o.method, o.security, o.alter_id,
  o.flow, o.congestion,
)

top-with_tls : (t : Option Fields) (o : Outbound) → top (with_tls t o) ≡ top o
unfolding with_tls
top-with_tls none o = refl
top-with_tls (some t) o = refl

top-with_transport : (t : Option Fields) (o : Outbound) → top (with_transport t o) ≡ top o
unfolding with_transport
top-with_transport none o = refl
top-with_transport (some t) o = refl

top-with_obfs : (t : Option Fields) (o : Outbound) → top (with_obfs t o) ≡ top o
unfolding with_obfs
top-with_obfs none o = refl
top-with_obfs (some t) o = refl

-- An outbound with a type is parsed, and its own fields are those of the object.
pub parse_fields_lem :
    (m : Fields)
    → str_eq (get_str m "type") "" ≡ false
    → (o : Outbound) × (parse_fields m ≡ ok o) × (top o ≡ top (top_fields m))
unfolding parse_fields
parse_fields_lem m e =
    let tls = with_tls (get_map m "tls") (top_fields m) in
    let moved = with_transport (get_map m "transport") tls in
    (
      with_obfs (get_map m "obfs") moved,
      rw (e, parse_fields) refl,
      top-with_obfs (get_map m "obfs") moved
          ∙ top-with_transport (get_map m "transport") tls
          ∙ top-with_tls (get_map m "tls") (top_fields m),
    )
