-- ===== src/Subscribe/Fields.antt =====
-- Reading a field of a document that was written, and of one that went through JSON.
use singboxhub.Prelude.{
  ◌≡◌, refl, ap, ◌∙◌, inl, inr, String, Bool, true, false, Option, none, some, arith, str_eq,
  eq_iff, sym, if◌then◌else◌, Bool-cases,
}
use singboxhub.Subscribe.Value.{
  Value, null, boolean, int, float, text, array, object, other, Items, Fields, end, field, lookup,
  store, both, one, json, json_items, json_fields, text_or_empty, is_finite,
}

pub lookup-store :
    (k j : String) (v : Value) (m : Fields)
    → lookup j (store k v m) ≡ (if str_eq k j then some v else lookup j m)
unfolding lookup store
lookup-store k j v end = refl
lookup-store k j v (field i w m) =
    ground (arith, eq_iff k j, eq_iff i k, eq_iff i j, lookup-store k j v m)

pub lookup-store_same : (k : String) (v : Value) (m : Fields) → lookup k (store k v m) ≡ some v
lookup-store_same k v m = rw (lookup-store, (eq_iff k k).1 refl)

pub lookup-store_other :
    (k j : String) (v : Value) (m : Fields)
    → str_eq k j ≡ false
    → lookup j (store k v m) ≡ lookup j m
lookup-store_other k j v m e = rw (lookup-store, e)

-- The field of the document that JSON gives back.
abbrev pub json? : Option Value → Option Value
json? none = none
json? (some v) = json v

pub lookup-json_fields :
    (k : String) (m d : Fields) → json_fields m ≡ some d → lookup k d ≡ json? (lookup k m)
unfolding lookup json
lookup-json_fields k end d e = let e' : end ≡ d = cc e in ap (lookup k) (sym e')
lookup-json_fields k (field j v m) d e =
    at_field (json v) (json_fields m) refl refl (λ m'. λ e'. lookup-json_fields k m m' e') e
  where
    at_field :
        (ov : Option Value) (om : Option Fields)
        → json v ≡ ov
        → json_fields m ≡ om
        → ((m' : Fields) → json_fields m ≡ some m' → lookup k m' ≡ json? (lookup k m))
        → both (field j) ov om ≡ some d
        → lookup k d ≡ json? (if str_eq j k then some v else lookup k m)
    at_field none om ev em rest e = absurd (cc e)
    at_field (some w) none ev em rest e = absurd (cc e)
    at_field (some w) (some m') ev em rest e =
        let e' : field j w m' ≡ d = cc e in
        ap (lookup k) (sym e') ∙ elim (Bool-cases (str_eq j k)) [
          | inl same ↦ rw (same, json?, ev) refl
          | inr differs ↦ rw (differs, json?) (rest m' em)
        ]

pub text_or_empty-json : (o : Option Value) → text_or_empty (json? o) ≡ text_or_empty o
unfolding json
text_or_empty-json none = refl
text_or_empty-json (some null) = refl
text_or_empty-json (some (boolean b)) = refl
text_or_empty-json (some (int n)) = refl
text_or_empty-json (some (float w t)) = at_finite (is_finite t)
  where
    at_finite : (b : Bool) → text_or_empty (if b then some (float w t) else none) ≡ ""
    at_finite true = refl
    at_finite false = refl
text_or_empty-json (some (text s)) = refl
text_or_empty-json (some (array vs)) = at_items (json_items vs)
  where
    at_items : (o : Option Items) → text_or_empty (one array o) ≡ ""
    at_items none = refl
    at_items (some ws) = refl
text_or_empty-json (some (object m)) = at_fields (json_fields m)
  where
    at_fields : (o : Option Fields) → text_or_empty (one object o) ≡ ""
    at_fields none = refl
    at_fields (some d) = refl
text_or_empty-json (some other) = refl
