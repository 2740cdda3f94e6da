-- ===== src/Api/Nodes/Update/Stale.antt =====
-- nodes.go, handleUpdateNode: an ETag that was used for an update is stale after it.
use singboxhub.Prelude.{
  ℕ, ◌+◌, ◌≡◌, ◌≢◌, refl, sym, ap, ◌∙◌, String, Bool, true, false, Option, none, some, arith,
  str_eq, eq_iff, if◌then◌else◌, Bool-cases, inl, inr,
}
use Prim.Native.String.{◌++◌, count}
use text.Mathlib.TextLemmas.{append_cancel_left, append_cancel_right, length-append}
use mathlib.Core.Path.{subst}
use singboxhub.Prelude.Itoa.{itoa, itoa_inj}
use singboxhub.Prelude.Dict.{get, put, has, del, get-put_self}
use singboxhub.Store.Nodes.{
  Node, Table, not_found, unique_violation, ok, fail, update_node, updated_row, name_index,
}
use singboxhub.Api.Nodes.{ImportStats}
use singboxhub.Api.Nodes.Create.{World}
use singboxhub.Api.Nodes.Patch.{
  Field, absent, null, bad, value, NodePatch, apply_node_patch, patch_config_url,
}
use singboxhub.Api.Nodes.Update.{
  node_etag, Answer, missing, precondition_required, precondition_failed, bad_body, invalid,
  internal, conflict, upstream, updated, imports, after_update, store_patched, with_key, patch_key,
  patch_node, update_found, handle_update_node,
}

node_etag-injective : (a b : ℕ) → node_etag a ≡ node_etag b → a ≡ b
unfolding node_etag
node_etag-injective a b e = itoa_inj a b (
    append_cancel_right (itoa a) (itoa b) "\""
      (append_cancel_left "\"node-v1-" (itoa a ++ "\"") (itoa b ++ "\"") e))

module _ (w : World) (now : ℕ) (id : String) (p : NodePatch) (t : Table)
    (plain : imports p ≡ false) where
  -- An update is of the row, which now has this time; every other answer leaves the table.
  abbrev pub IsWritten : Answer × Table → Type 0
  IsWritten (updated row stats, t') = (n : Node) × (get id t' ≡ some n) × (n.updated_at ≡ now)
  IsWritten (missing, t') = t' ≡ t
  IsWritten (precondition_required, t') = t' ≡ t
  IsWritten (precondition_failed, t') = t' ≡ t
  IsWritten (bad_body, t') = t' ≡ t
  IsWritten (invalid, t') = t' ≡ t
  IsWritten (internal, t') = t' ≡ t
  IsWritten (conflict, t') = t' ≡ t
  IsWritten (upstream, t') = t' ≡ t

  after_update-IsWritten :
      (n : Node) (o : Option Node) (named : Bool)
      → IsWritten (
          after_update w now id p n t (elim o [
            | none ↦ fail not_found
            | some row ↦
                if named then fail unique_violation else ok (put id (updated_row now n row) t)
          ]))
  after_update-IsWritten n none named = refl
  after_update-IsWritten n (some row) true = refl
  after_update-IsWritten n (some row) false =
      rw plain (updated_row now n row, get-put_self id (updated_row now n row) t, refl)

  store_patched-IsWritten : (o : Option Node) → IsWritten (store_patched w now id p t o)
  unfolding update_node
  store_patched-IsWritten none = refl
  store_patched-IsWritten (some n) =
      after_update-IsWritten n (get id t) (has n.name (name_index (del id t)))

  with_key-IsWritten : (n : Node) (o : Option String) → IsWritten (with_key w now id p n t o)
  with_key-IsWritten n none = refl
  with_key-IsWritten n (some enc) =
      store_patched-IsWritten (apply_node_patch w.seal p (record n { kce_key_enc = enc }))

  patch_key-IsWritten : (f : Field String) (n : Node) → IsWritten (patch_key w now id p t f n)
  patch_key-IsWritten absent n = store_patched-IsWritten (apply_node_patch w.seal p n)
  patch_key-IsWritten null n = with_key-IsWritten n (w.seal "")
  patch_key-IsWritten bad n = refl
  patch_key-IsWritten (value v) n = with_key-IsWritten n (w.seal v)

  update_found-IsWritten :
      (if_match : String) (o : Option Node)
      → IsWritten (update_found w now id if_match (some p) t o)
  update_found-IsWritten if_match none = refl
  update_found-IsWritten if_match (some n) =
      at_tests (str_eq if_match "") (str_eq if_match (node_etag n.updated_at))
        (patch_config_url p.config_url n)
    where
      at_config : (o : Option Node) → IsWritten (patch_node w now id p t o)
      at_config none = refl
      at_config (some m) = patch_key-IsWritten p.kce_key m

      at_tests :
          (a b : Bool) (o : Option Node)
          → IsWritten (
              if a
              then (precondition_required, t)
              else if b
              then patch_node w now id p t o
              else (precondition_failed, t))
      at_tests true b o = refl
      at_tests false true o = at_config o
      at_tests false false o = refl

node_etag_present : (n : ℕ) → str_eq (node_etag n) "" ≡ false
unfolding node_etag
node_etag_present n = elim (Bool-cases (str_eq (node_etag n) "")) [
  | inr present ↦ present
  | inl empty ↦
      let no_text : node_etag n ≡ "" = (eq_iff (node_etag n) "").0 empty in
      let two : count "\"node-v1-" + count (itoa n ++ "\"") ≡ 0 =
        sym (length-append "\"node-v1-" (itoa n ++ "\"")) ∙ ap count no_text in
      absurd (omega (arith, two))
]

stale_test : (a b : ℕ) → b ≢ a → str_eq (node_etag a) (node_etag b) ≡ false
stale_test a b moved = elim (Bool-cases (str_eq (node_etag a) (node_etag b))) [
  | inr differs ↦ differs
  | inl same ↦
      absurd (moved (sym (node_etag-injective a b ((eq_iff (node_etag a) (node_etag b)).0 same))))
]

refused :
    (w : World) (later : ℕ) (id etag : String) (n : Node) (body : Option NodePatch) (t : Table)
    → get id t ≡ some n
    → str_eq etag "" ≡ false
    → str_eq etag (node_etag n.updated_at) ≡ false
    → handle_update_node w later id etag body t ≡ (precondition_failed, t)
unfolding handle_update_node
refused w later id etag n body t found present stale =
    ap (update_found w later id etag body t) found ∙ rw present (rw stale refl)

-- After a PATCH that asks for no import was written with the ETag that a node had at another second, the
-- same ETag is refused with any patch, and nothing changes.
pub handle_update_node-stale :
    (w : World) (now later old : ℕ) (id : String) (p : NodePatch) (body : Option NodePatch)
    (t : Table) (row : Option Node) (stats : Option ImportStats)
    → imports p ≡ false
    → now ≢ old
    → (handle_update_node w now id (node_etag old) (some p) t).0 ≡ updated row stats
    → let t' = (handle_update_node w now id (node_etag old) (some p) t).1 in
      handle_update_node w later id (node_etag old) body t' ≡ (precondition_failed, t')
unfolding handle_update_node
handle_update_node-stale w now later old id p body t row stats plain moved e =
    let t' = (handle_update_node w now id (node_etag old) (some p) t).1 in
    let (n, found, at_now) : IsWritten w now id p t plain (updated row stats, t') =
      subst (λ a. IsWritten w now id p t plain (a, t')) e
        (update_found-IsWritten w now id p t plain (node_etag old) (get id t)) in
    refused w later id (node_etag old) n body t' found (node_etag_present old)
      (stale_test old n.updated_at (λ same. moved (sym at_now ∙ same)))
