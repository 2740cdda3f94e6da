-- ===== src/Api/Nodes/Good.antt =====
-- nodes.go, importProxiesForNode: what its loops keep true, whatever they meet.
use singboxhub.Prelude.{
  ℕ, ◌+◌, ◌≡◌, ◌≢◌, ap, ◌∙◌, ◌⊎◌, inl, inr, String, true, false, Option, none, some, List, [], ◌∷◌,
  str_eq, eq_iff, Bool-cases, All, Any,
}
use mathlib.Core.List.{◌++◌}
use mathlib.Core.Path.{subst}
use singboxhub.Prelude.Dict.{Dict, get}
use singboxhub.Store.Nodes.{Node, Table, delete_node, or_same}
use singboxhub.Store.Nodes.Names.{HasUniqueNames, delete_node-HasUniqueNames}
use singboxhub.Store.Nodes.Rows.{IsSameBut, IsOfSource}
use singboxhub.Api.Nodes.{Run, Outcome, failed, synced, roll_back, rollback_created_nodes}
use singboxhub.Api.Nodes.Deleted.{rollback_created_nodes-none, rollback_created_nodes-other}

-- Rows of other sources are as in `t0`.
abbrev pub KeepsOthers : String → Table → Table → Type 0
KeepsOthers source t0 t =
    (i : String) (n : Node) → get i t0 ≡ some n → n.source ≢ source → get i t ≡ some n

pub record IsGood (source : String) (t0 : Table) (st : Run) : Type 0 where
  pub keeps : KeepsOthers source t0 st.table
  pub named : HasUniqueNames st.table
  pub are_new : All (λ id. get id t0 ≡ none) st.created
  pub are_noted :
      (i : String) → get i t0 ≡ none → Any (λ id. id ≡ i) st.created ⊎ (get i st.table ≡ none)

abbrev pub IsSafe : String → Table → Outcome → Type 0
IsSafe source t0 (failed t) =
    KeepsOthers source t0 t × HasUniqueNames t × ((i : String) → get i t0 ≡ none → get i t ≡ none)
IsSafe source t0 (synced stats t) = KeepsOthers source t0 t × HasUniqueNames t

abbrev pub IsGoodOption : String → Table → Option Run → Type 0
IsGoodOption source t0 none = Unit
IsGoodOption source t0 (some st) = IsGood source t0 st

abbrev pub ArePrevious : String → Table → Dict (String × Node) → Type 0
ArePrevious source t0 = All (λ e. IsOfSource source t0 e.1)

pub get-All :
    {V : Type 0} (P : V → Type 0) (k : String) (v : V) (d : Dict V)
    → All (λ e. P e.1) d
    → get k d ≡ some v
    → P v
unfolding get
get-All P k v [] h e = absurd (cc e)
get-All P k v ((j, x) ∷ d) h e = elim (Bool-cases (str_eq j k)) [
  | inl same ↦ subst P (some_inj (rw same at e)) h.0
  | inr differs ↦ get-All P k v d h.1 (rw differs at e)
]
  where
    some_inj : some x ≡ some v → x ≡ v
    some_inj e' = cc e'

rollback_created_nodes-HasUniqueNames :
    (ids : List String) (t : Table)
    → HasUniqueNames t
    → HasUniqueNames (rollback_created_nodes ids t)
unfolding rollback_created_nodes
rollback_created_nodes-HasUniqueNames [] t u = u
rollback_created_nodes-HasUniqueNames (id ∷ ids) t u =
    rollback_created_nodes-HasUniqueNames ids (or_same t (delete_node id t))
      (delete_node-HasUniqueNames id t u)

module _ (source : String) (t0 : Table) where
  pub roll_back-IsSafe : (st : Run) → IsGood source t0 st → IsSafe source t0 (roll_back st)
  roll_back-IsSafe st g = (
    (λ i. λ n. λ e. λ other.
        rollback_created_nodes-other st.created i st.table (differ i n e st.created g.are_new)
        ∙ g.keeps i n e other),
    rollback_created_nodes-HasUniqueNames st.created st.table g.named,
    λ i. λ e. rollback_created_nodes-none st.created i st.table (g.are_noted i e),
  )
    where
      differ :
          (i : String) (n : Node)
          → get i t0 ≡ some n
          → (ids : List String) → All (λ id. get id t0 ≡ none) ids
          → All (λ id. id ≢ i) ids
      differ i n e [] h = tt
      differ i n e (id ∷ ids) h =
          ((λ same. absurd (cc (h.0, e, ap (λ x. get x t0) same))), differ i n e ids h.1)

  -- A statement on a row of the source.
  pub own_row-IsGood :
      (id : String) (n : Node) (st : Run) (t : Table) (updated : ℕ)
      → IsOfSource source t0 (id, n)
      → IsSameBut id st.table t
      → HasUniqueNames t
      → IsGood source t0 st
      → IsGood source t0 (record st { table = t; updated = updated })
  own_row-IsGood id n st t updated own same u g = record {
    keeps = (λ i. λ m. λ e. λ other.
        same i (λ h. other (cc (ap (λ x. get x t0) h, own.0, own.1, e))) ∙ g.keeps i m e other);
    named = u;
    are_new = g.are_new;
    are_noted = (λ i. λ e. noted i e (g.are_noted i e));
  }
    where
      noted :
          (i : String)
          → get i t0 ≡ none
          → Any (λ c. c ≡ i) st.created ⊎ (get i st.table ≡ none)
          → Any (λ c. c ≡ i) st.created ⊎ (get i t ≡ none)
      noted i e (inl h) = inl h
      noted i e (inr h) = inr (same i (λ h'. absurd (cc (ap (λ x. get x t0) h', own.0, e))) ∙ h)

  -- A row that is new.
  pub new_row-IsGood :
      (id : String) (st : Run) (t : Table)
      → get id t0 ≡ none
      → IsSameBut id st.table t
      → HasUniqueNames t
      → IsGood source t0 st
      → IsGood source t0
          (record st { table = t; created = st.created ++ (id ∷ []); imported = st.imported + 1 })
  new_row-IsGood id st t fresh same u g = record {
    keeps = (λ i. λ m. λ e.
        λ other. same i (λ h. absurd (cc (ap (λ x. get x t0) h, fresh, e))) ∙ g.keeps i m e other);
    named = u;
    are_new = append_new st.created g.are_new;
    are_noted = (λ i. λ e. noted i (Bool-cases (str_eq id i)) (g.are_noted i e));
  }
    where
      append_new :
          (ids : List String)
          → All (λ c. get c t0 ≡ none) ids
          → All (λ c. get c t0 ≡ none) (ids ++ (id ∷ []))
      append_new [] h = (fresh, tt)
      append_new (c ∷ ids) h = (h.0, append_new ids h.1)

      at_end : (i : String) (ids : List String) → id ≡ i → Any (λ c. c ≡ i) (ids ++ (id ∷ []))
      at_end i [] h = inl h
      at_end i (c ∷ ids) h = inr (at_end i ids h)

      before :
          (i : String) (ids : List String)
          → Any (λ c. c ≡ i) ids
          → Any (λ c. c ≡ i) (ids ++ (id ∷ []))
      before i [] h = elim h [ ]
      before i (c ∷ ids) (inl h) = inl h
      before i (c ∷ ids) (inr h) = inr (before i ids h)

      noted :
          (i : String)
          → (str_eq id i ≡ true) ⊎ (str_eq id i ≡ false)
          → Any (λ c. c ≡ i) st.created ⊎ (get i st.table ≡ none)
          → Any (λ c. c ≡ i) (st.created ++ (id ∷ [])) ⊎ (get i t ≡ none)
      noted i (inl h) o = inl (at_end i st.created ((eq_iff id i).0 h))
      noted i (inr h) (inl o) = inl (before i st.created o)
      noted i (inr h) (inr o) = inr (same i (λ h'. absurd (cc (h, (eq_iff id i).1 h'))) ∙ o)
