-- ===== src/Api/Nodes/Create.antt =====
-- backend/internal/api/nodes.go: POST /nodes, over the nodes table, the import and the
-- idempotency store. The reload of the hub, which follows a created node, is Hub's. Encryption, what
-- stands at a configuration's address, the validity of JSON and the text of the answer are parameters.
pub mod Repeat
mod Tests
use singboxhub.Prelude.{
  ℕ, String, Bool, true, false, not, ◌&&◌, ◌||◌, Option, none, some, List, [], ◌∷◌, ltb, leb, ◌==◌,
  str_eq, if◌then◌else◌,
}
use Prim.Native.Char.{Char, code}
use Prim.Native.String.{◌++◌, len}
use text.Mathlib.Text.{starts_with}
use mathlib.Core.List.{◌++◌ as ◌++ᴸ◌}
use singboxhub.Prelude.Int.{pos}
use singboxhub.Prelude.Itoa.{itoa}
use singboxhub.Prelude.Dict.{Dict, get}
use singboxhub.Store.Nodes.{Node, Table, Result, ok, fail, create_node}
use singboxhub.Api.Nodes.Input.{Input, FieldErr, trim_space, trim_slashes, validate_node_input}
use singboxhub.Api.Idempotency.{IdemEntry, IdempotencyStore, get_entry, put_entry}
use singboxhub.Api.Nodes.{
  Proxy, World as ImportWorld, ImportStats, Outcome, failed, synced, import_proxies_for_node,
}

-- A configuration that was fetched and parsed.
pub record Source : Type 0 where
  pub proxies : List Proxy
  pub skips : ℕ
  pub modes : Dict String

pub record World : Type 0 where
  pub seal : String → Option String
  pub fetch : String → String → Option Source
  pub is_json : String → Bool
  pub body : String → Node → Option ImportStats → List ℕ
  pub importing : ImportWorld

pub data Answer : Type 0 where
  replayed : IdemEntry → Answer
  invalid : List FieldErr → Answer
  internal conflict upstream : Answer
  created : IdemEntry → Answer

-- The store's tables and the idempotency store.
pub record State : Type 0 where
  pub table : Table
  pub idem : IdempotencyStore

-- A field that is encrypted only when it is there.
abbrev seal_present : World → String → Option String
seal_present w s = if str_eq s "" then some "" else w.seal s

abbrev outbound_text : Option String → String
outbound_text none = ""
outbound_text (some raw) = trim_space raw

abbrev or_true : Option Bool → Bool
or_true none = true
or_true (some b) = b

abbrev new_node : Input → String → String → String → String → Node
new_node input secret outbound config_url kce_key = record {
  name = input.name;
  api_url = trim_slashes input.api_url;
  api_secret_enc = secret;
  outbound_enc = outbound;
  source = "";
  config_url = config_url;
  kce_key_enc = kce_key;
  tags = input.tags;
  enabled = or_true input.enabled;
  remark = input.remark;
  mode = "";
  latency_ms = pos 0;
  latency_checked_at = 0;
  latency_fail_count = 0;
  created_at = 0;
  updated_at = 0;
  last_online = 0;
}

-- `fmt.Sprintf("create-node:%d:%s", userID, key)`
pub idem_key : ℕ → String → String
idem_key user key = "create-node:" ++ itoa user ++ ":" ++ key

abbrev pub row_or : Node → Option Node → Node
row_or n none = n
row_or n (some row) = row

-- The end of the handler: the answer, which shows the row and is stored under the key, if there is one.
pub respond : World → ℕ → ℕ → String → String → Node → Option ImportStats → State → Answer × State
unfolding idem_key
respond w now user key id n stats st =
    let entry : IdemEntry = record {
      created = now;
      status = 201;
      location = "/nodes/" ++ id;
      body = w.body id (row_or n (get id st.table)) stats;
      user_id = user;
      op_hash = "";
    } in
    if str_eq key ""
    then (created entry, st)
    else (created entry, record st { idem = put_entry (idem_key user key) entry now st.idem })

abbrev pub after_import : World → ℕ → ℕ → String → String → Node → State → Outcome → Answer × State
after_import w now user key id n st (failed t) = (upstream, record st { table = t })
after_import w now user key id n st (synced stats t) =
    respond w now user key id n (some stats) (record st { table = t })

abbrev pub import_source :
    World → ℕ → ℕ → String → String → Node → State → Option Source → Answer × State
import_source w now user key id n st none = (upstream, st)
import_source w now user key id n st (some source) = after_import w now user key id n st (
    import_proxies_for_node w.importing id n (str_eq n.outbound_enc "") source.proxies source.skips
      source.modes st.table)

abbrev pub after_create :
    World → ℕ → ℕ → String → String → Node → String → State → Result → Answer × State
after_create w now user key id n kce_key st (fail why) = (conflict, st)
after_create w now user key id n kce_key st (ok t) =
    if str_eq n.config_url ""
    then respond w now user key id n none (record st { table = t })
    else import_source w now user key id (record n { created_at = now; updated_at = now })
        (record st { table = t }) (w.fetch n.config_url kce_key)

abbrev pub sealed :
    State
    → (String → String → String → Answer × State)
    → Option String
    → Option String
    → Option String
    → Answer × State
sealed st go_on (some secret) (some outbound) (some kce_key) = go_on secret outbound kce_key
sealed st go_on (some secret) (some outbound) none = (internal, st)
sealed st go_on (some secret) none _ = (internal, st)
sealed st go_on none _ _ = (internal, st)

abbrev pub seal_all :
    World → Input → String → (String → String → String → Answer × State) → State → Answer × State
seal_all w input config_url go_on st =
    sealed st go_on (w.seal input.api_secret) (seal_present w (outbound_text input.outbound_json))
      (if str_eq config_url "" then some "" else w.seal input.kce_key)

abbrev pub create_sealed :
    World
    → ℕ
    → ℕ
    → String
    → String
    → Input
    → String
    → State
    → String
    → String
    → String
    → Answer × State
create_sealed w now user key id input config_url st secret outbound kce_key =
    let n = new_node input secret outbound config_url kce_key in
    after_create w now user key id n input.kce_key st (create_node now id n st.table)

-- The handler for a request whose key, if it has one, is new.
abbrev pub create_valid :
    World → ℕ → ℕ → String → String → Input → State → List FieldErr → Answer × State
create_valid w now user key id input st (e ∷ errs) = (invalid (e ∷ errs), st)
create_valid w now user key id input st [] =
    let config_url = trim_slashes (trim_space input.config_url) in
    seal_all w input config_url (create_sealed w now user key id input config_url st) st

abbrev pub replay : Option IdemEntry → State → Answer × State → Answer × State
replay none st fresh = fresh
replay (some entry) st fresh = (replayed entry, st)

-- `id` is the random id of the node.
pub handle_create_node : World → ℕ → ℕ → String → String → Input → State → Answer × State
unfolding validate_node_input respond idem_key
handle_create_node w now user key id input st =
    let fresh = create_valid w now user key id input st (validate_node_input w.is_json input) in
    if str_eq key "" then fresh else replay (get_entry (idem_key user key) now st.idem) st fresh
