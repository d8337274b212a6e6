-- ===== src/Sessions/Disk.antt =====
-- src/sessions.ts: `hydrate` and `serialize`. A persisted entry is read field by field: `none`
-- stands for a field of another type, and for a time that is no finite number.
use dsh_full_remote.Prelude.{
  ℕ, suc, ◌&&◌, Option, none, some, List, [], ◌∷◌, map, ltb, leb, if◌then◌else◌, length, take, ◌≡◌,
  arith,
}
use dsh_full_remote.Prelude.Text.{Text, codes, text_eq}
use dsh_full_remote.Prelude.StrMap.{set, values}
use dsh_full_remote.Sessions.Admin.{not_rejected}
use dsh_full_remote.Sessions.Record.{
  Status, active, pending, rejected, Session, Config, Store, with_sessions, sweep,
}

-- An entry of the state file, `Partial<SessionRecord>`.
pub record RawSession : Type 0 where
  pub id : Option Text
  pub secret_hash : Option Text
  pub label : Option Text
  pub status : Option Text
  pub created_at : Option ℕ
  pub last_seen_at : Option ℕ
  pub created_ip : Option Text
  pub last_seen_ip : Option Text

-- `validSessionIp`
valid_session_ip : Option Text → Option Text
valid_session_ip none = none
valid_session_ip (some ip) = if ltb 0 (length ip) && leb (length ip) 64 then some ip else none

-- `entry.status !== 'active' && entry.status !== 'pending'`
read_status : Option Text → Option Status
read_status none = none
read_status (some text) =
    if text_eq text (codes "active")
    then some active
    else if text_eq text (codes "pending")
    then some pending
    else none

read_label : Option Text → Option Text
read_label none = none
read_label (some label) = if ltb 128 (length label) then none else some label

infixl 5 ◌>>=◌
abbrev ◌>>=◌ {ℓ κ} : {A : Type ℓ} {B : Type κ} → Option A → (A → Option B) → Option B
none >>= f = none
some a >>= f = f a

-- The tests of the loop of `hydrate`, each of which skips the entry; the new object's identity
-- is `ref`.
unfoldable pub read_session : RawSession → ℕ → Option Session
unfolding valid_session_ip read_status read_label
read_session raw ref = do
  id ← raw.id
  secret_hash ← raw.secret_hash
  label ← read_label raw.label
  status ← read_status raw.status
  created_at ← raw.created_at
  last_seen_at ← raw.last_seen_at
  some (record {
    id = id;
    secret_hash = secret_hash;
    label = label;
    status = status;
    created_at = created_at;
    last_seen_at = last_seen_at;
    created_ip = valid_session_ip raw.created_ip;
    last_seen_ip = valid_session_ip raw.last_seen_ip;
    ref = ref;
  })

pub read_session-ref :
    (raw : RawSession) (ref : ℕ) {s : Session} → read_session raw ref ≡ some s → s.ref ≡ ref
unfolding read_session
read_session-ref raw ref e = ground arith

-- One round of the loop of `hydrate`.
unfoldable pub hydrate_entry : Store → RawSession → Store
hydrate_entry st raw = elim (read_session raw st.next_ref) [
  | none ↦ st
  | some s ↦ record st { sessions = set s.id s st.sessions; next_ref = suc st.next_ref }
]

unfoldable pub hydrate_entries : Store → List RawSession → Store
hydrate_entries st [] = st
hydrate_entries st (raw ∷ l) = hydrate_entries (hydrate_entry st raw) l

-- `hydrate`; `none` is an argument that is no array.
unfoldable pub hydrate : Config → Store → Option (List RawSession) → Store
hydrate cfg st none = with_sessions st []
hydrate cfg st (some list) = hydrate_entries (with_sessions st []) (take cfg.max_sessions list)

status_text : Status → Text
status_text active = codes "active"
status_text pending = codes "pending"
status_text rejected = codes "rejected"

-- The shape that `serialize` writes.
unfoldable pub raw_session : Session → RawSession
unfolding status_text
raw_session s = record {
  id = some s.id;
  secret_hash = some s.secret_hash;
  label = some s.label;
  status = some (status_text s.status);
  created_at = some s.created_at;
  last_seen_at = some s.last_seen_at;
  created_ip = s.created_ip;
  last_seen_ip = s.last_seen_ip;
}

-- `serialize`
unfoldable pub serialize : Config → Store → ℕ → Store × List RawSession
serialize cfg st at =
    let swept = sweep cfg st at in (swept, map raw_session (not_rejected (values swept.sessions)))
