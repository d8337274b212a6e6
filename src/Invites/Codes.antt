-- ===== src/Invites/Codes.antt =====
-- src/invites.ts: `createInviteStore`. Random codes and times are arguments.
use dsh_full_remote.Prelude.{
  ℕ, ◌+◌, ◌-◌, ◌*◌, Bool, false, ◌&&◌, Option, none, some, List, [], ◌∷◌, ltb, leb, if◌then◌else◌,
}
use dsh_full_remote.Prelude.Text.{Text, text_eq}
use dsh_full_remote.Prelude.StrMap.{StrMap, get, set, delete, delete_where, size}

-- `InviteEntry`
pub record Invite : Type 0 where
  pub expires_at : ℕ
  pub used_at : Option ℕ
  pub used_ip : Option Text
  pub session_id : Option Text

pub record Options : Type 0 where
  pub ttl_ms : ℕ
  pub max_pending : ℕ
  pub retry_grace_ms : ℕ

abbrev pub default_options : Options
default_options = record { ttl_ms = 15 * 60000; max_pending = 32; retry_grace_ms = 60000 }

abbrev pub Codes : Type 0
Codes = StrMap Invite

-- `InviteConsume`
pub data Consume : Type 0 where
  refused : Consume
  first : Consume
  retry : Option Text → Consume

-- The `while` loop of `prune`: the oldest codes go. To delete the first key of a map is to drop its
-- first entry.
unfoldable pub drop_oldest : ℕ → List (Text × Invite) → List (Text × Invite)
drop_oldest max_pending [] = []
drop_oldest max_pending ((k, e) ∷ m) =
    if ltb max_pending (size ((k, e) ∷ m)) then drop_oldest max_pending m else (k, e) ∷ m

-- `prune`
unfoldable pub prune : Options → Codes → ℕ → Codes
unfolding drop_oldest
prune o m now = drop_oldest o.max_pending (delete_where (λ e. leb e.expires_at now) m)

-- `issue`: `now` is the time of `prune`, `at` that of the expiry.
unfoldable pub issue : Options → Codes → Text → ℕ → ℕ → Codes
issue o m code now at =
    set code
      (record { expires_at = at + o.ttl_ms; used_at = none; used_ip = none; session_id = none })
      (prune o m now)

-- `ip === undefined || ip === '' ? undefined : ip`
abbrev pub known_ip : Option Text → Option Text
known_ip none = none
known_ip (some []) = none
known_ip (some (c ∷ t)) = some (c ∷ t)

-- The same client: both addresses are known and equal.
abbrev pub same_ip : Option Text → Option Text → Bool
same_ip none b = false
same_ip (some a) none = false
same_ip (some a) (some b) = text_eq b a

-- `consume` for an entry that has not expired.
consume_entry : Options → Codes → Text → Invite → Option Text → ℕ → Codes × Consume
consume_entry o m code e ip now = elim e.used_at [
  | none ↦ (set code (record e { used_at = some now; used_ip = known_ip ip }) m, first)
  | some used_at ↦
      if same_ip (known_ip ip) e.used_ip && leb (now - used_at) o.retry_grace_ms
      then (m, retry e.session_id)
      else (delete code m, refused)
]

-- `consume`
unfoldable pub consume : Options → Codes → Text → Option Text → ℕ → Codes × Consume
unfolding consume_entry
consume o m code ip now = if text_eq code [] then (m, refused) else elim (get code m) [
  | none ↦ (m, refused)
  | some e ↦
      if leb e.expires_at now then (delete code m, refused) else consume_entry o m code e ip now
]

-- `bindSession`
unfoldable pub bind_session : Codes → Text → Text → Codes
bind_session m code session_id = elim (get code m) [
  | none ↦ m
  | some e ↦ elim e.used_at [
    | none ↦ m
    | some _ ↦ set code (record e { session_id = some session_id }) m
  ]
]

-- `clear`
unfoldable pub clear_codes : Codes → Codes
clear_codes m = []

-- `size`
unfoldable pub size_codes : Options → Codes → ℕ → Codes × ℕ
size_codes o m now = let pruned = prune o m now in (pruned, size pruned)
