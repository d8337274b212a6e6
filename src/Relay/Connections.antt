-- ===== src/Relay/Connections.antt =====
-- src/proxy.ts: the live connections of each session. A connection is the number of its `close` function. A `Set`
-- of the language is an object: a release keeps the set that its connection was put in, whatever the map has later.
use dsh_full_remote.Prelude.{
  ℕ, ◌+◌, Bool, true, false, not, Option, none, some, List, [], ◌∷◌, ◌++◌, ◌==◌, any, if◌then◌else◌,
}
use dsh_full_remote.Prelude.Text.{Text}
use dsh_full_remote.Prelude.StrMap.{StrMap, get, set, delete, keys}

-- `sessionConnections`, `connectionLeases` and the sets; `sets` has the newest state of a set first, and `closed`
-- the connections whose `close` was called.
pub record Connections : Type 0 where
  pub sets : List (ℕ × List ℕ)
  pub next_set : ℕ
  pub session_connections : StrMap ℕ
  pub leases : List ℕ
  pub closed : List ℕ

abbrev pub no_connections : Connections
no_connections = record {
  sets = [];
  next_set = 0;
  session_connections = [];
  leases = [];
  closed = [];
}

abbrev pub has : ℕ → List ℕ → Bool
has n l = any (λ m. m == n) l

-- `set.add(close)`
abbrev pub added : ℕ → List ℕ → List ℕ
added n l = if has n l then l else l ++ n ∷ []

-- `set.delete(close)`
abbrev pub without : ℕ → List ℕ → List ℕ
without n [] = []
without n (m ∷ l) = if m == n then without n l else m ∷ without n l

-- The members of a set.
abbrev pub members : ℕ → List (ℕ × List ℕ) → List ℕ
members ref [] = []
members ref ((r, l) ∷ sets) = if r == ref then l else members ref sets

abbrev pub is_nil : List ℕ → Bool
is_nil [] = true
is_nil (n ∷ l) = false

-- What the function that `trackSession` returns has captured.
pub record Tracked : Type 0 where
  pub session_id : Text
  pub set : ℕ
  pub close : ℕ

-- `connections.add(close)`, in the set of the session or in a new one.
abbrev pub tracked_in : Connections → Text → (close : ℕ) → List ℕ → Option ℕ → Connections × Tracked
tracked_in s session_id close leases (some ref) = (
  record s { sets = (ref, added close (members ref s.sets)) ∷ s.sets; leases = leases },
  record { session_id = session_id; set = ref; close = close },
)
tracked_in s session_id close leases none = (
  record s {
    sets = (s.next_set, close ∷ []) ∷ s.sets;
    next_set = s.next_set + 1;
    session_connections = set session_id s.next_set s.session_connections;
    leases = leases;
  },
  record { session_id = session_id; set = s.next_set; close = close },
)

-- `trackSession`, with a lease or without.
unfoldable pub track_session :
    Connections → Text → (close : ℕ) → (leased : Bool) → Connections × Tracked
track_session s session_id close leased =
    tracked_in s session_id close (if leased then added close s.leases else s.leases)
      (get session_id s.session_connections)

-- The function that `trackSession` returns.
unfoldable pub release_session : Connections → Tracked → Connections
release_session s t =
    let rest = without t.close (members t.set s.sets) in
    record s {
      sets = (t.set, rest) ∷ s.sets;
      leases = without t.close s.leases;
      session_connections =
          if is_nil rest then delete t.session_id s.session_connections else s.session_connections;
    }

abbrev pub without_all : List ℕ → List ℕ → List ℕ
without_all [] l = l
without_all (n ∷ ns) l = without_all ns (without n l)

abbrev pub close_set : Connections → Text → ℕ → Connections
close_set s session_id ref = record s {
  session_connections = delete session_id s.session_connections;
  leases = without_all (members ref s.sets) s.leases;
  closed = s.closed ++ members ref s.sets;
}

-- `closeSessionConnections`, but for the cache.
unfoldable pub close_session : Connections → Text → Connections
close_session s session_id = elim (get session_id s.session_connections) [
  | none ↦ s
  | some ref ↦ close_set s session_id ref
]

-- The connections that a test takes.
abbrev pub taken_by : (ℕ → Bool) → List ℕ → List ℕ
taken_by p [] = []
taken_by p (n ∷ l) = if p n then n ∷ taken_by p l else taken_by p l

-- The first loop of the timer.
unfoldable pub expire_leases : (ℕ → Bool) → Connections → Connections
expire_leases valid s = record s {
  leases = taken_by valid s.leases;
  closed = s.closed ++ taken_by (λ n. not (valid n)) s.leases;
}

-- The second loop of the timer.
unfoldable pub close_inactive : (Text → Bool) → List Text → Connections → Connections
close_inactive active [] s = s
close_inactive active (id ∷ ids) s =
    close_inactive active ids (if active id then s else close_session s id)

abbrev pub is_empty : StrMap ℕ → Bool
is_empty [] = true
is_empty (e ∷ m) = false

-- The callback of `sessionExpiryTimer`; `valid` is what the leases answer, and `active` the sessions of the store.
unfoldable pub expiry_tick : (valid : ℕ → Bool) (active : Text → Bool) → Connections → Connections
expiry_tick valid active s =
    if is_empty s.session_connections
    then s
    else close_inactive active (keys s.session_connections) (expire_leases valid s)
