-- ===== src/Sessions/Capacity.antt =====
-- The limits on the number of devices.
use dsh_full_remote.Prelude.{
  ℕ, zero, suc, ◌+◌, ◌≤◌, ◌<◌, ◌≡◌, refl, ◌≢◌, ◌⊎◌, true, false, Option, none, some, List, [], ◌∷◌,
  arith, if_both, subst, ltb→lt, leb→le, ltb, leb, is_some, Option-cases, Bool-cases, inl, inr,
}
use dsh_full_remote.Prelude.Text.{Text, text_eq, text_eq_iff, text_eq_refl}
use dsh_full_remote.Prelude.StrMap.{
  get, set, size, Unique, get-set, get-delete, get-set_self, size-delete, delete-Unique, set-Unique,
}
use dsh_full_remote.Sessions.Login.{
  capacity_error, live_count, older_of, oldest_entry, evict_oldest, evict_loop, new_session, admit,
  login,
}
use dsh_full_remote.Sessions.Invariant.{sweep-IsValid}
use dsh_full_remote.Sessions.Record.{Session, Config, Store, IsValid, sweep}

-- The search for the oldest entry passes over the protected id only.
oldest_some :
    (id : Text) (e : Text × Session) (m : List (Text × Session))
    → is_some (oldest_entry id (some e) m) ≡ true
unfolding oldest_entry
oldest_some id e [] = refl
oldest_some id e ((k, s) ∷ m) = ground (arith, oldest_some id e m, oldest_some id (k, s) m)

oldest_none_absent :
    (id : Text) (m : List (Text × Session))
    → oldest_entry id none m ≡ none
    → get id m ≡ none
    → size m ≡ 0
unfolding oldest_entry get
oldest_none_absent id [] e g = refl
oldest_none_absent id ((k, s) ∷ m) e g = ground (arith, oldest_some id (k, s) m)

oldest_none :
    (id : Text) (m : List (Text × Session)) → Unique m → oldest_entry id none m ≡ none → size m ≤ 1
unfolding oldest_entry get
oldest_none id [] u e = omega arith
oldest_none id ((k, s) ∷ m) u e =
    ground (arith, text_eq_iff k id, oldest_some id (k, s) m, oldest_none_absent id m)

-- What the search finds: an entry of the map that is not the protected one.
abbrev Found : Text → List (Text × Session) → Option (Text × Session) → Type 0
Found id n none = Unit
Found id n (some (k, s)) = (text_eq k id ≡ false) × (is_some (get k n) ≡ true)

older_of-Found :
    (id k : Text) (s : Session) (o : Option (Text × Session)) (n : List (Text × Session))
    → Found id n o
    → is_some (get k n) ≡ true
    → Found id n (older_of id k s o)
unfolding older_of
older_of-Found id k s none n f h = elim (Bool-cases (text_eq k id)) [
  | inl e ↦ rw e tt
  | inr e ↦ rw e (e, h)
]
older_of-Found id k s (some (j, o)) n f h = elim (Bool-cases (text_eq k id)) [
  | inl e ↦ rw e f
  | inr e ↦ rw e (if_both (Found id n) (ltb s.last_seen_at o.last_seen_at) (e, h) f)
]

oldest_entry-Found :
    (id : Text) (o : Option (Text × Session)) (m n : List (Text × Session))
    → Found id n o
    → ((k : Text) → is_some (get k m) ≡ true → is_some (get k n) ≡ true)
    → Found id n (oldest_entry id o m)
unfolding oldest_entry get
oldest_entry-Found id o [] n f sub = f
oldest_entry-Found id o ((k, s) ∷ m) n f sub =
    oldest_entry-Found id (older_of id k s o) m n
      (older_of-Found id k s o n f (sub k (ground (arith, text_eq_refl k))))
      (λ j h. sub j (ground (arith, h)))

-- With two entries or more, one eviction takes exactly one away, never the protected one.
evict_oldest_lem :
    (id : Text) (m : List (Text × Session))
    → Unique m
    → 1 < size m
    → (size (evict_oldest id m) + 1 ≡ size m)
      × (get id (evict_oldest id m) ≡ get id m)
      × Unique (evict_oldest id m)
unfolding evict_oldest
evict_oldest_lem id m u lt = elim (Option-cases (oldest_entry id none m)) [
  | inl e ↦ absurd (omega (arith, oldest_none id m u e))
  | inr ((k, s), e) ↦
      let found : Found id m (some (k, s)) =
        subst (Found id m) e (oldest_entry-Found id none m m tt (λ j h. h)) in
      rw (e, evict_oldest)
        (
          ground (arith, size-delete k m u, found),
          ground (arith, get-delete k id m, found),
          delete-Unique k m u,
        )
]

-- The eviction loop, on fuel for its rounds, ends within the limit and keeps the protected entry.
evict_loop_lem :
    (fuel max_sessions : ℕ) (id : Text) (m : List (Text × Session))
    → 1 ≤ max_sessions
    → Unique m
    → size m ≤ fuel + 1
    → (size (evict_loop fuel max_sessions id m) ≤ max_sessions)
      × (get id (evict_loop fuel max_sessions id m) ≡ get id m)
unfolding evict_loop
evict_loop_lem zero max_sessions id m pos u h = (omega arith, refl)
evict_loop_lem (suc fuel) max_sessions id m pos u h =
    elim (Bool-cases (ltb max_sessions (size m))) [
      | inr e ↦ ground (arith, e)
      | inl e ↦
          let lt = ltb→lt max_sessions (size m) e in
          let (less, kept, u') = evict_oldest_lem id m u (omega arith) in
          let rest = evict_loop_lem fuel max_sessions id (evict_oldest id m) pos u' (omega arith) in
          ground (arith, e, less, kept, rest)
    ]

live_count-set :
    (k : Text) (s : Session) (m : List (Text × Session)) → live_count (set k s m) ≤ live_count m + 1
unfolding live_count set
live_count-set k s [] = ground arith
live_count-set k s ((j, t) ∷ m) = ground (arith, live_count-set k s m)

module _ (hash_session_secret : Text → Text) (cfg : Config) where
  -- In normal mode, with room for at least one session and a valid store, a login succeeds,
  -- leaves at most `maxSessions` records, and stores the new one under its id.
  pub login-size-le :
      (st : Store) (at : ℕ) (id secret : Text) (user_agent ip : Option Text)
      → IsValid st
      → cfg.approval_required ≡ false
      → 1 ≤ cfg.max_sessions
      → let s = new_session hash_session_secret cfg (sweep cfg st at) at id secret user_agent ip in
        let (st', result) = login hash_session_secret cfg st at id secret user_agent ip in
        (size st'.sessions ≤ cfg.max_sessions)
        × (get id st'.sessions ≡ some s)
        × (result ≢ capacity_error)
  unfolding login admit new_session
  login-size-le st at id secret user_agent ip v mode pos =
      let s = new_session hash_session_secret cfg (sweep cfg st at) at id secret user_agent ip in
      let swept = sweep cfg st at in
      let m = set id s swept.sessions in
      let u = set-Unique id s swept.sessions (sweep-IsValid cfg st at v).unique in
      let ended = evict_loop_lem (size m) cfg.max_sessions id m pos u (omega arith) in
      ground (arith, mode, ended, get-set_self id s swept.sessions)

  -- In approval mode a login either finds no room, reports it and changes nothing but the sweep
  -- of expired records, or leaves at most `maxSessions` live devices and every other id's record
  -- as the sweep left it.
  pub login_admission :
      (st : Store) (at : ℕ) (id secret k : Text) (user_agent ip : Option Text)
      → cfg.approval_required ≡ true
      → id ≢ k
      → let swept = sweep cfg st at in
        let (st', result) = login hash_session_secret cfg st at id secret user_agent ip in
        ((result ≡ capacity_error) × (cfg.max_sessions ≤ live_count swept.sessions) × (st' ≡ swept))
        ⊎ ((result ≢ capacity_error)
            × (live_count st'.sessions ≤ cfg.max_sessions)
            × (get k st'.sessions ≡ get k swept.sessions))
  unfolding login admit new_session
  login_admission st at id secret k user_agent ip mode ne =
      let swept = sweep cfg st at in
      let s = new_session hash_session_secret cfg swept at id secret user_agent ip in
      elim (Bool-cases (leb cfg.max_sessions (live_count swept.sessions))) [
        | inl full ↦ inl (simp (mode, full) (refl, leb→le _ _ full, refl))
        | inr room ↦ inr (
            simp (mode, room)
              (
                λ e. cc,
                ground (arith, room, live_count-set id s swept.sessions),
                ground (arith, get-set id k s swept.sessions, text_eq_iff id k, ne),
              ))
      ]
