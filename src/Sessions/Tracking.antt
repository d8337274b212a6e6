-- ===== src/Sessions/Tracking.antt =====
-- A stream's activity callback is bound to one record object and one secret.
use dsh_full_remote.Prelude.{
  ℕ, ◌<◌, ◌≡◌, ◌≢◌, false, not, ◌&&◌, some, List, [], ◌∷◌, arith, ◌==◌, Option-cases, inl, inr,
}
use dsh_full_remote.Prelude.Text.{Text, text_eq}
use dsh_full_remote.Prelude.StrMap.{get, Every}
use dsh_full_remote.Sessions.Invariant.{get-Fits}
use dsh_full_remote.Sessions.Preservation.{run-IsValid}
use dsh_full_remote.Sessions.Record.{
  Session, Config, Store, Fits, IsValidFor, IsValid, is_active_status, expired,
}
use dsh_full_remote.Sessions.Steps.{Op, run}
use dsh_full_remote.Sessions.Track.{Tracker, track}

-- The tracker's object was created, and is in no entry of the store.
pub record IsGone (t : Tracker) (st : Store) : Type 0 where
  pub valid : IsValid st
  pub created : t.ref < st.next_ref
  pub absent : Every (λ k s. s.ref ≢ t.ref) st.sessions

gone-IsValidFor : (t : Tracker) (st : Store) → IsGone t st → IsValidFor (λ r. r ≢ t.ref) st
gone-IsValidFor t st g = record {
  unique = g.valid.unique;
  keyed = both st.sessions g.valid.keyed g.absent;
  fresh = λ n h e. omega (arith, g.created, h, e);
}
  where
    both :
        (m : List (Text × Session))
        → Every (Fits (λ r. Unit {0}) st.next_ref) m
        → Every (λ k s. s.ref ≢ t.ref) m
        → Every (Fits (λ r. r ≢ t.ref) st.next_ref) m
    both [] a b = tt
    both ((k, s) ∷ m) a b = ((a.0.0, (a.0.1.0, b.0)), both m a.1 b.1)

track_refused :
    (cfg : Config) (st : Store) (t : Tracker) (at : ℕ)
    → IsValidFor (λ r. r ≢ t.ref) st
    → (track cfg st t at).alive ≡ false
unfolding track
track_refused cfg st t at v = elim (Option-cases (get t.id st.sessions)) [
  | inl e ↦ rw (e, track)
  | inr (s, e) ↦ let ne = (get-Fits v e).1.1 in ground (arith, e, ne)
]

-- Once the object that a callback is bound to is in no entry of a valid store, the callback
-- refuses after any later history, at any time.
pub track_gone :
    (hash_session_secret : Text → Text) (cfg : Config) (st : Store) (t : Tracker) (os : List Op)
    (at : ℕ)
    → IsGone t st
    → (track cfg (run hash_session_secret cfg st os) t at).alive ≡ false
track_gone hash_session_secret cfg st t os at g =
    track_refused cfg (run hash_session_secret cfg st os) t at
      (run-IsValid hash_session_secret cfg st os (gone-IsValidFor t st g))

-- A callback goes on exactly while the store holds its own object, under its secret, active and
-- not expired.
pub track-alive_iff :
    (cfg : Config) (st : Store) (t : Tracker) (at : ℕ) (s : Session)
    → get t.id st.sessions ≡ some s
    → (track cfg st t at).alive
      ≡ (s.ref == t.ref)
        && text_eq s.secret_hash t.secret_hash
        && is_active_status s.status
        && not (expired cfg s at)
unfolding track
track-alive_iff cfg st t at s e = ground (arith, e)
