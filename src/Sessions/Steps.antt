-- ===== src/Sessions/Steps.antt =====
-- Histories of the session store: one operation of src/sessions.ts after another, each with the
-- arguments, times and random values that it takes.
use dsh_full_remote.Prelude.{ℕ, Option, List, [], ◌∷◌}
use dsh_full_remote.Prelude.Text.{Text}
use dsh_full_remote.Sessions.Record.{Config, Store, sweep}
use dsh_full_remote.Sessions.Login.{login, reissue}
use dsh_full_remote.Sessions.Access.{validate, pending_session}
use dsh_full_remote.Sessions.Track.{Tracker, track}
use dsh_full_remote.Sessions.Admin.{revoke, approve, rename, clear}
use dsh_full_remote.Sessions.Disk.{RawSession, hydrate}

pub data Op : Type 0 where
  logs_in : (at : ℕ) (id secret : Text) (user_agent ip : Option Text) → Op
  reissues : (at : ℕ) (id secret : Text) (ip : Option Text) → Op
  validates : (cookie_value ip : Option Text) (at touched_at : ℕ) → Op
  polls : (cookie_value : Option Text) (id : Text) (at : ℕ) → Op
  tracks : (tracker : Tracker) (at : ℕ) → Op
  lists : (at : ℕ) → Op
  revokes : (id : Text) (at : ℕ) → Op
  approves : (id : Text) (at : ℕ) → Op
  renames : (id : Text) (label : Option Text) → Op
  clears : Op
  hydrates : (entries : Option (List RawSession)) → Op

module _ (hash_session_secret : Text → Text) (cfg : Config) where
  -- The store after one operation; `list` and `serialize` both only sweep it.
  unfoldable pub step : Store → Op → Store
  step st (logs_in at id secret user_agent ip) =
      (login hash_session_secret cfg st at id secret user_agent ip).0
  step st (reissues at id secret ip) = (reissue hash_session_secret cfg st at id secret ip).0
  step st (validates cookie_value ip at touched_at) =
      (validate hash_session_secret cfg st cookie_value ip at touched_at).0
  step st (polls cookie_value id at) =
      (pending_session hash_session_secret cfg st cookie_value id at).0
  step st (tracks tracker at) = (track cfg st tracker at).store
  step st (lists at) = sweep cfg st at
  step st (revokes id at) = (revoke st id at).0
  step st (approves id at) = (approve st id at).0
  step st (renames id label) = (rename st id label).0
  step st clears = clear st
  step st (hydrates entries) = hydrate cfg st entries

  unfoldable pub run : Store → List Op → Store
  run st [] = st
  run st (o ∷ os) = run (step st o) os
