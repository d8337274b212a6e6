-- ===== src/Tests/Devices.antt =====
-- Sessions: the theorems at a store of two devices.
use dsh_full_remote.Prelude.{
  ◌≤◌, ◌≡◌, ◌≢◌, ◌⊎◌, refl, true, false, not, Option, none, some, [], ◌∷◌, arith,
}
use dsh_full_remote.Prelude.Text.{Text, codes, text_eq, index_of}
use dsh_full_remote.Prelude.StrMap.{get, delete_where}
use dsh_full_remote.Sessions.Access.{is_active}
use dsh_full_remote.Sessions.Admin.{revoke, approve}
use dsh_full_remote.Sessions.Admission.{revoke-is_active, login-approve-is_active}
use dsh_full_remote.Sessions.Capacity.{login_admission}
use dsh_full_remote.Sessions.Cookie.{decode_session_cookie}
use dsh_full_remote.Sessions.Login.{new_session, login, live_count, capacity_error}
use dsh_full_remote.Sessions.Record.{
  active, Session, Config, default_config, Store, IsValid, expired, sweep,
}
use dsh_full_remote.Sessions.Steps.{logs_in, run}
use dsh_full_remote.Sessions.Track.{Tracker, track}
use dsh_full_remote.Sessions.Tracking.{IsGone, track_gone}

-- A stand-in for the platform's hash.
abbrev hash : Text → Text
hash secret = b'#' ∷ secret

abbrev phone : Session
phone = record {
  id = codes "a";
  secret_hash = codes "#s";
  label = codes "Phone";
  status = active;
  created_at = 1000;
  last_seen_at = 1000;
  created_ip = none;
  last_seen_ip = none;
  ref = 0;
}

abbrev laptop : Session
laptop = record phone { id = codes "b"; secret_hash = codes "#t"; ref = 1 }

abbrev two_devices : Store
two_devices = record {
  sessions = (codes "a", phone) ∷ (codes "b", laptop) ∷ [];
  changes = 2;
  next_ref = 2;
}

abbrev phone_cookie : Option Text
phone_cookie = some (codes "a.s")

two_devices-IsValid : IsValid two_devices
unfolding get text_eq
two_devices-IsValid = record {
  unique = (refl, (refl, tt));
  keyed = ((refl, (omega arith, tt)), ((refl, (omega arith, tt)), tt));
  fresh = λ n h. tt;
}

revoke-is_active_example :
    is_active hash default_config (revoke two_devices (codes "a") 2000).0 phone_cookie 2500 ≡ false
unfolding decode_session_cookie index_of
revoke-is_active_example =
    revoke-is_active hash default_config two_devices (codes "a") (codes "s") phone_cookie 2000 2500
      two_devices-IsValid refl

abbrev approving : Config
approving = record default_config { approval_required = true; max_sessions = 3 }

login-approve-is_active_example :
    let waiting = (login hash approving two_devices 2000 (codes "c") (codes "u") none none).0 in
    let s =
      new_session hash approving
        (sweep approving two_devices 2000)
        2000
        (codes "c")
        (codes "u")
        none
        none in
    (is_active hash approving waiting (some (codes "c.u")) 4000 ≡ false)
    × (is_active hash approving (approve waiting (codes "c") 3000).0 (some (codes "c.u")) 4000
        ≡ not (expired approving (record s { status = active; last_seen_at = 3000 }) 4000))
unfolding decode_session_cookie index_of sweep expired live_count delete_where
login-approve-is_active_example =
    login-approve-is_active hash approving two_devices 2000 3000 4000 (codes "c") (codes "u") none
      none (some (codes "c.u")) refl refl refl

login_admission_example :
    let swept = sweep approving two_devices 2000 in
    let (st', result) = login hash approving two_devices 2000 (codes "c") (codes "u") none none in
    ((result ≡ capacity_error) × (3 ≤ live_count swept.sessions) × (st' ≡ swept))
    ⊎ ((result ≢ capacity_error)
        × (live_count st'.sessions ≤ 3)
        × (get (codes "a") st'.sessions ≡ get (codes "a") swept.sessions))
login_admission_example =
    login_admission hash approving two_devices 2000 (codes "c") (codes "u") (codes "a") none none
      refl (λ e. ground (arith, e))

-- The callback of a phone that was revoked, object 0, of which the store has only object 1 left.
abbrev old_callback : Tracker
old_callback = record {
  id = codes "a";
  ref = 0;
  secret_hash = codes "#s";
  last_notified_at = some 1000;
}

abbrev one_device : Store
one_device = record two_devices { sessions = (codes "b", laptop) ∷ [] }

one_device-IsGone : IsGone old_callback one_device
unfolding get
one_device-IsGone = record {
  valid = record {
    unique = (refl, tt);
    keyed = ((refl, (omega arith, tt)), tt);
    fresh = λ n h. tt;
  };
  created = omega arith;
  absent = (λ e. omega (arith, e), tt);
}

track_gone_example :
    (track default_config
      (run hash default_config one_device (logs_in 3000 (codes "a") (codes "s") none none ∷ []))
      old_callback
      4000).alive
    ≡ false
track_gone_example =
    track_gone hash default_config one_device old_callback
      (logs_in 3000 (codes "a") (codes "s") none none ∷ []) 4000 one_device-IsGone
