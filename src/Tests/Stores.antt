-- ===== src/Tests/Stores.antt =====
-- The invite store, the login tracker, the response cache and the poller: the theorems at concrete
-- inputs.
use dsh_full_remote.Prelude.{
  ◌≤◌, ◌<◌, ◌≡◌, inr, refl, true, false, none, some, [], ◌∷◌, arith, length,
}
use dsh_full_remote.Prelude.Text.{Text, codes, text_eq}
use dsh_full_remote.Prelude.StrMap.{set, get}
use dsh_full_remote.Cache.Accounts.{IsBounded}
use dsh_full_remote.Cache.Steps
use dsh_full_remote.Cache.Steps.{run-empty-IsBounded}
use dsh_full_remote.Cache.Store
use dsh_full_remote.Cache.Store.{
  Response, Entry, Cache, safe, empty_cache, cache_get, put, delete_session, entry_size,
}
use dsh_full_remote.Invites.Codes
use dsh_full_remote.Invites.Codes.{
  Invite, Consume, refused, first, retry, consume, bind_session, known_ip, same_ip,
}
use dsh_full_remote.Invites.SingleUse
use dsh_full_remote.Invites.SingleUse.{first_uses, first_uses-le-one}
use dsh_full_remote.Tracker.Buckets.{Bucket, Limits, Buckets, check, reserve, current_bucket}
use dsh_full_remote.Tracker.Window.{
  reserves, fails, prunes, after, HasRoom, admitted, admitted-le, reserve_forgets_lock,
}
use dsh_full_remote.Polling
use dsh_full_remote.Polling.{
  State, create_visibility_polling, ticks, begins, disposes, turns, settles, run-dispose,
  run-create_visibility_polling-IsValid,
}

abbrev ip : Text
ip = codes "10.0.0.9"

abbrev limits : Limits
limits = record { max_attempts = 2; lockout_ms = 1000 }

-- The prune finds one address.
prune_finds_room :
    HasRoom (after limits (after limits [] (reserves ip 100)) (reserves ip 200)) (prunes 250)
unfolding after reserve get text_eq set current_bucket
prune_finds_room = omega arith

admitted-le_example :
    admitted limits [] ip
      (reserves ip 100 ∷ reserves ip 200 ∷ prunes 250 ∷ reserves ip 300 ∷ fails ip 400 ∷ [])
    ≤ 2
unfolding get after reserve
admitted-le_example =
    admitted-le limits [] ip 100
      (reserves ip 200 ∷ prunes 250 ∷ reserves ip 300 ∷ fails ip 400 ∷ []) (omega arith)
      (omega arith) refl
      (
        inr (omega arith, omega arith),
        (tt, (inr (omega arith, omega arith), (inr (omega arith, omega arith), tt))),
      )
      (tt, (tt, (prune_finds_room, (tt, (tt, tt)))))

-- Failed twice from 100 on, locked until 1900.
abbrev locked_bucket : Bucket
locked_bucket = record {
  failures = 2;
  in_flight = 0;
  first_failure = 100;
  locked_until = some 1900;
}

abbrev locked_ips : Buckets
locked_ips = (ip, locked_bucket) ∷ []

reserve_forgets_lock_example :
    ((reserve limits locked_ips ip 1200).1 ≡ 0) × (0 < (check locked_ips ip 1200).1)
unfolding get text_eq
reserve_forgets_lock_example =
    reserve_forgets_lock limits locked_ips ip locked_bucket 1200 1900 (omega arith) refl refl
      (omega arith) (omega arith)

abbrev code : Text
code = codes "code"

abbrev fresh_invite : Invite
fresh_invite = record { expires_at = 900000; used_at = none; used_ip = none; session_id = none }

abbrev used_invite : Invite
used_invite = record fresh_invite {
  used_at = some 1000;
  used_ip = some ip;
  session_id = some (codes "a");
}

first_uses-le-one_example :
    first_uses Codes.default_options ((code, fresh_invite) ∷ []) code (
      SingleUse.consumes code (some ip) 1000
      ∷ SingleUse.binds code (codes "a")
      ∷ SingleUse.consumes code (some ip) 1001
      ∷ [])
    ≤ 1
unfolding get
first_uses-le-one_example =
    first_uses-le-one Codes.default_options ((code, fresh_invite) ∷ []) code
      (SingleUse.consumes code (some ip) 1000
        ∷ SingleUse.binds code (codes "a")
        ∷ SingleUse.consumes code (some ip) 1001
        ∷ [])
      (refl, tt) (tt, (tt, (tt, tt)))

abbrev page : Response Text
page = record {
  status = 200;
  headers = codes "h";
  body = 1 ∷ 2 ∷ [];
  received_at = some (safe 900);
}

abbrev small : Store.Options
small = record { max_bytes = 100; max_entry_bytes = 60; max_entries = 2; ttl_ms = 500 }

run-empty-IsBounded_example : IsBounded small (
    Steps.run length small empty_cache
      (Steps.puts 1000 (codes "k") page (codes "a") none ∷ Steps.gets 1100 (codes "k") ∷ []))
run-empty-IsBounded_example =
    run-empty-IsBounded length small
      (Steps.puts 1000 (codes "k") page (codes "a") none ∷ Steps.gets 1100 (codes "k") ∷ [])

empty_cache-IsBounded : IsBounded small (empty_cache {H = Text})
unfolding empty_cache Steps.run
empty_cache-IsBounded = run-empty-IsBounded length small []

-- The page goes hidden while a request is under way.
run-create_visibility_polling-IsValid_example : Polling.IsValid (
    Polling.run
      (create_visibility_polling (some true) true)
      (begins ∷ turns false ∷ ticks ∷ settles ∷ []))
run-create_visibility_polling-IsValid_example =
    run-create_visibility_polling-IsValid (some true) true
      (begins ∷ turns false ∷ ticks ∷ settles ∷ [])
