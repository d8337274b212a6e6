-- ===== src/Cache/Steps.antt =====
-- Histories of the cache: whatever the proxy does with it, the limits hold.
use dsh_full_remote.Prelude.{ℕ, refl, Option, List, [], ◌∷◌, arith}
use dsh_full_remote.Prelude.Text.{Text, text_eq}
use dsh_full_remote.Cache.Accounts.{IsBounded, total}
use dsh_full_remote.Cache.Bounds.{
  put-IsBounded, cache_get-IsBounded, expire-IsBounded, remove_where-IsBounded,
}
use dsh_full_remote.Cache.Store.{
  Millis, Response, Options, Cache, empty_cache, cache_get, put, delete_session, clear_cache, stats,
}

-- An operation with its arguments and the time at which it reads the clock.
pub data Op (H : Type 0) : Type 0 where
  gets : (now : ℕ) (key : Text) → Op H
  puts : (time : ℕ) (key : Text) (r : Response H) (session_id : Text) (ttl : Option Millis) → Op H
  deletes_session : (session_id : Text) → Op H
  clears : Op H
  reads_stats : (now : ℕ) → Op H

module _ {H : Type 0} (header_bytes : H → ℕ) (o : Options) where
  unfoldable pub step : Cache H → Op H → Cache H
  step c (gets now key) = (cache_get c now key).0
  step c (puts time key r session_id ttl) = put header_bytes o c time key r session_id ttl
  step c (deletes_session session_id) = delete_session c session_id
  step c clears = clear_cache c
  step c (reads_stats now) = (stats c now).0

  unfoldable pub run : Cache H → List (Op H) → Cache H
  run c [] = c
  run c (p ∷ ps) = run (step c p) ps

  step-IsBounded : (c : Cache H) (p : Op H) → IsBounded o c → IsBounded o (step c p)
  unfolding step delete_session clear_cache stats total
  step-IsBounded c (gets now key) b = cache_get-IsBounded o c now key b
  step-IsBounded c (puts time key r session_id ttl) b =
      put-IsBounded header_bytes o c time key r session_id ttl b
  step-IsBounded c (deletes_session session_id) b =
      remove_where-IsBounded o c (λ e. text_eq e.session_id session_id) b
  step-IsBounded c clears b = record {
    unique = tt;
    exact = refl;
    within_bytes = omega arith;
    within_entries = omega arith;
    within_entry = tt;
  }
  step-IsBounded c (reads_stats now) b = expire-IsBounded o c now b

  run-IsBounded : (c : Cache H) (ps : List (Op H)) → IsBounded o c → IsBounded o (run c ps)
  unfolding run
  run-IsBounded c [] b = b
  run-IsBounded c (p ∷ ps) b = run-IsBounded (step c p) ps (step-IsBounded c p b)

  -- After every history from the empty cache, at any times and with any responses, the byte count
  -- is exactly the sum of the entries' sizes, keys are distinct, and the three limits hold.
  pub run-empty-IsBounded : (ps : List (Op H)) → IsBounded o (run empty_cache ps)
  unfolding empty_cache total
  run-empty-IsBounded ps = run-IsBounded empty_cache ps (record {
    unique = tt;
    exact = refl;
    within_bytes = omega arith;
    within_entries = omega arith;
    within_entry = tt;
  })
