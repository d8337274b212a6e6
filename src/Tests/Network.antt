-- ===== src/Tests/Network.antt =====
-- The allowlist, the tunnel and the compression: the theorems at concrete inputs.
use Prim.Native.Nat.{bit_and}
use dsh_full_remote.Prelude.{
  ℕ, ◌-◌, ◌/◌, ◌^◌, ◌≡◌, refl, ◌↔◌, Bool, true, false, Option, none, some, List, [], ◌∷◌, arith,
  is_some,
}
use dsh_full_remote.Prelude.Text.{Text, codes, text_eq, trim, index_of, split}
use dsh_full_remote.Net.Headers.{one, absent, Headers}
use dsh_full_remote.Net.Hosts.{normalize_remote_ip, is_loopback_host}
use dsh_full_remote.Cidr.Config.{
  undefined, text, integer, flag, entries, RuntimeSecurityConfig, is_cidr,
}
use dsh_full_remote.Cidr.Numbers.{number}
use dsh_full_remote.Cidr.Parse.{v4, parse_ipv4, mask32, cut_slash, compile_cidr_list}
use dsh_full_remote.Cidr.Match.{ip_allowed}
use dsh_full_remote.Cidr.Allowlist.{ip_allowed_iff, ip_allowed-empty_prefix}
use dsh_full_remote.Tunnel.Url.{parse_tunnel_url}
use dsh_full_remote.Tunnel.Manager.{
  tunnel_trusts_forwarding, create_tunnel_manager, is_starting, start, resolved, on_data, stop,
  stop_ends,
}
use dsh_full_remote.Tunnel.Safety.{
  Event, starts, stops, stop_finishes, times_out, resolves, fails_to_resolve, outputs, step,
  run_events, child_list, IsSerial, run_events-live, run_events-settles,
}
use dsh_full_remote.Tunnel.Archive.{
  Bytes, extract_entries, extract_tgz_single_file, extract_tgz_single_file-is_finished, is_finished,
}
use dsh_full_remote.Tunnel.Binary.{
  CloudflaredAsset, Disk, body_read, Fetch, responded, download, cached_binary_is_valid,
  resolve_binary,
}
use dsh_full_remote.Tunnel.Verified.{IsSafe, resolve_binary-IsSafe, cached_binary_is_valid-download}
use dsh_full_remote.Compress.Negotiate.{br}
use dsh_full_remote.Compress.Rewrite.{
  coding_name, read_header, apply_content_encoding_response_headers, UpstreamRequest,
  gzip_decision_from_upstream,
}
use dsh_full_remote.Compress.Once.{apply-gzip_decision_from_upstream}

-- A platform that takes no text for an IPv6 address.
abbrev is_ip : Text → ℕ
is_ip address = 0

-- A configuration of defaults and two networks.
abbrev config : RuntimeSecurityConfig
config = record {
  tls_cert_file = undefined;
  tls_key_file = undefined;
  trust_cloudflare_connecting_ip = flag false;
  trust_forwarded_for = flag false;
  allowed_cidrs = entries (some (codes "10.0.0.0/8") ∷ some (codes "192.168.1.7") ∷ []);
  cookie_name = text (codes "dsh_session");
  max_request_bytes = integer 1048576;
  upstream_timeout_ms = undefined;
  command_timeout_ms = undefined;
  session_max_age_seconds = undefined;
  session_idle_seconds = undefined;
  max_header_size_bytes = undefined;
  headers_timeout_ms = undefined;
  request_timeout_ms = undefined;
  keep_alive_timeout_ms = undefined;
  login_delay_ms = undefined;
  login_max_attempts = undefined;
  login_lockout_seconds = undefined;
  upgrade_max_attempts = undefined;
  upgrade_lockout_seconds = undefined;
  max_sessions = integer 8;
}

ip_allowed_iff_example :
    (ip_allowed is_ip (codes "10.1.2.3") (v4 (bit_and 167772160 (mask32 8)) 8 ∷ []) ≡ true)
    ↔ (167838211 / 2 ^ (32 - 8) ≡ 167772160 / 2 ^ (32 - 8))
unfolding normalize_remote_ip is_loopback_host parse_ipv4 number
ip_allowed_iff_example =
    ip_allowed_iff is_ip (codes "10.1.2.3") 167838211 167772160 8 refl refl refl (omega arith)
      (omega arith) (omega arith)

ip_allowed-empty_prefix_example :
    (is_cidr is_ip (some (codes "10.0.0.1/")) ≡ true)
    × (ip_allowed is_ip (codes "8.8.8.8") (compile_cidr_list is_ip (codes "10.0.0.1/" ∷ [])) ≡ true)
unfolding normalize_remote_ip parse_ipv4 cut_slash trim text_eq index_of split number
ip_allowed-empty_prefix_example =
    ip_allowed-empty_prefix is_ip (codes "10.0.0.1/") (codes "10.0.0.1") (codes "8.8.8.8") 167772161
      134744072 refl refl refl refl refl

-- A start that reaches its public URL, a stop, and a start again.
abbrev history : List Event
history =
    starts
    ∷ resolves true
    ∷ outputs (codes "| https://quick.trycloudflare.com |")
    ∷ stops
    ∷ stop_finishes
    ∷ starts
    ∷ []

history-IsSerial : IsSerial create_tunnel_manager history
unfolding create_tunnel_manager start resolved on_data parse_tunnel_url stop stop_ends
history-IsSerial = (refl, (tt, (tt, (refl, (tt, (refl, tt))))))

run_events-live_example :
    ((run_events create_tunnel_manager history).live
      ≡ child_list (run_events create_tunnel_manager history).child)
    × (tunnel_trusts_forwarding (run_events create_tunnel_manager history).state
        ≡ is_some (run_events create_tunnel_manager history).public_url)
run_events-live_example = run_events-live history history-IsSerial

run_events-settles_example :
    (is_starting
        (step (step (run_events create_tunnel_manager history) (resolves true)) times_out).state
      ≡ false)
    × (is_starting
          (step
            (step (run_events create_tunnel_manager history) (fails_to_resolve none))
            times_out).state
        ≡ false)
unfolding create_tunnel_manager start resolved on_data parse_tunnel_url stop stop_ends
run_events-settles_example = run_events-settles history true none history-IsSerial refl refl

extract_tgz_single_file-is_finished_example :
    (is_finished (extract_tgz_single_file (1 ∷ 2 ∷ 3 ∷ [])) ≡ true)
    × (extract_entries 7 (1 ∷ 2 ∷ 3 ∷ []) ≡ extract_tgz_single_file (1 ∷ 2 ∷ 3 ∷ []))
extract_tgz_single_file-is_finished_example =
    extract_tgz_single_file-is_finished (1 ∷ 2 ∷ 3 ∷ []) 7 (omega arith)

-- A stand-in for SHA-256: 64 times the digit `a`, and an archive that is not compressed.
abbrev digest_of : Bytes → Text
digest_of bytes = codes "aaaaaaaaaaaaaaaaaaaaaaaaaaaaaaaaaaaaaaaaaaaaaaaaaaaaaaaaaaaaaaaa"

abbrev gunzip : Bytes → Option Bytes
gunzip payload = some payload

abbrev exceeds : Text → ℕ → Bool
exceeds declared n = false

abbrev asset : CloudflaredAsset
asset = record { asset = codes "cloudflared"; sha256 = digest_of []; tgz = false }

abbrev empty_disk : Disk
empty_disk = record {
  bin = none;
  runs = false;
  digest = none;
  tmp = none;
  tmp_runs = false;
  digest_tmp = none;
}

abbrev fetched : Fetch
fetched = responded (record { ok = true; content_length = none; body = body_read (1 ∷ 2 ∷ []) })

resolve_binary-IsSafe_example :
    IsSafe digest_of gunzip exceeds
      (some asset)
      empty_disk
      (resolve_binary digest_of gunzip exceeds
        (λ p. false)
        []
        none
        (some asset)
        fetched
        5
        empty_disk).0
resolve_binary-IsSafe_example =
    resolve_binary-IsSafe digest_of gunzip exceeds (λ p. false) [] none (some asset) fetched 5
      empty_disk

cached_binary_is_valid-download_example :
    cached_binary_is_valid digest_of
      (download digest_of gunzip exceeds asset fetched 6 empty_disk).0
    ≡ true
unfolding download text_eq
cached_binary_is_valid-download_example =
    cached_binary_is_valid-download digest_of gunzip exceeds asset fetched 6 empty_disk (λ b. refl)
      refl

abbrev accepted : List Text
accepted = codes "gzip;q=0.5, br" ∷ codes "gzip;q=0" ∷ []

abbrev page : Headers
page = (codes "Content-Type", one (codes "text/html")) ∷ (codes "ETag", one (codes "\"v1\"")) ∷ []

abbrev upstream_request : UpstreamRequest
upstream_request = record {
  method = none;
  accept_encoding = accepted;
  cache_control = absent;
  upgrade = absent;
}

apply-gzip_decision_from_upstream_example :
    (read_header (codes "content-encoding") (apply_content_encoding_response_headers br page)
      ≡ one (coding_name br))
    × (read_header (codes "content-length") (apply_content_encoding_response_headers br page)
        ≡ absent)
    × (gzip_decision_from_upstream upstream_request
          (some 200)
          (apply_content_encoding_response_headers br page)
          true
        ≡ false)
apply-gzip_decision_from_upstream_example =
    apply-gzip_decision_from_upstream br page upstream_request (some 200) true
