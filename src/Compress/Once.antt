-- ===== src/Compress/Once.antt =====
-- What is proved of the headers that src/proxy-compress.ts rewrites: no response is compressed twice.
use dsh_full_remote.Prelude.{
  ℕ, ◌≡◌, refl, ap, ◌∙◌, Bool, true, false, Option, none, some, arith, get_or,
}
use dsh_full_remote.Prelude.Text.{Text, codes, text_eq, split, trim, to_lower}
use dsh_full_remote.Prelude.StrMap.{set, get-set_self}
use dsh_full_remote.Net.Headers.{HeaderValue, one, absent, Headers}
use dsh_full_remote.Compress.Negotiate.{ContentEncoding, br, gzip}
use dsh_full_remote.Compress.Body.{
  already_encoded, GzipDecisionInput, should_compress_response, should_gzip_response,
  joined_or_first, first_header,
}
use dsh_full_remote.Compress.Rewrite.{
  header_key, value_at, read_header, delete_key, delete_header, weaken_etag, delete_digests,
  merge_accept_encoding_vary, coding_name, apply_content_encoding_response_headers, UpstreamRequest,
  decision_input, gzip_decision_from_upstream,
}
use dsh_full_remote.Compress.Present.{
  header_key-delete_key, header_key-set_new, IsAt, set-IsAt, delete_key-IsAt, weaken_etag-IsAt,
  merge_accept_encoding_vary-IsAt,
}

-- The last two steps.
finish-IsAt :
    (name : Text) (w : Option HeaderValue) (h : Headers)
    → text_eq (to_lower name) name ≡ true
    → text_eq (codes "etag") name ≡ false
    → text_eq (codes "vary") name ≡ false
    → IsAt name w h
    → IsAt name w (merge_accept_encoding_vary (weaken_etag h))
finish-IsAt name w h l d e a =
    merge_accept_encoding_vary-IsAt name w (weaken_etag h) l e (weaken_etag-IsAt name w h l d a)

apply-encoding :
    (encoding : ContentEncoding) (h : Headers)
    → IsAt
        (codes "content-encoding")
        (some (one (coding_name encoding)))
        (apply_content_encoding_response_headers encoding h)
unfolding apply_content_encoding_response_headers delete_digests delete_header to_lower text_eq
apply-encoding encoding h =
    let name = codes "content-encoding" in
    let w : Option HeaderValue = some (one (coding_name encoding)) in
    let clean = delete_key name (delete_key (codes "content-length") h) in
    let start = set name (one (coding_name encoding)) clean in
    let md5 = delete_key (codes "content-md5") start in
    let digest = delete_key (codes "digest") md5 in
    finish-IsAt name w (delete_key (codes "content-digest") digest) refl refl refl (
      delete_key-IsAt name (codes "content-digest") w digest refl refl (
        delete_key-IsAt name (codes "digest") w md5 refl refl (
          delete_key-IsAt name (codes "content-md5") w start refl refl (
            header_key-set_new name (one (coding_name encoding)) clean refl
                (header_key-delete_key name (delete_key (codes "content-length") h)),
            get-set_self name (one (coding_name encoding)) clean,
          ))))

apply-length :
    (encoding : ContentEncoding) (h : Headers)
    → header_key (codes "content-length") (apply_content_encoding_response_headers encoding h)
      ≡ none
unfolding apply_content_encoding_response_headers delete_digests delete_header to_lower text_eq
apply-length encoding h =
    let name = codes "content-length" in
    let w : Option HeaderValue = none in
    let start = delete_key name h in
    let clean = delete_key (codes "content-encoding") start in
    let coded = set (codes "content-encoding") (one (coding_name encoding)) clean in
    let md5 = delete_key (codes "content-md5") coded in
    let digest = delete_key (codes "digest") md5 in
    finish-IsAt name w (delete_key (codes "content-digest") digest) refl refl refl (
      delete_key-IsAt name (codes "content-digest") w digest refl refl (
        delete_key-IsAt name (codes "digest") w md5 refl refl (
          delete_key-IsAt name (codes "content-md5") w coded refl refl (
            set-IsAt name (codes "content-encoding") (one (coding_name encoding)) w clean refl refl
              (delete_key-IsAt name (codes "content-encoding") w start refl refl
                (header_key-delete_key name h))))))

is_encoded : (encoding : ContentEncoding) → already_encoded (one (coding_name encoding)) ≡ true
unfolding already_encoded first_header text_eq split trim to_lower joined_or_first
is_encoded br = refl
is_encoded gzip = refl

not_again :
    (input : GzipDecisionInput)
    → already_encoded input.content_encoding ≡ true
    → should_gzip_response input ≡ false
unfolding should_gzip_response should_compress_response
not_again input e = ground (arith, e)

read_header-IsAt :
    (name : Text) (w : Option HeaderValue) (h : Headers)
    → to_lower name ≡ name
    → IsAt name w h
    → read_header name h ≡ get_or w absent
unfolding read_header
read_header-IsAt name none h l a =
    ap (λ n. value_at (header_key n h) h) l ∙ ap (λ k. value_at k h) a
read_header-IsAt name (some v) h l (a, b) =
    ap (λ n. value_at (header_key n h) h) l ∙ ap (λ k. value_at k h) a ∙ ap (λ o. get_or o absent) b

-- A response whose body was compressed carries the coding as its content coding and no length, and it is
-- not compressed again, whatever its other headers and the request.
pub apply-gzip_decision_from_upstream :
    (encoding : ContentEncoding) (h : Headers) (req : UpstreamRequest) (status : Option ℕ)
    (enabled : Bool)
    → (read_header (codes "content-encoding") (apply_content_encoding_response_headers encoding h)
        ≡ one (coding_name encoding))
      × (read_header (codes "content-length") (apply_content_encoding_response_headers encoding h)
          ≡ absent)
      × (gzip_decision_from_upstream req status
            (apply_content_encoding_response_headers encoding h)
            enabled
          ≡ false)
unfolding to_lower gzip_decision_from_upstream
apply-gzip_decision_from_upstream encoding h req status enabled =
    let out = apply_content_encoding_response_headers encoding h in
    let coded =
      read_header-IsAt (codes "content-encoding") (some (one (coding_name encoding))) out refl
        (apply-encoding encoding h) in
    (
      coded,
      read_header-IsAt (codes "content-length") none out refl (apply-length encoding h),
      not_again (decision_input req status out enabled) (rw coded (is_encoded encoding)),
    )
