-- ===== src/Cidr/Config.antt =====
-- src/config-validation.ts: `validateRuntimeConfig`. A value of the configuration is one of the kinds
-- that the function tells apart; a number that is negative or no integer is `other`.
use dsh_full_remote.Prelude.{
  ℕ, ◌*◌, Bool, true, false, not, ◌&&◌, ◌||◌, Option, none, some, List, [], ◌∷◌, ltb, leb, all,
  if◌then◌else◌,
}
use dsh_full_remote.Prelude.Text.{Text, codes, text_eq, includes, trim}
use dsh_full_remote.Cidr.Parse.{parse_cidr}

pub data Value : Type 0 where
  undefined : Value
  text : Text → Value
  integer : ℕ → Value
  flag : Bool → Value
  entries : List (Option Text) → Value
  other : Value

-- `RuntimeSecurityConfig`. An entry of an array is `none` where it is no string.
pub record RuntimeSecurityConfig : Type 0 where
  pub tls_cert_file : Value
  pub tls_key_file : Value
  pub trust_cloudflare_connecting_ip : Value
  pub trust_forwarded_for : Value
  pub allowed_cidrs : Value
  pub cookie_name : Value
  pub max_request_bytes : Value
  pub upstream_timeout_ms : Value
  pub command_timeout_ms : Value
  pub session_max_age_seconds : Value
  pub session_idle_seconds : Value
  pub max_header_size_bytes : Value
  pub headers_timeout_ms : Value
  pub request_timeout_ms : Value
  pub keep_alive_timeout_ms : Value
  pub login_delay_ms : Value
  pub login_max_attempts : Value
  pub login_lockout_seconds : Value
  pub upgrade_max_attempts : Value
  pub upgrade_lockout_seconds : Value
  pub max_sessions : Value

-- What is thrown.
pub data ConfigError : Type 0 where
  tls_files : ConfigError
  cloudflare_trust : ConfigError
  integer_bounds : (min max : ℕ) → ConfigError
  cookie_token : ConfigError
  cidr_entries : ConfigError

-- `typeof value === 'string' && value.trim() !== ''`
unfoldable pub has_text : Value → Bool
has_text (text t) = not (text_eq (trim t) [])
has_text _ = false

-- `value === true`
unfoldable pub is_true : Value → Bool
is_true (flag b) = b
is_true _ = false

-- `hasCert !== hasKey`
unfoldable pub differs : Bool → Bool → Bool
differs true b = not b
differs false b = b

-- A bound of `integerBounds` with the value under its key.
pub record Bound : Type 0 where
  pub value : Value
  pub min : ℕ
  pub max : ℕ

abbrev pub bound : Value → ℕ → ℕ → Bound
bound value min max = record { value = value; min = min; max = max }

-- `integerBounds`
unfoldable pub integer_bounds_of : RuntimeSecurityConfig → List Bound
integer_bounds_of c =
    bound c.max_request_bytes 1024 (256 * 1024 * 1024)
    ∷ bound c.upstream_timeout_ms 1000 (10 * 60 * 1000)
    ∷ bound c.command_timeout_ms 1000 (24 * 60 * 60 * 1000)
    ∷ bound c.session_max_age_seconds 60 (365 * 24 * 3600)
    ∷ bound c.session_idle_seconds 0 (365 * 24 * 3600)
    ∷ bound c.max_header_size_bytes 1024 (16 * 1024 * 1024)
    ∷ bound c.headers_timeout_ms 1000 (10 * 60 * 1000)
    ∷ bound c.request_timeout_ms 1000 (24 * 60 * 60 * 1000)
    ∷ bound c.keep_alive_timeout_ms 1000 (10 * 60 * 1000)
    ∷ bound c.login_delay_ms 0 10000
    ∷ bound c.login_max_attempts 1 10000
    ∷ bound c.login_lockout_seconds 10 (24 * 60 * 60)
    ∷ bound c.upgrade_max_attempts 1 10000
    ∷ bound c.upgrade_lockout_seconds 10 (24 * 60 * 60)
    ∷ bound c.max_sessions 1 64
    ∷ []

-- The test of one bound; an undefined value is passed over.
unfoldable pub within : Value → ℕ → ℕ → Bool
within undefined min max = true
within (integer n) min max = not (ltb n min || ltb max n)
within _ min max = false

-- The loop over the bounds: the first that fails.
unfoldable pub first_bound : List Bound → Option ConfigError
unfolding within
first_bound [] = none
first_bound (b ∷ rest) =
    let later = first_bound rest in
    if within b.value b.min b.max then later else some (integer_bounds b.min b.max)

-- A character of `/^[!#$%&'*+.^_`|~0-9A-Za-z-]+$/`
unfoldable pub is_token_char : ℕ → Bool
unfolding includes
is_token_char c =
    (leb b'0' c && leb c b'9')
    || (leb b'A' c && leb c b'Z')
    || (leb b'a' c && leb c b'z')
    || includes c (codes "!#$%&'*+.^_`|~-")

-- The test of the cookie's name.
unfoldable pub cookie_ok : Value → Bool
unfolding is_token_char
cookie_ok undefined = true
cookie_ok (text t) = not (text_eq t []) && all is_token_char t
cookie_ok _ = false

-- `Array.isArray(config.allowedCidrs) ? config.allowedCidrs : []`
unfoldable pub raw_cidrs : Value → List (Option Text)
raw_cidrs (entries list) = list
raw_cidrs _ = []

module _ (is_ip : Text → ℕ) where
  -- An entry that the filter of invalid ones passes over.
  unfoldable pub is_cidr : Option Text → Bool
  is_cidr none = false
  is_cidr (some entry) = elim (parse_cidr is_ip entry) [ none ↦ false | some rule ↦ true ]

  -- The end of `validateRuntimeConfig`, behind the bounds.
  unfoldable pub validate_texts : RuntimeSecurityConfig → Option ConfigError
  unfolding cookie_ok raw_cidrs is_cidr
  validate_texts c =
      if not (cookie_ok c.cookie_name)
      then some cookie_token
      else if all is_cidr (raw_cidrs c.allowed_cidrs)
      then none
      else some cidr_entries

  -- `validateRuntimeConfig`
  unfoldable pub validate_runtime_config : RuntimeSecurityConfig → Option ConfigError
  unfolding has_text is_true differs validate_texts
  validate_runtime_config c =
      if differs (has_text c.tls_cert_file) (has_text c.tls_key_file)
      then some tls_files
      else if is_true c.trust_cloudflare_connecting_ip && not (is_true c.trust_forwarded_for)
      then some cloudflare_trust
      else elim (first_bound (integer_bounds_of c)) [ some e ↦ some e | none ↦ validate_texts c ]
