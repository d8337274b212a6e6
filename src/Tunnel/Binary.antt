-- ===== src/Tunnel/Binary.antt =====
-- src/tunnel.ts: where the binary comes from. The file system, the network, SHA-256, gunzip and path
-- joining are parameters or outcomes that are given; the cache directory is a small disk.
use dsh_full_remote.Prelude.{
  ℕ, zero, suc, ◌*◌, Bool, true, false, not, ◌&&◌, ◌||◌, Option, none, some, List, [], ◌∷◌, ◌++◌,
  ◌==◌, leb, ltb, length, all, if◌then◌else◌,
}
use dsh_full_remote.Prelude.Text.{Text, codes, text_eq, split, trim}
use dsh_full_remote.Tunnel.Archive.{Bytes, payload_of, extract_tgz_single_file}

-- `CloudflaredAsset`
pub record CloudflaredAsset : Type 0 where
  pub asset : Text
  pub sha256 : Text
  pub tgz : Bool

-- `MAX_DOWNLOAD_BYTES`
abbrev pub max_download_bytes : ℕ
max_download_bytes = 128 * 1024 * 1024

-- The first candidate of a directory that is executable.
abbrev pub first_executable : (Text → Bool) → (Text → Text) → List Text → Option Text
first_executable is_executable path [] = none
first_executable is_executable path (c ∷ cs) =
    if is_executable (path c) then some (path c) else first_executable is_executable path cs

abbrev pub names_on : Bool → Text → List Text
names_on windows name = if windows then (name ++ codes ".exe") ∷ name ∷ [] else name ∷ []

abbrev pub find_in : (Text → Bool) → (Text → Text → Text) → List Text → List Text → Option Text
find_in is_executable join names [] = none
find_in is_executable join names ([] ∷ dirs) = find_in is_executable join names dirs
find_in is_executable join names ((x ∷ xs) ∷ dirs) =
    let rest = find_in is_executable join names dirs in
    elim (first_executable is_executable (join (x ∷ xs)) names) [
      | none ↦ rest
      | some full ↦ some full
    ]

-- `findOnPath`, with `process.env.PATH`, the path delimiter and the platform given.
unfoldable pub find_on_path :
    (Text → Bool) → (Text → Text → Text) → Bool → ℕ → Option Text → Text → Option Text
find_on_path is_executable join windows delimiter path_env name =
    find_in is_executable join (names_on windows name)
      (split delimiter (elim path_env [ none ↦ [] | some text ↦ text ]))

-- The cache directory: the binary and whether it is executable, its digest, and the temporary files.
pub record Disk : Type 0 where
  pub bin : Option Bytes
  pub runs : Bool
  pub digest : Option Text
  pub tmp : Option Bytes
  pub tmp_runs : Bool
  pub digest_tmp : Option Text

pub data Op : Type 0 where
  mkdir chmod_tmp rename_tmp rename_digest : Op
  write_tmp : Bytes → Op
  write_digest : Text → Op

unfoldable pub perform : Disk → Op → Disk
perform d mkdir = d
perform d (write_tmp binary) = record d { tmp = some binary }
perform d (write_digest text) = record d { digest_tmp = some text }
perform d chmod_tmp = record d { tmp_runs = true }
perform d rename_tmp = record d { bin = d.tmp; runs = d.tmp_runs; tmp = none; tmp_runs = false }
perform d rename_digest = record d { digest = d.digest_tmp; digest_tmp = none }

-- The operations, of which `working` work before one throws.
unfoldable pub perform_all : ℕ → Disk → List Op → Disk
unfolding perform
perform_all zero d ops = d
perform_all (suc n) d [] = d
perform_all (suc n) d (op ∷ ops) = perform_all n (perform d op) ops

-- How `fetch` and the reading of the body end.
pub data Reading : Type 0 where
  body_aborted body_failed : Reading
  body_read : Bytes → Reading

pub record Response : Type 0 where
  pub ok : Bool
  pub content_length : Option Text
  pub body : Reading

pub data Fetch : Type 0 where
  fetch_aborted fetch_failed : Fetch
  responded : Response → Fetch

-- How the search for the binary ends: a `TunnelError` with its token, or another error.
pub data Found : Type 0 where
  found : Text → Found
  cached_bin : Found
  refused : Text → Found
  threw : Found

abbrev pub is_hex : ℕ → Bool
is_hex c = (leb b'a' c && leb c b'f') || (leb b'0' c && leb c b'9')

-- `/^[a-f0-9]{64}$/.test(expected)`
abbrev pub is_digest : Text → Bool
is_digest expected = length expected == 64 && all is_hex expected

module _ (sha256 : Bytes → Text) where
  -- The part of `download` that writes the cache.
  abbrev pub cache_ops : Bytes → List Op
  cache_ops binary =
      mkdir
      ∷ write_tmp binary
      ∷ write_digest (sha256 binary ++ codes "\n")
      ∷ chmod_tmp
      ∷ rename_tmp
      ∷ rename_digest
      ∷ []

  -- `cachedBinaryIsValid`
  unfoldable pub cached_binary_is_valid : Disk → Bool
  cached_binary_is_valid d = elim d.bin [
    | none ↦ false
    | some binary ↦ elim d.digest [
      | none ↦ false
      | some text ↦ d.runs && is_digest (trim text) && text_eq (sha256 binary) (trim text)
    ]
  ]

-- The binary in a payload.
abbrev pub unpacked : (Bytes → Option Bytes) → CloudflaredAsset → Bytes → Option Bytes
unpacked gunzip spec payload =
    if spec.tgz
    then elim (gunzip payload) [ none ↦ none | some tar ↦ payload_of (extract_tgz_single_file tar) ]
    else some payload

-- The environment: `createHash('sha256')` in hex, `gunzipSync` and `Number(text) > n`.
module _ (sha256 : Bytes → Text) (gunzip : Bytes → Option Bytes) (exceeds : Text → ℕ → Bool) where
  abbrev pub declares_too_much : Option Text → Bool
  declares_too_much none = false
  declares_too_much (some text) = exceeds text max_download_bytes

  -- `download` from the payload on.
  unfoldable pub install : CloudflaredAsset → Bytes → ℕ → Disk → Disk × Found
  unfolding perform_all
  install spec payload working d =
      if ltb max_download_bytes (length payload)
      then (d, refused (codes "download-too-large"))
      else if not (text_eq (sha256 payload) spec.sha256)
      then (d, refused (codes "integrity-failed"))
      else elim (unpacked gunzip spec payload) [
        | none ↦ (d, threw)
        | some binary ↦ (
          perform_all working d (cache_ops sha256 binary),
          if leb (length (cache_ops sha256 binary)) working then cached_bin else threw,
        )
      ]

  -- `download`
  unfoldable pub download : CloudflaredAsset → Fetch → ℕ → Disk → Disk × Found
  unfolding install
  download spec fetch_aborted working d = (d, refused (codes "aborted"))
  download spec fetch_failed working d = (d, refused (codes "download-failed"))
  download spec (responded r) working d =
      if not r.ok
      then (d, refused (codes "download-failed"))
      else if declares_too_much r.content_length
      then (d, refused (codes "download-too-large"))
      else elim r.body [
        | body_aborted ↦ (d, refused (codes "aborted"))
        | body_failed ↦ (d, refused (codes "download-failed"))
        | body_read payload ↦ install spec payload working d
      ]

  -- `resolveBinary`: `path` is what `findOnPath` gives and `spec` the asset of the platform.
  unfoldable pub resolve_binary :
      (Text → Bool) → Text → Option Text → Option CloudflaredAsset → Fetch → ℕ → Disk → Disk × Found
  unfolding download cached_binary_is_valid
  resolve_binary is_executable (c ∷ cs) path spec fetch working d = (
    d,
    if is_executable (c ∷ cs) then found (c ∷ cs) else refused (codes "configured-path-invalid"),
  )
  resolve_binary is_executable [] path spec fetch working d = elim path [
    | some p ↦ (d, found p)
    | none ↦ if cached_binary_is_valid sha256 d then (d, cached_bin) else elim spec [
      | none ↦ (d, refused (codes "unsupported-platform"))
      | some s ↦ download s fetch working d
    ]
  ]
