-- ===== src/Tunnel/Verified.antt =====
-- What is proved of the download cache of src/tunnel.ts.
use dsh_full_remote.Prelude.{
  ℕ, zero, suc, ◌≤◌, ◌≡◌, refl, sym, ◌∙◌, ap, ◌⊎◌, inl, inr, Bool, true, false, Option, none, some,
  [], ◌∷◌, ◌++◌, arith, leb, ltb, length, all, Bool-cases, Option-cases,
}
use dsh_full_remote.Prelude.Text.{
  Text, codes, text_eq, text_eq_refl, text_eq_sound, is_space, trim_start, trim_end, trim,
}
use dsh_full_remote.Tunnel.Archive.{Bytes}
use dsh_full_remote.Tunnel.Binary.{
  CloudflaredAsset, max_download_bytes, Disk, perform, perform_all, Reading, body_aborted,
  body_failed, body_read, Fetch, fetch_aborted, fetch_failed, responded, Found, cached_bin, refused,
  cache_ops, unpacked, declares_too_much, install, download, is_hex, is_digest,
  cached_binary_is_valid, resolve_binary,
}

hex_space : (c : ℕ) → is_hex c ≡ true → is_space c ≡ false
unfolding is_space
hex_space c h = ground arith

trim_end-line : (s : Text) → all is_hex s ≡ true → trim_end (s ++ codes "\n") ≡ s
unfolding trim_end is_space
trim_end-line [] h = refl
trim_end-line (x ∷ xs) h = ground (arith, hex_space x, trim_end-line xs)

trim-line : (s : Text) → all is_hex s ≡ true → trim (s ++ codes "\n") ≡ s
unfolding trim trim_start trim_end is_space
trim-line [] h = refl
trim-line (x ∷ xs) h = ground (arith, hex_space x, trim_end-line (x ∷ xs) h)

perform_all_done : (n : ℕ) (d : Disk) → perform_all n d [] ≡ d
unfolding perform_all
perform_all_done zero d = refl
perform_all_done (suc n) d = refl

Reading-cases :
    (b : Reading)
    → ((b ≡ body_aborted) ⊎ (b ≡ body_failed)) ⊎ ((payload : Bytes) × (b ≡ body_read payload))
Reading-cases body_aborted = inl (inl refl)
Reading-cases body_failed = inl (inr refl)
Reading-cases (body_read payload) = inr (payload, refl)

-- The environment of src/tunnel.ts.
module _ (sha256 : Bytes → Text) (gunzip : Bytes → Option Bytes) (exceeds : Text → ℕ → Bool) where
  perform_all-bin :
      (working : ℕ) (d : Disk) (binary : Bytes)
      → ((perform_all working d (cache_ops sha256 binary)).bin ≡ d.bin)
        ⊎ ((perform_all working d (cache_ops sha256 binary)).bin ≡ some binary)
  unfolding perform_all perform
  perform_all-bin zero d binary = inl refl
  perform_all-bin (suc zero) d binary = inl refl
  perform_all-bin (suc (suc zero)) d binary = inl refl
  perform_all-bin (suc (suc (suc zero))) d binary = inl refl
  perform_all-bin (suc (suc (suc (suc zero)))) d binary = inl refl
  perform_all-bin (suc (suc (suc (suc (suc zero))))) d binary = inr refl
  perform_all-bin (suc (suc (suc (suc (suc (suc n)))))) d binary =
      inr (ap (λ d. d.bin) (perform_all_done n _))

  -- A binary from a payload within the limit whose digest is the pinned one.
  abbrev pub IsPinned : Option CloudflaredAsset → Option Bytes → Type 0
  IsPinned spec bin =
      (s : CloudflaredAsset) × (payload : Bytes) × (spec ≡ some s)
      × (length payload ≤ max_download_bytes)
      × (sha256 payload ≡ s.sha256)
      × (bin ≡ unpacked gunzip s payload)

  abbrev pub IsSafe : Option CloudflaredAsset → Disk → Disk → Type 0
  IsSafe spec before after = (after.bin ≡ before.bin) ⊎ IsPinned spec after.bin

  install-IsSafe :
      (s : CloudflaredAsset) (payload : Bytes) (working : ℕ) (d : Disk)
      → IsSafe (some s) d (install sha256 gunzip exceeds s payload working d).0
  unfolding install
  install-IsSafe s payload working d = elim (Bool-cases (ltb max_download_bytes (length payload))) [
    | inl e ↦ rw e (inl refl)
    | inr e ↦ elim (Bool-cases (text_eq (sha256 payload) s.sha256)) [
      | inr f ↦ rw (e, f) (inl refl)
      | inl f ↦ elim (Option-cases (unpacked gunzip s payload)) [
        | inl u ↦ rw (e, f, u) (inl refl)
        | inr (binary, u) ↦
            rw (e, f, u)
              (elim (perform_all-bin working d binary) [
                | inl same ↦ inl same
                | inr new ↦ inr (
                  s,
                  payload,
                  refl,
                  ground arith,
                  text_eq_sound (sha256 payload) s.sha256 f,
                  new ∙ sym u,
                )
              ])
      ]
    ]
  ]

  download-IsSafe :
      (s : CloudflaredAsset) (fetch : Fetch) (working : ℕ) (d : Disk)
      → IsSafe (some s) d (download sha256 gunzip exceeds s fetch working d).0
  unfolding download
  download-IsSafe s fetch_aborted working d = inl refl
  download-IsSafe s fetch_failed working d = inl refl
  download-IsSafe s (responded r) working d = elim (Bool-cases r.ok) [
    | inr e ↦ rw e (inl refl)
    | inl e ↦ elim (Bool-cases (declares_too_much sha256 gunzip exceeds r.content_length)) [
      | inl f ↦ rw (e, f) (inl refl)
      | inr f ↦
          rw (e, f)
            (elim r.body
              as (λ x.
                IsSafe (some s) d
                  (elim x as (λ y. Disk × Found) [
                    | body_aborted ↦ (d, refused (codes "aborted"))
                    | body_failed ↦ (d, refused (codes "download-failed"))
                    | body_read payload ↦ install sha256 gunzip exceeds s payload working d
                  ]).0) [
                    | body_aborted ↦ inl refl
                    | body_failed ↦ inl refl
                    | body_read payload ↦ install-IsSafe s payload working d
                  ])
    ]
  ]

  -- What a search for the binary leaves, however its download, its reads and its writes end: the cached
  -- binary is the old one, or it comes from a payload within the limit whose digest is the pinned one
  -- of the platform.
  pub resolve_binary-IsSafe :
      (is_executable : Text → Bool) (configured : Text) (path : Option Text)
      (spec : Option CloudflaredAsset) (fetch : Fetch) (working : ℕ) (d : Disk)
      → IsSafe spec d
          (resolve_binary sha256 gunzip exceeds is_executable configured path spec fetch working
            d).0
  unfolding resolve_binary
  resolve_binary-IsSafe is_executable (c ∷ cs) path spec fetch working d = inl refl
  resolve_binary-IsSafe is_executable [] (some p) spec fetch working d = inl refl
  resolve_binary-IsSafe is_executable [] none none fetch working d =
      elim (Bool-cases (cached_binary_is_valid sha256 d)) [
        | inl e ↦ rw e (inl refl)
        | inr e ↦ rw e (inl refl)
      ]
  resolve_binary-IsSafe is_executable [] none (some s) fetch working d =
      elim (Bool-cases (cached_binary_is_valid sha256 d)) [
        | inl e ↦ rw e (inl refl)
        | inr e ↦ rw e (download-IsSafe s fetch working d)
      ]

  written :
      (binary : Bytes) (working : ℕ) (d : Disk)
      → is_digest (sha256 binary) ≡ true
      → leb 6 working ≡ true
      → cached_binary_is_valid sha256 (perform_all working d (cache_ops sha256 binary)) ≡ true
  unfolding cached_binary_is_valid perform_all perform
  written binary (suc (suc (suc (suc (suc (suc n)))))) d h w =
      ap (cached_binary_is_valid sha256) (perform_all_done n _)
      ∙ rw (trim-line (sha256 binary) (ground (arith, h)))
          (ground (arith, h, text_eq_refl (sha256 binary)))
  written binary _ d h w = ground (arith, w)

  -- A download that gives the cached binary leaves a cache that the next search accepts, if SHA-256 in hex
  -- is 64 lower-case hex digits.
  pub cached_binary_is_valid-download :
      (spec : CloudflaredAsset) (fetch : Fetch) (working : ℕ) (d : Disk)
      → ((b : Bytes) → is_digest (sha256 b) ≡ true)
      → (download sha256 gunzip exceeds spec fetch working d).1 ≡ cached_bin
      → cached_binary_is_valid sha256 (download sha256 gunzip exceeds spec fetch working d).0 ≡ true
  unfolding download install
  cached_binary_is_valid-download spec fetch_aborted working d digests h = ground (arith, h)
  cached_binary_is_valid-download spec fetch_failed working d digests h = ground (arith, h)
  cached_binary_is_valid-download spec (responded r) working d digests h =
      elim (Reading-cases r.body) [
        | inl e ↦ ground (arith, h, e)
        | inr (payload, e) ↦ elim (Option-cases (unpacked gunzip spec payload)) [
          | inl u ↦ ground (arith, h, e, u)
          | inr (binary, u) ↦ ground (arith, h, e, u, written binary working d (digests binary))
        ]
      ]
