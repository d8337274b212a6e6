-- ===== src/Sessions/Find.antt =====
-- What the lookup by cookie finds.
use dsh_full_remote.Prelude.{◌≡◌, true, Option, some, arith, Option-cases, inl, inr}
use dsh_full_remote.Prelude.Text.{Text}
use dsh_full_remote.Prelude.StrMap.{get}
use dsh_full_remote.Security.{safe_equal}
use dsh_full_remote.Sessions.Cookie.{decode_session_cookie}
use dsh_full_remote.Sessions.Record.{Session, Store, find}

module _ (hash_session_secret : Text → Text) where
  -- A cookie finds a record only by that record's own key and by a secret whose hash it holds.
  pub find-split :
      (st : Store) (cookie_value : Option Text) {s : Session}
      → find hash_session_secret st cookie_value ≡ some s
      → (id : Text) × (secret : Text) × (decode_session_cookie cookie_value ≡ some (id, secret))
        × (get id st.sessions ≡ some s)
        × (safe_equal (hash_session_secret secret) s.secret_hash ≡ true)
  unfolding find
  find-split st cookie_value {s} e = elim (Option-cases (decode_session_cookie cookie_value)) [
    | inl d ↦ absurd (ground (arith, d))
    | inr ((id, secret), d) ↦ elim (Option-cases (get id st.sessions)) [
      | inl g ↦ absurd (ground (arith, d, g))
      | inr (t, g) ↦ (id, secret, d, ground (arith, d, g), ground (arith, d, g))
    ]
  ]
