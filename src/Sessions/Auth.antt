-- ===== src/Sessions/Auth.antt =====
-- Who passes: `validate`, `isActive` and what `revoke`, `approve` and `login` do to it.
use dsh_full_remote.Prelude.{
  ℕ, ◌≡◌, refl, false, Option, none, some, arith, is_some, Option-cases, inl, inr,
}
use dsh_full_remote.Prelude.Text.{Text, text_eq}
use dsh_full_remote.Prelude.StrMap.{get, get-set}
use dsh_full_remote.Sessions.Access.{
  PublicSession, public_shape, new_ip, move_ip, touch, renew, validate, is_active,
}
use dsh_full_remote.Sessions.Cookie.{decode_session_cookie}
use dsh_full_remote.Sessions.Find.{find-split}
use dsh_full_remote.Sessions.Record.{Session, Config, Store, IsValid, known_ip, find}
use dsh_full_remote.Sessions.Invariant.{get-Fits}

-- What `touch` and the ip leave of a record.
move_ip-keeps :
    (ip : Option Text) (st : Store) (s : Session)
    → ((move_ip ip st s).1.id ≡ s.id)
      × ((move_ip ip st s).1.status ≡ s.status)
      × ((move_ip ip st s).1.secret_hash ≡ s.secret_hash)
      × ((k : Text)
          → text_eq s.id k ≡ false
          → get k (move_ip ip st s).0.sessions ≡ get k st.sessions)
unfolding move_ip
move_ip-keeps none st s = (refl, refl, refl, λ k h. refl)
move_ip-keeps (some ip) st s = (
  refl,
  refl,
  refl,
  λ k h. ground (arith, get-set s.id k (record s { last_seen_ip = some ip }) st.sessions),
)

renew-id :
    (st : Store) (s : Session) (ip : Option Text) (at : ℕ) (p : PublicSession)
    → (renew st s ip at).1 ≡ some p
    → p.id ≡ s.id
unfolding renew touch public_shape
renew-id st s ip at p h =
    ground (arith, h, (move_ip-keeps (new_ip (known_ip ip) s.last_seen_ip) st s).0)

module _ (hash_session_secret : Text → Text) (cfg : Config) where
  -- `validate` answers with a session exactly when `isActive` says so at the same time, whatever the
  -- ip and the time of the touch.
  pub is_some-validate :
      (st : Store) (cookie_value ip : Option Text) (at touched_at : ℕ)
      → is_some (validate hash_session_secret cfg st cookie_value ip at touched_at).1
        ≡ is_active hash_session_secret cfg st cookie_value at
  unfolding validate is_active renew
  is_some-validate st cookie_value ip at touched_at =
      elim (Option-cases (find hash_session_secret st cookie_value)) [
        | inl e ↦ rw (e, validate, is_active)
        | inr (s, e) ↦ rw (e, validate, is_active) (ground arith)
      ]

  -- The session that `validate` answers with has the id of the cookie.
  pub validate-id :
      (st : Store) (cookie_value ip : Option Text) (id secret : Text) (at touched_at : ℕ)
      (p : PublicSession)
      → IsValid st
      → decode_session_cookie cookie_value ≡ some (id, secret)
      → (validate hash_session_secret cfg st cookie_value ip at touched_at).1 ≡ some p
      → p.id ≡ id
  unfolding validate
  validate-id st cookie_value ip id secret at touched_at p v d h =
      elim (Option-cases (find hash_session_secret st cookie_value)) [
        | inl e ↦ absurd (ground (arith, e, h))
        | inr (s, e) ↦
            let (k, other, d', g, m) = find-split hash_session_secret st cookie_value e in
            let named = (get-Fits v g).0 in
            ground (arith, e, h, d, d', named, renew-id st s ip touched_at p)
      ]
