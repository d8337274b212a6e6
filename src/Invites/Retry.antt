-- ===== src/Invites/Retry.antt =====
-- A second use of a code: the retry of the client that used it, or the end of the code.
use dsh_full_remote.Prelude.{
  ℕ, ◌-◌, ◌≤◌, ◌<◌, ◌≡◌, ◌≢◌, true, false, Option, none, some, arith, leb, [], ◌∷◌, Bool-cases, inl,
  inr, ◌⊎◌,
}
use dsh_full_remote.Prelude.Text.{Text, text_eq_iff, text_eq_refl}
use dsh_full_remote.Prelude.StrMap.{get, set, get-delete_self, get-set_self}
use dsh_full_remote.Invites.Codes.{
  Invite, Options, Codes, refused, first, retry, consume, known_ip, same_ip, bind_session,
}

-- A live code that has been used answers a client again exactly when that client's address is known,
-- is the one that used it, and the grace has not passed: with the bound session, and the store as it
-- was. Any other use is refused and forgets the code.
pub consume_used :
    (o : Options) (m : Codes) (code : Text) (e : Invite) (ip : Option Text) (now used_at : ℕ)
    → code ≢ []
    → get code m ≡ some e
    → now < e.expires_at
    → e.used_at ≡ some used_at
    → ((same_ip (known_ip ip) e.used_ip ≡ true)
        × (now - used_at ≤ o.retry_grace_ms)
        × (consume o m code ip now ≡ (m, retry e.session_id)))
      ⊎ (((same_ip (known_ip ip) e.used_ip ≡ false) ⊎ (o.retry_grace_ms < now - used_at))
          × ((consume o m code ip now).1 ≡ refused)
          × (get code (consume o m code ip now).0 ≡ none))
unfolding consume
consume_used o m code e ip now used_at named g live used =
    elim (Bool-cases (same_ip (known_ip ip) e.used_ip)) [
      | inl s ↦ elim (Bool-cases (leb (now - used_at) o.retry_grace_ms)) [
        | inl t ↦ inl (s, ground (arith, t), ground (arith, text_eq_iff code [], s, t))
        | inr t ↦ inr (
          inr (ground (arith, t)),
          ground (arith, text_eq_iff code [], s, t),
          ground (arith, text_eq_iff code [], s, t, get-delete_self code m),
        )
      ]
      | inr s ↦ inr (
        inl s,
        ground (arith, text_eq_iff code [], s),
        ground (arith, text_eq_iff code [], s, get-delete_self code m),
      )
    ]

-- The first use of a live code, then the login's `bindSession`: a retry by the same known client
-- within the grace gets that session back.
pub retry_gets_session :
    (o : Options) (m : Codes) (code session_id : Text) (e : Invite) (c : ℕ) (ip : Text)
    (now later : ℕ)
    → code ≢ []
    → get code m ≡ some e
    → e.used_at ≡ none
    → now < e.expires_at
    → later < e.expires_at
    → later - now ≤ o.retry_grace_ms
    → let (used, answer) = consume o m code (some (c ∷ ip)) now in
      (answer ≡ first)
      × ((consume o (bind_session used code session_id) code (some (c ∷ ip)) later).1
          ≡ retry (some session_id))
unfolding consume bind_session
retry_gets_session o m code session_id e c ip now later named g fresh live live' grace =
    let used : Invite = record e { used_at = some now; used_ip = some (c ∷ ip) } in
    let bound : Invite = record used { session_id = some session_id } in
    ground (
      arith,
      text_eq_iff code [],
      text_eq_refl (c ∷ ip),
      get-set_self code used m,
      get-set_self code bound (set code used m),
    )
