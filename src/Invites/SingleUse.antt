-- ===== src/Invites/SingleUse.antt =====
-- A code signs in once.
use dsh_full_remote.Prelude.{
  ℕ, ◌+◌, ◌-◌, ◌≤◌, ◌≢◌, Bool, true, false, ◌&&◌, Option, none, some, List, [], ◌∷◌, arith, ltb,
  leb, if◌then◌else◌, if_both, All, Option-cases, inl, inr,
}
use dsh_full_remote.Prelude.Text.{Text, text_eq, text_eq_iff}
use dsh_full_remote.Prelude.StrMap.{
  get, delete_where, size, Unique, set-Unique, delete-Unique, delete_where-Unique, get-delete_where,
  get-set, get-delete,
}
use dsh_full_remote.Invites.Codes.{
  Invite, Options, Codes, Consume, refused, first, retry, drop_oldest, prune, issue, consume,
  bind_session, clear_codes, size_codes, known_ip, same_ip,
}

pub data Op : Type 0 where
  issues : (code : Text) (now at : ℕ) → Op
  consumes : (code : Text) (ip : Option Text) (now : ℕ) → Op
  binds : (code session_id : Text) → Op
  clears : Op
  sizes : (now : ℕ) → Op

unfoldable pub step : Options → Codes → Op → Codes
step o m (issues code now at) = issue o m code now at
step o m (consumes code ip now) = (consume o m code ip now).0
step o m (binds code session_id) = bind_session m code session_id
step o m clears = clear_codes m
step o m (sizes now) = (size_codes o m now).0

abbrev pub is_first : Consume → Bool
is_first first = true
is_first refused = false
is_first (retry s) = false

-- 1 for an operation that signs in with the code for the first time.
unfoldable pub first_use : Options → Codes → Text → Op → ℕ
first_use o m code (consumes c ip now) =
    if text_eq c code && is_first (consume o m c ip now).1 then 1 else 0
first_use o m code _ = 0

unfoldable pub first_uses : Options → Codes → Text → List Op → ℕ
first_uses o m code [] = 0
first_uses o m code (p ∷ ps) = first_use o m code p + first_uses o (step o m p) code ps

-- The operation does not issue this very code again.
abbrev pub OtherCode : Text → Op → Type 0
OtherCode code (issues c now at) = c ≢ code
OtherCode code _ = Unit

-- Uses that are left: one for a code that was issued and not used, else none.
abbrev uses_left : Option Invite → ℕ
uses_left none = 0
uses_left (some e) = elim e.used_at [ none ↦ 1 | some _ ↦ 0 ]

drop_oldest-left :
    (n : ℕ) (code : Text) (m : Codes)
    → Unique m
    → uses_left (get code (drop_oldest n m)) ≤ uses_left (get code m)
unfolding drop_oldest get
drop_oldest-left n code [] u = omega arith
drop_oldest-left n code ((k, e) ∷ m) u =
    ground (arith, text_eq_iff k code, u.0, drop_oldest-left n code m u.1)

drop_oldest-Unique : (n : ℕ) (m : Codes) → Unique m → Unique (drop_oldest n m)
unfolding drop_oldest
drop_oldest-Unique n [] u = tt
drop_oldest-Unique n ((k, e) ∷ m) u =
    if_both Unique (ltb n (size ((k, e) ∷ m))) (drop_oldest-Unique n m u.1) u

prune-left :
    (o : Options) (m : Codes) (code : Text) (now : ℕ)
    → Unique m
    → uses_left (get code (prune o m now)) ≤ uses_left (get code m)
unfolding prune
prune-left o m code now u =
    let p = λ (e : Invite). leb e.expires_at now in
    ground (
      arith,
      drop_oldest-left o.max_pending code (delete_where p m) (delete_where-Unique p m u),
      get-delete_where p code m u,
    )

prune-Unique : (o : Options) (m : Codes) (now : ℕ) → Unique m → Unique (prune o m now)
unfolding prune
prune-Unique o m now u =
    drop_oldest-Unique o.max_pending _ (delete_where-Unique (λ e. leb e.expires_at now) m u)

consume-Unique :
    (o : Options) (m : Codes) (code : Text) (ip : Option Text) (now : ℕ)
    → Unique m
    → Unique (consume o m code ip now).0
unfolding consume
consume-Unique o m code ip now u =
    if_both (λ (r : Codes × Consume). Unique r.0) (text_eq code []) u
      (elim (Option-cases (get code m)) [
        | inl e ↦ rw e u
        | inr (v, e) ↦ rw e (
            if_both (λ (r : Codes × Consume). Unique r.0) (leb v.expires_at now)
              (delete-Unique code m u)
              (elim (Option-cases v.used_at) [
                | inl f ↦ rw f (set-Unique code _ m u)
                | inr (t, f) ↦ rw f (
                    if_both (λ (r : Codes × Consume). Unique r.0)
                      (same_ip (known_ip ip) v.used_ip && leb (now - t) o.retry_grace_ms) u
                      (delete-Unique code m u))
              ]))
      ])

bind_session-Unique :
    (m : Codes) (code session_id : Text) → Unique m → Unique (bind_session m code session_id)
unfolding bind_session
bind_session-Unique m code session_id u = elim (Option-cases (get code m)) [
  | inl e ↦ rw (e, bind_session) u
  | inr (v, e) ↦ elim (Option-cases v.used_at) [
    | inl f ↦ rw (e, bind_session, f) u
    | inr (t, f) ↦ rw (e, bind_session, f) (set-Unique code _ m u)
  ]
]

step-Unique : (o : Options) (m : Codes) (p : Op) → Unique m → Unique (step o m p)
unfolding step issue clear_codes size_codes
step-Unique o m (issues code now at) u = set-Unique code _ _ (prune-Unique o m now u)
step-Unique o m (consumes code ip now) u = consume-Unique o m code ip now u
step-Unique o m (binds code session_id) u = bind_session-Unique m code session_id u
step-Unique o m clears u = tt
step-Unique o m (sizes now) u = prune-Unique o m now u

consume-left :
    (o : Options) (m : Codes) (code c : Text) (ip : Option Text) (now : ℕ)
    → (if text_eq c code && is_first (consume o m c ip now).1 then 1 else 0)
        + uses_left (get code (consume o m c ip now).0)
      ≤ uses_left (get code m)
unfolding consume
consume-left o m code c ip now = elim (Option-cases (get c m)) [
  | inl e ↦ ground (arith, e, text_eq_iff c code)
  | inr (v, e) ↦ ground (
    arith,
    e,
    text_eq_iff c code,
    get-delete c code m,
    get-set c code (record v { used_at = some now; used_ip = known_ip ip }) m,
  )
]

bind_session-left :
    (m : Codes) (code c session_id : Text)
    → uses_left (get code (bind_session m c session_id)) ≤ uses_left (get code m)
unfolding bind_session
bind_session-left m code c session_id = elim (Option-cases (get c m)) [
  | inl e ↦ rw (e, bind_session) (omega arith)
  | inr (v, e) ↦
      ground
        (arith, e, text_eq_iff c code, get-set c code (record v { session_id = some session_id }) m)
]

step-left :
    (o : Options) (m : Codes) (code : Text) (p : Op)
    → Unique m
    → OtherCode code p
    → first_use o m code p + uses_left (get code (step o m p)) ≤ uses_left (get code m)
unfolding step first_use issue clear_codes size_codes get
step-left o m code (issues c now at) u other = ground (
  arith,
  prune-left o m code now u,
  text_eq_iff c code,
  get-set c code
      (record { expires_at = at + o.ttl_ms; used_at = none; used_ip = none; session_id = none })
      (prune o m now),
)
step-left o m code (consumes c ip now) u other = consume-left o m code c ip now
step-left o m code (binds c session_id) u other =
    omega (arith, bind_session-left m code c session_id)
step-left o m code clears u other = omega arith
step-left o m code (sizes now) u other = omega (arith, prune-left o m code now u)

first_uses-left :
    (o : Options) (m : Codes) (code : Text) (ps : List Op)
    → Unique m
    → All (OtherCode code) ps
    → first_uses o m code ps ≤ uses_left (get code m)
unfolding first_uses
first_uses-left o m code [] u other = omega arith
first_uses-left o m code (p ∷ ps) u other = omega (
  arith,
  step-left o m code p u other.0,
  first_uses-left o (step o m p) code ps (step-Unique o m p u) other.1,
)

-- From a store with distinct codes on, in any history in which a code is not issued again, at
-- most one `consume` of it is a first use, whichever clients try it and whatever else happens to
-- the store.
pub first_uses-le-one :
    (o : Options) (m : Codes) (code : Text) (ps : List Op)
    → Unique m
    → All (OtherCode code) ps
    → first_uses o m code ps ≤ 1
first_uses-le-one o m code ps u other =
    omega (arith, first_uses-left o m code ps u other, left-le-one)
  where
    left-le-one : uses_left (get code m) ≤ 1
    left-le-one = ground arith
