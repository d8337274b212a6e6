-- ===== src/Sessions/Directory.antt =====
-- The panel's view of the session store of src/sessions.ts: a directory of ids, each with its status. The
-- order of the map, the hashes, the times and the labels are forgotten.
use dsh_full_remote.Prelude.{
  ℕ, ◌≡◌, refl, ◌∙◌, Bool, false, Option, none, some, List, [], ◌∷◌, arith, if◌then◌else◌,
  Option-cases, inl, inr, ltb, length, Bool-cases, get_or, ◌==◌, ◌||◌, not, if_both,
}
use dsh_full_remote.Prelude.Text.{Text, text_eq, text_eq_iff, trim}
use dsh_full_remote.Prelude.StrMap.{
  get, size, get-set, get-delete, Every, Every-set, Every-delete, Every-get,
}
use dsh_full_remote.Sessions.Record.{
  Status, active, pending, rejected, is_pending_status, Session, Store, update_session,
}
use dsh_full_remote.Sessions.Admin.{revoke, approve, rename, clear}

abbrev pub Directory : Type 0
Directory = Text → Option Status

abbrev pub status_of : Option Session → Option Status
status_of none = none
status_of (some s) = some s.status

-- The directory of a store.
abbrev pub directory : Store → Directory
directory st id = status_of (get id st.sessions)

abbrev pub approved : Option Status → Option Status
approved none = none
approved (some active) = some active
approved (some pending) = some active
approved (some rejected) = some rejected

-- A pending request is kept as refused, so that it can tell its device; anything else goes.
abbrev pub revoked : Option Status → Option Status
revoked none = none
revoked (some active) = none
revoked (some pending) = some rejected
revoked (some rejected) = none

pub data Admin : Type 0 where
  approves revokes : (id : Text) (at : ℕ) → Admin
  renames : (id : Text) (label : Option Text) → Admin
  clears : Admin

-- What a command of the panel does to a directory.
abbrev pub specify : Directory → Admin → Directory
specify d (approves id at) j = if text_eq id j then approved (d j) else d j
specify d (revokes id at) j = if text_eq id j then revoked (d j) else d j
specify d (renames id label) j = d j
specify d clears j = none

abbrev pub administer : Store → Admin → Store
administer st (approves id at) = (approve st id at).0
administer st (revokes id at) = (revoke st id at).0
administer st (renames id label) = (rename st id label).0
administer st clears = clear st

abbrev pub administer_all : Store → List Admin → Store
administer_all st [] = st
administer_all st (x ∷ l) = administer_all (administer st x) l

abbrev pub specify_all : Directory → List Admin → Directory
specify_all d [] j = d j
specify_all d (x ∷ l) j = specify_all (specify d x) l j

-- Each record stands under its own id.
abbrev pub IsKeyed : Store → Type 0
IsKeyed st = Every (λ k s. s.id ≡ k) st.sessions

own_id :
    (st : Store) (id : Text) {s : Session} → IsKeyed st → get id st.sessions ≡ some s → s.id ≡ id
own_id st id v e = Every-get (λ k s. s.id ≡ k) id st.sessions v e

directory-approve :
    (st : Store) (id : Text) (at : ℕ) (j : Text)
    → IsKeyed st
    → directory (approve st id at).0 j ≡ specify (directory st) (approves id at) j
unfolding approve
directory-approve st id at j v = elim (Option-cases (get id st.sessions)) [
  | inl e ↦ ground (arith, e, text_eq_iff id j)
  | inr (s, e) ↦ ground (
    arith,
    e,
    text_eq_iff id j,
    own_id st id v e,
    get-set s.id j (record s { status = active; last_seen_at = at }) st.sessions,
  )
]

directory-revoke :
    (st : Store) (id : Text) (at : ℕ) (j : Text)
    → IsKeyed st
    → directory (revoke st id at).0 j ≡ specify (directory st) (revokes id at) j
unfolding revoke
directory-revoke st id at j v = elim (Option-cases (get id st.sessions)) [
  | inl e ↦ ground (arith, e, text_eq_iff id j)
  | inr (s, e) ↦ ground (
    arith,
    e,
    text_eq_iff id j,
    own_id st id v e,
    get-delete id j st.sessions,
    get-set s.id j (record s { status = rejected; last_seen_at = at }) st.sessions,
  )
]

directory-rename :
    (st : Store) (id : Text) (label : Option Text) (j : Text)
    → IsKeyed st
    → directory (rename st id label).0 j ≡ directory st j
unfolding rename
directory-rename st id label j v = elim (Option-cases (get id st.sessions)) [
  | inl e ↦ ground (arith, e)
  | inr (s, e) ↦
      let next = trim (get_or label []) in
      ground (
        arith,
        e,
        text_eq_iff id j,
        own_id st id v e,
        get-set s.id j (record s { label = next }) st.sessions,
      )
]

pub none_left : (st : Store) → ltb 0 (length st.sessions) ≡ false → st.sessions ≡ []
none_left st e =
    elim st.sessions as (λ l. ltb 0 (length l) ≡ false → l ≡ []) [
      | [] ↦ λ h. refl
      | x ∷ l ↦ λ h. ground (arith, h)
    ]
      e

directory-clear : (st : Store) (j : Text) → directory (clear st) j ≡ none
unfolding clear get
directory-clear st j = elim (Bool-cases (ltb 0 (length st.sessions))) [
  | inl e ↦ rw e refl
  | inr e ↦ rw (e, none_left st e) refl
]

abbrev IsKeyedResult : Store × Bool → Type 0
IsKeyedResult r = IsKeyed r.0

set-IsKeyed : (st : Store) (s : Session) → IsKeyed st → IsKeyed (update_session st s)
set-IsKeyed st s v = Every-set (λ k t. t.id ≡ k) s.id s st.sessions v refl

administer-IsKeyed : (st : Store) (x : Admin) → IsKeyed st → IsKeyed (administer st x)
unfolding approve revoke rename clear
administer-IsKeyed st (approves id at) v = elim (Option-cases (get id st.sessions)) [
  | inl e ↦ rw (e, administer, approve) v
  | inr (s, e) ↦
      rw (e, administer, approve)
        (if_both IsKeyedResult (not (is_pending_status s.status)) v
          (set-IsKeyed st (record s { status = active; last_seen_at = at }) v))
]
administer-IsKeyed st (revokes id at) v = elim (Option-cases (get id st.sessions)) [
  | inl e ↦ rw (e, administer, revoke) v
  | inr (s, e) ↦
      rw (e, administer, revoke)
        (if_both IsKeyedResult (is_pending_status s.status)
          (set-IsKeyed st (record s { status = rejected; last_seen_at = at }) v)
          (Every-delete (λ k t. t.id ≡ k) id st.sessions v))
]
administer-IsKeyed st (renames id label) v = elim (Option-cases (get id st.sessions)) [
  | inl e ↦ rw (e, administer, rename) v
  | inr (s, e) ↦
      let next = trim (get_or label []) in
      rw (e, administer, rename)
        (if_both IsKeyedResult (length next == 0 || ltb 64 (length next)) v (
          if_both IsKeyedResult (text_eq s.label next) v
            (set-IsKeyed st (record s { label = next }) v)))
]
administer-IsKeyed st clears v = if_both IsKeyed (ltb 0 (size st.sessions)) tt v

specify-cong :
    (d d' : Directory) (x : Admin)
    → ((j : Text) → d j ≡ d' j)
    → (j : Text) → specify d x j ≡ specify d' x j
specify-cong d d' (approves id at) h j = rw (h j) refl
specify-cong d d' (revokes id at) h j = rw (h j) refl
specify-cong d d' (renames id label) h j = h j
specify-cong d d' clears h j = refl

specify_all-cong :
    (d d' : Directory) (l : List Admin)
    → ((j : Text) → d j ≡ d' j)
    → (j : Text) → specify_all d l j ≡ specify_all d' l j
specify_all-cong d d' [] h j = h j
specify_all-cong d d' (x ∷ l) h j =
    specify_all-cong (specify d x) (specify d' x) l (specify-cong d d' x h) j

directory-administer :
    (st : Store) (x : Admin)
    → IsKeyed st
    → (j : Text) → directory (administer st x) j ≡ specify (directory st) x j
directory-administer st (approves id at) v j = directory-approve st id at j v
directory-administer st (revokes id at) v j = directory-revoke st id at j v
directory-administer st (renames id label) v j = directory-rename st id label j v
directory-administer st clears v j = directory-clear st j

-- The store carries out every sequence of the panel's commands as the directory specifies it: from a
-- store whose records stand under their ids, what is listed afterwards with which status is what the
-- specified commands make of what was listed before.
pub directory-administer_all :
    (st : Store) (l : List Admin) (j : Text)
    → IsKeyed st
    → directory (administer_all st l) j ≡ specify_all (directory st) l j
directory-administer_all st [] j v = refl
directory-administer_all st (x ∷ l) j v =
    directory-administer_all (administer st x) l j (administer-IsKeyed st x v)
    ∙ specify_all-cong (directory (administer st x)) (specify (directory st) x) l
        (directory-administer st x v) j
