-- ===== src/Relay/Leases.antt =====
-- What is proved of the connections of src/proxy.ts.
use dsh_full_remote.Prelude.{
  ℕ, ◌≡◌, refl, sym, ap, ◌∙◌, inl, inr, Bool, true, false, not, ◌&&◌, ◌||◌, none, some, List, [],
  ◌∷◌, ◌++◌, ◌==◌, any, is_some, if◌then◌else◌, if_split, Option-cases, arith, ==_iff,
}
use dsh_full_remote.Prelude.Text.{Text, text_eq, text_eq_iff}
use dsh_full_remote.Prelude.StrMap.{StrMap, get, keys, get-delete}
use dsh_full_remote.Relay.Connections.{
  Connections, has, added, without, members, without_all, close_set, close_session, taken_by,
  expire_leases, close_inactive, is_empty, expiry_tick,
}

pub has-append : (n : ℕ) (l k : List ℕ) → has n (l ++ k) ≡ (has n l || has n k)
has-append n [] k = refl
has-append n (m ∷ l) k = ground (arith, has-append n l k)

pub has-without : (n m : ℕ) (l : List ℕ) → has n (without m l) ≡ (has n l && not (m == n))
has-without n m [] = refl
has-without n m (k ∷ l) = ground (arith, has-without n m l)

has-without_all : (n : ℕ) (ns l : List ℕ) → has n (without_all ns l) ≡ (has n l && not (has n ns))
has-without_all n [] l = ground arith
has-without_all n (m ∷ ns) l = ground (arith, has-without_all n ns (without m l), has-without n m l)

pub has-added : (n : ℕ) (l : List ℕ) → has n (added n l) ≡ true
has-added n l = ground (arith, has-append n l (n ∷ []))

has-taken_by : (n : ℕ) (p : ℕ → Bool) (l : List ℕ) → has n (taken_by p l) ≡ (has n l && p n)
has-taken_by n p [] = refl
has-taken_by n p (m ∷ l) = ground (arith, has-taken_by n p l, ==_iff m n)

pub close_session-some :
    (s : Connections) (id : Text) (ref : ℕ)
    → get id s.session_connections ≡ some ref
    → close_session s id ≡ close_set s id ref
unfolding close_session
close_session-some s id ref h = ap (λ o. elim o [ none ↦ s | some r ↦ close_set s id r ]) h

pub close_session-none :
    (s : Connections) (id : Text) → get id s.session_connections ≡ none → close_session s id ≡ s
unfolding close_session
close_session-none s id h = ap (λ o. elim o [ none ↦ s | some r ↦ close_set s id r ]) h

-- Closing a session closes the connections of its set and takes their leases, and leaves the other sessions'
-- entries alone.
pub close_session_lem :
    (s : Connections) (id : Text) (ref : ℕ)
    → get id s.session_connections ≡ some ref
    → ((n : ℕ) → has n (close_session s id).closed ≡ (has n s.closed || has n (members ref s.sets)))
      × ((n : ℕ)
          → has n (close_session s id).leases
            ≡ (has n s.leases && not (has n (members ref s.sets))))
      × ((other : Text)
          → get other (close_session s id).session_connections
            ≡ (if text_eq id other then none else get other s.session_connections))
close_session_lem s id ref h =
    let e = close_session-some s id ref h in
    (
      λ n. ap (λ t. has n t.closed) e ∙ has-append n s.closed (members ref s.sets),
      λ n. ap (λ t. has n t.leases) e ∙ has-without_all n (members ref s.sets) s.leases,
      λ other.
          ap (λ t. get other t.session_connections) e ∙ get-delete id other s.session_connections,
    )

-- What is closed stays closed, leases are only taken, and only entries of the session go.
close_session_keeps :
    (s : Connections) (id : Text)
    → ((n : ℕ) → has n s.closed ≡ true → has n (close_session s id).closed ≡ true)
      × ((n : ℕ) → has n (close_session s id).leases ≡ true → has n s.leases ≡ true)
      × ((other : Text) (ref : ℕ)
          → get other (close_session s id).session_connections ≡ some ref
          → (get other s.session_connections ≡ some ref) × (text_eq id other ≡ false))
close_session_keeps s id = elim (Option-cases (get id s.session_connections)) [
  | inl none_there ↦
      let e = close_session-none s id none_there in
      (
        λ n c. ap (λ t. has n t.closed) e ∙ c,
        λ n l. sym (ap (λ t. has n t.leases) e) ∙ l,
        λ other ref g.
            let back = sym (ap (λ t. get other t.session_connections) e) ∙ g in
            (back, ground (arith, none_there, back, text_eq_iff id other)),
      )
  | inr (r, there) ↦
      let lem = close_session_lem s id r there in
      (
        λ n c. ground (arith, lem.0 n, c),
        λ n l. ground (arith, lem.1 n, l),
        λ other ref g. ground (arith, lem.2 other, g),
      )
]

-- The same of a part of the timer's second loop, whose sessions that stay are active.
abbrev Keeps : (Text → Bool) → List Text → Connections → Connections → Type 0
Keeps active ids before after =
    ((n : ℕ) → has n before.closed ≡ true → has n after.closed ≡ true)
    × ((n : ℕ) → has n after.leases ≡ true → has n before.leases ≡ true)
    × ((other : Text) (ref : ℕ)
        → get other after.session_connections ≡ some ref
        → (get other before.session_connections ≡ some ref)
          × (any (text_eq other) ids ≡ true → active other ≡ true))

close_one-Keeps :
    (active : Text → Bool) (id : Text) (s : Connections)
    → Keeps active (id ∷ []) s (if active id then s else close_session s id)
close_one-Keeps active id s =
    if_split (Keeps active (id ∷ []) s) (active id)
      (λ a.
        (λ n c. c, λ n l. l, λ other ref g. (g, λ m. ground (arith, a, m, text_eq_iff other id))))
      (λ a.
        let kept = close_session_keeps s id in
        (
          kept.0,
          kept.1,
          λ other ref g.
              let there = kept.2 other ref g in
              (
                there.0,
                λ m. ground (arith, there.1, m, text_eq_iff other id, text_eq_iff id other),
              ),
        ))

close_inactive-Keeps :
    (active : Text → Bool) (ids : List Text) (s : Connections)
    → Keeps active ids s (close_inactive active ids s)
unfolding close_inactive
close_inactive-Keeps active [] s = (λ n c. c, λ n l. l, λ other ref g. (g, λ m. absurd cc))
close_inactive-Keeps active (id ∷ ids) s =
    let first = close_one-Keeps active id s in
    let rest = close_inactive-Keeps active ids (if active id then s else close_session s id) in
    (
      λ n c. rest.0 n (first.0 n c),
      λ n l. first.1 n (rest.1 n l),
      λ other ref g.
          let later = rest.2 other ref g in
          let now = first.2 other ref later.0 in (now.0, λ m. ground (arith, m, later.1, now.1)),
    )

any-keys :
    (id : Text) (m : StrMap ℕ) (ref : ℕ) → get id m ≡ some ref → any (text_eq id) (keys m) ≡ true
unfolding get
any-keys id [] ref h = absurd cc
any-keys id ((k, v) ∷ m) ref h =
    ground (arith, h, any-keys id m ref, text_eq_iff k id, text_eq_iff id k)

-- When a connection is left in the map, a tick of the timer closes every connection whose lease is no longer
-- valid, leaves no leases but those that are valid, and no session in the map that is not active.
pub expiry_tick_lem :
    (valid : ℕ → Bool) (active : Text → Bool) (s : Connections) (n : ℕ) (id : Text)
    → is_empty s.session_connections ≡ false
    → ((has n s.leases && not (valid n) && not (has n (expiry_tick valid active s).closed)) ≡ false)
      × ((has n (expiry_tick valid active s).leases && not (has n s.leases && valid n)) ≡ false)
      × ((is_some (get id (expiry_tick valid active s).session_connections) && not (active id))
          ≡ false)
unfolding expiry_tick expire_leases
expiry_tick_lem valid active s n id some_there =
    let expired : Connections = expire_leases valid s in
    let ids = keys s.session_connections in
    let kept = close_inactive-Keeps active ids expired in
    let invalid = taken_by (λ m. not (valid m)) s.leases in
    rw some_there (
      ground (
        arith,
        kept.0 n,
        has-append n s.closed invalid,
        has-taken_by n (λ m. not (valid m)) s.leases,
      ),
      ground (arith, kept.1 n, has-taken_by n valid s.leases),
      elim (Option-cases (get id (close_inactive active ids expired).session_connections)) [
        | inl e ↦ ground (arith, e)
        | inr (ref, e) ↦ ground (arith, e, kept.2 id ref e, any-keys id s.session_connections ref)
      ],
    )
