-- ===== src/Relay/Tracked.antt =====
-- What is proved of a connection of src/proxy.ts from its tracking to its end.
use dsh_full_remote.Prelude.{
  ℕ, ◌≡◌, refl, ap, ◌∙◌, inl, inr, Bool, true, false, Option, none, some, List, if◌then◌else◌,
  if_split, Option-cases, arith,
}
use dsh_full_remote.Prelude.Text.{Text, text_eq_refl}
use dsh_full_remote.Prelude.StrMap.{get, get-delete, get-set_self}
use dsh_full_remote.Relay.Connections.{
  Connections, has, added, without, members, is_nil, Tracked, tracked_in, track_session,
  release_session, close_session,
}
use dsh_full_remote.Relay.Leases.{has-without, has-added, close_session_lem, close_session-none}

-- A tracked connection stands in the set that the map has for its session.
IsTracked : Text → ℕ → Connections × Tracked → Type 0
IsTracked id close out =
    (get id out.0.session_connections ≡ some out.1.set)
    × (has close (members out.1.set out.0.sets) ≡ true)
    × (out.1.close ≡ close)
    × (out.1.session_id ≡ id)

tracked_in-IsTracked :
    (s : Connections) (id : Text) (close : ℕ) (leases : List ℕ) (o : Option ℕ)
    → get id s.session_connections ≡ o
    → IsTracked id close (tracked_in s id close leases o)
unfolding IsTracked
tracked_in-IsTracked s id close leases (some ref) h =
    (h, ground (arith, has-added close (members ref s.sets)), refl, refl)
tracked_in-IsTracked s id close leases none h =
    (get-set_self id s.next_set s.session_connections, ground arith, refl, refl)

track_session-IsTracked :
    (s : Connections) (id : Text) (close : ℕ) (leased : Bool)
    → IsTracked id close (track_session s id close leased)
unfolding track_session
track_session-IsTracked s id close leased =
    tracked_in-IsTracked s id close (if leased then added close s.leases else s.leases)
      (get id s.session_connections) refl

tracked_in-closed :
    (s : Connections) (id : Text) (close : ℕ) (leases : List ℕ) (o : Option ℕ)
    → (tracked_in s id close leases o).0.closed ≡ s.closed
tracked_in-closed s id close leases none = refl
tracked_in-closed s id close leases (some ref) = refl

track_session-closed :
    (s : Connections) (id : Text) (close : ℕ) (leased : Bool)
    → (track_session s id close leased).0.closed ≡ s.closed
unfolding track_session
track_session-closed s id close leased =
    tracked_in-closed s id close (if leased then added close s.leases else s.leases)
      (get id s.session_connections)

released_closed :
    (s : Connections) (t : Tracked) (close : ℕ)
    → has close (release_session s t).closed ≡ has close s.closed
unfolding release_session
released_closed s t close = refl

released_set :
    (s : Connections) (id : Text) (ref : ℕ) (t : Tracked) (r : ℕ)
    → get id s.session_connections ≡ some ref
    → t.session_id ≡ id
    → get id (release_session s t).session_connections ≡ some r
    → r ≡ ref
unfolding release_session
released_set s id ref t r h i =
    if_split (λ m. get id m ≡ some r → r ≡ ref) (is_nil (without t.close (members t.set s.sets)))
      (λ n g.
        ground (arith, g, h, i, get-delete t.session_id id s.session_connections, text_eq_refl id))
      (λ n g. ground (arith, g, h))

released_members :
    (s : Connections) (t : Tracked) (ref close : ℕ)
    → t.set ≡ ref
    → t.close ≡ close
    → has close (members ref (release_session s t).sets) ≡ false
unfolding release_session
released_members s t ref close e c =
    ground (arith, e, c, has-without close t.close (members t.set s.sets))

release_session-closed :
    (s : Connections) (id : Text) (ref close : ℕ) (t : Tracked)
    → get id s.session_connections ≡ some ref
    → t.set ≡ ref
    → t.close ≡ close
    → t.session_id ≡ id
    → has close (close_session (release_session s t) id).closed ≡ has close s.closed
release_session-closed s id ref close t h e c i =
    let after = release_session s t in
    elim (Option-cases (get id after.session_connections)) [
      | inl none_there ↦
          ap (λ a. has close a.closed) (close_session-none after id none_there)
          ∙ released_closed s t close
      | inr (r, there) ↦ ground (
        arith,
        (close_session_lem after id r there).0 close,
        released_set s id ref t r h i there,
        released_members s t ref close e c,
        released_closed s t close,
      )
    ]

-- A connection that is tracked is closed with its session; once it is released, closing the session leaves it be.
pub track_session_lem :
    (s : Connections) (id : Text) (close : ℕ) (leased : Bool)
    → (has close (close_session (track_session s id close leased).0 id).closed ≡ true)
      × (has close
            (close_session
              (release_session
                (track_session s id close leased).0
                (track_session s id close leased).1)
              id).closed
          ≡ has close s.closed)
unfolding IsTracked
track_session_lem s id close leased =
    let out = track_session s id close leased in
    let tracked = track_session-IsTracked s id close leased in
    (
      ground (arith, (close_session_lem out.0 id out.1.set tracked.0).0 close, tracked.1),
      release_session-closed out.0 id out.1.set close out.1 tracked.0 refl tracked.2 tracked.3
          ∙ ap (has close) (track_session-closed s id close leased),
    )
