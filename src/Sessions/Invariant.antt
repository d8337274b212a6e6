-- ===== src/Sessions/Invariant.antt =====
-- The invariant of the session store under the changes that its operations are made of.
use dsh_full_remote.Prelude.{
  ℕ, zero, suc, ◌≡◌, refl, none, some, arith, if_both, Option-cases, inl, inr, ◌==◌, ltb,
}
use dsh_full_remote.Prelude.Text.{Text}
use dsh_full_remote.Prelude.StrMap.{
  StrMap, get, set, delete, size, set-Unique, delete-Unique, delete_where-Unique, Every-set,
  Every-delete, Every-delete_where, Every-get, Every-map,
}
use dsh_full_remote.Sessions.Record.{
  Session, Config, Store, Known, Fits, IsValidFor, changed, with_sessions, update_session, expired,
  sweep,
}
use dsh_full_remote.Sessions.Login.{evict_oldest, evict_loop, oldest_entry}

-- What an operation with a result leaves behind is valid.
abbrev pub Keeps : (G : ℕ → Type 0) {R : Type 0} → Store × R → Type 0
Keeps G r = IsValidFor G r.0

module _ {G : ℕ → Type 0} where
  pub changed-IsValid : {st : Store} → IsValidFor G st → IsValidFor G (changed st)
  changed-IsValid v = record { unique = v.unique; keyed = v.keyed; fresh = v.fresh }

  pub get-Fits :
      {st : Store} {k : Text} {s : Session}
      → IsValidFor G st
      → get k st.sessions ≡ some s
      → Fits G st.next_ref k s
  get-Fits {st} {k} v e = Every-get (Fits G st.next_ref) k st.sessions v.keyed e

  pub update-IsValid :
      {st : Store} (s : Session)
      → IsValidFor G st
      → Known G st.next_ref s.ref
      → IsValidFor G (update_session st s)
  update-IsValid {st} s v known = record {
    unique = set-Unique s.id s st.sessions v.unique;
    keyed = Every-set (Fits G st.next_ref) s.id s st.sessions v.keyed (refl, known);
    fresh = v.fresh;
  }

  pub delete-IsValid :
      {st : Store} (k : Text)
      → IsValidFor G st
      → IsValidFor G (with_sessions st (delete k st.sessions))
  delete-IsValid {st} k v = record {
    unique = delete-Unique k st.sessions v.unique;
    keyed = Every-delete (Fits G st.next_ref) k st.sessions v.keyed;
    fresh = v.fresh;
  }

  pub sweep-IsValid :
      (cfg : Config) (st : Store) (at : ℕ) → IsValidFor G st → IsValidFor G (sweep cfg st at)
  unfolding sweep
  sweep-IsValid cfg st at v = record {
    unique = delete_where-Unique (λ s. expired cfg s at) st.sessions v.unique;
    keyed = Every-delete_where (Fits G st.next_ref) (λ s. expired cfg s at) st.sessions v.keyed;
    fresh = v.fresh;
  }

  -- A new object under a new identity.
  pub insert-IsValid :
      {st : Store} (s : Session)
      → IsValidFor G st
      → s.ref ≡ st.next_ref
      → IsValidFor G (record st { sessions = set s.id s st.sessions; next_ref = suc st.next_ref })
  insert-IsValid {st} s v e = record {
    unique = set-Unique s.id s st.sessions v.unique;
    keyed =
        Every-set (Fits G (suc st.next_ref)) s.id s st.sessions
          (Every-map (Fits G st.next_ref) (Fits G (suc st.next_ref)) st.sessions
            (λ k t h. (h.0, (omega arith, h.1.1))) v.keyed)
          (refl, (omega arith, v.fresh s.ref (omega arith)));
    fresh = λ n h. v.fresh n (omega arith);
  }

  evict_oldest-IsValid :
      {st : Store} (id : Text)
      → IsValidFor G st
      → IsValidFor G (with_sessions st (evict_oldest id st.sessions))
  unfolding evict_oldest
  evict_oldest-IsValid {st} id v = elim (Option-cases (oldest_entry id none st.sessions)) [
    | inl e ↦ rw (e, evict_oldest) (record { unique = v.unique; keyed = v.keyed; fresh = v.fresh })
    | inr ((k, s), e) ↦ rw (e, evict_oldest) (delete-IsValid k v)
  ]

  pub evict_loop-IsValid :
      (fuel : ℕ) {st : Store} (max : ℕ) (id : Text)
      → IsValidFor G st
      → IsValidFor G (with_sessions st (evict_loop fuel max id st.sessions))
  unfolding evict_loop
  evict_loop-IsValid zero max id v = record { unique = v.unique; keyed = v.keyed; fresh = v.fresh }
  evict_loop-IsValid (suc fuel) {st} max id v =
      let P = λ (m : StrMap Session). IsValidFor G (with_sessions st m) in
      let smaller = evict_oldest-IsValid id v in
      if_both P (ltb max (size st.sessions))
        (if_both P (size (evict_oldest id st.sessions) == size st.sessions) smaller (
          evict_loop-IsValid fuel {st = with_sessions st (evict_oldest id st.sessions)} max id
            smaller))
        (record { unique = v.unique; keyed = v.keyed; fresh = v.fresh })
