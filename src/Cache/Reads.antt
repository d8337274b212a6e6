-- ===== src/Cache/Reads.antt =====
-- What can be read from the cache: freshness, isolation of devices, and the last write.
use dsh_full_remote.Prelude.{
  ℕ, ◌+◌, ◌≤◌, ◌<◌, ◌≡◌, refl, Bool, true, Option, none, some, arith, ltb, leb, if◌then◌else◌,
  Option-cases, inl, inr,
}
use dsh_full_remote.Prelude.Text.{Text, text_eq, text_eq_iff}
use dsh_full_remote.Prelude.StrMap.{
  get, delete, get-set, get-delete, get-set_self, get-delete_where,
}
use dsh_full_remote.Cache.Accounts.{IsBounded, remove_where_lem}
use dsh_full_remote.Cache.Store.{
  Millis, Response, Entry, Options, Cache, remove_where, expire, cache_get, lifetime_of,
  received_ok, entry_size, insert_entry, put_fresh, put, delete_session,
}
use dsh_full_remote.Cache.Bounds.{put-IsBounded}

module _ {H : Type 0} where
  -- The entry that an optional one leaves behind, if the test does not take it.
  abbrev pub unless : (Entry H → Bool) → Option (Entry H) → Option (Entry H)
  unless p none = none
  unless p (some e) = if p e then none else some e

  get-remove_where :
      (o : Options) (c : Cache H) (p : Entry H → Bool) (k : Text)
      → IsBounded o c
      → get k (remove_where p c.entries c.bytes).entries ≡ unless p (get k c.entries)
  get-remove_where o c p k b =
      let (same, _, _) = remove_where_lem p c.entries c.bytes (omega (arith, b.exact)) in
      rw (same, get-delete_where p k c.entries b.unique) (by_cases (get k c.entries))
    where
      by_cases :
          (e : Option (Entry H))
          → (elim e [ none ↦ none | some v ↦ if p v then none else some v ]) ≡ unless p e
      by_cases none = refl
      by_cases (some e) = refl

  -- In a bounded cache, after `deleteSession` no key answers with an entry of that device, and
  -- every other entry is as it was.
  pub get-delete_session :
      (o : Options) (c : Cache H) (session_id k : Text)
      → IsBounded o c
      → get k (delete_session c session_id).entries
        ≡ unless (λ e. text_eq e.session_id session_id) (get k c.entries)
  unfolding delete_session
  get-delete_session o c session_id k b =
      get-remove_where o c (λ e. text_eq e.session_id session_id) k b

  get-expire :
      (o : Options) (c : Cache H) (now : ℕ) (k : Text)
      → IsBounded o c
      → get k (expire now c).entries ≡ unless (λ e. leb e.expires_at now) (get k c.entries)
  unfolding expire
  get-expire o c now k b = get-remove_where o c (λ e. leb e.expires_at now) k b

  -- In a bounded cache `get` answers with the stored response exactly while it is fresh, and
  -- what any key finds changes only by dropping what has expired.
  pub cache_get_lem :
      (o : Options) (c : Cache H) (now : ℕ) (key k : Text)
      → IsBounded o c
      → ((cache_get c now key).1 ≡ elim (unless (λ e. leb e.expires_at now) (get key c.entries)) [
        | none ↦ none
        | some e ↦ some e.response
      ])
        × (get k (cache_get c now key).0.entries
            ≡ unless (λ e. leb e.expires_at now) (get k c.entries))
  unfolding cache_get
  cache_get_lem o c now key k b =
      let live = expire now c in
      let at_key = get-expire o c now key b in
      let at_k = get-expire o c now k b in
      elim (Option-cases (get key live.entries)) [
        | inl e ↦ ground (arith, e, at_key, at_k)
        | inr (f, e) ↦ ground (
          arith,
          e,
          at_key,
          at_k,
          text_eq_iff key k,
          get-set key k f (delete key live.entries),
          get-delete key k live.entries,
        )
      ]

  module _ (header_bytes : H → ℕ) (o : Options) (c : Cache H) (time lifetime : ℕ)
      (key session_id : Text) (r : Response H) (ttl : Option Millis) (b : IsBounded o c)
      (l : lifetime_of o ttl ≡ some lifetime) (pos : 0 < lifetime)
      (ok : received_ok r.received_at time ≡ true) (status : r.status ≡ 200)
      (room : 0 < o.max_entries)
      (small : entry_size header_bytes key r session_id ≤ o.max_entry_bytes)
      (fits : entry_size header_bytes key r session_id ≤ o.max_bytes) where
    stored : Entry H
    stored = record {
      response = r;
      session_id = session_id;
      expires_at = time + lifetime;
      bytes = entry_size header_bytes key r session_id;
    }

    insert_entry-get : (d : Cache H) → get key (insert_entry o d key stored).entries ≡ some stored
    unfolding insert_entry
    insert_entry-get d = get-set_self key stored _

    put-get : get key (put header_bytes o c time key r session_id ttl).entries ≡ some stored
    unfolding put put_fresh stored
    put-get =
        ground (arith, l, pos, ok, status, room, small, fits, insert_entry-get (expire time c))

    -- A response that `put` admits is what `get` answers for its key until its lifetime has passed,
    -- and nothing from then on.
    pub get-put :
        (later : ℕ)
        → (cache_get (put header_bytes o c time key r session_id ttl) later key).1
          ≡ (if ltb later (time + lifetime) then some r else none)
    unfolding stored
    get-put later =
        let after = put header_bytes o c time key r session_id ttl in
        let bounded = put-IsBounded header_bytes o c time key r session_id ttl b in
        ground (arith, put-get, cache_get_lem o after later key key bounded)
