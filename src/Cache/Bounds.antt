-- ===== src/Cache/Bounds.antt =====
-- Every operation of the cache keeps its accounts exact and its limits.
use dsh_full_remote.Prelude.{
  ℕ, ◌+◌, ◌-◌, ◌≤◌, ◌<◌, ◌≡◌, refl, Bool, not, ◌||◌, Option, none, [], ◌∷◌, arith, ltb, leb, ◌==◌,
  if_both, if_split, Option-cases, Bool-cases, inl, inr,
}
use dsh_full_remote.Prelude.Text.{Text}
use dsh_full_remote.Prelude.StrMap.{
  StrMap, get, delete, size, Unique, Every, set-Unique, delete-Unique, size-set, size-delete-le,
  size-delete, get-delete_self, Every-set, Every-delete, Every-get, delete_where-Unique,
  Every-delete_where, size-delete_where-le,
}
use dsh_full_remote.Cache.Accounts.{total, IsBounded, total-delete, total-set_new, remove_where_lem}
use dsh_full_remote.Cache.Store.{
  Millis, Response, Entry, Options, Cache, remove, remove_where, expire, cache_get, make_room,
  insert_entry, entry_size, put, lifetime_of, received_ok,
}

module _ {H : Type 0} where
  pub remove_where-IsBounded :
      (o : Options) (c : Cache H) (p : Entry H → Bool)
      → IsBounded o c
      → IsBounded o (remove_where p c.entries c.bytes)
  remove_where-IsBounded o c p b =
      let (same, bytes, less) = remove_where_lem p c.entries c.bytes (omega (arith, b.exact)) in
      record {
        unique = rw same (delete_where-Unique p c.entries b.unique);
        exact = rw same (omega (arith, bytes, less, b.exact));
        within_bytes = omega (arith, bytes, less, b.exact, b.within_bytes);
        within_entries =
            rw same (omega (arith, size-delete_where-le p c.entries, b.within_entries));
        within_entry =
            rw same
              (Every-delete_where (λ k e. e.bytes ≤ o.max_entry_bytes) p c.entries b.within_entry);
      }

  pub expire-IsBounded :
      (o : Options) (c : Cache H) (now : ℕ) → IsBounded o c → IsBounded o (expire now c)
  unfolding expire
  expire-IsBounded o c now b = remove_where-IsBounded o c (λ e. leb e.expires_at now) b

  remove-IsBounded :
      (o : Options) (c : Cache H) (key : Text) → IsBounded o c → IsBounded o (remove key c)
  unfolding remove
  remove-IsBounded o c key b = elim (Option-cases (get key c.entries)) [
    | inl e ↦ rw (e, remove) b
    | inr (f, e) ↦
        rw (e, remove)
          (record {
            unique = delete-Unique key c.entries b.unique;
            exact = omega (arith, b.exact, total-delete key c.entries f b.unique e);
            within_bytes = omega (arith, b.within_bytes);
            within_entries = omega (arith, size-delete-le key c.entries, b.within_entries);
            within_entry =
                Every-delete (λ k e. e.bytes ≤ o.max_entry_bytes) key c.entries b.within_entry;
          })
  ]

  get-remove_self : (key : Text) (c : Cache H) → get key (remove key c).entries ≡ none
  unfolding remove
  get-remove_self key c = elim (Option-cases (get key c.entries)) [
    | inl e ↦ rw (e, remove) e
    | inr (f, e) ↦ rw (e, remove) (get-delete_self key c.entries)
  ]

  pub cache_get-IsBounded :
      (o : Options) (c : Cache H) (now : ℕ) (key : Text)
      → IsBounded o c
      → IsBounded o (cache_get c now key).0
  unfolding cache_get
  cache_get-IsBounded o c now key b =
      let live = expire now c in
      let v = expire-IsBounded o c now b in
      elim (Option-cases (get key live.entries)) [
        | inl e ↦ rw (e, cache_get) v
        | inr (f, e) ↦
            let rest = delete key live.entries in
            let gone = get-delete_self key live.entries in
            rw (e, cache_get)
              (record {
                unique = set-Unique key f rest (delete-Unique key live.entries v.unique);
                exact = omega (
                  arith,
                  v.exact,
                  total-set_new key f rest gone,
                  total-delete key live.entries f v.unique e,
                );
                within_bytes = v.within_bytes;
                within_entries = ground (
                  arith,
                  size-set key f rest,
                  size-delete key live.entries v.unique,
                  gone,
                  e,
                  v.within_entries,
                );
                within_entry =
                    Every-set (λ k e. e.bytes ≤ o.max_entry_bytes) key f rest
                      (Every-delete (λ k e. e.bytes ≤ o.max_entry_bytes) key live.entries
                        v.within_entry)
                      (Every-get (λ k e. e.bytes ≤ o.max_entry_bytes) key live.entries
                        v.within_entry e);
              })
      ]

  make_room_lem :
      (o : Options) (needed : ℕ) (m : StrMap (Entry H)) (bytes : ℕ)
      → bytes ≡ total m
      → 0 < o.max_entries
      → needed ≤ o.max_bytes
      → Unique m
      → Every (λ k e. e.bytes ≤ o.max_entry_bytes) m
      → let r = make_room o needed m bytes in
        (r.bytes ≡ total r.entries)
        × (size r.entries < o.max_entries)
        × (r.bytes + needed ≤ o.max_bytes)
        × Unique r.entries
        × Every (λ k e. e.bytes ≤ o.max_entry_bytes) r.entries
        × ((k : Text) → get k m ≡ none → get k r.entries ≡ none)
  unfolding make_room total get
  make_room_lem o needed [] bytes e pos fits u h = (e, pos, omega (arith, e), tt, tt, λ k g. refl)
  make_room_lem o needed ((j, f) ∷ m) bytes e pos fits u h =
      elim (Bool-cases
        (leb o.max_entries (size ((j, f) ∷ m)) || ltb o.max_bytes (bytes + needed))) [
          | inl t ↦
              let ih =
                make_room_lem o needed m (bytes - f.bytes) (omega (arith, e)) pos fits u.1 h.1 in
              rw t (ih.0, ih.1, ih.2, ih.3, ih.4, λ k g. ih.5 k (ground (arith, g)))
          | inr t ↦ rw t (e, ground (arith, t), ground (arith, t), u, h, λ k g. g)
        ]

  insert_entry-IsBounded :
      (o : Options) (c : Cache H) (key : Text) (e : Entry H)
      → 0 < o.max_entries
      → e.bytes ≤ o.max_bytes
      → e.bytes ≤ o.max_entry_bytes
      → IsBounded o c
      → IsBounded o (insert_entry o c key e)
  unfolding insert_entry
  insert_entry-IsBounded o c key e pos fits small b =
      let removed = remove key c in
      let v = remove-IsBounded o c key b in
      let roomy = make_room o e.bytes removed.entries removed.bytes in
      let (exact, room, bytes, u, h, keeps) =
        make_room_lem o e.bytes removed.entries removed.bytes v.exact pos fits v.unique
          v.within_entry in
      let gone = keeps key (get-remove_self key c) in
      record {
        unique = set-Unique key e roomy.entries u;
        exact = omega (arith, exact, total-set_new key e roomy.entries gone);
        within_bytes = bytes;
        within_entries = ground (arith, size-set key e roomy.entries, gone, room);
        within_entry = Every-set (λ k e. e.bytes ≤ o.max_entry_bytes) key e roomy.entries h small;
      }

  module _ (header_bytes : H → ℕ) where
    -- `put` keeps the accounts exact and the limits, whatever it is given.
    pub put-IsBounded :
        (o : Options) (c : Cache H) (time : ℕ) (key : Text) (r : Response H) (session_id : Text)
        (ttl : Option Millis)
        → IsBounded o c
        → IsBounded o (put header_bytes o c time key r session_id ttl)
    unfolding put
    put-IsBounded o c time key r session_id ttl b =
        let live = expire time c in
        let v = expire-IsBounded o c time b in
        elim (Option-cases (lifetime_of o ttl)) [
          | inl e ↦ rw (e, put) v
          | inr (lifetime, e) ↦
              let needed = entry_size header_bytes key r session_id in
              rw (e, put)
                (if_both (IsBounded o) (not (received_ok r.received_at time)) v (
                  if_both (IsBounded o) (lifetime == 0) (remove-IsBounded o live key v) (
                    if_split (IsBounded o) (o.max_entries == 0 || not (r.status == 200)) (λ t. v)
                      (λ t.
                        if_split (IsBounded o)
                          (ltb o.max_entry_bytes needed || ltb o.max_bytes needed) (λ w. v)
                          (λ w.
                            insert_entry-IsBounded o live key _ (ground (arith, t))
                              (ground (arith, w)) (ground (arith, w)) v)))))
        ]
