-- ===== src/Cache/Store.antt =====
-- src/static-cache.ts: `createStaticResponseCache`. The header bag is a type of its own, measured by
-- `header_bytes`, which is `Buffer.byteLength(JSON.stringify(headers))`. Copies of a response are the
-- response: nothing in the model can change it.
use dsh_full_remote.Prelude.{
  ℕ, ◌+◌, ◌-◌, ◌*◌, Bool, true, false, not, ◌||◌, Option, none, some, List, [], ◌∷◌, ltb, leb, ◌==◌,
  if◌then◌else◌, length, min,
}
use dsh_full_remote.Prelude.Text.{Text, text_eq}
use dsh_full_remote.Prelude.StrMap.{StrMap, get, set, delete, size}
use dsh_full_remote.Security.{utf8}

-- A number that the code tests with `Number.isSafeInteger(n) && n >= 0`: it is one, or it is not.
pub data Millis : Type 0 where
  safe : ℕ → Millis
  unsafe : Millis

-- `CachedStaticResponse`
pub record Response (H : Type 0) : Type 0 where
  pub status : ℕ
  pub headers : H
  pub body : List ℕ
  pub received_at : Option Millis

-- `CacheEntry`
pub record Entry (H : Type 0) : Type 0 where
  pub response : Response H
  pub session_id : Text
  pub expires_at : ℕ
  pub bytes : ℕ

-- `StaticResponseCacheOptions`, resolved; `limit` lets nothing but safe integers through.
pub record Options : Type 0 where
  pub max_bytes : ℕ
  pub max_entry_bytes : ℕ
  pub max_entries : ℕ
  pub ttl_ms : ℕ

abbrev pub default_options : Options
default_options = record {
  max_bytes = 8 * 1024 * 1024;
  max_entry_bytes = 1024 * 1024;
  max_entries = 128;
  ttl_ms = 300000;
}

-- The closure's variables: the map, least recently used first, and the byte count.
pub record Cache (H : Type 0) : Type 0 where
  pub entries : StrMap (Entry H)
  pub bytes : ℕ

-- `receivedAt` is undefined, or a safe integer that is not in the future.
unfoldable pub received_ok : Option Millis → ℕ → Bool
received_ok none time = true
received_ok (some unsafe) time = false
received_ok (some (safe n)) time = leb n time

-- `Math.min(ttlMs, entryTtlMs ?? ttlMs)`; `none` where the entry's lifetime is no safe integer.
unfoldable pub lifetime_of : Options → Option Millis → Option ℕ
lifetime_of o none = some o.ttl_ms
lifetime_of o (some unsafe) = none
lifetime_of o (some (safe n)) = some (min o.ttl_ms n)

module _ {H : Type 0} where
  unfoldable pub empty_cache : Cache H
  empty_cache = record { entries = []; bytes = 0 }

  -- `remove`
  unfoldable pub remove : Text → Cache H → Cache H
  remove key c = elim (get key c.entries) [
    | none ↦ c
    | some e ↦ record { entries = delete key c.entries; bytes = c.bytes - e.bytes }
  ]

  -- The loop of `expire` and of `deleteSession`: `remove` at each entry that the test takes.
  unfoldable pub remove_where : (Entry H → Bool) → List (Text × Entry H) → ℕ → Cache H
  remove_where p [] bytes = record { entries = []; bytes = bytes }
  remove_where p ((k, e) ∷ m) bytes =
      let rest = remove_where p m (if p e then bytes - e.bytes else bytes) in
      if p e then rest else record { entries = (k, e) ∷ rest.entries; bytes = rest.bytes }

  -- `expire`
  unfoldable pub expire : ℕ → Cache H → Cache H
  unfolding remove_where
  expire time c = remove_where (λ e. leb e.expires_at time) c.entries c.bytes

  -- `get`: a hit moves to the end, where the most recently used entry stands.
  unfoldable pub cache_get : Cache H → ℕ → Text → Cache H × Option (Response H)
  cache_get c now key =
      let live = expire now c in
      elim (get key live.entries) [
        | none ↦ (live, none)
        | some e ↦ (record live { entries = set key e (delete key live.entries) }, some e.response)
      ]

  -- The `while` loop of `put`: the first entries go until the new one fits. To delete the first key
  -- of a map is to drop its first entry.
  unfoldable pub make_room : Options → ℕ → List (Text × Entry H) → ℕ → Cache H
  make_room o size_needed [] bytes = record { entries = []; bytes = bytes }
  make_room o size_needed ((k, e) ∷ m) bytes =
      let rest = make_room o size_needed m (bytes - e.bytes) in
      if leb o.max_entries (size ((k, e) ∷ m)) || ltb o.max_bytes (bytes + size_needed)
      then rest
      else record { entries = (k, e) ∷ m; bytes = bytes }

  -- `put`, from the removal of the old entry on.
  unfoldable pub insert_entry : Options → Cache H → Text → Entry H → Cache H
  unfolding make_room remove
  insert_entry o c key e =
      let removed = remove key c in
      let roomy = make_room o e.bytes removed.entries removed.bytes in
      record { entries = set key e roomy.entries; bytes = roomy.bytes + e.bytes }

  module _ (header_bytes : H → ℕ) where
    -- The accounted size of an entry.
    unfoldable pub entry_size : Text → Response H → Text → ℕ
    entry_size key r session_id =
        length r.body
        + header_bytes r.headers
        + length (utf8 key)
        + length (utf8 session_id)
        + elim r.received_at [ none ↦ 0 | some _ ↦ 16 ]

    -- `put` behind the checks of its numbers.
    unfoldable pub put_fresh : Options → Cache H → ℕ → Text → Response H → Text → ℕ → Cache H
    unfolding insert_entry
    put_fresh o c time key r session_id lifetime =
        let needed = entry_size key r session_id in
        if lifetime == 0
        then remove key c
        else if o.max_entries == 0 || not (r.status == 200)
        then c
        else if ltb o.max_entry_bytes needed || ltb o.max_bytes needed
        then c
        else insert_entry o c key (record {
          response = r;
          session_id = session_id;
          expires_at = time + lifetime;
          bytes = needed;
        })

    -- `put`
    unfoldable pub put : Options → Cache H → ℕ → Text → Response H → Text → Option Millis → Cache H
    unfolding put_fresh received_ok
    put o c time key r session_id entry_ttl =
        let live = expire time c in
        elim (lifetime_of o entry_ttl) [
          | none ↦ live
          | some lifetime ↦
              if not (received_ok r.received_at time)
              then live
              else put_fresh o live time key r session_id lifetime
        ]

  -- `deleteSession`
  unfoldable pub delete_session : Cache H → Text → Cache H
  unfolding remove_where
  delete_session c session_id =
      remove_where (λ e. text_eq e.session_id session_id) c.entries c.bytes

  -- `clear`
  unfoldable pub clear_cache : Cache H → Cache H
  clear_cache c = record { entries = []; bytes = 0 }

  -- `stats`
  unfoldable pub stats : Cache H → ℕ → Cache H × (ℕ × ℕ)
  stats c now = let live = expire now c in (live, (size live.entries, live.bytes))
