-- ===== src/Cache/Accounts.antt =====
-- The byte accounts of the cache, under the changes that its operations are made of.
use dsh_full_remote.Prelude.{
  ℕ, ◌+◌, ◌-◌, ◌≤◌, ◌≡◌, refl, Bool, none, some, List, [], ◌∷◌, arith, Bool-cases, inl, inr,
}
use dsh_full_remote.Prelude.Text.{Text, text_eq_iff}
use dsh_full_remote.Prelude.StrMap.{
  StrMap, get, set, delete, delete_where, size, Unique, Every, delete_missing,
}
use dsh_full_remote.Cache.Store.{Entry, Options, Cache, remove_where}

module _ {H : Type 0} where
  -- The sum of the entries' sizes.
  unfoldable pub total : List (Text × Entry H) → ℕ
  total [] = 0
  total ((k, e) ∷ m) = e.bytes + total m

  -- The byte count is the sum of the entries' sizes, and the three limits hold.
  pub record IsBounded (o : Options) (c : Cache H) : Type 0 where
    pub unique : Unique c.entries
    pub exact : c.bytes ≡ total c.entries
    pub within_bytes : c.bytes ≤ o.max_bytes
    pub within_entries : size c.entries ≤ o.max_entries
    pub within_entry : Every (λ k e. e.bytes ≤ o.max_entry_bytes) c.entries

  pub total-delete :
      (k : Text) (m : StrMap (Entry H)) (e : Entry H)
      → Unique m
      → get k m ≡ some e
      → total m ≡ e.bytes + total (delete k m)
  unfolding total get delete
  total-delete k [] e u h = cc
  total-delete k ((j, f) ∷ m) e u h =
      ground (arith, text_eq_iff j k, delete_missing k m, total-delete k m e)

  pub total-set_new :
      (k : Text) (e : Entry H) (m : StrMap (Entry H))
      → get k m ≡ none
      → total (set k e m) ≡ total m + e.bytes
  unfolding total get set
  total-set_new k e [] h = omega arith
  total-set_new k e ((j, f) ∷ m) h = ground (arith, total-set_new k e m)

  -- The sweep is the map's own, with the byte count kept exact.
  pub remove_where_lem :
      (p : Entry H → Bool) (m : StrMap (Entry H)) (bytes : ℕ)
      → total m ≤ bytes
      → ((remove_where p m bytes).entries ≡ delete_where p m)
        × ((remove_where p m bytes).bytes + total m ≡ bytes + total (delete_where p m))
        × (total (delete_where p m) ≤ total m)
  unfolding remove_where delete_where total
  remove_where_lem p [] bytes h = (refl, refl, omega arith)
  remove_where_lem p ((k, e) ∷ m) bytes h = elim (Bool-cases (p e)) [
    | inl t ↦ let ih = remove_where_lem p m (bytes - e.bytes) (omega arith) in ground (arith, t, ih)
    | inr t ↦ let ih = remove_where_lem p m bytes (omega arith) in ground (arith, t, ih)
  ]
