-- ===== src/Tracker/Prune.antt =====
-- The tracker's memory: what `prune` leaves.
use dsh_full_remote.Prelude.{
  ℕ, ◌-◌, ◌≤◌, ◌≡◌, refl, true, ◌||◌, Option, none, some, List, [], ◌∷◌, arith, ltb, if◌then◌else◌,
  is_some, max, Option-cases, inl, inr, subst, if_both,
}
use dsh_full_remote.Prelude.Text.{Text, text_eq_refl}
use dsh_full_remote.Prelude.StrMap.{
  get, delete, delete_where, size, Unique, size-delete, size-delete_where-le, delete_where-Unique,
}
use dsh_full_remote.Tracker.Buckets.{
  Bucket, Limits, Buckets, max_tracked_login_ips, lock_over, oldest_bucket, prune,
}

-- The entry that the search for the oldest finds is one of the map.
abbrev Found : List (Text × Bucket) → Option (Text × Bucket) → Type 0
Found n none = Unit
Found n (some (k, b)) = is_some (get k n) ≡ true

oldest_bucket-Found :
    (o : Option (Text × Bucket)) (m n : List (Text × Bucket))
    → Found n o
    → ((k : Text) → is_some (get k m) ≡ true → is_some (get k n) ≡ true)
    → Found n (oldest_bucket o m)
unfolding oldest_bucket get
oldest_bucket-Found o [] n f sub = f
oldest_bucket-Found none ((k, b) ∷ m) n f sub =
    oldest_bucket-Found (some (k, b)) m n (sub k (ground (arith, text_eq_refl k)))
      (λ j h. sub j (ground (arith, h)))
oldest_bucket-Found (some (j, a)) ((k, b) ∷ m) n f sub =
    oldest_bucket-Found (if ltb b.first_failure a.first_failure then some (k, b) else some (j, a)) m
      n
      (if_both (Found n) (ltb b.first_failure a.first_failure)
        (sub k (ground (arith, text_eq_refl k))) f)
      (λ i h. sub i (ground (arith, h)))

oldest_bucket-some :
    (e : Text × Bucket) (m : List (Text × Bucket)) → is_some (oldest_bucket (some e) m) ≡ true
unfolding oldest_bucket
oldest_bucket-some e [] = refl
oldest_bucket-some (j, a) ((k, b) ∷ m) =
    ground (arith, oldest_bucket-some (j, a) m, oldest_bucket-some (k, b) m)

-- The map without its oldest bucket.
abbrev evicted : Buckets → Buckets
evicted m = elim (oldest_bucket none m) [ none ↦ m | some (k, b) ↦ delete k m ]

oldest_bucket-none : (m : Buckets) → oldest_bucket none m ≡ none → size m ≡ 0
unfolding oldest_bucket
oldest_bucket-none [] e = refl
oldest_bucket-none ((k, b) ∷ m) e = ground (arith, e, oldest_bucket-some (k, b) m)

evicted_size : (m : Buckets) → Unique m → size (evicted m) ≤ size m - 1
evicted_size m u = elim (Option-cases (oldest_bucket none m)) [
  | inl e ↦ rw (e, evicted) (omega (arith, oldest_bucket-none m e))
  | inr ((k, b), e) ↦
      let found : Found m (some (k, b)) =
        subst (Found m) e (oldest_bucket-Found none m m tt (λ j h. h)) in
      rw (e, evicted) (ground (arith, found, size-delete k m u))
]

-- `prune` of a map with distinct keys ends with at most `MAX_TRACKED_LOGIN_IPS` addresses, or
-- with at least one fewer than before.
pub size-prune :
    (l : Limits) (m : Buckets) (now : ℕ)
    → Unique m
    → size (prune l m now) ≤ max max_tracked_login_ips (size m - 1)
unfolding prune
size-prune l m now u =
    let p =
      λ (b : Bucket). lock_over b.locked_until now || ltb l.lockout_ms (now - b.first_failure) in
    let swept = delete_where p m in
    ground (arith, evicted_size swept (delete_where-Unique p m u), size-delete_where-le p m)
