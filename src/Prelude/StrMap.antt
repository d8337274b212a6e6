-- ===== src/Prelude/StrMap.antt =====
-- The language's `Map<string, V>` as its entries in insertion order. `set` on a present key keeps
-- the key's place; a loop that deletes the entries it meets is `delete_where`.
use Prim.Native.Nat.{ℕ, ◌+◌, ◌≤◌}
use mathlib.Core.Path.{◌≡◌, refl, subst}
use mathlib.Core.Logic.{inl, inr}
use mathlib.Core.Bool.{Bool}
use mathlib.Core.List.{List, [], ◌∷◌, map}
use mathlib.Core.Option.{Option, none, some}
use native.Mathlib.Omega.{arith}
use dsh_full_remote.Prelude.Tests.{if◌then◌else◌, Bool-cases, is_some}
use dsh_full_remote.Prelude.Lists.{length}
use dsh_full_remote.Prelude.Text.{Text, text_eq, text_eq_iff, text_eq_refl}

abbrev pub StrMap {ℓ} : Type ℓ → Type ℓ
StrMap V = List (Text × V)

module _ {ℓ} {V : Type ℓ} where
  unfoldable pub get : Text → StrMap V → Option V
  get k [] = none
  get k ((j, v) ∷ m) = if text_eq j k then some v else get k m

  unfoldable pub set : Text → V → StrMap V → StrMap V
  set k v [] = (k, v) ∷ []
  set k v ((j, w) ∷ m) = if text_eq j k then (k, v) ∷ m else (j, w) ∷ set k v m

  unfoldable pub delete : Text → StrMap V → StrMap V
  delete k [] = []
  delete k ((j, v) ∷ m) = if text_eq j k then delete k m else (j, v) ∷ delete k m

  unfoldable pub delete_where : (V → Bool) → StrMap V → StrMap V
  delete_where p [] = []
  delete_where p ((j, v) ∷ m) = if p v then delete_where p m else (j, v) ∷ delete_where p m

  abbrev pub size : StrMap V → ℕ
  size = length

  abbrev pub values : StrMap V → List V
  values = map (λ e. e.1)

  abbrev pub keys : StrMap V → List Text
  keys = map (λ e. e.0)

  -- The keys of a map are distinct.
  abbrev pub Unique : StrMap V → Type ℓ
  Unique [] = Unit
  Unique ((j, v) ∷ m) = (get j m ≡ none) × Unique m

  -- Every entry of the map satisfies `P`.
  abbrev pub Every {κ} : (Text → V → Type κ) → StrMap V → Type κ
  Every P [] = Unit
  Every P ((j, v) ∷ m) = P j v × Every P m

  pub get-set :
      (k j : Text) (v : V) (m : StrMap V)
      → get j (set k v m) ≡ (if text_eq k j then some v else get j m)
  unfolding get set
  get-set k j v [] = refl
  get-set k j v ((i, w) ∷ m) =
      ground (arith, text_eq_iff k j, text_eq_iff i k, text_eq_iff i j, get-set k j v m)

  pub get-delete :
      (k j : Text) (m : StrMap V) → get j (delete k m) ≡ (if text_eq k j then none else get j m)
  unfolding get delete
  get-delete k j [] = ground arith
  get-delete k j ((i, w) ∷ m) =
      ground (arith, text_eq_iff k j, text_eq_iff i k, text_eq_iff i j, get-delete k j m)

  pub get-set_self : (k : Text) (v : V) (m : StrMap V) → get k (set k v m) ≡ some v
  get-set_self k v m = ground (arith, get-set k k v m, text_eq_refl k)

  pub get-delete_self : (k : Text) (m : StrMap V) → get k (delete k m) ≡ none
  get-delete_self k m = ground (arith, get-delete k k m, text_eq_refl k)

  get-delete_where-none :
      (p : V → Bool) (k : Text) (m : StrMap V) → get k m ≡ none → get k (delete_where p m) ≡ none
  unfolding get delete_where
  get-delete_where-none p k [] h = refl
  get-delete_where-none p k ((i, w) ∷ m) h = ground (arith, get-delete_where-none p k m)

  -- A sweep removes exactly the entries that its test takes.
  pub get-delete_where :
      (p : V → Bool) (k : Text) (m : StrMap V)
      → Unique m
      → get k (delete_where p m)
        ≡ elim (get k m) [ none ↦ none | some v ↦ if p v then none else some v ]
  unfolding get delete_where
  get-delete_where p k [] u = refl
  get-delete_where p k ((i, w) ∷ m) u =
      ground (arith, text_eq_iff i k, get-delete_where-none p i m, get-delete_where p k m)

  pub set-Unique : (k : Text) (v : V) (m : StrMap V) → Unique m → Unique (set k v m)
  unfolding get set
  set-Unique k v [] u = (refl, tt)
  set-Unique k v ((i, w) ∷ m) u =
      ground (arith, text_eq_iff k i, text_eq_iff i k, get-set k i v m, set-Unique k v m)

  pub delete-Unique : (k : Text) (m : StrMap V) → Unique m → Unique (delete k m)
  unfolding delete
  delete-Unique k [] u = tt
  delete-Unique k ((i, w) ∷ m) u = ground (arith, get-delete k i m, delete-Unique k m)

  pub delete_where-Unique : (p : V → Bool) (m : StrMap V) → Unique m → Unique (delete_where p m)
  unfolding delete_where
  delete_where-Unique p [] u = tt
  delete_where-Unique p ((i, w) ∷ m) u =
      ground (arith, get-delete_where-none p i m, delete_where-Unique p m)

  pub size-set :
      (k : Text) (v : V) (m : StrMap V)
      → size (set k v m) ≡ (if is_some (get k m) then size m else size m + 1)
  unfolding get set
  size-set k v [] = refl
  size-set k v ((i, w) ∷ m) = ground (arith, size-set k v m)

  pub size-delete-le : (k : Text) (m : StrMap V) → size (delete k m) ≤ size m
  unfolding delete
  size-delete-le k [] = omega arith
  size-delete-le k ((i, w) ∷ m) = ground (arith, size-delete-le k m)

  pub size-delete_where-le : (p : V → Bool) (m : StrMap V) → size (delete_where p m) ≤ size m
  unfolding delete_where
  size-delete_where-le p [] = omega arith
  size-delete_where-le p ((i, w) ∷ m) = ground (arith, size-delete_where-le p m)

  -- Deleting a missing key changes nothing; deleting a present one takes one entry away.
  pub delete_missing : (k : Text) (m : StrMap V) → get k m ≡ none → delete k m ≡ m
  unfolding get delete
  delete_missing k [] h = refl
  delete_missing k ((i, w) ∷ m) h = ground (arith, delete_missing k m)

  pub size-delete :
      (k : Text) (m : StrMap V)
      → Unique m
      → size m ≡ (if is_some (get k m) then size (delete k m) + 1 else size (delete k m))
  unfolding get delete
  size-delete k [] u = refl
  size-delete k ((i, w) ∷ m) u =
      ground (arith, text_eq_iff i k, delete_missing k m, size-delete k m)

module _ {ℓ κ} {V : Type ℓ} (P : Text → V → Type κ) where
  pub Every-set : (k : Text) (v : V) (m : StrMap V) → Every P m → P k v → Every P (set k v m)
  unfolding set
  Every-set k v [] h q = (q, tt)
  Every-set k v ((i, w) ∷ m) h q = elim (Bool-cases (text_eq i k)) [
    | inl e ↦ rw e (q, h.1)
    | inr e ↦ rw e (h.0, Every-set k v m h.1 q)
  ]

  pub Every-delete : (k : Text) (m : StrMap V) → Every P m → Every P (delete k m)
  unfolding delete
  Every-delete k [] h = tt
  Every-delete k ((i, w) ∷ m) h = elim (Bool-cases (text_eq i k)) [
    | inl e ↦ rw e (Every-delete k m h.1)
    | inr e ↦ rw e (h.0, Every-delete k m h.1)
  ]

  pub Every-delete_where : (p : V → Bool) (m : StrMap V) → Every P m → Every P (delete_where p m)
  unfolding delete_where
  Every-delete_where p [] h = tt
  Every-delete_where p ((i, w) ∷ m) h = elim (Bool-cases (p w)) [
    | inl e ↦ rw e (Every-delete_where p m h.1)
    | inr e ↦ rw e (h.0, Every-delete_where p m h.1)
  ]

  pub Every-get : (k : Text) (m : StrMap V) {v : V} → Every P m → get k m ≡ some v → P k v
  unfolding get
  Every-get k [] h e = cc
  Every-get k ((i, w) ∷ m) {v} h e = elim (Bool-cases (text_eq i k)) [
    | inl t ↦ subst (λ x. P k x) (ground arith) (subst (λ j. P j w) ((text_eq_iff i k).0 t) h.0)
    | inr t ↦ Every-get k m h.1 (ground arith)
  ]

  -- To weaken what is known of every entry.
  pub Every-map {μ} :
      (Q : Text → V → Type μ) (m : StrMap V)
      → ((k : Text) (v : V) → P k v → Q k v)
      → Every P m
      → Every Q m
  Every-map Q [] f h = tt
  Every-map Q ((i, w) ∷ m) f h = (f i w h.0, Every-map Q m f h.1)
