-- ===== src/Pending/Fence.antt =====
-- What is proved of the answers of src/client/pending-source.ts.
use dsh_full_remote.Prelude.{
  ◌≡◌, refl, ap, inl, inr, Bool, true, false, not, Option, none, some, List, [], ◌∷◌, Bool-cases,
  arith,
}
use dsh_full_remote.Prelude.Text.{Text}
use dsh_full_remote.Prelude.StrMap.{StrMap, get, Every, Every-set, Every-get}
use dsh_full_remote.Pending.View.{Interaction, key_of, is_approval}
use dsh_full_remote.Pending.Source.{
  Status, Registry, Source, Snapshot, empty_state, fresh_source, added_id, all_added, waiting_ids,
  pending_of, with_wait, waits_of, all_ids, items_of, views_of, collect, create_pending_source,
  subscribe, unsubscribe, dispose, wait_for, answer_approval, answer_question, SourceOp, on_source,
  run_source,
}
use dsh_full_remote.Pending.Source

-- The wait of a key is the interaction that the registry has for a session now, with that key.
abbrev pub IsLatest : Registry → Text → Interaction → Type 0
IsLatest r key wait =
    (key_of wait ≡ key) × ((id : Text) × (pending_of (get id r.status) ≡ some wait))

get_nil : (key : Text) → get {V = Interaction} key [] ≡ none
unfolding get
get_nil key = refl

with_wait_of-IsLatest :
    (r : Registry) (id : Text) (waits : StrMap Interaction) (o : Option Interaction)
    → pending_of (get id r.status) ≡ o
    → Every (IsLatest r) waits
    → Every (IsLatest r) (with_wait o waits)
with_wait_of-IsLatest r id waits none e all = all
with_wait_of-IsLatest r id waits (some w) e all =
    Every-set (IsLatest r) (key_of w) w waits all (refl, (id, e))

with_wait-IsLatest :
    (r : Registry) (id : Text) (waits : StrMap Interaction)
    → Every (IsLatest r) waits
    → Every (IsLatest r) (with_wait (pending_of (get id r.status)) waits)
with_wait-IsLatest r id waits all =
    with_wait_of-IsLatest r id waits (pending_of (get id r.status)) refl all

waits_of-IsLatest :
    (r : Registry) (ids : List Text) (waits : StrMap Interaction)
    → Every (IsLatest r) waits
    → Every (IsLatest r) (waits_of r ids waits)
unfolding waits_of
waits_of-IsLatest r [] waits all = all
waits_of-IsLatest r (id ∷ ids) waits all =
    waits_of-IsLatest r ids (with_wait (pending_of (get id r.status)) waits)
      (with_wait-IsLatest r id waits all)

module _ (fingerprint : Snapshot → Text) where
  -- Nothing waits in a source that is disposed, and nobody listens.
  IsFenced : Source → Type 0
  IsFenced s = s.disposed ≡ true → (s.waits ≡ []) × (s.listeners ≡ [])

  collect-live :
      (r : Registry) (s : Source)
      → s.disposed ≡ false
      → (collect fingerprint r s).waits ≡ waits_of r (all_ids r) []
  unfolding collect
  collect-live r s live = ground (arith, live)

  collect-disposed : (r : Registry) (s : Source) → s.disposed ≡ true → collect fingerprint r s ≡ s
  unfolding collect
  collect-disposed r s ended = rw ended refl

  collect-still : (r : Registry) (s : Source) → (collect fingerprint r s).disposed ≡ s.disposed
  unfolding collect
  collect-still r s = ground arith

  on_source-IsFenced :
      (s : Source) (op : SourceOp) → IsFenced s → IsFenced (on_source fingerprint s op)
  unfolding IsFenced on_source collect subscribe unsubscribe dispose
  on_source-IsFenced s (Source.collected r) f = ground (arith, f)
  on_source-IsFenced s (Source.subscribed listener) f = ground (arith, f)
  on_source-IsFenced s (Source.unsubscribed listener) f = ground (arith, f)
  on_source-IsFenced s Source.disposed_of f = ground (arith, f)

  run_source-IsFenced :
      (s : Source) (ops : List SourceOp) → IsFenced s → IsFenced (run_source fingerprint s ops)
  unfolding run_source
  run_source-IsFenced s [] f = f
  run_source-IsFenced s (op ∷ ops) f =
      run_source-IsFenced (on_source fingerprint s op) ops (on_source-IsFenced s op f)

  create-IsFenced : (r : Registry) → IsFenced (create_pending_source fingerprint r)
  unfolding IsFenced create_pending_source
  create-IsFenced r = λ ended. ground (arith, ended, collect-still r fresh_source)

  wait_for-IsLatest :
      (p : Interaction → Bool) (key : Text) (s : Source) (r : Registry) (i : Interaction)
      → IsFenced s
      → wait_for p key (collect fingerprint r s) ≡ some i
      → (s.disposed ≡ false) × (p i ≡ true) × IsLatest r key i
  unfolding wait_for IsFenced
  wait_for-IsLatest p key s r i f h = elim (Bool-cases s.disposed) [
    | inl ended ↦ absurd (
        ground (arith, h, ap (λ t. t.waits) (collect-disposed r s ended), (f ended).0, get_nil key))
    | inr live ↦
        let all : Every (IsLatest r) (waits_of r (all_ids r) []) =
          waits_of-IsLatest r (all_ids r) [] tt in
        let there : (get key (waits_of r (all_ids r) []) ≡ some i) × (p i ≡ true) =
          ground (arith, h, collect-live r s live) in
        (live, there.1, Every-get (IsLatest r) key (waits_of r (all_ids r) []) all there.0)
  ]

  -- However the source was used before, an answer to an approval goes to an approval of its key that the registry
  -- has for a session at that moment, and only while the source is not disposed.
  pub answer_approval_fenced :
      (first r : Registry) (ops : List SourceOp) (key : Text) (i : Interaction)
      → (answer_approval fingerprint r key
          (run_source fingerprint (create_pending_source fingerprint first) ops)).1
        ≡ some i
      → ((run_source fingerprint (create_pending_source fingerprint first) ops).disposed ≡ false)
        × (is_approval i ≡ true)
        × IsLatest r key i
  unfolding answer_approval
  answer_approval_fenced first r ops key i h =
      wait_for-IsLatest is_approval key
        (run_source fingerprint (create_pending_source fingerprint first) ops) r i
        (run_source-IsFenced (create_pending_source fingerprint first) ops (create-IsFenced first))
        h

  -- The same of an answer or a dismissal of a question.
  pub answer_question_fenced :
      (first r : Registry) (ops : List SourceOp) (key : Text) (i : Interaction)
      → (answer_question fingerprint r key
          (run_source fingerprint (create_pending_source fingerprint first) ops)).1
        ≡ some i
      → ((run_source fingerprint (create_pending_source fingerprint first) ops).disposed ≡ false)
        × (not (is_approval i) ≡ true)
        × IsLatest r key i
  unfolding answer_question
  answer_question_fenced first r ops key i h =
      wait_for-IsLatest (λ w. not (is_approval w)) key
        (run_source fingerprint (create_pending_source fingerprint first) ops) r i
        (run_source-IsFenced (create_pending_source fingerprint first) ops (create-IsFenced first))
        h
