-- ===== src/Pending/Source.antt =====
-- src/client/pending-source.ts: `createPendingSource`. The session list and the registry are read when an operation
-- collects; `fingerprint` is `JSON.stringify` of a state.
use dsh_full_remote.Prelude.{
  ℕ, Bool, true, false, not, ◌||◌, Option, none, some, List, [], ◌∷◌, ◌++◌, ◌==◌, any,
  if◌then◌else◌, get_or,
}
use dsh_full_remote.Prelude.Text.{Text, text_eq}
use dsh_full_remote.Prelude.StrMap.{StrMap, get, set}
use dsh_full_remote.Pending.View.{Interaction, Item, project_interaction, key_of, is_approval}

-- A row of `SessionStatusSnapshot`.
pub record Status : Type 0 where
  pub running : Option Bool
  pub completion_unread : Bool
  pub pending_interaction : Option Interaction

pub record Summary : Type 0 where
  pub display_title : Option Text
  pub running : Option Bool

pub data Phase : Type 0 where
  arriving : Phase
  ready : Phase

-- What `collect` reads: the list's snapshot, and the registry's in its order.
pub record Registry : Type 0 where
  pub ids : List Text
  pub by_id : StrMap Summary
  pub phase : Phase
  pub status : StrMap Status

-- `RemoteSessionView`
pub record SessionView : Type 0 where
  pub id : Text
  pub title : Text
  pub running : Option Bool
  pub completion_unread : Bool
  pub pending_key : Option Text

-- `RemotePendingState`
pub record Snapshot : Type 0 where
  pub items : List Item
  pub sessions : List SessionView
  pub phase : Option Phase

-- The closure's variables, and the listeners that were called, the first one first.
pub record Source : Type 0 where
  pub listeners : List ℕ
  pub waits : StrMap Interaction
  pub snapshot : Snapshot
  pub disposed : Bool
  pub notified : List ℕ

-- `EMPTY_STATE`
abbrev pub empty_state : Snapshot
empty_state = record { items = []; sessions = []; phase = none }

abbrev pub fresh_source : Source
fresh_source = record {
  listeners = [];
  waits = [];
  snapshot = empty_state;
  disposed = false;
  notified = [];
}

-- A set of ids in the order of their first occurrence.
abbrev pub added_id : Text → List Text → List Text
added_id id ids = if any (text_eq id) ids then ids else ids ++ id ∷ []

abbrev pub all_added : List Text → List Text → List Text
all_added ids [] = ids
all_added ids (id ∷ more) = all_added (added_id id ids) more

-- The sessions of the registry that wait.
abbrev pub waiting_ids : StrMap Status → List Text
waiting_ids [] = []
waiting_ids ((id, row) ∷ status) =
    let rest = waiting_ids status in
    elim row.pending_interaction [ none ↦ rest | some interaction ↦ id ∷ rest ]

-- `row?.pendingInteraction`
abbrev pub pending_of : Option Status → Option Interaction
pending_of none = none
pending_of (some row) = row.pending_interaction

abbrev pub first_some {ℓ} : {A : Type ℓ} → Option A → Option A → Option A
first_some none other = other
first_some (some a) other = some a

abbrev pub running_of : Option Status → Option Summary → Option Bool
running_of row summary =
    first_some (elim row [ none ↦ none | some r ↦ r.running ])
      (elim summary [ none ↦ none | some s ↦ s.running ])

abbrev pub title_of : Text → Option Summary → Text
title_of id none = id
title_of id (some s) = get_or s.display_title id

abbrev pub view_of : Registry → Text → SessionView
view_of r id =
    let row = get id r.status in
    let summary = get id r.by_id in
    record {
      id = id;
      title = title_of id summary;
      running = running_of row summary;
      completion_unread = elim row [ none ↦ false | some s ↦ s.completion_unread ];
      pending_key = elim (pending_of row) [
        | none ↦ none
        | some interaction ↦ some (key_of interaction)
      ];
    }

-- The loop of `collect`: the views, the items and the next waits.
unfoldable pub views_of : Registry → List Text → List SessionView
views_of r [] = []
views_of r (id ∷ ids) = view_of r id ∷ views_of r ids

unfoldable pub items_of : Registry → List Text → List Item
items_of r [] = []
items_of r (id ∷ ids) =
    let rest = items_of r ids in
    elim (pending_of (get id r.status)) [
      | none ↦ rest
      | some interaction ↦ project_interaction interaction (title_of id (get id r.by_id)) ∷ rest
    ]

-- `nextWaits.set(interaction.key, interaction)` for a session that waits.
abbrev pub with_wait : Option Interaction → StrMap Interaction → StrMap Interaction
with_wait none waits = waits
with_wait (some interaction) waits = set (key_of interaction) interaction waits

unfoldable pub waits_of : Registry → List Text → StrMap Interaction → StrMap Interaction
waits_of r [] waits = waits
waits_of r (id ∷ ids) waits = waits_of r ids (with_wait (pending_of (get id r.status)) waits)

-- `ids` of `collect`.
abbrev pub all_ids : Registry → List Text
all_ids r = all_added (all_added [] r.ids) (waiting_ids r.status)

-- `subscribe`, with the listener's number.
unfoldable pub subscribe : ℕ → Source → Source
subscribe listener s =
    let more : Source = record s { listeners = s.listeners ++ listener ∷ [] } in
    if s.disposed || any (λ l. l == listener) s.listeners then s else more

abbrev pub without_listener : ℕ → List ℕ → List ℕ
without_listener n [] = []
without_listener n (m ∷ l) = if m == n then without_listener n l else m ∷ without_listener n l

-- The function that `subscribe` returns.
unfoldable pub unsubscribe : ℕ → Source → Source
unsubscribe listener s = record s { listeners = without_listener listener s.listeners }

-- `dispose`
unfoldable pub dispose : Source → Source
dispose s =
    let ended : Source = record s {
      disposed = true;
      waits = [];
      listeners = [];
      snapshot = empty_state;
    } in
    if s.disposed then s else ended

-- The wait that an answer goes to: of the key, and of the kind. None is the error that it is no longer pending.
unfoldable pub wait_for : (Interaction → Bool) → Text → Source → Option Interaction
wait_for p key s = elim (get key s.waits) [
  | none ↦ none
  | some wait ↦ if p wait then some wait else none
]

pub data SourceOp : Type 0 where
  collected : Registry → SourceOp
  subscribed : ℕ → SourceOp
  unsubscribed : ℕ → SourceOp
  disposed_of : SourceOp

module _ (fingerprint : Snapshot → Text) where
  -- `collect`
  unfoldable pub collect : Registry → Source → Source
  collect r s =
      let ids = all_ids r in
      let next : Snapshot = record {
        items = items_of r ids;
        sessions = views_of r ids;
        phase = some r.phase;
      } in
      let waiting : Source = record s { waits = waits_of r ids [] } in
      let shown : Source = record s {
        waits = waits_of r ids [];
        snapshot = next;
        notified = s.notified ++ s.listeners;
      } in
      if s.disposed
      then s
      else if text_eq (fingerprint next) (fingerprint s.snapshot)
      then waiting
      else shown

  -- `createPendingSource`
  unfoldable pub create_pending_source : Registry → Source
  create_pending_source r = collect r fresh_source

  -- `answerApproval`: the interaction whose `answer` is called.
  unfoldable pub answer_approval : Registry → Text → Source → Source × Option Interaction
  answer_approval r key s = (collect r s, wait_for is_approval key (collect r s))

  -- `answerQuestion` and `cancelQuestion`: the interaction whose `answer` or `dismiss` is called.
  unfoldable pub answer_question : Registry → Text → Source → Source × Option Interaction
  answer_question r key s = (collect r s, wait_for (λ i. not (is_approval i)) key (collect r s))

  unfoldable pub on_source : Source → SourceOp → Source
  on_source s (collected r) = collect r s
  on_source s (subscribed listener) = subscribe listener s
  on_source s (unsubscribed listener) = unsubscribe listener s
  on_source s disposed_of = dispose s

  unfoldable pub run_source : Source → List SourceOp → Source
  run_source s [] = s
  run_source s (op ∷ ops) = run_source (on_source s op) ops
