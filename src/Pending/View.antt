-- ===== src/Pending/View.antt =====
-- src/client/pending-source.ts: the views of the interactions that wait. Text has no case but the ASCII one here.
use dsh_full_remote.Prelude.{
  ℕ, ◌-◌, Bool, true, false, not, ◌||◌, Option, none, some, List, [], ◌∷◌, ◌++◌, length, take, map,
  leb, if◌then◌else◌, get_or, is_some,
}
use dsh_full_remote.Prelude.Text.{Text, codes, text_eq, to_lower, trim_end}
use dsh_full_remote.Compress.Body.{ends_with}
use dsh_full_remote.Net.Hosts.{is_loopback_host}

-- `QuestionOptionView`
pub record OptionView : Type 0 where
  pub label : Text
  pub description : Option Text

-- The intent of a question: a plan review with the label that approves it, or another.
pub data QuestionIntent : Type 0 where
  plan_review : (approve : Text) → QuestionIntent
  other_intent : QuestionIntent

-- `QuestionItemView`, and the question of a request, which has the same fields.
pub record Question : Type 0 where
  pub id : Text
  pub question : Text
  pub detail : Option Text
  pub header : Option Text
  pub options : Option (List OptionView)
  pub multi_select : Option Bool
  pub intent : Option QuestionIntent

-- `SessionPendingInteraction`: an approval, or a question.
pub data Interaction : Type 0 where
  approval : (key session_id tool_name : Text) (reason : Option Text) → Interaction
  question : (key session_id : Text) (questions : List Question) → Interaction

-- What `planReviewOf` gives.
pub record PlanReview : Type 0 where
  pub id : Text
  pub question : Text
  pub plan : Text
  pub approve : Text
  pub decline : Option Text

-- `options.find(…)`
abbrev pub find_option : (OptionView → Bool) → List OptionView → Option OptionView
find_option p [] = none
find_option p (o ∷ options) = if p o then some o else find_option p options

abbrev pub option_label : Option OptionView → Option Text
option_label none = none
option_label (some o) = some o.label

abbrev pub is_true : Option Bool → Bool
is_true none = false
is_true (some b) = b

-- `planReviewOf`, of a question with the label that approves and its detail.
unfoldable pub reviewed : Question → Text → Text → Option PlanReview
reviewed q approve plan =
    let options = get_or q.options [] in
    if is_true q.multi_select || not (leb (length options) 2)
    then none
    else elim (find_option (λ o. text_eq o.label approve) options) [
      | none ↦ none
      | some found ↦ some (record {
        id = q.id;
        question = q.question;
        plan = plan;
        approve = found.label;
        decline = option_label (find_option (λ o. not (text_eq o.label approve)) options);
      })
    ]

-- `planReviewOf`
unfoldable pub plan_review_of : List Question → Option PlanReview
plan_review_of [] = none
plan_review_of (q ∷ other ∷ questions) = none
plan_review_of (q ∷ []) = elim q.intent [
  | none ↦ none
  | some other_intent ↦ none
  | some (plan_review approve) ↦ elim q.detail [ none ↦ none | some plan ↦ reviewed q approve plan ]
]

unfoldable pub recommended_suffixes : List Text
recommended_suffixes =
    codes "(recommended)"
    ∷ (b'(' ∷ 0x63a8 ∷ 0x8350 ∷ b')' ∷ [])
    ∷ (0xff08 ∷ codes "recommended" ++ 0xff09 ∷ [])
    ∷ (0xff08 ∷ 0x63a8 ∷ 0x8350 ∷ 0xff09 ∷ [])
    ∷ []

-- The text before the first of the suffixes that it ends with.
abbrev pub without_suffix : List Text → Text → Option Text
without_suffix [] text = none
without_suffix (suffix ∷ suffixes) text =
    if ends_with suffix (to_lower text)
    then some (take (length text - length suffix) text)
    else without_suffix suffixes text

-- `parseRecommendedLabel`: the label, and whether it is recommended.
unfoldable pub parse_recommended_label : Text → Text × Bool
parse_recommended_label label = elim (without_suffix recommended_suffixes (trim_end label)) [
  | none ↦ (label, false)
  | some before ↦ (trim_end before, true)
]

-- `shouldUseInteractionOverlay`
unfoldable pub should_use_interaction_overlay : Text → ℕ → Bool
should_use_interaction_overlay hostname width = not (is_loopback_host hostname) || leb width 720

abbrev pub intent_view : Option QuestionIntent → Option QuestionIntent
intent_view (some (plan_review approve)) = some (plan_review approve)
intent_view _ = none

-- `questionView`, of one question.
unfoldable pub question_view : Question → Question
question_view q = record q {
  multi_select = if is_true q.multi_select then some true else none;
  intent = intent_view q.intent;
}

pub data Presentation : Type 0 where
  as_approval : Presentation
  as_question : Presentation
  as_plan_review : Presentation

-- What an item shows of its interaction.
pub data Facts : Type 0 where
  approval_facts : (tool_name : Text) (reason : Option Text) → Facts
  question_facts : List Question → Facts

-- `RemotePendingItem`; its kind is that of its facts.
pub record Item : Type 0 where
  pub key : Text
  pub presentation : Presentation
  pub session_id : Text
  pub session_title : Text
  pub ready : Bool
  pub facts : Facts

-- `projectInteraction`
unfoldable pub project_interaction : Interaction → Text → Item
project_interaction (approval key session_id tool_name reason) title = record {
  key = key;
  presentation = as_approval;
  session_id = session_id;
  session_title = title;
  ready = true;
  facts = approval_facts tool_name reason;
}
project_interaction (question key session_id questions) title = record {
  key = key;
  presentation =
      if is_some (plan_review_of (map question_view questions))
      then as_plan_review
      else as_question;
  session_id = session_id;
  session_title = title;
  ready = true;
  facts = question_facts (map question_view questions);
}

abbrev pub key_of : Interaction → Text
key_of (approval key session_id tool_name reason) = key
key_of (question key session_id questions) = key

-- `wait.kind === 'approval'`
abbrev pub is_approval : Interaction → Bool
is_approval (approval key session_id tool_name reason) = true
is_approval (question key session_id questions) = false
