-- ===== src/Events/Polling/Covered.antt =====
-- The first loop of a poll answers or admits every topic: `poll` of fastapi_viewsets/events/viewset.py.
use fastapi_viewsets.Prelude.{
  ℕ, Text, Dict, lookup, lookup-insert, insert, list_eq, nat_eq, ◌==◌, beq_refl, if◌then◌else◌,
  List, [], ◌∷◌, ◌++◌, Option, Bool, true, false, ◌||◌, ◌≡◌, refl, ap, ◌∙◌, sym, subst, arith,
  Bool-cases, inl, inr, All,
}
use fastapi_viewsets.Events.Topics.{is_some, is_valid_topic}
use fastapi_viewsets.Events.Delivery.{Registry}
use fastapi_viewsets.Events.Delivery.Push.{http_error, returned, other_error}
use fastapi_viewsets.Events.Authorizers.{
  Gated, ok, topic_refused, scope_missing, raised, authorize_topic,
}
use fastapi_viewsets.Events.Polling.{
  Raised, ResolvedTopic, and_then, refusal, event_topic_invalid, event_topic_refused,
  event_scope_missing, http_exception, TopicAnswer, Caller, Admission, Admitted, going, stopped,
  admission, admitted_at, refused_at, admit_one, then_admit, admit,
}

-- Whether a topic is among the admitted ones.
unfoldable pub admits : Text → List ResolvedTopic → Bool
admits topic [] = false
admits topic (resolved ∷ admitted) = if resolved.topic == topic then true else admits topic admitted

pub admits-append :
    (topic : Text) (admitted more : List ResolvedTopic)
    → admits topic (admitted ++ more) ≡ (admits topic admitted || admits topic more)
unfolding admits
admits-append topic [] more = refl
admits-append topic (resolved ∷ admitted) more = ground (arith, admits-append topic admitted more)

and_then-ok :
    (gated : Gated Raised (Unit {0})) (later : Gated Raised ResolvedTopic)
    (resolved : ResolvedTopic)
    → and_then gated later ≡ ok resolved
    → later ≡ ok resolved
and_then-ok (ok tt) later resolved h = h
and_then-ok topic_refused later resolved h = ground arith
and_then-ok scope_missing later resolved h = ground arith
and_then-ok (raised error) later resolved h = ground arith

-- `resolve_topic` answers with the topic that it was asked for.
abbrev pub IsNamed : Caller → Type 0
IsNamed caller =
    (topic : Text) (resolved : ResolvedTopic)
    → caller.resolve_topic topic ≡ ok resolved
    → resolved.topic ≡ topic

module _ {P : Type 0} where
  abbrev pub has : Text → Dict Text (TopicAnswer P) → Bool
  has topic answers = is_some (lookup topic answers)

  pub has-insert :
      (topic key : Text) (answer : TopicAnswer P) (answers : Dict Text (TopicAnswer P))
      → has topic (insert key answer answers) ≡ (key == topic || has topic answers)
  has-insert topic key answer answers = ground (arith, lookup-insert key topic answer answers)

module _ {C P : Type 0} where
  -- A topic has an answer, or is admitted and will have one.
  abbrev pub covered : Text → Admission C P → Bool
  covered topic s = has topic s.answers || admits topic s.admitted

  abbrev pub reached : Admitted C P → Admission C P
  reached (going s) = s
  reached (stopped s) = s

  abbrev pub goes_on : Admitted C P → Bool
  goes_on (going s) = true
  goes_on (stopped s) = false

  covered-answered :
      (u topic : Text) (answer : TopicAnswer P) (registry : Registry C) (s : Admission C P)
      → covered u (record s { answers = insert topic answer s.answers; registry = registry })
        ≡ (topic == u || covered u s)
  covered-answered u topic answer registry s = ground (arith, has-insert u topic answer s.answers)

  covered-admitted_at :
      (u topic : Text) (peer : Option ℕ) (gated : Gated Raised ResolvedTopic) (s : Admission C P)
      → ((resolved : ResolvedTopic) → gated ≡ ok resolved → resolved.topic ≡ topic)
      → goes_on (admitted_at peer topic gated s) ≡ true
      → covered u (reached (admitted_at peer topic gated s)) ≡ (topic == u || covered u s)
  unfolding admits refused_at
  covered-admitted_at u topic peer (ok resolved) s named h =
      ground (arith, admits-append u s.admitted (resolved ∷ []), named resolved refl)
  covered-admitted_at u topic peer topic_refused s named h =
      covered-answered u topic (refusal event_topic_refused)
        (refused_at peer topic event_topic_refused s).registry s
  covered-admitted_at u topic peer scope_missing s named h =
      covered-answered u topic (refusal event_scope_missing)
        (refused_at peer topic event_scope_missing s).registry s
  covered-admitted_at u topic peer (raised (http_error status)) s named h =
      covered-answered u topic (refusal (http_exception status))
        (refused_at peer topic (http_exception status) s).registry s
  covered-admitted_at u topic peer (raised (returned store_topic)) s named h = ground arith
  covered-admitted_at u topic peer (raised other_error) s named h = ground arith

  then_admit-goes_on :
      (a : Admitted C P) (later : Admission C P → Admitted C P)
      → goes_on (then_admit a later) ≡ true
      → (goes_on a ≡ true) × (then_admit a later ≡ later (reached a))
  then_admit-goes_on (going s) later h = (refl, refl)
  then_admit-goes_on (stopped s) later h = (h, ground arith)

  covered-admit_one :
      (caller : Caller) (u topic : Text) (s : Admission C P)
      → IsNamed caller
      → goes_on (admit_one caller topic s) ≡ true
      → covered u (reached (admit_one caller topic s)) ≡ (topic == u || covered u s)
  unfolding admit_one admission
  covered-admit_one caller u topic s named h = elim (Bool-cases (is_valid_topic topic)) [
    | inl valid ↦ rw valid (
        covered-admitted_at u topic caller.peer (admission caller topic) s
          (λ resolved e. named topic resolved (
            and_then-ok (authorize_topic caller.authorizers topic) (caller.resolve_topic topic)
              resolved e))
          (subst
            (λ b.
              goes_on (
                if b
                then admitted_at caller.peer topic (admission caller topic) s
                else going
                    (record s { answers = insert topic (refusal event_topic_invalid) s.answers }))
              ≡ true)
            valid h))
    | inr invalid ↦ rw invalid (covered-answered u topic (refusal event_topic_invalid) s.registry s)
  ]

  admit-covered :
      (caller : Caller) (u : Text) (topics : List Text) (s : Admission C P)
      → IsNamed caller
      → goes_on (admit caller topics s) ≡ true
      → covered u s ≡ true
      → covered u (reached (admit caller topics s)) ≡ true
  unfolding admit
  admit-covered caller u [] s named h there = there
  admit-covered caller u (topic ∷ topics) s named h there =
      let step = then_admit-goes_on (admit_one caller topic s) (admit caller topics) h in
      ap (λ a. covered u (reached a)) step.1
      ∙ admit-covered caller u topics (reached (admit_one caller topic s)) named
          (sym (ap goes_on step.1) ∙ h)
          (ground (arith, covered-admit_one caller u topic s named step.0))

  -- The first loop answers or admits every topic.
  pub admit-covers :
      (caller : Caller) (topics : List Text) (s : Admission C P)
      → IsNamed caller
      → goes_on (admit caller topics s) ≡ true
      → All (λ u. covered u (reached (admit caller topics s)) ≡ true) topics
  unfolding admit
  admit-covers caller [] s named h = tt
  admit-covers caller (topic ∷ topics) s named h =
      let step = then_admit-goes_on (admit_one caller topic s) (admit caller topics) h in
      let next = reached (admit_one caller topic s) in
      let on = sym (ap goes_on step.1) ∙ h in
      let first : covered topic next ≡ true =
        ground (arith, covered-admit_one caller topic topic s named step.0, beq_refl topic) in
      subst (λ a. All (λ u. covered u (reached a) ≡ true) (topic ∷ topics)) (sym step.1)
        (
          admit-covered caller topic topics next named on first,
          admit-covers caller topics next named on,
        )
