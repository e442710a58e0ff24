-- ===== src/Registry/Review/Pending.antt =====
-- Which versions are pending: none that an operator decided, and none before the version that was
-- promoted last or that is served.
use contextctl.Common.{
  ℕ, zero, suc, ◌+◌, ◌-◌, ◌≤◌, String, string_instance, ◌≡◌, ◌≢◌, ◌⊎◌, ◌∙◌, subst, append_assoc,
  refl, Bool, true, false, ◌&&◌, Option, List, [], ◌∷◌, ◌++◌, any, any-append, contains, drop, max,
  All, All-if, All-map, ◌==◌, ==_self, ==_iff, arith, if◌then◌else◌, inl, inr, Bool-cases,
}
use contextctl.Registry.Model.{
  CardVersion, CardVersionHistory, LifecycleEvent, EventKind, card_version_promoted,
  card_version_refused,
}
use contextctl.Registry.Versions.{is_validated}
use contextctl.Registry.Review.{
  Decisions, decide_event, decisions, is_current, current_above, version_index_above, pending_from,
  pending_review_card_version_ids,
}

-- What a pending id is: that of a validated version among `later`, not decided and not current.
pub record IsPending (current : Option String) (decided : List String) (later : List CardVersion)
    (id : String) : Type 0 where
  pub undecided : contains id decided ≡ false
  pub not_current : is_current current id ≡ false
  pub behind : any (λ v. v.id == id && is_validated v.validation_state) later ≡ true

pending_from-IsPending :
    (current : Option String) (decided : List String) (n reviewed i : ℕ)
    (versions : List CardVersion)
    → n ≤ reviewed - i
    → All
        (IsPending current decided (drop n versions))
        (pending_from current decided reviewed i versions)
unfolding pending_from any
pending_from-IsPending current decided n reviewed i [] h = tt
pending_from-IsPending current decided zero reviewed i (v ∷ versions) h =
    All-if (IsPending current decided (v ∷ versions)) _ v.id _ (λ e. ground (arith, ==_self v.id))
      (All-map (IsPending current decided versions) _ _
        (λ id p. record {
          undecided = p.undecided;
          not_current = p.not_current;
          behind = ground (arith, p.behind);
        })
        (pending_from-IsPending current decided zero reviewed (i + 1) versions (omega arith)))
pending_from-IsPending current decided (suc n) reviewed i (v ∷ versions) h =
    All-if (IsPending current decided (drop n versions)) _ v.id _ (λ e. absurd (ground arith))
      (pending_from-IsPending current decided n reviewed (i + 1) versions (omega arith))

-- The version that an event decides about.
abbrev pub decides : EventKind → String → Bool
decides (card_version_promoted id previous by remark) k = id == k
decides (card_version_refused id by remark) k = id == k
decides _ k = false

abbrev pub promotes_above : EventKind → List CardVersion → ℕ
promotes_above (card_version_promoted id previous by remark) versions =
    version_index_above id versions
promotes_above _ versions = 0

record Grows (d d' : Decisions) : Type 0 where
  latest : d.latest_promoted ≤ d'.latest_promoted
  decided : (id : String) → contains id d.decided ≡ true → contains id d'.decided ≡ true

Grows-trans : {a b c : Decisions} → Grows a b → Grows b c → Grows a c
Grows-trans f g = record {
  latest = omega (arith, f.latest, g.latest);
  decided = λ id h. g.decided id (f.decided id h);
}

decide_event-Grows :
    (h : CardVersionHistory) (d : Decisions) (k : EventKind) → Grows d (decide_event h d k)
unfolding decide_event contains
decide_event-Grows h d (card_version_promoted id previous by remark) = record {
  latest = omega arith;
  decided = λ x p. ground (arith, any-append (λ n. n == x) d.decided (id ∷ []));
}
decide_event-Grows h d (card_version_refused id by remark) = record {
  latest = omega arith;
  decided = λ x p. ground (arith, any-append (λ n. n == x) d.decided (id ∷ []));
}
decide_event-Grows h d _ = record { latest = omega arith; decided = λ x p. p }

decisions-Grows :
    (h : CardVersionHistory) (d : Decisions) (events : List LifecycleEvent)
    → Grows d (decisions h d events)
unfolding decisions
decisions-Grows h d [] = record { latest = omega arith; decided = λ x p. p }
decisions-Grows h d (event ∷ events) = elim (Bool-cases (event.card_id == h.card_id)) [
  | inl own ↦ rw own (
      Grows-trans (decide_event-Grows h d event.kind)
        (decisions-Grows h (decide_event h d event.kind) events))
  | inr other ↦ rw other (decisions-Grows h d events)
]

decide_event-decides :
    (h : CardVersionHistory) (d : Decisions) (k : EventKind)
    → (promotes_above k h.versions ≤ (decide_event h d k).latest_promoted)
      × ((id : String) → decides k id ≡ true → contains id (decide_event h d k).decided ≡ true)
unfolding decide_event contains any
decide_event-decides h d (card_version_promoted id previous by remark) =
    (omega arith, λ x p. ground (arith, any-append (λ n. n == x) d.decided (id ∷ [])))
decide_event-decides h d (card_version_refused id by remark) =
    (omega arith, λ x p. ground (arith, any-append (λ n. n == x) d.decided (id ∷ [])))
decide_event-decides h d _ = (omega arith, λ x p. cc)

decisions-append :
    (h : CardVersionHistory) (d : Decisions) (xs ys : List LifecycleEvent)
    → decisions h d (xs ++ ys) ≡ decisions h (decisions h d xs) ys
unfolding decisions
decisions-append h d [] ys = refl
decisions-append h d (x ∷ xs) ys =
    decisions-append h (if x.card_id == h.card_id then decide_event h d x.kind else d) xs ys

decisions-own :
    (h : CardVersionHistory) (d : Decisions) (event : LifecycleEvent) (ys : List LifecycleEvent)
    → event.card_id ≡ h.card_id
    → decisions h d (event ∷ ys) ≡ decisions h (decide_event h d event.kind) ys
unfolding decisions
decisions-own h d event ys own = rw ((==_iff event.card_id h.card_id).1 own)

abbrev undecided_start : Decisions
undecided_start = record { decided = []; latest_promoted = 0 }

-- An event among the events takes part in the result.
decisions-event :
    (h : CardVersionHistory) (xs : List LifecycleEvent) (event : LifecycleEvent)
    (ys : List LifecycleEvent)
    → event.card_id ≡ h.card_id
    → (promotes_above event.kind h.versions
        ≤ (decisions h undecided_start (xs ++ event ∷ ys)).latest_promoted)
      × ((id : String)
          → decides event.kind id ≡ true
          → contains id (decisions h undecided_start (xs ++ event ∷ ys)).decided ≡ true)
decisions-event h xs event ys own =
    let before = decisions h undecided_start xs in
    let (latest, decided) = decide_event-decides h before event.kind in
    let later = decisions-Grows h (decide_event h before event.kind) ys in
    rw (decisions-append h undecided_start xs (event ∷ ys), decisions-own h before event ys own)
      (omega (arith, latest, later.latest), λ id p. later.decided id (decided id p))

-- The versions behind the last one that an event or the current pointer settles.
abbrev pub unsettled : CardVersionHistory → EventKind → List CardVersion
unsettled h kind = drop (max (current_above h) (promotes_above kind h.versions)) h.versions

-- Some validated version with the id is among them.
abbrev OneOf : List CardVersion → String → Type 0
OneOf versions id = any (λ v. v.id == id && is_validated v.validation_state) versions ≡ true

-- An event of another Card, or one that leaves the version pending.
abbrev pub LeavesPending : CardVersionHistory → LifecycleEvent → String → Type 0
LeavesPending h event id =
    (event.card_id ≢ h.card_id)
    ⊎ (OneOf (unsettled h event.kind) id × (decides event.kind id ≡ false))

abbrev pub AwaitsDecision : CardVersionHistory → List LifecycleEvent → String → Type 0
AwaitsDecision h events id =
    OneOf (drop (current_above h) h.versions) id
    × (is_current h.current_version_id id ≡ false)
    × All (λ event. LeavesPending h event id) events

module _ (h : CardVersionHistory) where
  pending-OneOf :
      (events : List LifecycleEvent)
      → All
          (λ id.
            OneOf (drop (current_above h) h.versions) id
            × (is_current h.current_version_id id ≡ false))
          (pending_review_card_version_ids h events)
  unfolding pending_review_card_version_ids
  pending-OneOf events =
      let d = decisions h undecided_start events in
      All-map (IsPending h.current_version_id d.decided (drop (current_above h) h.versions)) _ _
        (λ id p. (p.behind, p.not_current))
        (pending_from-IsPending h.current_version_id d.decided (current_above h)
          (max (current_above h) d.latest_promoted) 0 h.versions (omega arith))

  -- With an event of the Card among the events, whatever the others are.
  own-LeavesPending :
      (xs : List LifecycleEvent) (event : LifecycleEvent) (ys : List LifecycleEvent)
      → event.card_id ≡ h.card_id
      → All (LeavesPending h event) (pending_review_card_version_ids h (xs ++ event ∷ ys))
  unfolding pending_review_card_version_ids
  own-LeavesPending xs event ys own =
      let d = decisions h undecided_start (xs ++ event ∷ ys) in
      let (latest, decided) = decisions-event h xs event ys own in
      All-map (IsPending h.current_version_id d.decided (unsettled h event.kind)) _ _
        (λ id p. inr (p.behind, ground (arith, decided id, p.undecided)))
        (pending_from-IsPending h.current_version_id d.decided
          (max (current_above h) (promotes_above event.kind h.versions))
          (max (current_above h) d.latest_promoted) 0 h.versions (omega (arith, latest)))

  other-LeavesPending :
      (event : LifecycleEvent) (ids : List String)
      → event.card_id ≢ h.card_id
      → All (LeavesPending h event) ids
  other-LeavesPending event [] other = tt
  other-LeavesPending event (id ∷ ids) other = (inl other, other-LeavesPending event ids other)

  every-LeavesPending :
      (xs ys events : List LifecycleEvent)
      → xs ++ ys ≡ events
      → All (λ event. All (LeavesPending h event) (pending_review_card_version_ids h events)) ys
  every-LeavesPending xs [] events e = tt
  every-LeavesPending xs (event ∷ ys) events e = (
    elim (Bool-cases (event.card_id == h.card_id)) [
      | inl own ↦
          subst (λ l. All (LeavesPending h event) (pending_review_card_version_ids h l)) e
            (own-LeavesPending xs event ys ((==_iff event.card_id h.card_id).0 own))
      | inr other ↦ other-LeavesPending event _ (ground (arith, ==_iff event.card_id h.card_id))
    ],
    every-LeavesPending (xs ++ event ∷ []) ys events (append_assoc xs (event ∷ []) ys ∙ e),
  )

  -- All the ids, one event after the other, or all the events, one id after the other.
  heads :
      (id : String) (ids : List String) (events : List LifecycleEvent)
      → All (λ event. All (LeavesPending h event) (id ∷ ids)) events
      → All (λ event. LeavesPending h event id) events
        × All (λ event. All (LeavesPending h event) ids) events
  heads id ids [] all = (tt, tt)
  heads id ids (event ∷ events) all =
      let rest = heads id ids events all.1 in ((all.0.0, rest.0), (all.0.1, rest.1))

  AwaitsDecision-of_parts :
      (events : List LifecycleEvent) (ids : List String)
      → All
          (λ id.
            OneOf (drop (current_above h) h.versions) id
            × (is_current h.current_version_id id ≡ false))
          ids
      → All (λ event. All (LeavesPending h event) ids) events
      → All (AwaitsDecision h events) ids
  AwaitsDecision-of_parts events [] here all = tt
  AwaitsDecision-of_parts events (id ∷ ids) here all =
      let parts = heads id ids events all in
      ((here.0.0, here.0.1, parts.0), AwaitsDecision-of_parts events ids here.1 parts.1)

  -- Whatever the events are, and without any: each pending version passed validation, is not the current
  -- one and stands behind it; and each event of the Card leaves it undecided, and behind the version
  -- that the event promoted.
  pub pending-AwaitsDecision :
      (events : List LifecycleEvent)
      → All (AwaitsDecision h events) (pending_review_card_version_ids h events)
  pending-AwaitsDecision events =
      AwaitsDecision-of_parts events _ (pending-OneOf events)
        (every-LeavesPending [] events events refl)
