-- ===== src/Registry/Review.antt =====
-- packages/registry-lifecycle/src/domain/card-review-state.ts and lifecycle-event.ts: the trail of
-- events, and which versions of a Card still wait for an operator.
pub mod Pending
use contextctl.Common.{
  ℕ, zero, suc, ◌+◌, ◌≤◌, find_last_index, drop, String, string_instance, ◌≡◌, ◌≢◌, ◌<◌, refl, Bool,
  true, false, not, ◌&&◌, Option, none, some, List, [], ◌∷◌, ◌++◌, filter, find_index, contains,
  ◌==◌, ==_iff, arith, ltb, leb, max, if◌then◌else◌, All, All-if, All-map, ==_self, any, map,
  Bool-cases, inl, inr,
}
use contextctl.Registry.Model.{
  CardVersion, CardVersionHistory, LifecycleEvent, EventKind, card_version_promoted,
  card_version_refused,
}
use contextctl.Registry.Versions.{is_validated}

unfoldable pub record_lifecycle_event : List LifecycleEvent → LifecycleEvent → List LifecycleEvent
record_lifecycle_event events event = events ++ event ∷ []

unfoldable pub lifecycle_events_for_card : List LifecycleEvent → String → List LifecycleEvent
lifecycle_events_for_card events card_id = filter (λ event. event.card_id == card_id) events

-- An index, as one above it; 0 is the source's -1.
abbrev above : Option ℕ → ℕ
above none = 0
above (some i) = i + 1

-- `findIndex`, and the index that `versionIndex`, a map built in order, gives.
index_above : String → List CardVersion → ℕ
index_above id versions = above (find_index (λ v. v.id == id) versions)

pub version_index_above : String → List CardVersion → ℕ
version_index_above id versions = above (find_last_index (λ v. v.id == id) versions)

record Decisions : Type 0 where
  decided : List String
  latest_promoted : ℕ

-- The loop over the events.
decide_event : CardVersionHistory → Decisions → EventKind → Decisions
decide_event history d (card_version_promoted id previous by remark) = record {
  decided = d.decided ++ id ∷ [];
  latest_promoted = max d.latest_promoted (version_index_above id history.versions);
}
decide_event history d (card_version_refused id by remark) = record d {
  decided = d.decided ++ id ∷ [];
}
decide_event history d _ = d

decisions : CardVersionHistory → Decisions → List LifecycleEvent → Decisions
unfolding decide_event
decisions history d [] = d
decisions history d (event ∷ events) =
    decisions history
      (if event.card_id == history.card_id then decide_event history d event.kind else d) events

abbrev current_above : CardVersionHistory → ℕ
current_above history = elim history.current_version_id [
  | none ↦ 0
  | some id ↦ index_above id history.versions
]

abbrev pub is_current : Option String → String → Bool
is_current none id = false
is_current (some current) id = id == current

-- The filter, at the index one below `i`.
pending_from : Option String → List String → ℕ → ℕ → List CardVersion → List String
pending_from current decided reviewed i [] = []
pending_from current decided reviewed i (v ∷ versions) =
    let rest = pending_from current decided reviewed (i + 1) versions in
    if is_validated v.validation_state
      && not (contains v.id decided)
      && not (is_current current v.id)
      && ltb reviewed (i + 1)
    then v.id ∷ rest
    else rest

unfoldable pub pending_review_card_version_ids :
    CardVersionHistory → List LifecycleEvent → List String
unfolding decisions pending_from index_above version_index_above
pending_review_card_version_ids history events =
    let d = decisions history (record { decided = []; latest_promoted = 0 }) events in
    pending_from history.current_version_id d.decided
      (max (current_above history) d.latest_promoted) 0 history.versions
