-- ===== src/Registry/Decisions/Safety.antt =====
-- The operator's calls keep the tables consistent, and an approved version is what is served.
use contextctl.Common.{
  ℕ, String, string_instance, ◌≡◌, ◌≢◌, ap, refl, sym, subst, ◌∙◌, Option, none, some, List, [],
  ◌∷◌, ◌++◌, lookup, filter, Result, ok, throw, arith, ◌==◌, All,
}
use contextctl.Registry.Model.{
  CardVersion, CardVersionHistory, ContextCard, EventKind, CardValidationState,
}
use contextctl.Registry.Versions.{version_key, promote_card_version, withdraw_current_version}
use contextctl.Registry.Versions.WellFormed.{
  IsWellFormed, promote-eq_ok, promote-IsWellFormed, withdraw-IsWellFormed,
}
use contextctl.Registry.Store.{Database, CardCatalogEntry, find_card, write_card}
use contextctl.Registry.Store.Rows.{Saves, find-write_card, find-write_card_ne}
use contextctl.Registry.Store.Consistent.{
  IsConsistent, write_card-IsConsistent, find_card-IsWellFormed, find_card-Saves,
}
use contextctl.Registry.Effects.{World, Supplies, RegistryError}
use contextctl.Registry.Decisions.{
  OperatorDecision, Decision, approve, rollback, reject, disable, decide, promoted_card,
  with_serving_meaning, approve_card_version,
}
use contextctl.Registry.Decisions.Outcomes.{
  Outcome, Outcome-mono, Approved, approve-Outcome, rollback-Outcome, reject-Outcome,
  disable-Outcome,
}

-- A Card that may replace one that was read: with the same id and the same versions.
Saves-same :
    (db : Database) (before card : ContextCard)
    → Saves db before
    → card.id ≡ before.id
    → card.versions.card_id ≡ before.versions.card_id
    → card.versions.versions ≡ before.versions.versions
    → Saves db card
Saves-same db before card s id own versions = record {
  new = s.new;
  own_history = own ∙ s.own_history ∙ sym id;
  split =
      versions
      ∙ subst
          (λ k. before.versions.versions ≡ filter (λ v. v.card_id == k) db.card_versions ++ s.new)
          (sym id) s.split;
  owned = subst (λ k. All (λ v. v.card_id ≡ k) s.new) (sym id) s.owned;
  fresh = s.fresh;
}

id-with_serving_meaning :
    (card : ContextCard) (serving : Option CardVersion)
    → (with_serving_meaning card serving).id ≡ card.id
unfolding with_serving_meaning
id-with_serving_meaning card none = refl
id-with_serving_meaning card (some serving) = ground arith

-- A Card that may be saved with a well-formed history.
record IsSavable (db : Database) (card : ContextCard) : Type 0 where
  saves : Saves db card
  history : IsWellFormed card.versions

module _ (db : Database) (card_id : String) (before : ContextCard) (c : IsConsistent db)
    (found : find_card db card_id ≡ some before) where
  before-IsSavable : IsSavable db before
  before-IsSavable = record {
    saves = find_card-Saves db card_id before c found;
    history = (find_card-IsWellFormed db card_id before c found).1;
  }

  Approved-IsSavable :
      (version_id : String) (card : ContextCard) (kind : EventKind)
      → Approved version_id before card kind
      → IsSavable db card
  unfolding promoted_card
  Approved-IsSavable version_id card kind (versions, promoted, e) =
      let (v, has, valid, moved) = promote-eq_ok before.versions version_id promoted in
      rw e (record {
        saves =
            Saves-same db before (promoted_card before version_id versions) before-IsSavable.saves
              (id-with_serving_meaning before (lookup version_key version_id versions.versions))
              (rw moved refl) (rw moved refl);
        history = promote-IsWellFormed before.versions version_id before-IsSavable.history promoted;
      })

  withdrawn-IsSavable :
      IsSavable db (record before { versions = withdraw_current_version before.versions })
  unfolding withdraw_current_version
  withdrawn-IsSavable = record {
    saves =
        Saves-same db before (record before { versions = withdraw_current_version before.versions })
          before-IsSavable.saves refl refl refl;
    history = withdraw-IsWellFormed before.versions before-IsSavable.history;
  }

Outcome-IsConsistent :
    (w : World) (r : Result RegistryError ContextCard × World)
    → IsConsistent w.db
    → Outcome w (λ card kind. IsSavable w.db card) r
    → IsConsistent r.1.db
Outcome-IsConsistent w (throw e, w') c same = rw same c
Outcome-IsConsistent w (ok card, w') c (event, written, s) =
    rw written (write_card-IsConsistent w.db card (event ∷ []) c s.saves s.history)

module _ (supplies : Supplies) (bytes : List CardCatalogEntry → ℕ) (w : World) where
  decide-IsSavable :
      (d : Decision)
      → IsConsistent w.db
      → Outcome w (λ card kind. IsSavable w.db card) (decide supplies bytes d w)
  unfolding decide
  decide-IsSavable (approve card_id version_id d) c =
      Outcome-mono w _ _ _
        (λ card kind (before, found, a).
          Approved-IsSavable w.db card_id before c found version_id card kind a)
        (approve-Outcome supplies bytes w card_id d version_id)
  decide-IsSavable (rollback card_id version_id d) c =
      Outcome-mono w _ _ _
        (λ card kind (before, found, (back, a)).
          Approved-IsSavable w.db card_id before c found version_id card kind a)
        (rollback-Outcome supplies bytes w card_id d version_id)
  decide-IsSavable (reject card_id version_id d) c =
      Outcome-mono w _ _ _
        (λ card kind (before, found, e). rw e (before-IsSavable w.db card_id before c found))
        (reject-Outcome supplies bytes w card_id d version_id)
  decide-IsSavable (disable card_id d) c =
      Outcome-mono w _ _ _
        (λ card kind (before, found, e). rw e (withdrawn-IsSavable w.db card_id before c found))
        (disable-Outcome supplies bytes w card_id d)

  -- Every operator's call, also one that throws, keeps the tables consistent: unique ids, and each
  -- current pointer at a validated version of its own Card.
  pub decide-IsConsistent :
      (d : Decision) → IsConsistent w.db → IsConsistent (decide supplies bytes d w).1.db
  decide-IsConsistent d c =
      Outcome-IsConsistent w (decide supplies bytes d w) c (decide-IsSavable d c)

id-promoted_card :
    (before : ContextCard) (version_id : String) (versions : CardVersionHistory)
    → (promoted_card before version_id versions).id ≡ before.id
unfolding promoted_card
id-promoted_card before version_id versions =
    id-with_serving_meaning before (lookup version_key version_id versions.versions)

Outcome-eq_ok :
    (w w' : World) (P : ContextCard → EventKind → Type 0)
    (r : Result RegistryError ContextCard × World) (card : ContextCard)
    → r ≡ (ok card, w')
    → Outcome w P r
    → Outcome w P (ok card, w')
Outcome-eq_ok w w' P r card e h = rw e at h

abbrev ServesVersion : ContextCard → String → Type 0
ServesVersion card version_id =
    (card.versions.current_version_id ≡ some version_id)
    × ((v : CardVersion) × (lookup version_key version_id card.versions.versions ≡ some v)
        × (v.validation_state ≡ CardValidationState.validated))

promoted_card-ServesVersion :
    (before : ContextCard) (version_id : String) (versions : CardVersionHistory)
    → promote_card_version before.versions version_id ≡ ok versions
    → ServesVersion (promoted_card before version_id versions) version_id
unfolding promoted_card
promoted_card-ServesVersion before version_id versions promoted =
    let (v, has, valid, moved) = promote-eq_ok before.versions version_id promoted in
    rw moved (refl, (v, has, valid))

-- When an approval returns a Card, the database holds just that Card under the id: its history is
-- as before, its current version is the approved one, and that one passed validation. Every other
-- Card is as before.
pub approve-serves :
    (supplies : Supplies) (bytes : List CardCatalogEntry → ℕ) (w w' : World)
    (card_id version_id : String) (decision : OperatorDecision) (card : ContextCard)
    → IsConsistent w.db
    → approve_card_version supplies bytes card_id version_id decision w ≡ (ok card, w')
    → (find_card w'.db card_id ≡ some card)
      × (card.versions.current_version_id ≡ some version_id)
      × ((v : CardVersion) × (lookup version_key version_id card.versions.versions ≡ some v)
          × (v.validation_state ≡ CardValidationState.validated))
      × ((other : String) → other ≢ card_id → find_card w'.db other ≡ find_card w.db other)
approve-serves supplies bytes w w' card_id version_id decision card c e =
    let (event, written, (before, found, (versions, promoted, same))) =
      Outcome-eq_ok w w' _ _ card e
        (approve-Outcome supplies bytes w card_id decision version_id) in
    let savable =
      Approved-IsSavable w.db card_id before c found version_id card event.kind
        (versions, promoted, same) in
    let own : card.id ≡ card_id =
      ap (λ k. k.id) same
      ∙ id-promoted_card before version_id versions
      ∙ (find_card-IsWellFormed w.db card_id before c found).0 in
    let (current, served) =
      subst (λ k. ServesVersion k version_id) (sym same)
        (promoted_card-ServesVersion before version_id versions promoted) in
    (
      subst (λ d. find_card d card_id ≡ some card) (sym written)
          (subst (λ k. find_card (write_card card (event ∷ []) w.db) k ≡ some card) own
            (find-write_card w.db card savable.saves (event ∷ []))),
      current,
      served,
      λ other ne.
          ap (λ d. find_card d other) written
          ∙ find-write_card_ne w.db card savable.saves (event ∷ []) other (λ q. ne (sym q ∙ own)),
    )
