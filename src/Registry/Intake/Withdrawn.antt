-- ===== src/Registry/Intake/Withdrawn.antt =====
-- intake-publication.ts: the Cards that the impacts of a Publication withdraw.
use contextctl.Common.{
  String, string_instance, ◌≡◌, refl, sym, ap, ◌∙◌, subst, Bool, true, false, Option, none, some,
  List, [], ◌∷◌, All, Exists, Exists-upsert, Exists-upsert_new, lookup-key, ok, value_of_ok, ◌⊎◌,
  inl, inr, if◌then◌else◌, Result,
}
use contextctl.Registry.Model.{
  CardImpact, ContextCard, LifecycleEvent, CardVersion, CardImpactDecision, disable, block, review,
  unaffected,
}
use contextctl.Registry.Publications.{IngestionPublication}
use contextctl.Registry.Versions.{withdraw_current_version}
use contextctl.Registry.Assessment.{assess_publication_impact, document_indexes_with_removals}
use contextctl.Registry.Assessment.Complete.{assess-Reports, affected, all_impacts}
use contextctl.Registry.Store.{Database, find_card, list_current_versions}
use contextctl.Registry.Effects.{World, Supplies, Action, read, continue, RegistryError}
use contextctl.Registry.Effects.Laws.{bind-Passed}
use contextctl.Registry.Intake.{
  Draft, DraftEntry, entry_key, draft_get, draft_set, drafted_card, card_under_impact, set_impact,
  apply_each, withdraws, apply_impacts, assess_current, apply_assessment,
}
use contextctl.Registry.Intake.Drafted.{drafted_card-eq}

abbrev IsWithdrawn : ContextCard → Type 0
IsWithdrawn card = card.versions.current_version_id ≡ none

abbrev Withdraws : (card_id : String) → DraftEntry → Type 0
Withdraws card_id entry = (entry.card_id ≡ card_id) × IsWithdrawn entry.intaken.card

-- A decision that lets the Card go on serving.
abbrev LeavesServing : CardImpactDecision → Type 0
LeavesServing decision = (decision ≡ review) ⊎ (decision ≡ unaffected)

withdraws-LeavesServing :
    (decision : CardImpactDecision) → withdraws decision ≡ false → LeavesServing decision
unfolding withdraws
withdraws-LeavesServing disable h = cc
withdraws-LeavesServing block h = cc
withdraws-LeavesServing review h = inl refl
withdraws-LeavesServing unaffected h = inr refl

-- The impact lets the Card serve, its Card is not stored, or the draft has the Card without a current
-- version.
abbrev pub IsApplied : Database → Draft → CardImpact → Type 0
IsApplied db draft impact =
    LeavesServing impact.decision
    ⊎ ((find_card db impact.card_id ≡ none) ⊎ Exists (Withdraws impact.card_id) draft)

if-IsWithdrawn :
    (withdrawn : Bool) (card : ContextCard)
    → IsWithdrawn card
    → IsWithdrawn (
        if withdrawn
        then record card { versions = withdraw_current_version card.versions }
        else card)
unfolding withdraw_current_version
if-IsWithdrawn true card h = refl
if-IsWithdrawn false card h = h

set_impact-keeps :
    (card_id : String) (draft : Draft) (events : List LifecycleEvent) (impact : CardImpact)
    (stored drafted : Option ContextCard)
    → drafted_card (draft_get draft impact.card_id) stored ≡ drafted
    → Exists (Withdraws card_id) draft
    → Exists (Withdraws card_id) (set_impact draft events impact drafted)
unfolding set_impact draft_get draft_set
set_impact-keeps card_id draft events impact stored none e h = h
set_impact-keeps card_id draft events impact stored (some card) e h =
    Exists-upsert entry_key (Withdraws card_id) _ draft
      (λ old found gone. (
        sym (lookup-key entry_key impact.card_id draft old found) ∙ gone.0,
        if-IsWithdrawn (withdraws impact.decision) card
            (subst IsWithdrawn (drafted_card-eq _ stored old card found e) gone.1),
      ))
      h

not_stored :
    (found : Option DraftEntry) (stored : Option ContextCard)
    → drafted_card found stored ≡ none
    → stored ≡ none
not_stored none stored e = e
not_stored (some entry) stored e = cc

set_impact-IsApplied :
    (db : Database) (draft : Draft) (events : List LifecycleEvent) (impact : CardImpact)
    (drafted : Option ContextCard) (withdrawn : Bool)
    → drafted_card (draft_get draft impact.card_id) (find_card db impact.card_id) ≡ drafted
    → withdraws impact.decision ≡ withdrawn
    → IsApplied db (set_impact draft events impact drafted) impact
unfolding set_impact draft_set withdraw_current_version
set_impact-IsApplied db draft events impact drafted false e w =
    inl (withdraws-LeavesServing impact.decision w)
set_impact-IsApplied db draft events impact none true e w = inr (inl (not_stored _ _ e))
set_impact-IsApplied db draft events impact (some card) true e w =
    inr (inr (Exists-upsert_new entry_key (Withdraws impact.card_id) _ draft (refl, rw w refl)))

apply_each-keeps :
    (card_id : String) (events : List LifecycleEvent) (impacts : List CardImpact)
    (draft result : Draft) (w : World)
    → (apply_each events impacts draft w).0 ≡ ok result
    → Exists (Withdraws card_id) draft
    → Exists (Withdraws card_id) result
unfolding apply_each card_under_impact
apply_each-keeps card_id events [] draft result w h gone =
    subst (Exists (Withdraws card_id)) (value_of_ok draft result h) gone
apply_each-keeps card_id events (impact ∷ impacts) draft result w h gone =
    let drafted = drafted_card (draft_get draft impact.card_id) (find_card w.db impact.card_id) in
    apply_each-keeps card_id events impacts (set_impact draft events impact drafted) result w h (
      set_impact-keeps card_id draft events impact (find_card w.db impact.card_id) drafted refl
        gone)

apply_each-IsApplied :
    (events : List LifecycleEvent) (impacts : List CardImpact) (draft result : Draft) (w : World)
    → (apply_each events impacts draft w).0 ≡ ok result
    → All (IsApplied w.db result) impacts
unfolding apply_each card_under_impact
apply_each-IsApplied events [] draft result w h = tt
apply_each-IsApplied events (impact ∷ impacts) draft result w h =
    let drafted = drafted_card (draft_get draft impact.card_id) (find_card w.db impact.card_id) in
    let after = set_impact draft events impact drafted in
    (
      elim (set_impact-IsApplied w.db draft events impact drafted (withdraws impact.decision) refl
          refl) [
            | inl keeps ↦ inl keeps
            | inr (inl missing) ↦ inr (inl missing)
            | inr (inr gone) ↦
                inr (inr (apply_each-keeps impact.card_id events impacts after result w h gone))
          ],
      apply_each-IsApplied events impacts after result w h,
    )

assessed-IsApplied :
    (s : Supplies) (publication : IngestionPublication) (draft result : Draft)
    (versions : List CardVersion) (w : World)
    → (assess_current s publication draft versions w).0 ≡ ok result
    → All (IsApplied w.db result) (
        affected
          (all_impacts publication (document_indexes_with_removals publication versions) versions))
unfolding assess_current apply_assessment
assessed-IsApplied s publication draft result versions w h =
    let (assessment, answered, applied, _) =
      bind-Passed (assess_publication_impact s publication versions) (apply_assessment draft) result
        w h in
    let (reported, answer, impacts, _, kept) = assess-Reports s publication versions w in
    let same : reported ≡ assessment = value_of_ok reported assessment (sym answer ∙ answered) in
    subst
      (λ db. All (IsApplied db result) (
        affected
          (all_impacts publication (document_indexes_with_removals publication versions) versions)))
      kept
      (subst (All (IsApplied (assess_publication_impact s publication versions w).1.db result))
        (ap (λ a. a.impacts) (sym same) ∙ impacts)
        (apply_each-IsApplied assessment.events assessment.impacts draft result _ applied))

impacts-IsApplied :
    (s : Supplies) (publication : IngestionPublication) (draft result : Draft) (w : World)
    → (apply_impacts s publication draft w).0 ≡ ok result
    → let serving = list_current_versions w.db in
      All (IsApplied w.db result) (
        affected
          (all_impacts publication (document_indexes_with_removals publication serving) serving))
unfolding apply_impacts
impacts-IsApplied s publication draft result w h =
    let (versions, listed, assessed, _) =
      bind-Passed (read list_current_versions) (assess_current s publication draft) result w h in
    let same : versions ≡ list_current_versions w.db =
      sym (value_of_ok (list_current_versions w.db) versions listed) in
    subst
      (λ serving. All (IsApplied w.db result) (
        affected
          (all_impacts publication (document_indexes_with_removals publication serving) serving)))
      same (assessed-IsApplied s publication draft result versions w assessed)

abbrev Returns : {A : Type 0} → Action A → World → Type 0
Returns {A} m w = (a : A) × ((m w).0 ≡ ok a)

continue-Returns :
    {A B : Type 0} (r : Result RegistryError A) (f : A → Action B) (a : A) (w : World)
    → r ≡ ok a
    → Returns (f a) w
    → (b : B) × ((continue r f w).0 ≡ ok b)
continue-Returns r f a w same (b, h) = (b, rw same h)

apply_each-Returns :
    (events : List LifecycleEvent) (impacts : List CardImpact) (draft : Draft) (w : World)
    → Returns (apply_each events impacts draft) w
unfolding apply_each card_under_impact
apply_each-Returns events [] draft w = (draft, refl)
apply_each-Returns events (impact ∷ impacts) draft w =
    apply_each-Returns events impacts
      (set_impact draft events impact
        (drafted_card (draft_get draft impact.card_id) (find_card w.db impact.card_id)))
      w

apply_impacts-Returns :
    (s : Supplies) (publication : IngestionPublication) (draft : Draft) (w : World)
    → Returns (apply_impacts s publication draft) w
unfolding apply_impacts assess_current apply_assessment
apply_impacts-Returns s publication draft w =
    let versions = list_current_versions w.db in
    let (reported, answer, _, _, _) = assess-Reports s publication versions w in
    let assessed = assess_publication_impact s publication versions w in
    continue-Returns assessed.0 (apply_assessment draft) reported assessed.1 answer
      (apply_each-Returns reported.events reported.impacts draft assessed.1)

-- Applying the impacts of a Publication to the draft of an intake always returns a draft: for each impact
-- that the rules give for a serving version and a change, and that disables or blocks, it has the Card
-- without a current version, unless the Card is not stored.
pub apply_impacts-IsApplied :
    (s : Supplies) (publication : IngestionPublication) (draft : Draft) (w : World)
    → let serving = list_current_versions w.db in
      (result : Draft) × ((apply_impacts s publication draft w).0 ≡ ok result)
      × All (IsApplied w.db result) (
          affected
            (all_impacts publication (document_indexes_with_removals publication serving) serving))
apply_impacts-IsApplied s publication draft w =
    let (result, returned) = apply_impacts-Returns s publication draft w in
    (result, returned, impacts-IsApplied s publication draft result w returned)
