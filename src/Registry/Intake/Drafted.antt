-- ===== src/Registry/Intake/Drafted.antt =====
-- intake-publication.ts: what the draft of an intake carries for each version that was claimed.
use contextctl.Common.{
  String, string_instance, ◌≡◌, ◌≢◌, refl, sym, ap, ◌∙◌, subst, Bool, true, false, Option, none,
  some, List, [], ◌∷◌, Exists, Exists-append, Exists-append_one, Exists-upsert, Exists-upsert_new,
  lookup, lookup-key, ok, throw, Result, ◌⊎◌, inl, inr, Bool-cases, Option-cases, ◌==◌, ==_iff,
  arith, if◌then◌else◌, value_of_ok,
}
use contextctl.Registry.Model.{
  CardVersion, CardVersionHistory, CardPolicy, ContextCard, CardImpact, LifecycleEvent,
  card_version_added,
}
use contextctl.Registry.Versions.{
  compare_card_version_meaning, append_card_version, VersionError, withdraw_current_version,
}
use contextctl.Registry.Versions.WellFormed.{append-eq_ok}
use contextctl.Registry.Publications.{IngestionPublication}
use contextctl.Registry.Assessment.{assess_publication_impact}
use contextctl.Registry.Store.{IntakenCard, find_card, list_current_versions}
use contextctl.Registry.Effects.{World, Supplies, read, checked, next_id}
use contextctl.Registry.Effects.Laws.{bind-Passed}
use contextctl.Registry.Claim.{ClaimedCardVersion}
use contextctl.Registry.Intake.{
  Draft, DraftEntry, entry_key, draft_get, draft_set, entries, drafted_card, events_before,
  with_change_comparison, last_version, load_or_create_card, add_to_history, add_event, add_to_card,
  add_claimed_version, add_claimed_versions, card_under_impact, set_impact, apply_each, withdraws,
  apply_impacts, assess_current, apply_assessment,
}

-- The version, with what it changes against the one before it.
abbrev pub IsVersion : CardVersion → CardVersion → Type 0
IsVersion version x = x ≡ record version { change_from_previous = x.change_from_previous }

-- The version is in the history of its own Card.
abbrev pub Has : CardVersion → ContextCard → Type 0
Has version card =
    (card.versions.card_id ≡ version.card_id) × Exists (IsVersion version) card.versions.versions

abbrev pub Holds : CardVersion → IntakenCard → Type 0
Holds version c = Has version c.card

-- An event says when the version was added, and from which Publication.
abbrev pub Tells : CardVersion → IntakenCard → Type 0
Tells version c =
    Exists
      (λ event.
        (event.card_id ≡ version.card_id)
        × (event.occurred_at ≡ version.created_at)
        × (event.kind ≡ card_version_added version.id version.lineage.publication_id))
      c.events

-- Every version has its event; and every version is in the history of its Card, unless a later one is
-- of the same Card.
abbrev pub IsSuperseded : CardVersion → List ClaimedCardVersion → Type 0
IsSuperseded version later = Exists (λ other. other.version.card_id ≡ version.card_id) later

abbrev pub Carries : List ClaimedCardVersion → List IntakenCard → Type 0
Carries [] cards = Unit
Carries (first ∷ rest) cards =
    Exists (Tells first.version) cards
    × (IsSuperseded first.version rest ⊎ Exists (Holds first.version) cards)
    × Carries rest cards

-- The same of a draft, whose entries have keys.
abbrev pub TellsAt : CardVersion → DraftEntry → Type 0
TellsAt version entry = Tells version entry.intaken

abbrev pub HoldsAt : CardVersion → DraftEntry → Type 0
HoldsAt version entry = (entry.card_id ≡ version.card_id) × Holds version entry.intaken

draft_set-TellsAt :
    (version : CardVersion) (draft : Draft) (card_id : String) (card : ContextCard)
    (events : List LifecycleEvent)
    → Exists (TellsAt version) draft
    → Exists (TellsAt version) (draft_set draft card_id card events)
unfolding draft_set draft_get
draft_set-TellsAt version draft card_id card events h =
    Exists-upsert entry_key (TellsAt version) _ draft
      (λ old found told. rw found (Exists-append _ old.intaken.events events told)) h

draft_set-HoldsAt :
    (version : CardVersion) (draft : Draft) (card_id : String) (card : ContextCard)
    (events : List LifecycleEvent)
    → ((old : DraftEntry)
        → lookup entry_key card_id draft ≡ some old
        → HoldsAt version old
        → Has version card)
    → Exists (HoldsAt version) draft
    → Exists (HoldsAt version) (draft_set draft card_id card events)
unfolding draft_set
draft_set-HoldsAt version draft card_id card events keeps h =
    Exists-upsert entry_key (HoldsAt version) _ draft
      (λ old found held.
        (sym (lookup-key entry_key card_id draft old found) ∙ held.0, keeps old found held))
      h

draft_set-HoldsAt_ne :
    (version : CardVersion) (draft : Draft) (card_id : String) (card : ContextCard)
    (events : List LifecycleEvent)
    → card_id ≢ version.card_id
    → Exists (HoldsAt version) draft
    → Exists (HoldsAt version) (draft_set draft card_id card events)
draft_set-HoldsAt_ne version draft card_id card events apart =
    draft_set-HoldsAt version draft card_id card events (λ old found held.
      absurd (apart (sym (lookup-key entry_key card_id draft old found) ∙ held.0)))

abbrev pub CarriesAt : List ClaimedCardVersion → Draft → Type 0
CarriesAt [] draft = Unit
CarriesAt (first ∷ rest) draft =
    Exists (TellsAt first.version) draft
    × (IsSuperseded first.version rest ⊎ Exists (HoldsAt first.version) draft)
    × CarriesAt rest draft

-- What is carried stays carried.
pub record Extends (before after : Draft) : Type 0 where
  pub tells :
      (version : CardVersion) → Exists (TellsAt version) before → Exists (TellsAt version) after
  pub holds :
      (version : CardVersion) → Exists (HoldsAt version) before → Exists (HoldsAt version) after

Extends-refl : (draft : Draft) → Extends draft draft
Extends-refl draft = record { tells = λ v h. h; holds = λ v h. h }

Extends-trans : (a b c : Draft) → Extends a b → Extends b c → Extends a c
Extends-trans a b c f g = record {
  tells = λ v h. g.tells v (f.tells v h);
  holds = λ v h. g.holds v (f.holds v h);
}

pub drafted_card-eq :
    (found : Option DraftEntry) (stored : Option ContextCard) (old : DraftEntry)
    (card : ContextCard)
    → found ≡ some old
    → drafted_card found stored ≡ some card
    → old.intaken.card ≡ card
drafted_card-eq none stored old card h e = cc
drafted_card-eq (some entry) stored old card h e = cc

withdraw-Has :
    (withdrawn : Bool) (version : CardVersion) (card : ContextCard)
    → Has version card
    → Has version (
        if withdrawn
        then record card { versions = withdraw_current_version card.versions }
        else card)
unfolding withdraw_current_version
withdraw-Has true version card h = h
withdraw-Has false version card h = h

set_impact-Extends :
    (draft : Draft) (events : List LifecycleEvent) (impact : CardImpact)
    (stored drafted : Option ContextCard)
    → drafted_card (draft_get draft impact.card_id) stored ≡ drafted
    → Extends draft (set_impact draft events impact drafted)
unfolding set_impact draft_get
set_impact-Extends draft events impact stored none e = Extends-refl draft
set_impact-Extends draft events impact stored (some card) e = record {
  tells = λ v h. draft_set-TellsAt v draft impact.card_id _ _ h;
  holds = λ v h.
      draft_set-HoldsAt v draft impact.card_id _ _
        (λ old found held.
          withdraw-Has (withdraws impact.decision) v card
            (subst (Has v) (drafted_card-eq _ stored old card found e) held.1))
        h;
}

apply_each-Extends :
    (events : List LifecycleEvent) (impacts : List CardImpact) (draft result : Draft) (w : World)
    → (apply_each events impacts draft w).0 ≡ ok result
    → Extends draft result
unfolding apply_each card_under_impact
apply_each-Extends events [] draft result w h =
    subst (Extends draft) (value_of_ok draft result h) (Extends-refl draft)
apply_each-Extends events (impact ∷ impacts) draft result w h =
    let drafted = drafted_card (draft_get draft impact.card_id) (find_card w.db impact.card_id) in
    Extends-trans draft (set_impact draft events impact drafted) result
      (set_impact-Extends draft events impact (find_card w.db impact.card_id) drafted refl)
      (apply_each-Extends events impacts (set_impact draft events impact drafted) result w h)

pub apply_impacts-Extends :
    (s : Supplies) (publication : IngestionPublication) (draft result : Draft) (w : World)
    → (apply_impacts s publication draft w).0 ≡ ok result
    → Extends draft result
unfolding apply_impacts assess_current apply_assessment
apply_impacts-Extends s publication draft result w h =
    let (versions, _, assessed, _) =
      bind-Passed (read list_current_versions) (assess_current s publication draft) result w h in
    let (assessment, _, applied, _) =
      bind-Passed (assess_publication_impact s publication versions) (apply_assessment draft) result
        w assessed in
    apply_each-Extends assessment.events assessment.impacts draft result _ applied

checked_passed :
    (r : Result VersionError CardVersionHistory) (history : CardVersionHistory) (w : World)
    → (checked r w).0 ≡ ok history
    → r ≡ ok history
checked_passed (ok h) history w e = cc
checked_passed (throw error) history w e = cc

with_change-IsVersion :
    (card : ContextCard) (version : CardVersion)
    → IsVersion version (with_change_comparison card version)
unfolding with_change_comparison
with_change-IsVersion card version = elim (Option-cases (last_version card.versions.versions)) [
  | inl e ↦ rw (with_change_comparison, e) refl
  | inr (previous, e) ↦ elim (Option-cases (compare_card_version_meaning previous version)) [
    | inl f ↦ rw (with_change_comparison, e, f) refl
    | inr (comparison, f) ↦ rw (with_change_comparison, e, f) refl
  ]
]

module _ (policy : CardPolicy) (s : Supplies) where
  -- One version more.
  record Adds (version : CardVersion) (before after : Draft) : Type 0 where
    tells : (v : CardVersion) → Exists (TellsAt v) before → Exists (TellsAt v) after
    holds :
        (v : CardVersion)
        → version.card_id ≢ v.card_id
        → Exists (HoldsAt v) before
        → Exists (HoldsAt v) after
    told : Exists (TellsAt version) after
    held : Exists (HoldsAt version) after

  appended-Has :
      (card : ContextCard) (version x : CardVersion) (history : CardVersionHistory)
      → append_card_version card.versions x ≡ ok history
      → IsVersion version x
      → Has version (record card { versions = history })
  appended-Has card version x history appended same =
      let (own, _, eq) = append-eq_ok card.versions x appended in
      (
        ap (λ h. h.card_id) eq ∙ sym own ∙ ap (λ v. v.card_id) same,
        subst (λ h. Exists (IsVersion version) h.versions) (sym eq)
            (Exists-append_one (IsVersion version) card.versions.versions x same),
      )

  draft_set-Adds :
      (draft : Draft) (version : CardVersion) (card : ContextCard) (event : LifecycleEvent)
      → Has version card
      → event.card_id ≡ version.card_id
      → event.occurred_at ≡ version.created_at
      → event.kind ≡ card_version_added version.id version.lineage.publication_id
      → Adds version draft (draft_set draft version.card_id card (event ∷ []))
  unfolding draft_set
  draft_set-Adds draft version card event has own at kind = record {
    tells = λ v h. draft_set-TellsAt v draft version.card_id card (event ∷ []) h;
    holds = λ v apart h. draft_set-HoldsAt_ne v draft version.card_id card (event ∷ []) apart h;
    told = Exists-upsert_new entry_key (TellsAt version) _ draft (
        Exists-append_one _ (events_before (draft_get draft version.card_id)) event
          (own, at, kind));
    held = Exists-upsert_new entry_key (HoldsAt version) _ draft (refl, has);
  }

  add_claimed_version-Adds :
      (draft result : Draft) (version : CardVersion) (w : World)
      → (add_claimed_version policy s draft version w).0 ≡ ok result
      → Adds version draft result
  unfolding add_claimed_version add_to_card add_event add_to_history
  add_claimed_version-Adds draft result version w h =
      let (card, _, loaded, _) =
        bind-Passed (load_or_create_card policy version) (add_to_card policy s draft version) result
          w h in
      let (event_id, _, named, _) =
        bind-Passed (next_id s) (add_event policy draft version card) result _ loaded in
      let (history, appended, set, _) =
        bind-Passed
          (checked (append_card_version card.versions (with_change_comparison card version)))
          (add_to_history policy draft version card event_id) result _ named in
      subst (Adds version draft) (value_of_ok _ result set) (
        draft_set-Adds draft version (record card { versions = history }) _
          (appended-Has card version (with_change_comparison card version) history
            (checked_passed _ history _ appended) (with_change-IsVersion card version))
          refl refl refl)

  -- What the loop over the claimed versions does to a draft.
  pub record AddsAll (versions : List ClaimedCardVersion) (before after : Draft) : Type 0 where
    pub tells : (v : CardVersion) → Exists (TellsAt v) before → Exists (TellsAt v) after
    pub holds :
        (v : CardVersion)
        → IsSuperseded v versions ⊎ (Exists (HoldsAt v) before → Exists (HoldsAt v) after)
    pub carries : CarriesAt versions after

  AddsAll-cons :
      (first : ClaimedCardVersion) (rest : List ClaimedCardVersion) (before one after : Draft)
      → Adds first.version before one
      → AddsAll rest one after
      → AddsAll (first ∷ rest) before after
  AddsAll-cons first rest before one after step others = record {
    tells = λ v t. others.tells v (step.tells v t);
    holds = λ v. elim (others.holds v) [
      | inl later ↦ inl (inr later)
      | inr kept ↦ elim (Bool-cases (first.version.card_id == v.card_id)) [
        | inl hit ↦ inl (inl ((==_iff first.version.card_id v.card_id).0 hit))
        | inr miss ↦
            let apart : first.version.card_id ≢ v.card_id =
              ground (arith, ==_iff first.version.card_id v.card_id) in
            inr (λ t. kept (step.holds v apart t))
      ]
    ];
    carries = (
      others.tells first.version step.told,
      elim (others.holds first.version) [ inl later ↦ inl later | inr kept ↦ inr (kept step.held) ],
      others.carries,
    );
  }

  pub add_claimed_versions-AddsAll :
      (versions : List ClaimedCardVersion) (draft result : Draft) (w : World)
      → (add_claimed_versions policy s versions draft w).0 ≡ ok result
      → AddsAll versions draft result
  unfolding add_claimed_versions
  add_claimed_versions-AddsAll [] draft result w h =
      subst (AddsAll [] draft) (value_of_ok draft result h)
        (record { tells = λ v t. t; holds = λ v. inr (λ t. t); carries = tt })
  add_claimed_versions-AddsAll (first ∷ rest) draft result w h =
      let (one, added, more, _) =
        bind-Passed (add_claimed_version policy s draft first.version)
          (add_claimed_versions policy s rest) result w h in
      let step = add_claimed_version-Adds draft one first.version w added in
      AddsAll-cons first rest draft one result step
        (add_claimed_versions-AddsAll rest one result _ more)

Exists-entries :
    (P : IntakenCard → Type 0) (draft : Draft)
    → Exists (λ entry. P entry.intaken) draft
    → Exists P (entries draft)
Exists-entries P [] h = absurd h
Exists-entries P (entry ∷ draft) (inl h) = inl h
Exists-entries P (entry ∷ draft) (inr h) = inr (Exists-entries P draft h)

Holds-of_HoldsAt :
    (version : CardVersion) (draft : Draft)
    → Exists (HoldsAt version) draft
    → Exists (λ entry. Holds version entry.intaken) draft
Holds-of_HoldsAt version [] h = absurd h
Holds-of_HoldsAt version (entry ∷ draft) (inl h) = inl h.1
Holds-of_HoldsAt version (entry ∷ draft) (inr h) = inr (Holds-of_HoldsAt version draft h)

-- After the assessment, the committed Cards carry every claimed version.
pub entries-Carries :
    (versions : List ClaimedCardVersion) (added drafted : Draft)
    → CarriesAt versions added
    → Extends added drafted
    → Carries versions (entries drafted)
entries-Carries [] added drafted h extends = tt
entries-Carries (first ∷ rest) added drafted (told, held, others) extends = (
  Exists-entries (Tells first.version) drafted (extends.tells first.version told),
  elim held [
    | inl later ↦ inl later
    | inr h ↦ inr (
        Exists-entries (Holds first.version) drafted
          (Holds-of_HoldsAt first.version drafted (extends.holds first.version h)))
  ],
  entries-Carries rest added drafted others extends,
)
