-- ===== src/Registry/Intake/Committed.antt =====
-- intake-publication.ts: an intake commits everything that it changes, or nothing.
use contextctl.Common.{
  String, string_instance, ◌≡◌, refl, ap, ◌∙◌, subst, Option, none, some, List, [], ◌∷◌, ok, throw,
  Result, ◌⊎◌, inl, inr,
}
use contextctl.Registry.Model.{
  CardVersion, CardPolicy, ContextCard, CardMeaning, CardImpact, LifecycleEvent,
}
use contextctl.Registry.Publications.{IngestionPublication}
use contextctl.Registry.Chain.{ChainCursor}
use contextctl.Registry.Store.{Database, IntakenCard, commit, find_card, list_current_versions}
use contextctl.Registry.Assessment.{assess_publication_impact}
use contextctl.Registry.Assessment.Complete.{assess-Reports}
use contextctl.Registry.Effects.{
  World, Action, Supplies, ◌>>=◌, read, defined, checked, continue, next_id, RegistryError,
  publication_not_found,
}
use contextctl.Registry.Effects.Laws.{Keeps, bind-Keeps, defined-Keeps, checked-Keeps}
use contextctl.Registry.Claim.{
  ClaimPorts, ClaimResult, ClaimedCardVersion, already_claimed, claimed, deferred, forked,
  claim_publication,
}
use contextctl.Registry.Intake.Drafted.{
  Carries, entries-Carries, add_claimed_versions-AddsAll, apply_impacts-Extends,
}
use contextctl.Registry.Claim.Positions.{IsAdmissible, claim-IsAdmissible}
use contextctl.Registry.Claim.Keeping.{claim-Keeps}
use contextctl.Registry.Intake.{
  Draft, entries, created, existing_or, load_or_create_card, add_to_history, add_event, add_to_card,
  add_claimed_version, add_claimed_versions, card_under_impact, set_impact, apply_each,
  apply_assessment, assess_current, apply_impacts, commit_at, commit_draft, assess_added, add_all,
  intake_claimed, after_claim, intake_publication,
}

module _ (policy : CardPolicy) (s : Supplies) where
  load_or_create-Keeps : (version : CardVersion) → Keeps (load_or_create_card policy version)
  unfolding load_or_create_card
  load_or_create-Keeps version =
      bind-Keeps (read (λ db. find_card db version.card_id))
        (existing_or (created policy version version.meaning)) (λ w. refl)
        (existing_or-Keeps version.meaning)
    where
      existing_or-Keeps :
          (meaning : Option CardMeaning) (card : Option ContextCard)
          → Keeps (existing_or (created policy version meaning) card)
      existing_or-Keeps meaning (some card) = λ w. refl
      existing_or-Keeps none none = λ w. refl
      existing_or-Keeps (some meaning) none = λ w. refl

  add_claimed_version-Keeps :
      (draft : Draft) (version : CardVersion) → Keeps (add_claimed_version policy s draft version)
  unfolding add_claimed_version add_to_card add_event add_to_history
  add_claimed_version-Keeps draft version =
      bind-Keeps (load_or_create_card policy version) (add_to_card policy s draft version)
        (load_or_create-Keeps version)
        (λ card.
          bind-Keeps (next_id s) (add_event policy draft version card) (λ w. refl)
            (λ id.
              bind-Keeps (checked _) (add_to_history policy draft version card id) (checked-Keeps _)
                (λ history w. refl)))

  add_claimed_versions-Keeps :
      (versions : List ClaimedCardVersion) (draft : Draft)
      → Keeps (add_claimed_versions policy s versions draft)
  unfolding add_claimed_versions
  add_claimed_versions-Keeps [] draft = λ w. refl
  add_claimed_versions-Keeps (first ∷ rest) draft =
      bind-Keeps (add_claimed_version policy s draft first.version)
        (add_claimed_versions policy s rest) (add_claimed_version-Keeps draft first.version)
        (add_claimed_versions-Keeps rest)

apply_each-Keeps :
    (events : List LifecycleEvent) (impacts : List CardImpact) (draft : Draft)
    → Keeps (apply_each events impacts draft)
unfolding apply_each card_under_impact
apply_each-Keeps events [] draft = λ w. refl
apply_each-Keeps events (impact ∷ impacts) draft =
    bind-Keeps (card_under_impact draft impact)
      (λ card. apply_each events impacts (set_impact draft events impact card)) (λ w. refl)
      (λ card. apply_each-Keeps events impacts (set_impact draft events impact card))

apply_impacts-Keeps :
    (s : Supplies) (publication : IngestionPublication) (draft : Draft)
    → Keeps (apply_impacts s publication draft)
unfolding apply_impacts assess_current apply_assessment
apply_impacts-Keeps s publication draft =
    bind-Keeps (read list_current_versions) (assess_current s publication draft) (λ w. refl)
      (λ versions.
        bind-Keeps (assess_publication_impact s publication versions) (apply_assessment draft)
          (λ w. (assess-Reports s publication versions w).4)
          (λ assessment. apply_each-Keeps assessment.events assessment.impacts draft))

module _ (publication_id : String) (cursor : ChainCursor) (versions : List ClaimedCardVersion) where
  -- The Cards that carry the versions were committed on top of the database as it was, or an error left
  -- it alone.
  abbrev SettlesFrom : Database → Result RegistryError ClaimResult × World → Type 0
  SettlesFrom db change =
      ((e : RegistryError) × (change.0 ≡ throw e) × (change.1.db ≡ db))
      ⊎ ((cards : List IntakenCard) × (processed_at : String) × (change.0
            ≡ ok (claimed publication_id cursor versions))
          × (change.1.db ≡ commit cards cursor processed_at db)
          × Carries versions cards)

  abbrev Settles : Action ClaimResult → Type 0
  Settles m = (w : World) → SettlesFrom w.db (m w)

  continue-Settles :
      {A : Type 0} (r : Result RegistryError A) (f : A → Action ClaimResult) (w : World)
      (db : Database)
      → w.db ≡ db
      → ((a : A) → r ≡ ok a → Settles (f a))
      → SettlesFrom db (continue r f w)
  continue-Settles (ok a) f w db same h = subst (λ d. SettlesFrom d (f a w)) same (h a refl w)
  continue-Settles (throw e) f w db same h = inl (e, refl, same)

  bind-Settles :
      {A : Type 0} (m : Action A) (f : A → Action ClaimResult)
      → Keeps m
      → ((a : A) (w : World) → (m w).0 ≡ ok a → Settles (f a))
      → Settles (m >>= f)
  bind-Settles m f kept h w =
      continue-Settles (m w).0 f (m w).1 w.db (kept w) (λ a answered. h a w answered)

  module _ (ports : ClaimPorts) (policy : CardPolicy) where
    commit_draft-Settles :
        (draft : Draft)
        → Carries versions (entries draft)
        → Settles (commit_draft ports policy publication_id cursor versions draft)
    unfolding commit_draft commit_at
    commit_draft-Settles draft carries w =
        inr (entries draft, ports.supplies.time w.clock_reads, refl, refl, carries)

    intake_claimed-Settles : Settles (intake_claimed ports policy publication_id cursor versions)
    unfolding intake_claimed add_all assess_added
    intake_claimed-Settles =
        bind-Settles
          (defined (ports.find_by_id publication_id) (publication_not_found publication_id))
          (add_all ports policy publication_id cursor versions) (defined-Keeps _ _)
          (λ publication _ _.
            bind-Settles (add_claimed_versions policy ports.supplies versions [])
              (assess_added ports policy publication_id cursor versions publication)
              (add_claimed_versions-Keeps policy ports.supplies versions [])
              (λ added w was_added.
                bind-Settles (apply_impacts ports.supplies publication added)
                  (commit_draft ports policy publication_id cursor versions)
                  (apply_impacts-Keeps ports.supplies publication added)
                  (λ drafted w' was_drafted. commit_draft-Settles drafted (
                    entries-Carries versions added drafted
                      (add_claimed_versions-AddsAll policy ports.supplies versions [] added w
                        was_added).carries
                      (apply_impacts-Extends ports.supplies publication added drafted w'
                        was_drafted)))))

abbrev pub IsRefusal : Result RegistryError ClaimResult → Type 0
IsRefusal (ok (claimed publication_id cursor versions)) = ⊥
IsRefusal _ = Unit

module _ (ports : ClaimPorts) (policy : CardPolicy) (publication_id : String) where
  -- What an intake did: nothing, or one commit of a claim that may be made.
  pub record IsCommitted (db : Database) (change : Result RegistryError ClaimResult × World)
      : Type 0 where
    pub cursor : ChainCursor
    pub versions : List ClaimedCardVersion
    pub cards : List IntakenCard
    pub processed_at : String
    pub answer : change.0 ≡ ok (claimed publication_id cursor versions)
    pub stored : change.1.db ≡ commit cards cursor processed_at db
    pub carries : Carries versions cards
    pub claim : IsAdmissible ports db publication_id cursor versions

  abbrev pub IsAtomic : Database → Result RegistryError ClaimResult × World → Type 0
  IsAtomic db change = (IsRefusal change.0 × (change.1.db ≡ db)) ⊎ IsCommitted db change

  after_claim-IsAtomic :
      (answer : ClaimResult) (db : Database) (w : World)
      → w.db ≡ db
      → ((p : String) (cursor : ChainCursor) (versions : List ClaimedCardVersion)
          → answer ≡ claimed p cursor versions
          → (p ≡ publication_id) × IsAdmissible ports db publication_id cursor versions)
      → IsAtomic db (after_claim ports policy answer w)
  unfolding after_claim
  after_claim-IsAtomic (claimed p cursor versions) db w same claim =
      let (own, c) = claim p cursor versions refl in
      elim (intake_claimed-Settles p cursor versions ports policy w) [
        | inl (e, thrown, kept) ↦ inl (rw thrown tt, kept ∙ same)
        | inr (cards, processed_at, returned, stored, carries) ↦ inr (record {
          cursor = cursor;
          versions = versions;
          cards = cards;
          processed_at = processed_at;
          answer = returned ∙ ap (λ q. ok (claimed q cursor versions)) own;
          stored = stored ∙ ap (commit cards cursor processed_at) same;
          carries = carries;
          claim = c;
        })
      ]
  after_claim-IsAtomic (already_claimed p) db w same claim = inl (tt, same)
  after_claim-IsAtomic (deferred p source_id awaiting diagnostic) db w same claim = inl (tt, same)
  after_claim-IsAtomic (forked p source_id diagnostic) db w same claim = inl (tt, same)

  continue-IsAtomic :
      (r : Result RegistryError ClaimResult) (db : Database) (w : World)
      → w.db ≡ db
      → ((p : String) (cursor : ChainCursor) (versions : List ClaimedCardVersion)
          → r ≡ ok (claimed p cursor versions)
          → (p ≡ publication_id) × IsAdmissible ports db publication_id cursor versions)
      → IsAtomic db (continue r (after_claim ports policy) w)
  continue-IsAtomic (throw e) db w same claim = inl (tt, same)
  continue-IsAtomic (ok answer) db w same claim =
      after_claim-IsAtomic answer db w same
        (λ p cursor versions e. claim p cursor versions (ap ok e))

  -- An intake throws or refuses, and has written nothing; or it claims its Publication, which is the
  -- next one of its chain and was not consumed before, and has committed Cards and the cursor in one
  -- step on top of the database as it was. Among these Cards is, for each version of the claim, the event
  -- that tells of it, and the version in the history of its own Card, unless a later version of the claim
  -- is of the same Card.
  pub intake-IsAtomic :
      (w : World) → IsAtomic w.db (intake_publication ports policy publication_id w)
  unfolding intake_publication
  intake-IsAtomic w =
      continue-IsAtomic (claim_publication ports publication_id w).0 w.db
        (claim_publication ports publication_id w).1 (claim-Keeps ports publication_id w)
        (λ p cursor versions e. claim-IsAdmissible ports publication_id w p cursor versions e)
