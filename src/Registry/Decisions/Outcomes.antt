-- ===== src/Registry/Decisions/Outcomes.antt =====
-- What the operator's calls do to the database when they succeed, and that they do nothing to it
-- when they fail.
use contextctl.Common.{
  ℕ, String, string_instance, ◌≡◌, refl, true, Option, none, some, List, [], ◌∷◌, has_key, Result,
  ok, throw, arith, Result-cases, ◌⊎◌, Option-cases, Bool-cases, inl, inr,
}
use contextctl.Registry.Model.{CardVersionHistory, ContextCard, LifecycleEvent, EventKind}
use contextctl.Registry.Versions.{
  version_key, promote_card_version, withdraw_current_version, precedes_current_card_version,
}
use contextctl.Registry.Store.{CardCatalogEntry, find_card, write_card, to_card_catalog_entry}
use contextctl.Registry.Effects.{World, Supplies, RegistryError, CatalogFinding, oversized_catalog}
use contextctl.Registry.Decisions.{
  OperatorDecision, check_catalog_snapshot_limits, catalog_with, promoted_card, refuse_entry,
  refuse_findings, approve_card_version, rollback_card_version, reject_card_version, disable_card,
}

-- A call either throws and leaves the database, or saves the Card that it returns, with one event.
abbrev pub Outcome :
    World → (ContextCard → EventKind → Type 0) → Result RegistryError ContextCard × World → Type 0
Outcome w P (throw e, w') = w'.db ≡ w.db
Outcome w P (ok card, w') =
    (event : LifecycleEvent) × (w'.db ≡ write_card card (event ∷ []) w.db) × P card event.kind

pub Outcome-mono :
    (w : World) (P Q : ContextCard → EventKind → Type 0)
    (r : Result RegistryError ContextCard × World)
    → ((card : ContextCard) (kind : EventKind) → P card kind → Q card kind)
    → Outcome w P r
    → Outcome w Q r
Outcome-mono w P Q (throw e, w') f h = h
Outcome-mono w P Q (ok card, w') f (event, written, p) = (event, written, f card event.kind p)

-- The limits let the promotion through, or throw; neither writes.
RefuseCases : World → Result RegistryError (Unit {0}) × World → Type 0
RefuseCases w r = (r ≡ (ok tt, w)) ⊎ ((e : RegistryError) × (r ≡ (throw e, w)))

refuse_findings_cases :
    (w : World) (findings : List CatalogFinding) → RefuseCases w (refuse_findings findings w)
unfolding refuse_findings RefuseCases
refuse_findings_cases w [] = inl refl
refuse_findings_cases w (f ∷ findings) = inr (oversized_catalog (f ∷ findings), refl)

refuse_entry_cases :
    (w : World) (bytes : List CardCatalogEntry → ℕ) (entry : Option CardCatalogEntry)
    → RefuseCases w (refuse_entry bytes entry w)
unfolding refuse_entry RefuseCases
refuse_entry_cases w bytes none = inl refl
refuse_entry_cases w bytes (some entry) =
    refuse_findings_cases w (check_catalog_snapshot_limits bytes (catalog_with w.db entry))

-- A property of the Card that a call starts from, and of the one that it saves.
abbrev pub Loaded :
    World
    → String
    → (ContextCard → ContextCard → EventKind → Type 0)
    → ContextCard
    → EventKind
    → Type 0
Loaded w card_id Q card kind =
    (before : ContextCard) × (find_card w.db card_id ≡ some before) × Q before card kind

abbrev pub Approved : String → ContextCard → ContextCard → EventKind → Type 0
Approved version_id before card kind =
    (versions : CardVersionHistory) × (promote_card_version before.versions version_id
      ≡ ok versions)
    × (card ≡ promoted_card before version_id versions)

module _ (supplies : Supplies) (bytes : List CardCatalogEntry → ℕ) (w : World) (card_id : String)
    (decision : OperatorDecision) where
  -- Disabling clears the current pointer and nothing else.
  pub disable-Outcome :
      Outcome w
        (Loaded w card_id (λ before card kind.
          card ≡ record before { versions = withdraw_current_version before.versions }))
        (disable_card supplies bytes card_id decision w)
  unfolding disable_card
  disable-Outcome = elim (Option-cases (find_card w.db card_id)) [
    | inl missing ↦ rw missing refl
    | inr (before, found) ↦ rw (found, disable_card) (_, refl, (before, found, refl))
  ]

  -- Rejecting a version of the history leaves the Card as it was.
  pub reject-Outcome :
      (version_id : String)
      → Outcome w
          (Loaded w card_id (λ before card kind. card ≡ before))
          (reject_card_version supplies bytes card_id version_id decision w)
  unfolding reject_card_version
  reject-Outcome version_id = elim (Option-cases (find_card w.db card_id)) [
    | inl missing ↦ rw missing refl
    | inr (before, found) ↦
        elim (Bool-cases (has_key version_key version_id before.versions.versions)) [
          | inl known ↦ rw (found, known) (_, refl, (before, found, refl))
          | inr unknown ↦ rw (found, unknown) refl
        ]
  ]

  -- Approving promotes the version in the Card's history, and carries its meaning to the Card.
  pub approve-Outcome :
      (version_id : String)
      → Outcome w
          (Loaded w card_id (Approved version_id))
          (approve_card_version supplies bytes card_id version_id decision w)
  unfolding approve_card_version RefuseCases
  approve-Outcome version_id = elim (Option-cases (find_card w.db card_id)) [
    | inl missing ↦ rw missing refl
    | inr (before, found) ↦ elim (Result-cases (promote_card_version before.versions version_id)) [
      | inr (e, refused) ↦ rw (found, refused) refl
      | inl (versions, promoted) ↦
          elim (refuse_entry_cases w bytes
            (to_card_catalog_entry (promoted_card before version_id versions))) [
              | inl fits ↦
                  rw (found, promoted, fits) (_, refl, (before, found, (versions, promoted, refl)))
              | inr (e, oversized) ↦ rw (found, promoted, oversized) refl
            ]
    ]
  ]

  -- A rollback is an approval of a version that precedes the current one.
  pub rollback-Outcome :
      (version_id : String)
      → Outcome w
          (Loaded w card_id (λ before card kind.
            (precedes_current_card_version before.versions version_id ≡ true)
            × Approved version_id before card kind))
          (rollback_card_version supplies bytes card_id version_id decision w)
  unfolding rollback_card_version
  rollback-Outcome version_id = elim (Option-cases (find_card w.db card_id)) [
    | inl missing ↦ rw missing refl
    | inr (before, found) ↦
        elim (Bool-cases (precedes_current_card_version before.versions version_id)) [
          | inl back ↦
              rw (found, back)
                (Outcome-mono w (Loaded w card_id (Approved version_id)) _
                  (approve_card_version supplies bytes card_id version_id decision w)
                  (λ card kind (before', found', approved).
                    let same : before ≡ before' = ground (arith, found, found') in
                    (before', found', (rw same at back, approved)))
                  (approve-Outcome version_id))
          | inr forward ↦ rw (found, forward) refl
        ]
  ]
