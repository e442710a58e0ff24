-- ===== src/Registry/Decisions.antt =====
-- packages/registry-lifecycle/src/application/approve-card-version.ts: what an operator decides
-- about a Card, and the limits of domain/card-catalog.ts that a promotion has to keep.
pub mod Outcomes
pub mod Safety
use Prim.Native.Char.{code}
use contextctl.Common.{
  ℕ, ◌+◌, ◌*◌, String, string_instance, Bool, true, false, not, Option, none, some, List, [], ◌∷◌,
  ◌++◌, filter, length, lookup, has_key, ◌==◌, ltb, if◌then◌else◌,
}
use contextctl.Registry.Model.{
  CardMeaning, CardVersion, CardVersionHistory, ContextCard, LifecycleEvent, EventKind,
  card_version_promoted, card_version_refused, card_withdrawn,
}
use contextctl.Registry.Versions.{
  version_key, promote_card_version, withdraw_current_version, precedes_current_card_version,
  get_current_card_version,
}
use contextctl.Registry.Store.{
  Database, CardCatalogEntry, find_card, list_approved_cards, to_card_catalog_entry, write_card,
}
use contextctl.Registry.Effects.{
  World, Supplies, Action, ◌>>=◌, ◌>>◌, return, raise, read, write, defined, checked, next_id, now,
  RegistryError, card_not_found, version_not_in_history, not_a_rollback, oversized_catalog,
  CatalogFinding, card_count, canonical_bytes, token,
}

pub record OperatorDecision : Type 0 where
  pub decided_by : String
  pub remark : Option String

abbrev max_cards : ℕ
max_cards = 10_000

abbrev max_canonical_bytes : ℕ
max_canonical_bytes = 64 * 1_024 * 1_024

abbrev max_token : ℕ
max_token = 256

-- `text.length`, in UTF-16 code units.
unfoldable pub code_units : String → ℕ
code_units String.[] = 0
code_units (String.◌∷◌ c s) = (if ltb (code c) 65_536 then 1 else 2) + code_units s

token_findings : String → List CatalogFinding
token_findings t = if ltb max_token (code_units t) then token t (code_units t) ∷ [] else []

cards_findings : List CardCatalogEntry → List CatalogFinding
unfolding token_findings
cards_findings [] = []
cards_findings (card ∷ cards) =
    token_findings card.card_id ++ (token_findings card.version_id ++ cards_findings cards)

-- `bytes` is canonicalContractByteLength of packages/contracts.
unfoldable pub check_catalog_snapshot_limits :
    (bytes : List CardCatalogEntry → ℕ) → List CardCatalogEntry → List CatalogFinding
unfolding cards_findings
check_catalog_snapshot_limits bytes cards =
    (if ltb max_cards (length cards) then card_count (length cards) ∷ [] else [])
    ++ ((if ltb max_canonical_bytes (bytes cards) then canonical_bytes (bytes cards) ∷ [] else [])
        ++ cards_findings cards)

load_card : String → Action ContextCard
load_card card_id = do
  card ← read (λ db. find_card db card_id)
  defined card (card_not_found card_id)

save : ContextCard → LifecycleEvent → Action ContextCard
save card event = do write (write_card card (event ∷ [])); return card

-- The catalog that a promotion would produce.
unfoldable pub catalog_with : Database → CardCatalogEntry → List CardCatalogEntry
catalog_with db entry =
    filter (λ card. not (card.card_id == entry.card_id)) (list_approved_cards db) ++ entry ∷ []

refuse_findings : List CatalogFinding → Action (Unit {0})
refuse_findings [] = return tt
refuse_findings (f ∷ findings) = raise (oversized_catalog (f ∷ findings))

refuse_entry : (List CardCatalogEntry → ℕ) → Option CardCatalogEntry → Action (Unit {0})
unfolding refuse_findings
refuse_entry bytes none = return tt
refuse_entry bytes (some entry) = do
  catalog ← read (λ db. catalog_with db entry)
  refuse_findings (check_catalog_snapshot_limits bytes catalog)

refuse_oversized_catalog : (List CardCatalogEntry → ℕ) → ContextCard → Action (Unit {0})
unfolding refuse_entry
refuse_oversized_catalog bytes promoted = refuse_entry bytes (to_card_catalog_entry promoted)

-- The Card with the promoted version's own meaning, if that carries one.
with_serving_meaning : ContextCard → Option CardVersion → ContextCard
with_serving_meaning card none = card
with_serving_meaning card (some serving) = elim serving.meaning [
  | none ↦ card
  | some meaning ↦ record card { meaning = meaning }
]

unfoldable pub with_card_versions : ContextCard → CardVersionHistory → ContextCard
with_card_versions card versions = record card { versions = versions }

unfoldable pub promoted_card : ContextCard → String → CardVersionHistory → ContextCard
unfolding with_serving_meaning with_card_versions
promoted_card card version_id versions =
    with_card_versions (with_serving_meaning card (lookup version_key version_id versions.versions))
      versions

module _ (supplies : Supplies) (bytes : List CardCatalogEntry → ℕ) where
  unfoldable pub approve_card_version : String → String → OperatorDecision → Action ContextCard
  unfolding load_card save refuse_oversized_catalog promoted_card
  approve_card_version card_id version_id decision = do
    card ← load_card card_id
    versions ← checked (promote_card_version card.versions version_id)
    let promoted = promoted_card card version_id versions
    refuse_oversized_catalog bytes promoted
    event_id ← next_id supplies
    occurred_at ← now supplies
    save promoted (record {
      id = event_id;
      card_id = card_id;
      occurred_at = occurred_at;
      kind =
          card_version_promoted version_id card.versions.current_version_id decision.decided_by
            decision.remark;
    })

  unfoldable pub rollback_card_version : String → String → OperatorDecision → Action ContextCard
  unfolding approve_card_version
  rollback_card_version card_id version_id decision = do
    card ← load_card card_id
    if not (precedes_current_card_version card.versions version_id)
        then raise (not_a_rollback version_id card_id)
        else approve_card_version card_id version_id decision

  unfoldable pub reject_card_version : String → String → OperatorDecision → Action ContextCard
  unfolding load_card save
  reject_card_version card_id version_id decision = do
    card ← load_card card_id
    if not (has_key version_key version_id card.versions.versions)
        then raise (version_not_in_history version_id card_id)
        else do
          event_id ← next_id supplies
          occurred_at ← now supplies
          save card (record {
            id = event_id;
            card_id = card_id;
            occurred_at = occurred_at;
            kind = card_version_refused version_id decision.decided_by decision.remark;
          })

  unfoldable pub disable_card : String → OperatorDecision → Action ContextCard
  unfolding load_card save with_card_versions
  disable_card card_id decision = do
    card ← load_card card_id
    event_id ← next_id supplies
    occurred_at ← now supplies
    save (with_card_versions card (withdraw_current_version card.versions)) (record {
      id = event_id;
      card_id = card_id;
      occurred_at = occurred_at;
      kind =
          card_withdrawn
            (elim (get_current_card_version card.versions) [ none ↦ none | some v ↦ some v.id ])
            decision.decided_by decision.remark;
    })

-- Any of the calls, for statements about all of them.
pub data Decision : Type 0 where
  approve rollback reject : (card_id version_id : String) → OperatorDecision → Decision
  disable : (card_id : String) → OperatorDecision → Decision

unfoldable pub decide : Supplies → (List CardCatalogEntry → ℕ) → Decision → Action ContextCard
decide supplies bytes (approve card_id version_id d) =
    approve_card_version supplies bytes card_id version_id d
decide supplies bytes (rollback card_id version_id d) =
    rollback_card_version supplies bytes card_id version_id d
decide supplies bytes (reject card_id version_id d) =
    reject_card_version supplies bytes card_id version_id d
decide supplies bytes (disable card_id d) = disable_card supplies bytes card_id d
