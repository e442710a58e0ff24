-- ===== src/Registry/Chain.antt =====
-- packages/registry-lifecycle/src/domain/publication-chain.ts: where a Publication stands in the
-- chain of its Source. A diagnostic's sentence is the constructor that holds the ids it names.
use contextctl.Common.{
  String, string_instance, ◌≡◌, ◌↔◌, refl, Bool, true, false, not, Option, none, some, ◌==◌, ==_iff,
  arith, if◌then◌else◌,
}

pub data ConsumptionDiagnosticCode : Type 0 where
  publication_chain_gap publication_chain_forked : ConsumptionDiagnosticCode

pub data DiagnosticDetail : Type 0 where
  predecessor_not_consumed : (awaiting expected_after : String) → DiagnosticDetail
  cursor_of_other_source : (cursor_source publication_source : String) → DiagnosticDetail
  second_chain_start : (publication_id source_id consumed : String) → DiagnosticDetail

pub record ConsumptionDiagnostic : Type 0 where
  pub code : ConsumptionDiagnosticCode
  pub detail : DiagnosticDetail

pub data ChainPosition : Type 0 where
  first next : ChainPosition
  gap : (expected_after awaiting : String) → ConsumptionDiagnostic → ChainPosition
  fork : ConsumptionDiagnostic → ChainPosition

pub record ChainCursor : Type 0 where
  pub source_id : String
  pub publication_id : String

pub record ChainLink : Type 0 where
  pub publication_id : String
  pub source_id : String
  pub previous_publication_id : Option String

abbrev gap_at : String → String → ChainPosition
gap_at expected_after awaiting = gap expected_after awaiting (record {
  code = publication_chain_gap;
  detail = predecessor_not_consumed awaiting expected_after;
})

abbrev fork_at : DiagnosticDetail → ChainPosition
fork_at detail = fork (record { code = publication_chain_forked; detail = detail })

locate_first : ChainLink → Option String → ChainPosition
locate_first link none = first
locate_first link (some previous) = gap_at previous link.publication_id

locate_after : ChainCursor → ChainLink → Option String → ChainPosition
locate_after cursor link none =
    fork_at (second_chain_start link.publication_id link.source_id cursor.publication_id)
locate_after cursor link (some previous) =
    if previous == cursor.publication_id then next else gap_at previous link.publication_id

unfoldable pub locate_in_chain : Option ChainCursor → ChainLink → ChainPosition
unfolding locate_first locate_after
locate_in_chain none link = locate_first link link.previous_publication_id
locate_in_chain (some cursor) link =
    if not (cursor.source_id == link.source_id)
    then fork_at (cursor_of_other_source cursor.source_id link.source_id)
    else locate_after cursor link link.previous_publication_id

-- The predecessor that a cursor stands for.
abbrev pub consumed_up_to : Option ChainCursor → Option String
consumed_up_to none = none
consumed_up_to (some cursor) = some cursor.publication_id

abbrev pub is_consumable : ChainPosition → Bool
is_consumable first = true
is_consumable next = true
is_consumable _ = false

abbrev pub OwnCursor : Option ChainCursor → String → Type 0
OwnCursor none source_id = Unit
OwnCursor (some cursor) source_id = cursor.source_id ≡ source_id

-- With no cursor, or the cursor of the Publication's own Source, a Publication is consumable exactly
-- if the predecessor that it declares is what the cursor stands for: none before the first.
pub locate-is_consumable :
    (cursor : Option ChainCursor) (link : ChainLink)
    → OwnCursor cursor link.source_id
    → (is_consumable (locate_in_chain cursor link) ≡ true)
      ↔ (link.previous_publication_id ≡ consumed_up_to cursor)
unfolding locate_in_chain
locate-is_consumable none link own = (ground arith, ground arith)
locate-is_consumable (some cursor) link own = (toward link.previous_publication_id refl, back)
  where
    toward :
        (previous : Option String)
        → link.previous_publication_id ≡ previous
        → is_consumable (locate_in_chain (some cursor) link) ≡ true
        → link.previous_publication_id ≡ some cursor.publication_id
    toward none e h = ground (arith, ==_iff cursor.source_id link.source_id)
    toward (some p) e h =
        ground (arith, ==_iff cursor.source_id link.source_id, ==_iff p cursor.publication_id)

    back :
        link.previous_publication_id ≡ some cursor.publication_id
        → is_consumable (locate_in_chain (some cursor) link) ≡ true
    back e = ground (
      arith,
      ==_iff cursor.source_id link.source_id,
      ==_iff cursor.publication_id cursor.publication_id,
    )

-- A later Publication than the next one waits: it names the missing predecessor and the
-- Publication that waits for it, and stays consumable once the cursor stands there.
pub locate_gap-is_consumable :
    (cursor : Option ChainCursor) (link : ChainLink) (expected_after awaiting : String)
    (diagnostic : ConsumptionDiagnostic)
    → locate_in_chain cursor link ≡ gap expected_after awaiting diagnostic
    → (awaiting ≡ link.publication_id)
      × (is_consumable (
            locate_in_chain
              (some (record { source_id = link.source_id; publication_id = expected_after }))
              link)
          ≡ true)
unfolding locate_in_chain
locate_gap-is_consumable none link expected_after awaiting diagnostic h =
    ground (arith, ==_iff link.source_id link.source_id, ==_iff expected_after expected_after)
locate_gap-is_consumable (some cursor) link expected_after awaiting diagnostic h =
    ground (arith, ==_iff link.source_id link.source_id, ==_iff expected_after expected_after)
