-- ===== src/Registry/Claim/Positions.antt =====
-- claim-publication.ts: a claim is of only what is next in its chain.
use contextctl.Common.{
  String, string_instance, ◌≡◌, ◌≢◌, refl, subst, Bool, true, false, Option, none, some, List, ok,
  lookup, lookup-key,
}
use contextctl.Registry.Publications.{IngestionPublication}
use contextctl.Registry.Chain.{
  ChainCursor, ChainPosition, locate_in_chain, is_consumable, consumed_up_to, OwnCursor,
  locate-is_consumable,
}
use contextctl.Registry.Chain
use contextctl.Registry.Store.{
  Database, has_processed, find_cursor, cursor_key, CursorRow, cursor_of, CursorRow, cursor_of,
}
use contextctl.Registry.Effects.{World, defined, now, publication_not_found}
use contextctl.Registry.Effects.Laws.{bind-Passed, defined_passed}
use contextctl.Registry.Claim.Offers.{Offers, to_card_versions-Offers}
use contextctl.Registry.Claim.{
  ClaimPorts, ClaimResult, ClaimedCardVersion, claimed, refuse, link_of, to_card_versions,
  claim_with, claim_created, claim_consumable, or_claim, claim_at, claim_found, claim_unless,
  claim_publication,
}

own_row :
    (row : Option CursorRow) (source_id : String)
    → ((r : CursorRow) → row ≡ some r → r.source_id ≡ source_id)
    → OwnCursor (cursor_of row) source_id
own_row none source_id h = tt
own_row (some r) source_id h = h r refl

find_cursor-OwnCursor :
    (db : Database) (source_id : String) → OwnCursor (find_cursor db source_id) source_id
unfolding find_cursor
find_cursor-OwnCursor db source_id =
    own_row (lookup cursor_key source_id db.consumer_source_cursors) source_id
      (λ r e. lookup-key cursor_key source_id db.consumer_source_cursors r e)

module _ (ports : ClaimPorts) where
  -- What a claim that is made rests on.
  pub record IsAdmissible (db : Database) (publication_id : String) (cursor : ChainCursor)
      (versions : List ClaimedCardVersion) : Type 0 where
    pub publication : IngestionPublication
    pub found : ports.find_by_id publication_id ≡ some publication
    pub moves :
        cursor ≡ record { source_id = publication.source_id; publication_id = publication_id }
    pub offers : Offers ports publication publication.knowledge_units versions
    pub unseen : has_processed db publication_id ≡ false
    pub follows :
        publication.previous_publication_id ≡ consumed_up_to (find_cursor db publication.source_id)

  refuse-is_consumable :
      (publication_id source_id : String) (position : ChainPosition)
      → refuse publication_id source_id position ≡ none
      → is_consumable position ≡ true
  unfolding refuse
  refuse-is_consumable publication_id source_id Chain.first h = refl
  refuse-is_consumable publication_id source_id Chain.next h = refl
  refuse-is_consumable publication_id source_id (Chain.gap expected awaiting diagnostic) h = cc
  refuse-is_consumable publication_id source_id (Chain.fork diagnostic) h = cc

  refuse-ne_claimed :
      (publication_id source_id : String) (position : ChainPosition) (refusal : ClaimResult)
      → refuse publication_id source_id position ≡ some refusal
      → (p : String) (cursor : ChainCursor) (versions : List ClaimedCardVersion)
      → refusal ≢ claimed p cursor versions
  unfolding refuse
  refuse-ne_claimed publication_id source_id Chain.first refusal e p cursor versions = λ h. cc
  refuse-ne_claimed publication_id source_id Chain.next refusal e p cursor versions = λ h. cc
  refuse-ne_claimed publication_id source_id (Chain.gap expected awaiting diagnostic) refusal e p
        cursor versions =
      λ h. cc
  refuse-ne_claimed publication_id source_id (Chain.fork diagnostic) refusal e p cursor versions =
      λ h. cc

  -- Exactly what a consumable Publication is claimed as.
  abbrev Claims :
      (publication_id : String)
      → IngestionPublication
      → (p : String) → ChainCursor
      → List ClaimedCardVersion
      → Type 0
  Claims publication_id publication p cursor versions =
      (p ≡ publication_id)
      × (cursor ≡ record { source_id = publication.source_id; publication_id = publication_id })
      × Offers ports publication publication.knowledge_units versions

  consumable_passed :
      (publication_id : String) (publication : IngestionPublication) (w : World) (p : String)
      (cursor : ChainCursor) (versions : List ClaimedCardVersion)
      → (claim_consumable ports publication_id publication w).0 ≡ ok (claimed p cursor versions)
      → Claims publication_id publication p cursor versions
  unfolding claim_consumable claim_created claim_with
  consumable_passed publication_id publication w p cursor versions h =
      let (_, _, made, _) =
        bind-Passed (now ports.supplies) (claim_created ports publication_id publication) _ w h in
      let (made_versions, offers, given, _) =
        bind-Passed (to_card_versions ports publication _ publication.knowledge_units)
          (claim_with ports publication_id publication) _ _ made in
      let same : made_versions ≡ versions = cc in
      (
        cc,
        cc,
        subst (Offers ports publication publication.knowledge_units) same (
            to_card_versions-Offers ports publication _ publication.knowledge_units _ made_versions
              offers),
      )

  at_passed :
      (publication_id : String) (publication : IngestionPublication) (before : Option ChainCursor)
      (w : World) (p : String) (cursor : ChainCursor) (versions : List ClaimedCardVersion)
      → OwnCursor before publication.source_id
      → (claim_at ports publication_id publication before w).0 ≡ ok (claimed p cursor versions)
      → Claims publication_id publication p cursor versions
        × (publication.previous_publication_id ≡ consumed_up_to before)
  unfolding claim_at
  at_passed publication_id publication before w p cursor versions own h =
      by (refuse publication_id publication.source_id position) refl h
    where
      position : ChainPosition
      position = locate_in_chain before (link_of publication)

      by :
          (refusal : Option ClaimResult)
          → refuse publication_id publication.source_id position ≡ refusal
          → (or_claim ports refusal publication_id publication w).0 ≡ ok (claimed p cursor versions)
          → Claims publication_id publication p cursor versions
            × (publication.previous_publication_id ≡ consumed_up_to before)
      by (some refusal) e given =
          unfold or_claim in
          absurd (
            refuse-ne_claimed publication_id publication.source_id position refusal e p cursor
              versions cc)
      by none e given =
          unfold or_claim in
          (
            consumable_passed publication_id publication w p cursor versions given,
            (locate-is_consumable before (link_of publication) own).0
                (refuse-is_consumable publication_id publication.source_id position e),
          )

  unless_passed :
      (publication_id : String) (seen : Bool) (w : World) (p : String) (cursor : ChainCursor)
      (versions : List ClaimedCardVersion)
      → has_processed w.db publication_id ≡ seen
      → (claim_unless ports publication_id seen w).0 ≡ ok (claimed p cursor versions)
      → (p ≡ publication_id) × IsAdmissible w.db publication_id cursor versions
  unfolding claim_unless claim_found
  unless_passed publication_id true w p cursor versions s h = cc
  unless_passed publication_id false w p cursor versions s h =
      let (publication, got, made, _) =
        bind-Passed
          (defined (ports.find_by_id publication_id) (publication_not_found publication_id))
          (claim_found ports publication_id) _ w h in
      let (found, same) = defined_passed _ _ publication w got in
      let (claims, follows) =
        at_passed publication_id publication (find_cursor w.db publication.source_id) w p cursor
          versions (find_cursor-OwnCursor w.db publication.source_id)
          (subst
            (λ v.
              (claim_found ports publication_id publication v).0 ≡ ok (claimed p cursor versions))
            same made) in
      (
        claims.0,
        record {
          publication = publication;
          found = found;
          moves = claims.1;
          offers = claims.2;
          unseen = s;
          follows = follows;
        },
      )

  -- A Publication is claimed only if the repository has it, it was not consumed before, and the
  -- predecessor that it declares is what the cursor of its Source stands for. The claim moves the
  -- cursor to it and offers one version for each of its knowledge units, in order, with the meaning
  -- that the generator gave, which is grounded if the version may be promoted.
  pub claim-IsAdmissible :
      (publication_id : String) (w : World) (p : String) (cursor : ChainCursor)
      (versions : List ClaimedCardVersion)
      → (claim_publication ports publication_id w).0 ≡ ok (claimed p cursor versions)
      → (p ≡ publication_id) × IsAdmissible w.db publication_id cursor versions
  unfolding claim_publication
  claim-IsAdmissible publication_id w p cursor versions h =
      unless_passed publication_id (has_processed w.db publication_id) w p cursor versions refl h
