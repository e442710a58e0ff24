-- ===== src/Registry/Grounding/Report.antt =====
-- fact-grounding.ts: the report on a Card Version, with its verdict.
use contextctl.Common.{
  text, flat_map, String, Bool, true, false, List, [], ◌∷◌, ◌++◌, any, Option, none, some, length,
  ltb, nat_eq, if◌then◌else◌,
}
use contextctl.Registry.Model.{
  CardMeaning, CardMeaningOrigin, deterministic, model, GroundingFinding, GroundingReport,
  GroundingVerdict, RetrievalScope, fatal, review,
}
use contextctl.Registry.Publications.{SourceCoordinate, PublishedFact}
use contextctl.Registry.Grounding.Texts.{Unicode, fatal_finding, decimal}
use contextctl.Registry.Grounding.Scopes.{
  check_meaning, check_scope, check_scope_tokens, max_scopes,
}
use contextctl.Registry.Grounding.Fragments.{check_machine_fragments, compute_fact_coverage}

pub record GroundingInput : Type 0 where
  pub coordinate : SourceCoordinate
  pub facts : List PublishedFact
  pub scopes : List RetrievalScope
  pub meaning : CardMeaning
  pub origin : CardMeaningOrigin

abbrev pub is_fatal : GroundingFinding → Bool
is_fatal finding = elim (finding.severity) [ fatal ↦ true | review ↦ false ]

abbrev pub is_review : GroundingFinding → Bool
is_review finding = elim (finding.severity) [ fatal ↦ false | review ↦ true ]

unfoldable pub verdict_of : List GroundingFinding → GroundingVerdict
verdict_of findings =
    if any is_fatal findings
    then GroundingVerdict.rejected
    else if any is_review findings
    then GroundingVerdict.needs_review
    else GroundingVerdict.validated

abbrev or_unknown : Option String → String
or_unknown none = "unknown"
or_unknown (some name) = name

unfoldable pub scope_count_findings : List RetrievalScope → List GroundingFinding
scope_count_findings scopes =
    (if nat_eq (length scopes) 0
      then fatal_finding "scope.present"
          ("card version must carry at least one retrieval scope" ∷ [])
        ∷ []
      else [])
    ++ (if ltb max_scopes (length scopes)
        then fatal_finding "scope.count" (
            "card version carries "
            ∷ decimal (length scopes)
            ∷ " scopes, over the "
            ∷ decimal max_scopes
            ∷ " allowed by approved-card-read-v1"
            ∷ [])
          ∷ []
        else [])

unfoldable pub origin_findings : CardMeaningOrigin → List GroundingFinding
origin_findings origin = elim (origin.generator) [
  | deterministic ↦ []
  | model ↦
      record {
        rule = "meaning.modelAuthored";
        message = text (
            "expression written by model "
            ∷ or_unknown origin.model_name
            ∷ " awaits an operator's semantic review"
            ∷ []);
        severity = review;
      }
      ∷ []
]

module _ (unicode : Unicode) where
  unfoldable pub grounding_findings : GroundingInput → List GroundingFinding
  unfolding scope_count_findings origin_findings check_meaning check_scope check_scope_tokens
      check_machine_fragments
  grounding_findings input =
      check_meaning unicode input.meaning
      ++ (flat_map (check_scope input.coordinate) input.scopes
          ++ (flat_map (check_scope_tokens unicode) input.scopes
              ++ (check_machine_fragments unicode input.coordinate input.facts input.scopes
                    input.meaning
                  ++ (scope_count_findings input.scopes ++ origin_findings input.origin))))

  unfoldable pub ground_card_version : GroundingInput → GroundingReport
  unfolding grounding_findings verdict_of compute_fact_coverage
  ground_card_version input =
      let findings = grounding_findings input in
      record {
        verdict = verdict_of findings;
        findings = findings;
        fact_coverage = compute_fact_coverage unicode input.facts input.meaning;
        origin = input.origin;
      }
