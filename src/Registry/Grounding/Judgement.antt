-- ===== src/Registry/Grounding/Judgement.antt =====
-- fact-grounding.ts: what a verdict says of a Card Version.
use contextctl.Common.{
  flat_map, ◌≤◌, ◌≡◌, ◌≢◌, ◌↔◌, sym, ◌∙◌, String, string_instance, true, false, List, [], any, All,
  arith, length, contains, contains-set_of,
}
use contextctl.Registry.Model.{
  CardMeaning, GroundingFinding, RetrievalScope, managed_document, sql_source, http_source,
  CardMeaningOrigin, GroundingVerdict,
}
use contextctl.Registry.Publications.{SourceCoordinate, PublishedFact}
use contextctl.Registry.Grounding.Texts.{Unicode, machine_fragments}
use contextctl.Registry.Grounding.Scopes.{
  check_meaning, check_scope, check_scope_tokens, check_text, scope_tokens, max_scopes,
  max_scope_token, max_description, max_questions, max_question, max_aliases, max_alias,
  max_keywords, max_keyword,
}
use contextctl.Registry.Grounding.Fragments.{
  check_machine_fragments, meaning_texts, allowed_tokens, admitted, observed_values, fabricated,
  fabricated_one,
}
use contextctl.Registry.Grounding.Report.{
  GroundingInput, grounding_findings, ground_card_version, verdict_of, scope_count_findings,
  origin_findings,
}
use contextctl.Registry.Grounding.Passing.{
  Passes, append-Passes, flat_map-Passes, All-iff, IsText, IsTextList, check_text_iff,
  check_text_list_iff,
}
use contextctl.Registry.Grounding.Ranges.{Matches, check_scope_iff, contains-flat_map}

scope_count_iff :
    (scopes : List RetrievalScope)
    → Passes (scope_count_findings scopes) ↔ ((1 ≤ length scopes) × (length scopes ≤ max_scopes))
unfolding scope_count_findings any
scope_count_iff scopes = (ground arith, ground arith)

origin-Passes : (origin : CardMeaningOrigin) → Passes (origin_findings origin)
unfolding origin_findings any
origin-Passes origin = ground arith

module _ (unicode : Unicode) where
  abbrev pub IsMeaning : CardMeaning → Type 0
  IsMeaning meaning =
      IsText unicode max_description meaning.description
      × IsTextList unicode 1 max_questions max_question meaning.representative_questions
      × IsTextList unicode 0 max_aliases max_alias meaning.aliases
      × IsTextList unicode 0 max_keywords max_keyword meaning.keywords

  IsMeaning-iff :
      (meaning : CardMeaning) → Passes (check_meaning unicode meaning) ↔ IsMeaning meaning
  unfolding check_meaning
  IsMeaning-iff meaning =
      let description =
        check_text_iff unicode "meaning.description" meaning.description max_description in
      let questions =
        check_text_list_iff unicode "meaning.representativeQuestions"
          meaning.representative_questions max_questions max_question true in
      let aliases =
        check_text_list_iff unicode "meaning.aliases" meaning.aliases max_aliases max_alias false in
      let keywords =
        check_text_list_iff unicode "meaning.keywords" meaning.keywords max_keywords max_keyword
          false in
      (
        λ h.
            let a = (append-Passes _ _).0 h in
            let b = (append-Passes _ _).0 a.1 in
            let c = (append-Passes _ _).0 b.1 in
            (description.0 a.0, questions.0 b.0, aliases.0 c.0, keywords.0 c.1),
        λ h. (append-Passes _ _).1 (
          description.1 h.0,
          (append-Passes _ _).1
              (questions.1 h.1, (append-Passes _ _).1 (aliases.1 h.2, keywords.1 h.3)),
        ),
      )

  abbrev IsToken : String → Type 0
  IsToken = IsText unicode max_scope_token

  -- The ids and versions of a scope that are bounded. The semantic units that a document scope selects,
  -- the schema of a table, and the operation and parameters of a request are not among them.
  abbrev pub HasBoundedTokens : RetrievalScope → Type 0
  HasBoundedTokens (managed_document scope) =
      IsToken scope.reference.scope_id
      × IsToken scope.reference.scope_version
      × IsToken scope.document_index.document_index_id
      × IsToken scope.document_index.source_id
      × IsToken scope.document_index.document_id
      × IsToken scope.document_index.index_version
  HasBoundedTokens (sql_source scope) =
      IsToken scope.reference.scope_id
      × IsToken scope.reference.scope_version
      × IsToken scope.connector
      × IsToken scope.table
      × All IsToken scope.columns
  HasBoundedTokens (http_source scope) =
      IsToken scope.reference.scope_id
      × IsToken scope.reference.scope_version
      × IsToken scope.connector
      × IsToken scope.path

  scope_tokens-HasBoundedTokens :
      (scope : RetrievalScope) → All IsToken (scope_tokens unicode scope) ↔ HasBoundedTokens scope
  scope_tokens-HasBoundedTokens (managed_document scope) = (
    λ (a, (b, (c, (d, (e, (f, _)))))). (a, b, c, d, e, f),
    λ (a, b, c, d, e, f). (a, (b, (c, (d, (e, (f, tt)))))),
  )
  scope_tokens-HasBoundedTokens (sql_source scope) = (
    λ (a, (b, (c, (d, columns)))). (a, b, c, d, columns),
    λ (a, b, c, d, columns). (a, (b, (c, (d, columns)))),
  )
  scope_tokens-HasBoundedTokens (http_source scope) =
      (λ (a, (b, (c, (d, _)))). (a, b, c, d), λ (a, b, c, d). (a, (b, (c, (d, tt)))))

  scope_tokens_iff :
      (scope : RetrievalScope) → Passes (check_scope_tokens unicode scope) ↔ HasBoundedTokens scope
  unfolding check_scope_tokens
  scope_tokens_iff scope =
      let every =
        flat_map-Passes (λ token. check_text unicode "scope.token" token max_scope_token true)
          (scope_tokens unicode scope) in
      let same =
        All-iff (λ token. check_text_iff unicode "scope.token" token max_scope_token)
          (scope_tokens unicode scope) in
      let named = scope_tokens-HasBoundedTokens scope in
      (λ h. named.0 (same.0 (every.0 h)), λ h. every.1 (same.1 (named.1 h)))

  module _ (coordinate : SourceCoordinate) (facts : List PublishedFact)
      (scopes : List RetrievalScope) where
    -- Some observed value, or a token of it, is the fragment, in whatever case.
    abbrev pub IsAccountedFor : String → Type 0
    IsAccountedFor fragment =
        any (λ value. contains (unicode.lower fragment) (admitted unicode value))
          (observed_values coordinate facts scopes)
        ≡ true

    allowed-eq :
        (fragment : String)
        → contains (unicode.lower fragment) (allowed_tokens unicode coordinate facts scopes)
          ≡ any
              (λ value. contains (unicode.lower fragment) (admitted unicode value))
              (observed_values coordinate facts scopes)
    unfolding allowed_tokens contains any
    allowed-eq fragment =
        contains-set_of (unicode.lower fragment)
          (flat_map (admitted unicode) (observed_values coordinate facts scopes)) []
        ∙ contains-flat_map (unicode.lower fragment) (admitted unicode)
            (observed_values coordinate facts scopes)

    fragment_iff :
        (allowed : List String) (field value fragment : String)
        → (contains (unicode.lower fragment) allowed ≡ true)
          ↔ Passes (fabricated_one unicode allowed field fragment)
    unfolding fabricated_one any
    fragment_iff allowed field value fragment = (ground arith, ground arith)

    fabricated_iff :
        (field value : String)
        → Passes (fabricated unicode (allowed_tokens unicode coordinate facts scopes) field value)
          ↔ All IsAccountedFor (machine_fragments unicode value)
    unfolding fabricated
    fabricated_iff field value =
        let allowed = allowed_tokens unicode coordinate facts scopes in
        let every =
          flat_map-Passes (fabricated_one unicode allowed field)
            (machine_fragments unicode value) in
        let one : (fragment : String)
            → Passes (fabricated_one unicode allowed field fragment) ↔ IsAccountedFor fragment =
          λ fragment. (
            λ h. sym (allowed-eq fragment) ∙ (fragment_iff allowed field value fragment).1 h,
            λ h. (fragment_iff allowed field value fragment).0 (allowed-eq fragment ∙ h),
          ) in
        let same = All-iff one (machine_fragments unicode value) in
        (λ h. same.0 (every.0 h), λ h. every.1 (same.1 h))

    abbrev pub NamesOnlyObserved : CardMeaning → Type 0
    NamesOnlyObserved meaning =
        All (λ named. All IsAccountedFor (machine_fragments unicode named.1))
          (meaning_texts meaning)

    fragments_iff :
        (meaning : CardMeaning)
        → Passes (check_machine_fragments unicode coordinate facts scopes meaning)
          ↔ NamesOnlyObserved meaning
    unfolding check_machine_fragments
    fragments_iff meaning =
        let allowed = allowed_tokens unicode coordinate facts scopes in
        let every =
          flat_map-Passes (λ named. fabricated unicode allowed named.0 named.1)
            (meaning_texts meaning) in
        let same = All-iff (λ named. fabricated_iff named.0 named.1) (meaning_texts meaning) in
        (λ h. same.0 (every.0 h), λ h. every.1 (same.1 h))

  -- A meaning within the limits of the read model, one to 64 scopes that match the observed coordinate
  -- and have bounded tokens, and no machine-readable fragment that the observation cannot explain.
  pub record IsGrounded (input : GroundingInput) : Type 0 where
    pub bounded : IsMeaning input.meaning
    pub in_range : All (Matches input.coordinate) input.scopes
    pub tokens : All HasBoundedTokens input.scopes
    pub observed : NamesOnlyObserved input.coordinate input.facts input.scopes input.meaning
    pub present : 1 ≤ length input.scopes
    pub servable : length input.scopes ≤ max_scopes

  Passes-IsGrounded :
      (input : GroundingInput) → Passes (grounding_findings unicode input) → IsGrounded input
  unfolding grounding_findings
  Passes-IsGrounded input h =
      let a = (append-Passes _ _).0 h in
      let b = (append-Passes _ _).0 a.1 in
      let c = (append-Passes _ _).0 b.1 in
      let d = (append-Passes _ _).0 c.1 in
      let e = (append-Passes _ _).0 d.1 in
      let count = (scope_count_iff input.scopes).0 e.0 in
      record {
        bounded = (IsMeaning-iff input.meaning).0 a.0;
        in_range =
            (All-iff (check_scope_iff input.coordinate) input.scopes).0
              ((flat_map-Passes _ input.scopes).0 b.0);
        tokens = (All-iff scope_tokens_iff input.scopes).0 ((flat_map-Passes _ input.scopes).0 c.0);
        observed = (fragments_iff input.coordinate input.facts input.scopes input.meaning).0 d.0;
        present = count.0;
        servable = count.1;
      }

  IsGrounded-Passes :
      (input : GroundingInput) → IsGrounded input → Passes (grounding_findings unicode input)
  unfolding grounding_findings
  IsGrounded-Passes input h =
      let a = (IsMeaning-iff input.meaning).1 h.bounded in
      let b =
        (flat_map-Passes (check_scope input.coordinate) input.scopes).1
          ((All-iff (check_scope_iff input.coordinate) input.scopes).1 h.in_range) in
      let c =
        (flat_map-Passes (check_scope_tokens unicode) input.scopes).1
          ((All-iff scope_tokens_iff input.scopes).1 h.tokens) in
      let d =
        (fragments_iff input.coordinate input.facts input.scopes input.meaning).1 h.observed in
      let e = (scope_count_iff input.scopes).1 (h.present, h.servable) in
      (append-Passes _ _).1 (
        a,
        (append-Passes _ _).1 (
          b,
          (append-Passes _ _).1
              (c, (append-Passes _ _).1 (d, (append-Passes _ _).1 (e, origin-Passes input.origin))),
        ),
      )

  rejected-of_fatal :
      (findings : List GroundingFinding)
      → (verdict_of findings ≢ GroundingVerdict.rejected) ↔ Passes findings
  unfolding verdict_of
  rejected-of_fatal findings = (ground arith, ground arith)

  -- A version is not rejected exactly if its meaning is within the limits of the read model, it has one
  -- to 64 scopes, each of which matches the observed coordinate in what is compared (`Matches`) and
  -- bounds the tokens that are checked (`HasBoundedTokens`), and the meaning has only machine-readable
  -- fragments that the observation accounts for.
  pub ground-IsGrounded :
      (input : GroundingInput)
      → ((ground_card_version unicode input).verdict ≢ GroundingVerdict.rejected) ↔ IsGrounded input
  unfolding ground_card_version
  ground-IsGrounded input =
      let verdict = rejected-of_fatal (grounding_findings unicode input) in
      (λ h. Passes-IsGrounded input (verdict.0 h), λ h. verdict.1 (IsGrounded-Passes input h))
