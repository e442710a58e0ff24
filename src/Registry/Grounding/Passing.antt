-- ===== src/Registry/Grounding/Passing.antt =====
-- fact-grounding.ts: when a check passes, that is, names nothing fatal.
use contextctl.Common.{
  flat_map, ℕ, ◌≤◌, ◌≡◌, ◌↔◌, refl, String, string_instance, Bool, true, false, List, [], ◌∷◌, ◌++◌,
  any, any-append, All, arith, length, if◌then◌else◌,
}
use contextctl.Registry.Model.{GroundingFinding}
use contextctl.Registry.Decisions.{code_units}
use contextctl.Registry.Grounding.Texts.{Unicode, is_blank, is_control, some_char}
use contextctl.Registry.Grounding.Scopes.{check_text, check_texts, check_text_list}
use contextctl.Registry.Grounding.Report.{is_fatal}

abbrev pub Passes : List GroundingFinding → Type 0
Passes findings = any is_fatal findings ≡ false

pub append-Passes : (xs ys : List GroundingFinding) → Passes (xs ++ ys) ↔ (Passes xs × Passes ys)
append-Passes xs ys =
    (ground (arith, any-append is_fatal xs ys), ground (arith, any-append is_fatal xs ys))

module _ {ℓ} {A : Type ℓ} where
  pub flat_map-Passes :
      (f : A → List GroundingFinding) (xs : List A)
      → Passes (flat_map f xs) ↔ All (λ x. Passes (f x)) xs
  unfolding any
  flat_map-Passes f [] = (λ h. tt, λ h. refl)
  flat_map-Passes f (x ∷ xs) =
      let rest = flat_map-Passes f xs in
      let both = append-Passes (f x) (flat_map f xs) in
      (λ h. let parts = both.0 h in (parts.0, rest.0 parts.1), λ h. both.1 (h.0, rest.1 h.1))

  pub All-iff {κ μ} :
      {P : A → Type κ} {Q : A → Type μ}
      → ((x : A) → P x ↔ Q x)
      → (xs : List A) → All P xs ↔ All Q xs
  All-iff same [] = (λ h. tt, λ h. tt)
  All-iff same (x ∷ xs) =
      let rest = All-iff same xs in
      (λ h. ((same x).0 h.0, rest.0 h.1), λ h. ((same x).1 h.0, rest.1 h.1))

module _ (unicode : Unicode) where
  -- A text of the read model: not blank, within its bound, and without control characters.
  abbrev pub IsText : (max : ℕ) → String → Type 0
  IsText max value =
      (is_blank unicode value ≡ false)
      × (code_units value ≤ max)
      × (some_char is_control value ≡ false)

  pub check_text_iff :
      (rule value : String) (max : ℕ)
      → Passes (check_text unicode rule value max true) ↔ IsText max value
  unfolding check_text any
  check_text_iff rule value max = (ground arith, ground arith)

  abbrev pub IsTextList : (least most each : ℕ) → List String → Type 0
  IsTextList least most each values =
      (least ≤ length values) × (length values ≤ most) × All (IsText each) values

  pub check_texts_iff :
      (rule : String) (each : ℕ) (values : List String)
      → Passes (check_texts unicode rule each values) ↔ All (IsText each) values
  unfolding check_texts
  check_texts_iff rule each values =
      let every = flat_map-Passes (λ value. check_text unicode rule value each true) values in
      let same = All-iff (λ value. check_text_iff rule value each) values in
      (λ h. same.0 (every.0 h), λ h. every.1 (same.1 h))

  abbrev pub least_of : Bool → ℕ
  least_of required = if required then 1 else 0

  pub check_text_list_iff :
      (rule : String) (values : List String) (count each : ℕ) (required : Bool)
      → Passes (check_text_list unicode rule values count each required)
        ↔ IsTextList (least_of required) count each values
  unfolding check_text_list any
  check_text_list_iff rule values count each true =
      let texts = check_texts_iff rule each values in
      (ground (arith, texts.0), ground (arith, texts.1))
  check_text_list_iff rule values count each false =
      let texts = check_texts_iff rule each values in
      (ground (arith, texts.0), ground (arith, texts.1))
