-- ===== src/Registry/Versions/WellFormed.antt =====
-- The invariant of a version history, and that its calls only ever add to it.
use contextctl.Common.{
  ap, ◌≢◌, sym, ◌∙◌, append-nil, append_assoc, string_instance, String, ◌≡◌, refl, true, false,
  Option, none, some, List, [], ◌∷◌, ◌++◌, All, All-append, lookup, has_key, Distinct,
  Distinct-append_one, lookup-append_one, lookup-key, ==_iff, arith, Option-cases, Result, ok,
  throw, inl, inr,
}
use contextctl.Registry.Model.{CardVersion, CardVersionHistory, CardValidationState}
use contextctl.Registry.Versions.{
  version_key, create_card_version_history, append_card_version, promote_card_version,
  withdraw_current_version, VersionError, after, HistoryCall, append, promote, withdraw, step, run,
  precedes_current_card_version,
}

-- The version that a current pointer names is there, and passed validation.
abbrev pub Serves : List CardVersion → Option String → Type 0
Serves versions none = Unit
Serves versions (some id) =
    (v : CardVersion) × (lookup version_key id versions ≡ some v)
    × (v.validation_state ≡ CardValidationState.validated)

pub record IsWellFormed (h : CardVersionHistory) : Type 0 where
  pub owned : All (λ v. v.card_id ≡ h.card_id) h.versions
  pub distinct : Distinct version_key h.versions
  pub serves : Serves h.versions h.current_version_id

Serves-append_one :
    (versions : List CardVersion) (current : Option String) (v : CardVersion)
    → Serves versions current
    → Serves (versions ++ v ∷ []) current
Serves-append_one versions none v s = tt
Serves-append_one versions (some id) v (w, found, valid) =
    (w, lookup-append_one version_key id versions v w found, valid)

-- What a call that succeeds has checked, and its result.
pub append-eq_ok :
    (h : CardVersionHistory) (v : CardVersion) {h' : CardVersionHistory}
    → append_card_version h v ≡ ok h'
    → (v.card_id ≡ h.card_id)
      × (has_key version_key v.id h.versions ≡ false)
      × (h' ≡ record h { versions = h.versions ++ v ∷ [] })
unfolding append_card_version
append-eq_ok h v e = ground (arith, ==_iff v.card_id h.card_id)

pub promote-eq_ok :
    (h : CardVersionHistory) (id : String) {h' : CardVersionHistory}
    → promote_card_version h id ≡ ok h'
    → (v : CardVersion) × (lookup version_key id h.versions ≡ some v)
      × (v.validation_state ≡ CardValidationState.validated)
      × (h' ≡ record h { current_version_id = some id })
unfolding promote_card_version
promote-eq_ok h id e = elim (Option-cases (lookup version_key id h.versions)) [
  | inl missing ↦ absurd (ground arith)
  | inr (v, found) ↦
      (v, found, ground arith, ground (arith, lookup-key version_key id h.versions v found))
]

append-IsWellFormed :
    (h : CardVersionHistory) (v : CardVersion) {h' : CardVersionHistory}
    → IsWellFormed h
    → append_card_version h v ≡ ok h'
    → IsWellFormed h'
append-IsWellFormed h v w e =
    let (own, new, result) = append-eq_ok h v e in
    rw result (record {
      owned = All-append _ h.versions (v ∷ []) w.owned (own, tt);
      distinct = Distinct-append_one version_key h.versions v w.distinct new;
      serves = Serves-append_one h.versions h.current_version_id v w.serves;
    })

pub promote-IsWellFormed :
    (h : CardVersionHistory) (id : String) {h' : CardVersionHistory}
    → IsWellFormed h
    → promote_card_version h id ≡ ok h'
    → IsWellFormed h'
promote-IsWellFormed h id w e =
    let (v, found, valid, result) = promote-eq_ok h id e in
    rw result (record { owned = w.owned; distinct = w.distinct; serves = (v, found, valid) })

pub withdraw-IsWellFormed :
    (h : CardVersionHistory) → IsWellFormed h → IsWellFormed (withdraw_current_version h)
unfolding withdraw_current_version
withdraw-IsWellFormed h w = record { owned = w.owned; distinct = w.distinct; serves = tt }

create-IsWellFormed : (card_id : String) → IsWellFormed (create_card_version_history card_id)
unfolding create_card_version_history
create-IsWellFormed card_id = record { owned = tt; distinct = tt; serves = tt }

after_ind {ℓ} :
    (P : CardVersionHistory → Type ℓ) (h : CardVersionHistory)
    (r : Result VersionError CardVersionHistory)
    → P h
    → ((h' : CardVersionHistory) → r ≡ ok h' → P h')
    → P (after h r)
after_ind P h (ok h') p f = f h' refl
after_ind P h (throw e) p f = p

step-IsWellFormed :
    (h : CardVersionHistory) (c : HistoryCall) → IsWellFormed h → IsWellFormed (step h c)
unfolding step
step-IsWellFormed h (append v) w =
    after_ind IsWellFormed h (append_card_version h v) w (λ h' e. append-IsWellFormed h v w e)
step-IsWellFormed h (promote id) w =
    after_ind IsWellFormed h (promote_card_version h id) w (λ h' e. promote-IsWellFormed h id w e)
step-IsWellFormed h withdraw w = withdraw-IsWellFormed h w

run-IsWellFormed :
    (h : CardVersionHistory) (calls : List HistoryCall)
    → IsWellFormed h
    → IsWellFormed (run h calls)
unfolding run
run-IsWellFormed h [] w = w
run-IsWellFormed h (c ∷ calls) w = run-IsWellFormed (step h c) calls (step-IsWellFormed h c w)

-- After any calls, failed ones included, on a new history: every version belongs to the Card, no id
-- occurs twice, and a current pointer names a version of the history that passed validation.
pub run-create-IsWellFormed :
    (card_id : String) (calls : List HistoryCall)
    → IsWellFormed (run (create_card_version_history card_id) calls)
run-create-IsWellFormed card_id calls =
    run-IsWellFormed (create_card_version_history card_id) calls (create-IsWellFormed card_id)

-- The history that `h'` has is the one of `h`, with versions added behind it.
abbrev pub Extends : CardVersionHistory → CardVersionHistory → Type 0
Extends h h' =
    (new : List CardVersion) × (h'.versions ≡ h.versions ++ new) × (h'.card_id ≡ h.card_id)

step-Extends : (h : CardVersionHistory) (c : HistoryCall) → Extends h (step h c)
unfolding step withdraw_current_version
step-Extends h (append v) =
    after_ind (Extends h) h (append_card_version h v) ([], sym (append-nil h.versions), refl)
      λ h' e. let (own, new, result) = append-eq_ok h v e in rw result (v ∷ [], refl, refl)
step-Extends h (promote id) =
    after_ind (Extends h) h (promote_card_version h id) ([], sym (append-nil h.versions), refl)
      λ h' e.
        let (v, found, valid, result) = promote-eq_ok h id e in
        rw result ([], sym (append-nil h.versions), refl)
step-Extends h withdraw = ([], sym (append-nil h.versions), refl)

-- No call removes, changes or reorders a version: whatever is called, the versions of a history
-- stay where they are, and new ones stand behind them.
pub run-Extends : (h : CardVersionHistory) (calls : List HistoryCall) → Extends h (run h calls)
unfolding run
run-Extends h [] = ([], sym (append-nil h.versions), refl)
run-Extends h (c ∷ calls) =
    let (first, e, own) = step-Extends h c in
    let (rest, e', own') = run-Extends (step h c) calls in
    (first ++ rest, e' ∙ ap (λ l. l ++ rest) e ∙ append_assoc h.versions first rest, own' ∙ own)

-- Moving the pointer to a version that precedes the current one makes the one that was current
-- no longer precede it: a rollback has a direction, and cannot be rolled back to what it left.
pub precedes-promote :
    (h : CardVersionHistory) (id current : String) {h' : CardVersionHistory}
    → h.current_version_id ≡ some current
    → precedes_current_card_version h id ≡ true
    → promote_card_version h id ≡ ok h'
    → (h'.current_version_id ≡ some id)
      × (id ≢ current)
      × (precedes_current_card_version h' current ≡ false)
unfolding precedes_current_card_version
precedes-promote h id current serving back e =
    let (v, found, valid, result) = promote-eq_ok h id e in
    rw result (refl, (λ same. ground (arith, same)), ground arith)
