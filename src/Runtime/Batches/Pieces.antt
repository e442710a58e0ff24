-- ===== src/Runtime/Batches/Pieces.antt =====
-- The batches of an embedding: what they cut its inputs into, and what they give together.
use contextctl.Common.{
  ℕ, zero, suc, ◌≤◌, max, ◌≡◌, refl, sym, ap, ◌∙◌, String, Option, List, [], ◌∷◌, ◌++◌, map, length,
  take, drop, take-append-drop, length-take_le, length-drop_le, All, ok, throw, value_of_ok, arith,
}
use contextctl.Runtime.Scheduler.{SchedulerProfile, Priority}
use contextctl.Runtime.Batches.{
  Outcome, followed, and_then, or_caught, run_from, run_batches, embed, batch_size,
}

module _ {A : Type 0} where
  abbrev pub joined : List (List A) → List A
  joined [] = []
  joined (piece ∷ pieces) = piece ++ joined pieces

  pieces_within : (fuel size : ℕ) → List A → List (List A)
  pieces_within zero size inputs = []
  pieces_within (suc fuel) size [] = []
  pieces_within (suc fuel) size (input ∷ inputs) =
      take size (input ∷ inputs) ∷ pieces_within fuel size (drop size (input ∷ inputs))

  abbrev pub IsPiece : ℕ → List A → Type 0
  IsPiece size piece = (1 ≤ length piece) × (length piece ≤ size)

  joined-pieces_within :
      (fuel size : ℕ) (inputs : List A)
      → length inputs ≤ fuel
      → joined (pieces_within fuel (suc size) inputs) ≡ inputs
  unfolding pieces_within
  joined-pieces_within zero size [] h = refl
  joined-pieces_within zero size (input ∷ inputs) h = ground arith
  joined-pieces_within (suc fuel) size [] h = refl
  joined-pieces_within (suc fuel) size (input ∷ inputs) h =
      ap (λ rest. input ∷ take size inputs ++ rest)
        (joined-pieces_within fuel size (drop size inputs)
          (omega (arith, length-drop_le size inputs)))
      ∙ ap (input ∷◌) (take-append-drop size inputs)

  pieces-IsPiece :
      (fuel size : ℕ) (inputs : List A)
      → All (IsPiece (suc size)) (pieces_within fuel (suc size) inputs)
  unfolding pieces_within
  pieces-IsPiece zero size inputs = tt
  pieces-IsPiece (suc fuel) size [] = tt
  pieces-IsPiece (suc fuel) size (input ∷ inputs) = (
    (omega arith, omega (arith, length-take_le size inputs)),
    pieces-IsPiece fuel size (drop size inputs),
  )

module _ {A B W : Type 0} (run : List A → W → Outcome B W) where
  -- One batch after the other, up to the first that fails.
  abbrev pub run_each : List (List A) → W → Outcome B W
  run_each [] w = (ok [], w)
  run_each (piece ∷ pieces) w = and_then (run piece w) (run_each pieces)

  run_from-pieces :
      (fuel size : ℕ) (inputs : List A)
      → run_from run fuel size inputs ≡ run_each (pieces_within fuel size inputs)
  unfolding run_from pieces_within
  run_from-pieces zero size inputs = refl
  run_from-pieces (suc fuel) size [] = refl
  run_from-pieces (suc fuel) size (input ∷ inputs) = λ i w.
      and_then (run (take size (input ∷ inputs)) w)
        (run_from-pieces fuel size (drop size (input ∷ inputs)) i)

  abbrev pub RunsPieces : ℕ → List A → (W → Outcome B W) → Type 0
  RunsPieces size inputs outcome =
      (pieces : List (List A)) × (joined pieces ≡ inputs)
      × All (IsPiece size) pieces
      × (outcome ≡ run_each pieces)

  run_from-RunsPieces :
      (size : ℕ) (inputs : List A)
      → 1 ≤ size
      → RunsPieces size inputs (run_from run (length inputs) size inputs)
  run_from-RunsPieces zero inputs h = absurd (ground arith)
  run_from-RunsPieces (suc size) inputs h = (
    pieces_within (length inputs) (suc size) inputs,
    joined-pieces_within (length inputs) size inputs (omega arith),
    pieces-IsPiece (length inputs) size inputs,
    run_from-pieces (length inputs) (suc size) inputs,
  )

  -- The inputs are cut into pieces that are neither empty nor over the size that was asked for, which
  -- give them back when they are joined, and each piece is one run, in order, up to the first that
  -- fails. A size of 0 counts as 1.
  pub run_batches-RunsPieces :
      (inputs : List A) (size : ℕ) → RunsPieces (max 1 size) inputs (run_batches run inputs size)
  unfolding run_batches
  run_batches-RunsPieces [] size = ([], refl, tt, refl)
  run_batches-RunsPieces (input ∷ inputs) size =
      run_from-RunsPieces (max 1 size) (input ∷ inputs) (omega arith)

  module _ (output_of : A → B)
      (answers : (piece : List A) (w : W) → (run piece w).0 ≡ ok (map output_of piece)) where
    map-append : (xs ys : List A) → map output_of (xs ++ ys) ≡ map output_of xs ++ map output_of ys
    map-append [] ys = refl
    map-append (x ∷ xs) ys = ap (output_of x ∷◌) (map-append xs ys)

    followed-ok :
        (outputs more : List B) (outcome : Outcome B W)
        → outcome.0 ≡ ok more
        → (followed outputs outcome).0 ≡ ok (outputs ++ more)
    followed-ok outputs more (ok more', w) h =
        ap (λ rest. ok (outputs ++ rest)) (value_of_ok more' more h)
    followed-ok outputs more (throw problem, w) h = cc

    and_then-ok :
        (outcome : Outcome B W) (rest : W → Outcome B W) (outputs more : List B)
        → outcome.0 ≡ ok outputs
        → ((w : W) → (rest w).0 ≡ ok more)
        → (and_then outcome rest).0 ≡ ok (outputs ++ more)
    and_then-ok (ok outputs', w) rest outputs more h k =
        followed-ok outputs' more (rest w) (k w)
        ∙ ap (λ first. ok (first ++ more)) (value_of_ok outputs' outputs h)
    and_then-ok (throw problem, w) rest outputs more h k = cc

    run_each-whole :
        (pieces : List (List A)) (w : W)
        → (run_each pieces w).0 ≡ ok (map output_of (joined pieces))
    run_each-whole [] w = refl
    run_each-whole (piece ∷ pieces) w =
        and_then-ok (run piece w) (run_each pieces) (map output_of piece)
          (map output_of (joined pieces)) (answers piece w) (run_each-whole pieces)
        ∙ ap ok (sym (map-append piece (joined pieces)))

    -- If the task of every batch answers with one output for each of its inputs, in order, then an
    -- embedding answers with one output for each input, in order, whatever its priority and signal.
    pub embed-whole :
        (priority : Priority) (profile : SchedulerProfile) (reason : Option String)
        (inputs : List A) (w : W)
        → (embed run priority profile reason inputs w).0 ≡ ok (map output_of inputs)
    unfolding embed
    embed-whole priority profile reason inputs w =
        let (pieces, join, _, same) =
          run_batches-RunsPieces inputs (batch_size priority profile (length inputs)) in
        ap (or_caught reason) (
          ap (λ outcome. (outcome w).0) same
          ∙ run_each-whole pieces w
          ∙ ap (λ all. ok (map output_of all)) join)
