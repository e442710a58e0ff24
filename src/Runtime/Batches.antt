-- ===== src/Runtime/Batches.antt =====
-- embedding-runtime-scheduler.ts, from line 456: the adapters that cut the inputs of an embedding into
-- batches, each a task of the scheduler. What becomes of the task of one batch, in a world that it may
-- change, is an argument; a signal is the reason that it is aborted with.
pub mod Pieces
use contextctl.Common.{
  ℕ, zero, suc, max, String, Bool, true, false, Option, none, some, List, [], ◌∷◌, ◌++◌, length,
  take, drop, Result, ok, throw,
}
use contextctl.Runtime.Scheduler.{SchedulerProfile, Priority, resolve, background}

-- What a task of the scheduler may be rejected with.
pub data TaskProblem : Type 0 where
  task_overloaded task_closed task_cancelled : TaskProblem
  task_failed : (cause : String) → TaskProblem

pub data EmbeddingProblem : Type 0 where
  provider_fault : (code : String) → (retryable : Bool) → EmbeddingProblem
  aborted_for : (reason : String) → EmbeddingProblem
  rethrown : TaskProblem → EmbeddingProblem

-- The `catch` of both adapters.
unfoldable pub caught : (signal_reason : Option String) → TaskProblem → EmbeddingProblem
caught reason task_overloaded = provider_fault "rate_limited" true
caught reason task_closed = provider_fault "provider_unavailable" true
caught (some reason) task_cancelled = aborted_for reason
caught none task_cancelled = rethrown task_cancelled
caught reason (task_failed cause) = rethrown (task_failed cause)

abbrev or_caught {ℓ} :
    {A : Type ℓ} → Option String → Result TaskProblem A → Result EmbeddingProblem A
or_caught reason (ok outputs) = ok outputs
or_caught reason (throw problem) = throw (caught reason problem)

abbrev pub batch_size : Priority → SchedulerProfile → (inputs : ℕ) → ℕ
batch_size background profile inputs = profile.background_batch_size
batch_size resolve profile inputs = inputs

abbrev pub Outcome : Type 0 → Type 0 → Type 0
Outcome B W = Result TaskProblem (List B) × W

abbrev followed : {B W : Type 0} → List B → Outcome B W → Outcome B W
followed outputs (ok more, w) = (ok (outputs ++ more), w)
followed outputs (throw problem, w) = (throw problem, w)

-- `outputs.push(...(await run(batch)))`, and what comes after.
abbrev pub and_then : {B W : Type 0} → Outcome B W → (W → Outcome B W) → Outcome B W
and_then (ok outputs, w) rest = followed outputs (rest w)
and_then (throw problem, w) rest = (throw problem, w)

module _ {A B W : Type 0} (run : List A → W → Outcome B W) where
  -- The loop of `runBatches` over the inputs from `offset` on, on fuel.
  unfoldable pub run_from : (fuel size : ℕ) → List A → W → Outcome B W
  run_from zero size inputs w = (ok [], w)
  run_from (suc fuel) size [] w = (ok [], w)
  run_from (suc fuel) size (input ∷ inputs) w =
      and_then (run (take size (input ∷ inputs)) w)
        (run_from fuel size (drop size (input ∷ inputs)))

  unfoldable pub run_batches : (inputs : List A) → (requested_size : ℕ) → W → Outcome B W
  unfolding run_from
  run_batches [] requested_size w = (ok [], w)
  run_batches (input ∷ inputs) requested_size w =
      run_from (length (input ∷ inputs)) (max 1 requested_size) (input ∷ inputs) w

  unfoldable pub embed :
      Priority
      → SchedulerProfile
      → (signal_reason : Option String) → (inputs : List A) → W
      → Result EmbeddingProblem (List B) × W
  unfolding run_batches caught
  embed priority profile reason inputs w =
      let (outputs, after) = run_batches inputs (batch_size priority profile (length inputs)) w in
      (or_caught reason outputs, after)
