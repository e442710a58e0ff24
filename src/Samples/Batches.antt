-- ===== src/Samples/Batches.antt =====
-- Five texts that are embedded in batches of two.
use contextctl.Common.{ℕ, suc, ◌≡◌, refl, String, none, List, [], ◌∷◌, map, max, ok}
use contextctl.Runtime.Scheduler.{background}
use contextctl.Runtime.Batches.{Outcome, run_batches, embed}
use contextctl.Runtime.Batches.Pieces.{run_batches-RunsPieces, RunsPieces, embed-whole}
use contextctl.Samples.Daemon.{profile}

abbrev embedded : String → List String
embedded text = text ∷ []

-- The world counts the runs.
abbrev run_one : List String → ℕ → Outcome (List String) ℕ
run_one piece runs = (ok (map embedded piece), suc runs)

run_one-answers :
    (piece : List String) (runs : ℕ) → (run_one piece runs).0 ≡ ok (map embedded piece)
run_one-answers piece runs = refl

abbrev inputs : List String
inputs = "a" ∷ "b" ∷ "c" ∷ "d" ∷ "e" ∷ []

three_runs : (run_batches run_one inputs 2 0).1 ≡ 3
unfolding run_batches
three_runs = refl

run_batches-RunsPieces_example : RunsPieces run_one (max 1 2) inputs (run_batches run_one inputs 2)
run_batches-RunsPieces_example = run_batches-RunsPieces run_one inputs 2

embed-whole_example : (embed run_one background profile none inputs 0).0 ≡ ok (map embedded inputs)
embed-whole_example = embed-whole run_one embedded run_one-answers background profile none inputs 0
