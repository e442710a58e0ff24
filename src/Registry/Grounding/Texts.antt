-- ===== src/Registry/Grounding/Texts.antt =====
-- fact-grounding.ts: the text functions and regular expressions, and the limits of the read model. The
-- Unicode tables of the language are a parameter.
use Prim.Native.Char.{Char, code}
use Prim.Native.String.{◌++◌ as text_append}
use Prim.Native.Nat.{◌/◌, ◌%◌}
use contextctl.Common.{
  text, ℕ, zero, suc, String, string_instance, Bool, true, false, not, ◌&&◌, ◌||◌, List, [], ◌∷◌,
  ◌++◌, filter, map, any, leb, ltb, nat_eq, ◌==◌, if◌then◌else◌,
}
use contextctl.Registry.Model.{GroundingFinding, fatal}

-- White space, the letters and numbers (`\p{L}\p{N}`), and `toLowerCase`.
pub record Unicode : Type 0 where
  pub is_space : Char → Bool
  pub is_letter_or_number : Char → Bool
  pub lower : String → String

abbrev pub fatal_finding : String → List String → GroundingFinding
fatal_finding rule parts = record { rule = rule; message = text parts; severity = fatal }

-- A number in a message; a number has at most as many digits as it counts, and one.
abbrev digit_names : List String
digit_names = "0" ∷ "1" ∷ "2" ∷ "3" ∷ "4" ∷ "5" ∷ "6" ∷ "7" ∷ "8" ∷ "9" ∷ []

abbrev name_at : List String → ℕ → String
name_at [] n = ""
name_at (name ∷ names) zero = name
name_at (name ∷ names) (suc n) = name_at names n

abbrev digit_text : ℕ → String
digit_text = name_at digit_names

digits_within : (fuel : ℕ) → ℕ → String
digits_within zero n = digit_text n
digits_within (suc fuel) n =
    let rest = digits_within fuel (n / 10) in
    if ltb n 10 then digit_text n else text_append rest (digit_text (n % 10))

unfoldable pub decimal : ℕ → String
unfolding digits_within
decimal n = digits_within n n

unfoldable pub every_char : (Char → Bool) → String → Bool
every_char p String.[] = true
every_char p (String.◌∷◌ c s) = p c && every_char p s

unfoldable pub some_char : (Char → Bool) → String → Bool
some_char p String.[] = false
some_char p (String.◌∷◌ c s) = p c || some_char p s

-- The characters from `low` to `high`.
abbrev between : ℕ → ℕ → Char → Bool
between low high c = leb low (code c) && leb (code c) high

abbrev is_digit : Char → Bool
is_digit = between b'0' b'9'

abbrev is_small : Char → Bool
is_small = between b'a' b'z'

abbrev is_char : ℕ → Char → Bool
is_char n c = nat_eq (code c) n

abbrev is_small_or_digit : Char → Bool
is_small_or_digit c = is_small c || is_digit c

-- CONTROL_CHARACTERS
unfoldable pub is_control : Char → Bool
is_control c = leb (code c) 31 || is_char 127 c

-- `text.includes(part)`
unfoldable pub starts_with : String → String → Bool
starts_with String.[] s = true
starts_with (String.◌∷◌ p part) String.[] = false
starts_with (String.◌∷◌ p part) (String.◌∷◌ c s) = nat_eq (code p) (code c) && starts_with part s

unfoldable pub includes : String → String → Bool
unfolding starts_with
includes part String.[] = starts_with part String.[]
includes part (String.◌∷◌ c s) = starts_with part (String.◌∷◌ c s) || includes part s

-- The longest runs of characters that pass a test: the run that is still open, and those after it.
abbrev close_run : String × List String → List String
close_run (run, runs) = if run == "" then runs else run ∷ runs

scan_runs : (Char → Bool) → String → String × List String
scan_runs p String.[] = ("", [])
scan_runs p (String.◌∷◌ c s) =
    let scanned = scan_runs p s in
    if p c then (String.◌∷◌ c scanned.0, scanned.1) else ("", close_run scanned)

unfoldable pub strip_trailing_punctuation : String → String
strip_trailing_punctuation String.[] = String.[]
strip_trailing_punctuation (String.◌∷◌ c s) =
    let rest = strip_trailing_punctuation s in
    if (is_char b'.' c || is_char b',' c) && (rest == "") then "" else String.◌∷◌ c rest

-- /[0-9]+(?:\.[0-9]+)?/gu, from left to right.
pub data DigitState : Type 0 where
  outside : DigitState
  in_number in_fraction : String → DigitState
  after_dot : String → DigitState

abbrev with_char : String → Char → String
with_char s c = text_append s (String.◌∷◌ c String.[])

digit_step : DigitState → Char → DigitState × List String
digit_step outside c = if is_digit c then (in_number (with_char "" c), []) else (outside, [])
digit_step (in_number run) c =
    if is_digit c
    then (in_number (with_char run c), [])
    else if is_char b'.' c
    then (after_dot run, [])
    else (outside, run ∷ [])
digit_step (after_dot run) c =
    if is_digit c
    then (in_fraction (with_char (text_append run ".") c), [])
    else (outside, run ∷ [])
digit_step (in_fraction run) c =
    if is_digit c then (in_fraction (with_char run c), []) else (outside, run ∷ [])

digit_end : DigitState → List String
digit_end outside = []
digit_end (in_number run) = run ∷ []
digit_end (after_dot run) = run ∷ []
digit_end (in_fraction run) = run ∷ []

digit_scan : DigitState → String → List String
unfolding digit_step digit_end
digit_scan state String.[] = digit_end state
digit_scan state (String.◌∷◌ c s) =
    let (next, found) = digit_step state c in found ++ digit_scan next s

unfoldable pub digit_runs : String → List String
unfolding digit_scan
digit_runs s = digit_scan outside s

-- The regular expressions of the machine values, as automata.
pub data ValueState : Type 0 where
  start first second third failed : ValueState

abbrev walk : (ValueState → Char → ValueState) → ValueState → String → ValueState
walk step state String.[] = state
walk step state (String.◌∷◌ c s) = walk step (step state c) s

-- ^[a-z]+_[a-z0-9][a-z0-9_-]*$
prefixed_step : ValueState → Char → ValueState
prefixed_step start c = if is_small c then first else failed
prefixed_step first c = if is_small c then first else if is_char b'_' c then second else failed
prefixed_step second c = if is_small_or_digit c then third else failed
prefixed_step third c =
    if is_small_or_digit c || is_char b'_' c || is_char b'-' c then third else failed
prefixed_step failed c = failed

-- ^[a-z][a-z0-9]*(?:_[a-z0-9]+)+$
snake_step : ValueState → Char → ValueState
snake_step start c = if is_small c then first else failed
snake_step first c =
    if is_small_or_digit c then first else if is_char b'_' c then second else failed
snake_step second c = if is_small_or_digit c then third else failed
snake_step third c =
    if is_small_or_digit c then third else if is_char b'_' c then second else failed
snake_step failed c = failed

abbrev is_third : ValueState → Bool
is_third third = true
is_third _ = false

-- ^[0-9]+(?:\.[0-9]+)?$
number_step : ValueState → Char → ValueState
number_step start c = if is_digit c then first else failed
number_step first c = if is_digit c then first else if is_char b'.' c then second else failed
number_step second c = if is_digit c then third else failed
number_step third c = if is_digit c then third else failed
number_step failed c = failed

abbrev is_first_or_third : ValueState → Bool
is_first_or_third first = true
is_first_or_third state = is_third state

abbrev http_methods : List String
http_methods = "GET" ∷ "POST" ∷ "PUT" ∷ "PATCH" ∷ "DELETE" ∷ "HEAD" ∷ "OPTIONS" ∷ []

module _ (unicode : Unicode) where
  -- `value.trim() === ""`
  unfoldable pub is_blank : String → Bool
  unfolding every_char
  is_blank value = every_char unicode.is_space value

  -- ^\/[^\s]*$
  is_path : String → Bool
  unfolding every_char
  is_path String.[] = false
  is_path (String.◌∷◌ c s) = is_char b'/' c && every_char (λ d. not (unicode.is_space d)) s

  unfoldable pub is_machine_value : String → Bool
  unfolding prefixed_step snake_step number_step is_path
  is_machine_value token =
      is_third (walk prefixed_step start token)
      || is_third (walk snake_step start token)
      || is_first_or_third (walk number_step start token)
      || is_path token
      || any (λ method. method == token) http_methods

  -- [\p{L}\p{N}_{}/.-]
  abbrev is_token_char : Char → Bool
  is_token_char c =
      unicode.is_letter_or_number c
      || is_char b'_' c
      || is_char b'{' c
      || is_char b'}' c
      || is_char b'/' c
      || is_char b'.' c
      || is_char b'-' c

  unfoldable pub tokenize : String → List String
  unfolding scan_runs strip_trailing_punctuation
  tokenize s = map strip_trailing_punctuation (close_run (scan_runs is_token_char s))

  unfoldable pub machine_fragments : String → List String
  unfolding tokenize is_machine_value digit_runs
  machine_fragments s = filter is_machine_value (tokenize s) ++ digit_runs s
