-- ===== src/Runtime/Lifecycle/Marks.antt =====
-- lifecycle.ts: which of the registered objects are marked as closed.
use contextctl.Common.{ℕ, ◌<◌, ◌≡◌, refl, ◌∙◌, false, List, [], ◌∷◌, ◌++◌, All, arith, String}
use contextctl.Runtime.Lifecycle.{RegisteredCloseable, is_closed, mark_closed}

abbrev pub IsOpen : List RegisteredCloseable → RegisteredCloseable → Type 0
IsOpen closeables c = is_closed c.key closeables ≡ false

pub is_closed-append_open :
    (closeables : List RegisteredCloseable) (key n : ℕ) (name : String)
    → is_closed key (closeables ++ record { key = n; name = name; closed = false } ∷ [])
      ≡ is_closed key closeables
unfolding is_closed
is_closed-append_open [] key n name = ground arith
is_closed-append_open (c ∷ closeables) key n name =
    rw (is_closed-append_open closeables key n name) refl

pub is_closed-mark :
    (closeables : List RegisteredCloseable) (key marked : ℕ)
    → key < marked
    → is_closed key (mark_closed marked closeables) ≡ is_closed key closeables
unfolding is_closed mark_closed
is_closed-mark [] key marked h = refl
is_closed-mark (c ∷ closeables) key marked h =
    ground (arith, is_closed-mark closeables key marked h)

pub IsOpen-mark :
    (closeables rest : List RegisteredCloseable) (marked : ℕ)
    → All (λ r. r.key < marked) rest
    → All (IsOpen closeables) rest
    → All (IsOpen (mark_closed marked closeables)) rest
IsOpen-mark closeables [] marked below opened = tt
IsOpen-mark closeables (c ∷ rest) marked below opened = (
  is_closed-mark closeables c.key marked below.0 ∙ opened.0,
  IsOpen-mark closeables rest marked below.1 opened.1,
)

pub IsOpen-append :
    (closeables rest : List RegisteredCloseable) (n : ℕ) (name : String)
    → All (IsOpen closeables) rest
    → All (IsOpen (closeables ++ record { key = n; name = name; closed = false } ∷ [])) rest
IsOpen-append closeables [] n name opened = tt
IsOpen-append closeables (c ∷ rest) n name opened = (
  is_closed-append_open closeables c.key n name ∙ opened.0,
  IsOpen-append closeables rest n name opened.1,
)
