-- ===== src/Registry/Effects/Laws.antt =====
-- Laws of the actions: those that leave the database, and what a chain that returned went through.
use contextctl.Common.{◌≡◌, refl, ◌∙◌, Option, none, some, Result, ok, throw}
use contextctl.Registry.Versions.{VersionError}
use contextctl.Registry.Effects.{World, Action, ◌>>=◌, defined, checked, continue, RegistryError}

abbrev pub Keeps : {A : Type 0} → Action A → Type 0
Keeps m = (w : World) → (m w).1.db ≡ w.db

continue-Keeps :
    {A B : Type 0} (r : Result RegistryError A) (f : A → Action B)
    → ((a : A) → Keeps (f a))
    → (w : World) → (continue r f w).1.db ≡ w.db
continue-Keeps (ok a) f h w = h a w
continue-Keeps (throw e) f h w = refl

pub bind-Keeps :
    {A B : Type 0} (m : Action A) (f : A → Action B)
    → Keeps m
    → ((a : A) → Keeps (f a))
    → Keeps (m >>= f)
bind-Keeps m f h k w = continue-Keeps (m w).0 f k (m w).1 ∙ h w

pub defined-Keeps : {A : Type 0} (o : Option A) (e : RegistryError) → Keeps (defined o e)
defined-Keeps none e w = refl
defined-Keeps (some a) e w = refl

pub checked-Keeps : {A : Type 0} (r : Result VersionError A) → Keeps (checked r)
checked-Keeps (ok a) w = refl
checked-Keeps (throw e) w = refl

-- A chain that returned, step by step.
abbrev pub Passed : {A B : Type 0} → Action A → (A → Action B) → B → World → Type 0
Passed {A} m f b w =
    (a : A) × ((m w).0 ≡ ok a) × ((f a (m w).1).0 ≡ ok b) × (((m >>= f) w).1 ≡ (f a (m w).1).1)

continue_passed :
    {A B : Type 0} (r : Result RegistryError A) (f : A → Action B) (b : B) (w : World)
    → (continue r f w).0 ≡ ok b
    → (a : A) × (r ≡ ok a) × ((f a w).0 ≡ ok b) × ((continue r f w).1 ≡ (f a w).1)
continue_passed (ok a) f b w h = (a, refl, h, refl)
continue_passed (throw e) f b w h = cc

pub bind-Passed :
    {A B : Type 0} (m : Action A) (f : A → Action B) (b : B) (w : World)
    → ((m >>= f) w).0 ≡ ok b
    → Passed m f b w
bind-Passed m f b w h = continue_passed (m w).0 f b (m w).1 h

pub defined_passed :
    {A : Type 0} (o : Option A) (e : RegistryError) (a : A) (w : World)
    → ((defined o e) w).0 ≡ ok a
    → (o ≡ some a) × (((defined o e) w).1 ≡ w)
defined_passed none e a w h = cc
defined_passed (some b) e a w h = (cc, refl)
