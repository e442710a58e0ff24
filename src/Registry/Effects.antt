-- ===== src/Registry/Effects.antt =====
-- What a use case of the registry works on: the database, the id generator and the clock, which
-- each call moves on, and the errors that it throws. A use case runs to its end before another
-- one touches the database; what was written before an error stays written.
pub mod Laws
use contextctl.Common.{ℕ, ◌+◌, String, Option, none, some, List, Result, ok, throw}
use contextctl.Registry.Versions.{VersionError}
use contextctl.Registry.Store.{Database}

pub data CatalogFinding : Type 0 where
  card_count : ℕ → CatalogFinding
  canonical_bytes : ℕ → CatalogFinding
  token : String → ℕ → CatalogFinding

-- domain/errors.ts and application/errors.ts, one constructor for each message
pub data RegistryError : Type 0 where
  invariant : VersionError → RegistryError
  not_a_rollback : (version_id card_id : String) → RegistryError
  oversized_catalog : List CatalogFinding → RegistryError
  card_not_found : String → RegistryError
  version_not_in_history : (version_id card_id : String) → RegistryError
  publication_not_found : String → RegistryError
  card_without_meaning : String → RegistryError

pub record World : Type 0 where
  pub db : Database
  pub ids_used : ℕ
  pub clock_reads : ℕ

-- The ports that other code implements: the n-th id and the n-th reading of the clock.
pub record Supplies : Type 0 where
  pub fresh : ℕ → String
  pub time : ℕ → String

abbrev pub Action : Type 0 → Type 0
Action A = World → Result RegistryError A × World

abbrev pub continue : {A B : Type 0} → Result RegistryError A → (A → Action B) → Action B
continue (ok a) f w = f a w
continue (throw e) f w = (throw e, w)

infixl 5 ◌>>=◌ ◌>>◌
abbrev pub ◌>>=◌ : {A B : Type 0} → Action A → (A → Action B) → Action B
◌>>=◌ m f w = let (r, w') = m w in continue r f w'

abbrev pub ◌>>◌ : {A B : Type 0} → Action A → Action B → Action B
m >> k = m >>= λ _. k

abbrev pub return : {A : Type 0} → A → Action A
return a w = (ok a, w)

abbrev pub raise : {A : Type 0} → RegistryError → Action A
raise e w = (throw e, w)

abbrev pub read : {A : Type 0} → (Database → A) → Action A
read f w = (ok (f w.db), w)

abbrev pub write : (Database → Database) → Action (Unit {0})
write f w = (ok tt, record w { db = f w.db })

-- `if (value === undefined) throw error`
abbrev pub defined : {A : Type 0} → Option A → RegistryError → Action A
defined none e = raise e
defined (some a) e = return a

-- A call of the domain that may throw.
abbrev pub checked : {A : Type 0} → Result VersionError A → Action A
checked (ok a) = return a
checked (throw e) = raise (invariant e)

abbrev pub next_id : Supplies → Action String
next_id s w = (ok (s.fresh w.ids_used), record w { ids_used = w.ids_used + 1 })

abbrev pub now : Supplies → Action String
now s w = (ok (s.time w.clock_reads), record w { clock_reads = w.clock_reads + 1 })
