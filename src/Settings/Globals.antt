-- ===== src/Settings/Globals.antt =====
-- The global instance that crypto/factory/factory.go, logger/factory/factory.go and
-- otel/factory/factory.go each keep: a variable and a `sync.Once`. The mutexes make the operations
-- atomic.
pub mod Lasting
use go_utilities.Base.{Bool, true, false, List, [], ◌∷◌, Option, none, some, if◌then◌else◌}
use go_utilities.Base.Result.{Result, ok, err}

-- A nil instance is `none`.
pub record Global (P : Type 0) : Type 0 where
  pub instance_of : Option P
  pub done : Bool

pub data Use (P : Type 0) : Type 0 where
  gets : Option P → Use P
  sets : Option P → Use P
  resets : Use P

module _ {P : Type 0} where
  abbrev pub fresh : Global P
  fresh = record { instance_of = none; done = false }

  -- The body of the `Once`: the instance of the default configuration or, where that fails, of the
  -- fallback, whose own error is dropped.
  abbrev pub first_instance : {E : Type 0} → Result E P → Result E P → Option P
  first_instance (ok p) fallback = some p
  first_instance (err e) (ok p) = some p
  first_instance (err e) (err e') = none

  -- `GetGlobalService`, `GetGlobalLogger` and `GetGlobalProvider`: `made` is what the body of the
  -- `Once` would give now.
  unfoldable pub get_global : Option P → Global P → Global P × Option P
  get_global made g =
      if g.done then (g, g.instance_of) else (record { instance_of = made; done = true }, made)

  -- `SetGlobalService` and the like; nil changes nothing.
  unfoldable pub set_global : Option P → Global P → Global P
  set_global none g = g
  set_global (some p) g = record g { instance_of = some p }

  unfoldable pub reset : Global P → Global P
  reset g = fresh

  abbrev pub use_once : Use P → Global P → Global P
  use_once (gets made) g = (get_global made g).0
  use_once (sets p) g = set_global p g
  use_once resets g = reset g

  unfoldable pub use_all : List (Use P) → Global P → Global P
  unfolding get_global set_global reset
  use_all [] g = g
  use_all (u ∷ us) g = use_all us (use_once u g)
