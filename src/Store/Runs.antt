-- ===== src/Store/Runs.antt =====
-- What every run of a call keeps, where each of its steps keeps it.
use zabypay_core.Prelude.{Option, none, some}
use zabypay_core.Errors.{AppError}
use zabypay_core.Store.{
  World, Outcome, ok, err, M, pure, ◌>>=◌, continue, ok_or, ignoring, world_of,
}

-- After the call, whatever its result, the world is as `R` says of the one before.
abbrev pub Keeps : (World → World → Type 0) → {A : Type 0} → M A → Type 0
Keeps R m = (s : World) → R s (world_of (m s))

module _ (R : World → World → Type 0) (same : (s : World) → R s s)
    (chain : (s t u : World) → R s t → R t u → R s u) where
  continue_lem :
      {A B : Type 0} (s : World) (o : Outcome A) (f : A → M B)
      → R s (world_of o)
      → ((a : A) → Keeps R (f a))
      → R s (world_of (continue o f))
  continue_lem s (ok a t) f first rest = chain s t (world_of (f a t)) first (rest a t)
  continue_lem s (err e t) f first rest = first

  pub bind-Keeps :
      {A B : Type 0} (m : M A) (f : A → M B)
      → Keeps R m
      → ((a : A) → Keeps R (f a))
      → Keeps R (m >>= f)
  bind-Keeps m f first rest s = continue_lem s (m s) f (first s) rest

  pub pure-Keeps : {A : Type 0} (a : A) → Keeps R (pure a)
  pure-Keeps a s = same s

  pub ok_or-Keeps : {A : Type 0} (e : AppError) (found : Option A) → Keeps R (ok_or e found)
  ok_or-Keeps e none s = same s
  ok_or-Keeps e (some a) s = same s

  pub ignoring-Keeps : (m : M (Unit {0})) → Keeps R m → Keeps R (ignoring m)
  ignoring-Keeps m h s = h s
