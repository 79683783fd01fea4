-- ===== src/Prelude.antt =====
-- The names that the other modules share: the libraries', passed on, and those of the children.
mod Tests
mod Lists
mod Products
mod Int
mod Outcome
pub use Tests.*
pub use Lists.*
pub use Products.*
pub use Int.{ℤ, pos, negsuc, minus_one, is_minus_one, is_zero, as_size, as_u32}
pub use Outcome.{
  Run, done, fault, out_of_fuel, ◌>>=◌, deref, Returns, Returns-weaken, Returns->>=, Returns-both,
  Ends, Ends-weaken, Ends-result, Ends->>=, Ends-deref_then, Ends-if,
}
pub use Prim.Native.Nat.{ℕ, zero, suc, ◌+◌, ◌-◌, ◌*◌, ◌/◌, ◌%◌, ◌^◌, ◌≤◌, ◌<◌, min}
pub use mathlib.Core.Path.{◌≡◌, refl, sym, ap, ◌∙◌, subst}
pub use mathlib.Core.Logic.{◌≢◌, ◌↔◌, ◌⊎◌, inl, inr}
pub use mathlib.Core.Bool.{Bool, true, false, not, ◌&&◌, ◌||◌}
pub use mathlib.Core.Option.{Option, none, some}
pub use mathlib.Core.List.{List, [], ◌∷◌, ◌++◌, map, reverse, append-nil, append_assoc}
pub use native.Mathlib.Omega.{arith}
