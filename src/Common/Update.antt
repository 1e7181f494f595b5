-- ===== src/Common/Update.antt =====
-- A function changed at one number: an array or a map under an assignment.
use Prim.Native.Nat.{ℕ}
use mathlib.Core.Logic.{◌≢◌}
use mathlib.Core.Path.{◌≡◌}
use native.Mathlib.Omega.{arith}
use slate_language.Common.Tests.{◌==◌, if◌then◌else◌}

module _ {ℓ} {A : Type ℓ} where
  unfoldable pub update : (ℕ → A) → ℕ → A → ℕ → A
  update f a v x = if x == a then v else f x

  pub update_self : (f : ℕ → A) (a : ℕ) (v : A) → update f a v a ≡ v
  unfolding update
  update_self f a v = ground arith

  pub update_other : (f : ℕ → A) (a : ℕ) (v : A) (x : ℕ) → x ≢ a → update f a v x ≡ f x
  unfolding update
  update_other f a v x h = ground arith
