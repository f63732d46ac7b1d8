-- ===== src/Base/Equality.antt =====
-- Python's `==` as an interface: a Boolean test that decides equality.
use mathlib.Core.Bool.{Bool, true}
use mathlib.Core.Logic.{◌↔◌}
use mathlib.Core.Path.{◌≡◌, refl}
use native.Mathlib.Omega.{arith}
use Prim.Native.Nat.{ℕ}
use Prim.Native.String.{String}
use text.Mathlib.Text.{◌==◌ as str_eq}
use text.Mathlib.TextEquality.{eq_iff}
use v3xctrl.Base.Tests.{nat_beq, nat_beq_iff}

pub record PyEq {κ} (T : Type κ) : Type κ where
  pub same : T → T → Bool
  pub same_iff : (x y : T) → (same x y ≡ true) ↔ (x ≡ y)

infix 50 ◌==◌
abbrev pub ◌==◌ {κ} : {T : Type κ} ⦃eq : PyEq T⦄ → T → T → Bool
◌==◌ ⦃eq⦄ = eq.same

instance abbrev pub string_eq : PyEq String
string_eq = record { same = str_eq; same_iff = eq_iff }

instance abbrev pub nat_eq : PyEq ℕ
nat_eq = record { same = nat_beq; same_iff = nat_beq_iff }

pub beq_sym {κ} : {T : Type κ} ⦃eq : PyEq T⦄ (x y : T) → (x == y) ≡ (y == x)
beq_sym ⦃eq⦄ x y = ground (arith, eq.same_iff x y, eq.same_iff y x)

pub beq_refl {κ} : {T : Type κ} ⦃eq : PyEq T⦄ (x : T) → (x == x) ≡ true
beq_refl ⦃eq⦄ x = (eq.same_iff x x).1 refl
