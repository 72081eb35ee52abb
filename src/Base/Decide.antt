-- ===== src/Base/Decide.antt =====
-- The Booleans that decide a proposition, and the test of two byte strings.
use mathlib.Core.Path.{◌≡◌, refl, ap₂}
use mathlib.Core.Logic.{◌⊎◌, inl, inr}
use mathlib.Core.Bool.{Bool, true, false, not, ◌&&◌, ◌||◌}
use mathlib.Core.List.{List, [], ◌∷◌}
use Prim.Native.Nat.{ℕ}
use my_wireshark.Base.Tests.{◌==◌, ==_iff}
use my_wireshark.Base.Text.{same_bytes}

-- A Boolean that decides a proposition.
pub record Decides (b : Bool) (P : Type 0) : Type 0 where
  pub sound : b ≡ true → P
  pub complete : P → b ≡ true

pub not-Decides : (b : Bool) {P : Type 0} → Decides b P → Decides (not b) (¬ P)
not-Decides true d = record { sound = λ e. cc; complete = λ n. absurd (n (d.sound refl)) }
not-Decides false d = record { sound = λ _ p. cc (d.complete p); complete = λ _. refl }

pub or-Decides : (b c : Bool) {P Q : Type 0} → Decides b P → Decides c Q → Decides (b || c) (P ⊎ Q)
or-Decides true c d e = record { sound = λ _. inl (d.sound refl); complete = λ _. refl }
or-Decides false c d e = record {
  sound = λ h. inr (e.sound h);
  complete = λ s. elim s [ inl p ↦ absurd (cc (d.complete p)) | inr q ↦ e.complete q ];
}

pub and-Decides : (b c : Bool) {P Q : Type 0} → Decides b P → Decides c Q → Decides (b && c) (P × Q)
and-Decides true c d e = record {
  sound = λ h. (d.sound refl, e.sound h);
  complete = λ (p, q). e.complete q;
}
and-Decides false c d e = record { sound = λ h. cc; complete = λ (p, q). d.complete p }

pub ==-Decides : (a b : ℕ) → Decides (a == b) (a ≡ b)
==-Decides a b = record { sound = (==_iff a b).0; complete = (==_iff a b).1 }

pub map-Decides : {b : Bool} {P Q : Type 0} → (P → Q) → (Q → P) → Decides b P → Decides b Q
map-Decides f g d = record { sound = λ h. f (d.sound h); complete = λ q. d.complete (g q) }

pub cons_head : (x y : ℕ) (xs ys : List ℕ) → x ∷ xs ≡ y ∷ ys → (x ≡ y) × (xs ≡ ys)
cons_head x y xs ys e = (cc, cc)

pub same_bytes-Decides : (xs ys : List ℕ) → Decides (same_bytes xs ys) (xs ≡ ys)
unfolding same_bytes
same_bytes-Decides [] [] = record { sound = λ _. refl; complete = λ _. refl }
same_bytes-Decides [] (y ∷ ys) = record { sound = λ e. cc; complete = λ e. cc }
same_bytes-Decides (x ∷ xs) [] = record { sound = λ e. cc; complete = λ e. cc }
same_bytes-Decides (x ∷ xs) (y ∷ ys) =
    map-Decides (λ (p, q). ap₂ ◌∷◌ p q) (cons_head x y xs ys)
      (and-Decides (x == y) (same_bytes xs ys) (==-Decides x y) (same_bytes-Decides xs ys))
