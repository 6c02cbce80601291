-- ===== src/Base/Finite.antt =====
-- Enumerations: the members of a type in a list, with the place of each. A test that holds of the
-- listed members holds of all, so a table is checked by evaluation.
use coder_er.Base.Tests.{nat_beq, nat_beq_iff}
use coder_er.Base.Lists.{all, get_elem?, all-get_elem?}
use coder_er.Base.Eq.{Equality}
use Prim.Native.Nat.{ℕ}
use mathlib.Core.Path.{◌≡◌, ap}
use mathlib.Core.Logic.{◌↔◌}
use mathlib.Core.Bool.{Bool, true}
use mathlib.Core.Option.{some}
use mathlib.Core.List.{List}

pub record Finite (A : Type 0) : Type 0 where
  pub index : A → ℕ
  pub members : List A
  pub found : (a : A) → get_elem? members (index a) ≡ some a

module _ {A : Type 0} (f : Finite A) where
  abbrev pub holds_everywhere : (A → Bool) → Bool
  holds_everywhere p = all p f.members

  pub holds_everywhere_sound : (p : A → Bool) (a : A) → holds_everywhere p ≡ true → p a ≡ true
  holds_everywhere_sound p a h = all-get_elem? p f.members (f.index a) h (f.found a)

  pub index_injective : (a b : A) → f.index a ≡ f.index b → a ≡ b
  index_injective a b h = cc (f.found a, f.found b, ap (get_elem? f.members) h)

  pub same_index_iff : (a b : A) → (nat_beq (f.index a) (f.index b) ≡ true) ↔ (a ≡ b)
  same_index_iff a b =
      (λ h. index_injective a b ((nat_beq_iff _ _).0 h), λ h. (nat_beq_iff _ _).1 (ap f.index h))

  abbrev pub equality : Equality A
  equality = record { beq = λ a b. nat_beq (f.index a) (f.index b); beq_iff = same_index_iff }
