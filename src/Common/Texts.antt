-- ===== src/Common/Texts.antt =====
-- Texts as lists of code units, with the tests that the source writes as `===` and as truthiness.
use Prim.Native.Nat.{ℕ, compare, Ordering}
use Prim.Native.Char.{code}
use Prim.Native.String.{String}
use mathlib.Core.Path.{◌≡◌, refl}
use mathlib.Core.Logic.{◌↔◌}
use mathlib.Core.Bool.{Bool, true, false, ◌&&◌}
use mathlib.Core.Option.{Option, none, some}
use mathlib.Core.List.{List, [], ◌∷◌}
use native.Mathlib.Omega.{arith}

abbrev pub Text : Type 0
Text = List ℕ

-- The code units of a literal, which is ASCII.
abbrev pub codes : String → Text
codes String.[] = []
codes (String.◌∷◌ c s) = code c ∷ codes s

unit_eq : ℕ → ℕ → Bool
unit_eq a b = elim (compare a b) [ Ordering.eq ↦ true | _ ↦ false ]

unfoldable pub text_eq : Text → Text → Bool
unfolding unit_eq
text_eq [] [] = true
text_eq (a ∷ s) (b ∷ t) = unit_eq a b && text_eq s t
text_eq _ _ = false

pub text_eq→eq : (s t : Text) → text_eq s t ≡ true → s ≡ t
unfolding text_eq
text_eq→eq [] [] h = refl
text_eq→eq [] (b ∷ t) h = cc
text_eq→eq (a ∷ s) [] h = cc
text_eq→eq (a ∷ s) (b ∷ t) h = ground (arith, text_eq→eq s t)

pub text_eq_refl : (s : Text) → text_eq s s ≡ true
unfolding text_eq
text_eq_refl [] = refl
text_eq_refl (a ∷ s) = ground (arith, text_eq_refl s)

pub text_eq_iff : (s t : Text) → (text_eq s t ≡ true) ↔ (s ≡ t)
text_eq_iff s t = (text_eq→eq s t, λ e. rw e (text_eq_refl t))

-- `!!value` of a text that may be null: null and the empty text are falsy.
abbrev pub truthy : Option Text → Bool
truthy none = false
truthy (some []) = false
truthy (some (c ∷ s)) = true
