-- ===== src/Common/Trim.antt =====
-- `text.trim()`: the white space of ECMAScript is taken off both ends.
use mathlib.Core.Path.{◌≡◌, refl, ap, ◌∙◌}
use mathlib.Core.Bool.{Bool, true, false, not, ◌||◌, ◌&&◌}
use mathlib.Core.List.{List, [], ◌∷◌, ◌++◌, reverse, reverse-reverse, reverse-cons}
use Prim.Native.Nat.{ℕ, ◌≤◌, compare, Ordering}
use native.Mathlib.Omega.{arith}

leb : ℕ → ℕ → Bool
leb a b = elim (compare a b) [ Ordering.gt ↦ false | _ ↦ true ]

within : ℕ → ℕ → ℕ → Bool
unfolding leb
within a b c = leb a c && leb c b

unfoldable pub is_space : ℕ → Bool
unfolding within
is_space c =
    within 9 13 c
    || within 32 32 c
    || within 160 160 c
    || within 5760 5760 c
    || within 8192 8202 c
    || within 8232 8233 c
    || within 8239 8239 c
    || within 8287 8287 c
    || within 12288 12288 c
    || within 65279 65279 c

unfoldable pub drop_spaces : List ℕ → List ℕ
drop_spaces [] = []
drop_spaces (c ∷ s) = let rest = drop_spaces s in elim (is_space c) [ true ↦ rest | false ↦ c ∷ s ]

unfoldable pub trim : List ℕ → List ℕ
unfolding drop_spaces is_space
trim s = reverse (drop_spaces (reverse (drop_spaces s)))

-- The text begins with no white space.
abbrev pub IsTight : List ℕ → Type 0
IsTight [] = Unit
IsTight (c ∷ s) = is_space c ≡ false

drop_spaces-IsTight : (s : List ℕ) → IsTight s → drop_spaces s ≡ s
unfolding drop_spaces
drop_spaces-IsTight [] h = refl
drop_spaces-IsTight (c ∷ s) h = ground arith

-- A text with no white space at either end is left alone.
pub trim-eq_self : (s : List ℕ) → IsTight s → IsTight (reverse s) → trim s ≡ s
unfolding trim
trim-eq_self s h k =
    ap (λ t. reverse (drop_spaces (reverse t))) (drop_spaces-IsTight s h)
    ∙ ap reverse (drop_spaces-IsTight (reverse s) k)
    ∙ reverse-reverse s

-- The printable characters of ASCII are no white space.
pub is_space-printable : (c : ℕ) → 33 ≤ c → c ≤ 126 → is_space c ≡ false
unfolding is_space
is_space-printable c h k = ground arith

-- No element is white space.
abbrev pub solid : List ℕ → Bool
solid [] = true
solid (c ∷ s) = not (is_space c) && solid s

solid-append : (s t : List ℕ) → solid s ≡ true → solid t ≡ true → solid (s ++ t) ≡ true
solid-append [] t h k = k
solid-append (c ∷ s) t h k = ground (arith, solid-append s t)

solid-reverse : (s : List ℕ) → solid s ≡ true → solid (reverse s) ≡ true
solid-reverse [] h = refl
solid-reverse (c ∷ s) h =
    rw (reverse-cons c s)
      (solid-append (reverse s) (c ∷ []) (solid-reverse s (ground arith)) (ground arith))

solid-IsTight : (s : List ℕ) → solid s ≡ true → IsTight s
solid-IsTight [] h = tt
solid-IsTight (c ∷ s) h = ground arith

-- A text with no white space is its own `trim()`.
pub trim-solid : (s : List ℕ) → solid s ≡ true → trim s ≡ s
trim-solid s h = trim-eq_self s (solid-IsTight s h) (solid-IsTight _ (solid-reverse s h))
