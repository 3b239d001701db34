-- ===== src/Prelude/Texts.antt =====
-- Slices of strings.
use mathlib.Core.Path.{◌≡◌}
use mathlib.Core.Logic.{inl, inr}
use mathlib.Core.Bool.{Bool, true, false}
use mathlib.Core.List.{List, [], ◌∷◌}
use Prim.Native.String.{String}
use native.Mathlib.Omega.{arith}
use text.Mathlib.Text.{◌==◌ as str_eq}
use text.Mathlib.TextEquality.{eq_iff}
use propeller.Prelude.Tests.{if◌then◌else◌, Bool-cases}
use propeller.Prelude.Lists.{Elem}

-- `slices.Contains` on a slice of strings.
unfoldable pub contains : List String → String → Bool
contains [] a = false
contains (x ∷ xs) a = if str_eq x a then true else contains xs a

pub contains→Elem : (xs : List String) (a : String) → contains xs a ≡ true → Elem a xs
unfolding contains
contains→Elem [] a h = cc
contains→Elem (x ∷ xs) a h = elim (Bool-cases (str_eq x a)) [
  | inl e ↦ inl ((eq_iff x a).0 e)
  | inr n ↦ inr (contains→Elem xs a (ground arith))
]

pub Elem→contains : (xs : List String) (a : String) → Elem a xs → contains xs a ≡ true
unfolding contains
Elem→contains [] a h = absurd h
Elem→contains (x ∷ xs) a (inl e) = ground (arith, eq_iff x a)
Elem→contains (x ∷ xs) a (inr m) = ground (arith, Elem→contains xs a m)
