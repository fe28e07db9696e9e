-- ===== src/Base/Texts.antt =====
-- Text as its code points, so that slices, trims and searches are recursions.
use Prim.Native.Char.{code}
use Prim.Native.Nat.{ℕ, zero, suc, ◌+◌, ◌/◌, ◌%◌}
use Prim.Native.String.{String}
use mathlib.Core.Path.{◌≡◌, refl}
use mathlib.Core.Bool.{Bool, true, false, ◌&&◌, ◌||◌}
use mathlib.Core.List.{List, [], ◌∷◌}
use native.Mathlib.Omega.{arith}
use allocation_key_simulatio.Base.Tests.{◌==◌, if◌then◌else◌}

abbrev pub Text : Type 0
Text = List ℕ

abbrev pub codes : String → Text
codes String.[] = []
codes (String.◌∷◌ c s) = code c ∷ codes s

-- `==` of two texts.
unfoldable pub same_text : Text → Text → Bool
same_text [] [] = true
same_text (c ∷ s) (d ∷ t) = c == d && same_text s t
same_text _ _ = false

pub same_text_refl : (s : Text) → same_text s s ≡ true
unfolding same_text
same_text_refl [] = refl
same_text_refl (c ∷ s) = ground (arith, same_text_refl s)

pub same_text_eq : (s t : Text) → same_text s t ≡ true → s ≡ t
unfolding same_text
same_text_eq [] [] h = refl
same_text_eq (c ∷ s) (d ∷ t) h = ground (arith, same_text_eq s t)
same_text_eq [] (d ∷ t) h = cc
same_text_eq (c ∷ s) [] h = cc

-- `name in names`
unfoldable pub contains : Text → List Text → Bool
contains s [] = false
contains s (t ∷ ts) = same_text t s || contains s ts

-- The decimal digits of a number, as an f-string prints it; `suc n` digits are more than enough.
show_digits : ℕ → ℕ → Text → Text
show_digits zero n acc = acc
show_digits (suc f) n acc =
    let digit = 48 + n % 10 in
    let rest = show_digits f (n / 10) (digit ∷ acc) in if n == 0 then acc else rest

unfoldable pub show : ℕ → Text
unfolding show_digits
show n = if n == 0 then codes "0" else show_digits (suc n) n []
