-- ===== src/Common/Texts.antt =====
-- Texts, as lists of character codes.
use Prim.Native.Nat.{ℕ}
use mathlib.Core.Path.{◌≡◌, refl}
use mathlib.Core.Bool.{Bool, true, false, ◌&&◌}
use mathlib.Core.List.{List, [], ◌∷◌}
use native.Mathlib.Omega.{arith}
use pimc_toolkit.Common.Tests.{◌==◌}

abbrev pub Text : Type 0
Text = List ℕ

abbrev pub text_eq : Text → Text → Bool
text_eq [] [] = true
text_eq [] (d ∷ t) = false
text_eq (c ∷ s) [] = false
text_eq (c ∷ s) (d ∷ t) = c == d && text_eq s t

pub text_eq_lem : (s t : Text) → text_eq s t ≡ true → s ≡ t
text_eq_lem [] [] h = refl
text_eq_lem [] (d ∷ t) h = cc
text_eq_lem (c ∷ s) [] h = cc
text_eq_lem (c ∷ s) (d ∷ t) h =
    let head : c ≡ d = ground arith in
    let rest : text_eq s t ≡ true = ground arith in let tail = text_eq_lem s t rest in cc

pub text_eq_refl : (s : Text) → text_eq s s ≡ true
text_eq_refl [] = refl
text_eq_refl (c ∷ s) = ground (arith, text_eq_refl s)
