-- ===== src/Prelude/Texts.antt =====
-- Text as its list of bytes, with the operations of `str` that the program uses.
use Prim.Native.Nat.{ℕ}
use Prim.Native.Char.{code}
use Prim.Native.String.{String}
use mathlib.Core.Path.{◌≡◌, refl}
use mathlib.Core.Logic.{◌↔◌}
use mathlib.Core.Bool.{Bool, true, false, ◌&&◌}
use mathlib.Core.List.{List, [], ◌∷◌, ◌++◌}
use mathlib.Core.Option.{Option, none, some}
use native.Mathlib.Omega.{arith}
use tikovm.Prelude.Tests.{nat_beq, if◌then◌else◌, Eq}

abbrev pub Text : Type 0
Text = List ℕ

-- The bytes of an ASCII literal.
abbrev pub bytes : String → Text
bytes String.[] = []
bytes (String.◌∷◌ c s) = code c ∷ bytes s

abbrev pub text_beq : Text → Text → Bool
text_beq [] [] = true
text_beq [] (y ∷ ys) = false
text_beq (x ∷ xs) [] = false
text_beq (x ∷ xs) (y ∷ ys) = nat_beq x y && text_beq xs ys

text_beq-eq : (a b : Text) → text_beq a b ≡ true → a ≡ b
text_beq-eq [] [] h = refl
text_beq-eq [] (y ∷ ys) h = cc
text_beq-eq (x ∷ xs) [] h = cc
text_beq-eq (x ∷ xs) (y ∷ ys) h = ground (arith, text_beq-eq xs ys)

text_beq_self : (a : Text) → text_beq a a ≡ true
text_beq_self [] = refl
text_beq_self (x ∷ xs) = ground (arith, text_beq_self xs)

text_beq_of_eq : (a b : Text) → a ≡ b → text_beq a b ≡ true
text_beq_of_eq a b e = rw e (text_beq_self b)

pub text_beq_iff : (a b : Text) → (text_beq a b ≡ true) ↔ (a ≡ b)
text_beq_iff a b = (text_beq-eq a b, text_beq_of_eq a b)

instance abbrev pub text_eq : Eq Text
text_eq = record { same = text_beq; decides = text_beq_iff }

-- Rust's `strip_prefix`.
unfoldable pub strip_prefix : Text → Text → Option Text
strip_prefix [] t = some t
strip_prefix (p ∷ ps) [] = none
strip_prefix (p ∷ ps) (c ∷ t) = if nat_beq p c then strip_prefix ps t else none

pub strip_prefix-append : (p t : Text) → strip_prefix p (p ++ t) ≡ some t
unfolding strip_prefix
strip_prefix-append [] t = refl
strip_prefix-append (x ∷ p) t = ground (arith, strip_prefix-append p t)

pub strip_prefix-some : (p t u : Text) → strip_prefix p t ≡ some u → t ≡ p ++ u
unfolding strip_prefix
strip_prefix-some [] t u h = ground arith
strip_prefix-some (x ∷ p) [] u h = cc
strip_prefix-some (x ∷ p) (c ∷ t) u h = ground (arith, strip_prefix-some p t u)
