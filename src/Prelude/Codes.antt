-- ===== src/Prelude/Codes.antt =====
-- Texts as lists of UTF-16 code units, for the code that takes them apart or prints numbers.
use Prim.Native.Nat.{ℕ, zero, suc, ◌+◌, ◌-◌, ◌*◌, ◌/◌, ◌%◌, ◌≤◌}
use mathlib.Core.Bool.{Bool, true, false, ◌&&◌}
use mathlib.Core.Path.{◌≡◌, refl, sym, ap, ◌∙◌}
use mathlib.Core.Logic.{inl, inr}
use mathlib.Core.List.{List, [], ◌∷◌, ◌++◌}
use native.Mathlib.Omega.{arith}
use kltn_high_concurrency_co.Prelude.Tests.{ltb, ◌==◌, ==→eq, ==_refl, if◌then◌else◌, Bool-cases}
use kltn_high_concurrency_co.Prelude.Lists.{mem}

abbrev pub Text : Type 0
Text = List ℕ

-- `===` on texts
unfoldable pub same_codes : Text → Text → Bool
same_codes [] [] = true
same_codes (c ∷ cs) (d ∷ ds) = c == d && same_codes cs ds
same_codes _ _ = false

abbrev pub digit : ℕ → ℕ
digit n = 48 + n

-- The decimal digits of a number of which there are at most as many as the fuel and one more.
unfoldable pub digits : ℕ → ℕ → Text
digits zero n = digit n ∷ []
digits (suc fuel) n =
    let front = digits fuel (n / 10) in
    if ltb n 10 then digit n ∷ [] else front ++ digit (n % 10) ∷ []

-- `String(n)`; a number has no more digits than its value
unfoldable pub to_decimal : ℕ → Text
to_decimal n = digits n n

-- the number that decimal digits denote, behind a number that was read
abbrev pub number_of : ℕ → Text → ℕ
number_of read [] = read
number_of read (c ∷ cs) = number_of (10 * read + (c - 48)) cs

abbrev push : ℕ → List Text → List Text
push c [] = (c ∷ []) ∷ []
push c (w ∷ ws) = (c ∷ w) ∷ ws

-- `split` at a code unit
unfoldable pub split : ℕ → Text → List Text
split bar [] = [] ∷ []
split bar (c ∷ cs) = let rest = split bar cs in if c == bar then [] ∷ rest else push c rest

pub same_codes_refl : (cs : Text) → same_codes cs cs ≡ true
unfolding same_codes
same_codes_refl [] = refl
same_codes_refl (c ∷ cs) = ground (arith, ==_refl c, same_codes_refl cs)

pub same_codes→eq : (cs ds : Text) → same_codes cs ds ≡ true → cs ≡ ds
unfolding same_codes
same_codes→eq [] [] h = refl
same_codes→eq [] (d ∷ ds) h = absurd (ground (arith, h))
same_codes→eq (c ∷ cs) [] h = absurd (ground (arith, h))
same_codes→eq (c ∷ cs) (d ∷ ds) h =
    λ i. ==→eq c d (ground (arith, h)) i ∷ same_codes→eq cs ds (ground (arith, h)) i

-- A text without the unit is the first part of a longer one, and the only part of itself.
pub split-append :
    (bar : ℕ) (cs ds : Text) → mem bar cs ≡ false → split bar (cs ++ bar ∷ ds) ≡ cs ∷ split bar ds
unfolding split mem
split-append bar [] ds h = ground (arith, ==_refl bar)
split-append bar (c ∷ cs) ds h =
    rw (split, split-append bar cs ds (ground (arith, h))) (ground (arith, h))

pub split_whole : (bar : ℕ) (cs : Text) → mem bar cs ≡ false → split bar cs ≡ cs ∷ []
unfolding split mem
split_whole bar [] h = refl
split_whole bar (c ∷ cs) h = rw (split, split_whole bar cs (ground (arith, h))) (ground (arith, h))

number_of-append :
    (read : ℕ) (cs : Text) (c : ℕ)
    → number_of read (cs ++ c ∷ []) ≡ 10 * number_of read cs + (c - 48)
number_of-append read [] c = refl
number_of-append read (d ∷ cs) c = number_of-append (10 * read + (d - 48)) cs c

number_of-digits : (fuel n : ℕ) → n ≤ fuel → number_of 0 (digits fuel n) ≡ n
unfolding digits
number_of-digits zero n h = omega (arith, h)
number_of-digits (suc fuel) n h = elim (Bool-cases (ltb n 10)) [
  | inl small ↦ rw (digits, small) (omega arith)
  | inr big ↦
      rw
        (
          digits,
          big,
          number_of-append 0 (digits fuel (n / 10)) (digit (n % 10)),
          number_of-digits fuel (n / 10) (ground (arith, h, big)),
        )
        (omega arith)
]

-- The digits of a number denote it.
pub number_of-to_decimal : (n : ℕ) → number_of 0 (to_decimal n) ≡ n
unfolding to_decimal
number_of-to_decimal n = number_of-digits n n (omega arith)

pub to_decimal-injective : (n m : ℕ) → to_decimal n ≡ to_decimal m → n ≡ m
to_decimal-injective n m e =
    sym (number_of-to_decimal n) ∙ ap (number_of 0) e ∙ number_of-to_decimal m

pub same_codes_sym : (cs ds : Text) → same_codes cs ds ≡ same_codes ds cs
unfolding same_codes
same_codes_sym [] [] = refl
same_codes_sym [] (d ∷ ds) = refl
same_codes_sym (c ∷ cs) [] = refl
same_codes_sym (c ∷ cs) (d ∷ ds) = ground (arith, same_codes_sym cs ds)
