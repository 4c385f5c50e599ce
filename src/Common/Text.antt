-- ===== src/Common/Text.antt =====
-- Go strings as lists of code points, decimal numerals (`%d`), and the conversion `string(int)`.
use Prim.Native.Nat.{ℕ, zero, suc, ◌+◌, ◌/◌, ◌%◌, ◌<◌}
use Prim.Native.Char.{code}
use Prim.Native.String.{String}
use mathlib.Core.Path.{◌≡◌, refl}
use mathlib.Core.Bool.{Bool, ◌&&◌, ◌||◌}
use mathlib.Core.List.{List, [], ◌∷◌, ◌++◌}
use native.Mathlib.Omega.{arith}
use multi_paxos_work_in_prog.Common.Tests.{ltb, leb, if◌then◌else◌}
use multi_paxos_work_in_prog.Common.Int.{ℤ, pos, negsuc}

abbrev pub Text : Type 0
Text = List ℕ

abbrev pub codes : String → Text
codes String.[] = []
codes (String.◌∷◌ c s) = code c ∷ codes s

-- The digits of `n` in front of `acc`, with fuel above `n`.
unfoldable pub digits : ℕ → ℕ → Text → Text
digits zero n acc = acc
digits (suc f) n acc =
    let rest = digits f (n / 10) ((48 + n % 10) ∷ acc) in if ltb n 10 then (48 + n) ∷ acc else rest

unfoldable pub show_nat : ℕ → Text
unfolding digits
show_nat n = digits (suc n) n []

-- `%d`
unfoldable pub show_int : ℤ → Text
unfolding show_nat
show_int (pos n) = show_nat n
show_int (negsuc n) = codes "-" ++ show_nat (suc n)

-- More fuel than the number changes nothing.
pub digits_fuel : (f g n : ℕ) (acc : Text) → n < f → n < g → digits f n acc ≡ digits g n acc
unfolding digits
digits_fuel zero g n acc h k = absurd (omega arith)
digits_fuel (suc f) zero n acc h k = absurd (omega arith)
digits_fuel (suc f) (suc g) n acc h k =
    ground (arith, digits_fuel f g (n / 10) ((48 + n % 10) ∷ acc))

-- `string(n)` of an `int` is the text of that one code point, or of U+FFFD where `n` is none.
unfoldable pub is_rune : ℕ → Bool
is_rune n = ltb n 0xd800 || (leb 0xe000 n && ltb n 0x110000)

unfoldable pub string_of_int : ℤ → Text
unfolding is_rune
string_of_int (pos n) = (if is_rune n then n else 0xfffd) ∷ []
string_of_int (negsuc n) = 0xfffd ∷ []

shows : show_int (negsuc 122) ≡ codes "-123"
unfolding show_int
shows = refl
