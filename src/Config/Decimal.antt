-- ===== src/Config/Decimal.antt =====
-- `std::to_string(int)` and `std::atoi`, as the readers use them. `atoi` of a number that no `int`
-- holds is undefined and not modelled.
pub mod Digits
pub mod Dots
use Prim.Native.Char.{Char, code}
use chain_replication.Base.{
  ℕ, zero, suc, ◌+◌, ◌-◌, ◌*◌, ◌/◌, ◌%◌, ℤ, pos, negsuc, String, Bool, ◌&&◌, ◌||◌, leb, ◌==◌,
  if◌then◌else◌,
}

unfoldable pub digit : ℕ → Char
digit zero = "0"
digit (suc zero) = "1"
digit (suc (suc zero)) = "2"
digit (suc (suc (suc zero))) = "3"
digit (suc (suc (suc (suc zero)))) = "4"
digit (suc (suc (suc (suc (suc zero))))) = "5"
digit (suc (suc (suc (suc (suc (suc zero)))))) = "6"
digit (suc (suc (suc (suc (suc (suc (suc zero))))))) = "7"
digit (suc (suc (suc (suc (suc (suc (suc (suc zero)))))))) = "8"
digit (suc (suc (suc (suc (suc (suc (suc (suc (suc n))))))))) = "9"

-- The digits of `n` in front of a text, on fuel.
unfoldable pub digits_before : ℕ → ℕ → String → String
unfolding digit
digits_before zero n s = s
digits_before (suc fuel) n s =
    let s' = String.◌∷◌ (digit (n % 10)) s in
    let more = digits_before fuel (n / 10) s' in if n / 10 == 0 then s' else more

-- A number has fewer digits than its successor, so that is fuel enough.
unfoldable pub natural : ℕ → String
unfolding digits_before
natural n = digits_before (suc n) n ""

unfoldable pub to_string : ℤ → String
unfolding natural
to_string (pos n) = natural n
to_string (negsuc n) = String.◌∷◌ "-" (natural (suc n))

unfoldable pub is_digit : Char → Bool
is_digit c = leb b'0' (code c) && leb (code c) b'9'

unfoldable pub is_space : Char → Bool
is_space c = code c == b' ' || (leb 9 (code c) && leb (code c) 13)

-- The number that a text begins with, behind the digits that stand for `n`.
unfoldable pub read_digits : ℕ → String → ℕ
unfolding is_digit
read_digits n String.[] = n
read_digits n (String.◌∷◌ c s) =
    let more = read_digits (n * 10 + (code c - b'0')) s in if is_digit c then more else n

abbrev pub minus : ℕ → ℤ
minus zero = pos 0
minus (suc n) = negsuc n

unfoldable pub read_signed : String → ℤ
unfolding read_digits
read_signed String.[] = pos 0
read_signed (String.◌∷◌ c s) =
    if code c == b'-'
    then minus (read_digits 0 s)
    else if code c == b'+'
    then pos (read_digits 0 s)
    else pos (read_digits 0 (String.◌∷◌ c s))

unfoldable pub atoi : String → ℤ
unfolding is_space read_signed
atoi String.[] = pos 0
atoi (String.◌∷◌ c s) =
    let more = atoi s in if is_space c then more else read_signed (String.◌∷◌ c s)
