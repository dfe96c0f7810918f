-- ===== src/Models/Sample.antt =====
-- Two interpreters for runs of the model: one that reads and writes decimal digits, and one that
-- counts in strokes, which reads back whatever it writes.
use Prim.Native.Char.{Char, code}
use Prim.Native.String.{◌++◌ as concat}
use ansible_collection_intel.Prelude.{
  ℕ, zero, suc, ◌+◌, ◌-◌, ◌*◌, ◌/◌, ◌%◌, ◌≡◌, refl, ap, ℤ, pos, negsuc, Bool, true, ◌&&◌, Option,
  none, some, String, ltb, leb, ◌==◌, if◌then◌else◌,
}
use ansible_collection_intel.Models.{Python}

abbrev is_digit : Char → Bool
is_digit c = leb b'0' (code c) && leb (code c) b'9'

abbrev read_digits : ℕ → String → Option ℤ
read_digits n String.[] = some (pos n)
read_digits n (String.◌∷◌ c s) =
    let rest = read_digits (10 * n + (code c - b'0')) s in if is_digit c then rest else none

abbrev read_decimal : String → Option ℤ
read_decimal String.[] = none
read_decimal (String.◌∷◌ c s) = read_digits 0 (String.◌∷◌ c s)

abbrev digit : ℕ → String
digit zero = "0"
digit (suc zero) = "1"
digit (suc (suc zero)) = "2"
digit (suc (suc (suc zero))) = "3"
digit (suc (suc (suc (suc zero)))) = "4"
digit (suc (suc (suc (suc (suc zero))))) = "5"
digit (suc (suc (suc (suc (suc (suc zero)))))) = "6"
digit (suc (suc (suc (suc (suc (suc (suc zero))))))) = "7"
digit (suc (suc (suc (suc (suc (suc (suc (suc zero)))))))) = "8"
digit _ = "9"

-- `fuel` digits at most
abbrev show_decimal : ℕ → ℕ → String
show_decimal zero n = digit n
show_decimal (suc fuel) n =
    let front : String = show_decimal fuel (n / 10) in
    if ltb n 10 then digit n else concat front (digit (n % 10))

abbrev show_integer : ℤ → String
show_integer (pos n) = show_decimal 12 n
show_integer (negsuc n) = concat "-" (show_decimal 12 (suc n))

abbrev pub decimal_python : Python
decimal_python = record {
  strip = λ s. s;
  lower = λ s. s;
  parse_int = read_decimal;
  is_hex = λ s. true;
  show_int = show_integer;
  show_value = λ v. "?";
}

abbrev strokes : ℕ → String
strokes zero = String.[]
strokes (suc n) = String.◌∷◌ "1" (strokes n)

abbrev show_strokes : ℤ → String
show_strokes (pos n) = String.◌∷◌ "+" (strokes n)
show_strokes (negsuc n) = String.◌∷◌ "-" (strokes n)

abbrev count_strokes : String → ℕ
count_strokes String.[] = zero
count_strokes (String.◌∷◌ c s) = suc (count_strokes s)

abbrev read_strokes : String → Option ℤ
read_strokes String.[] = none
read_strokes (String.◌∷◌ c s) =
    if code c == b'+' then some (pos (count_strokes s)) else some (negsuc (count_strokes s))

abbrev pub stroke_python : Python
stroke_python = record {
  strip = λ s. s;
  lower = λ s. s;
  parse_int = read_strokes;
  is_hex = λ s. true;
  show_int = show_strokes;
  show_value = λ v. "?";
}

count-strokes : (n : ℕ) → count_strokes (strokes n) ≡ n
count-strokes zero = refl
count-strokes (suc n) = ap suc (count-strokes n)

pub stroke_python-reads_back :
    (i : ℤ) → stroke_python.parse_int (stroke_python.strip (stroke_python.show_int i)) ≡ some i
stroke_python-reads_back (pos n) = ap (λ k. some (pos k)) (count-strokes n)
stroke_python-reads_back (negsuc n) = ap (λ k. some (negsuc k)) (count-strokes n)
