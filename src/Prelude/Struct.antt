-- ===== src/Prelude/Struct.antt =====
-- The fixed-width layouts of Python's `struct` module, on lists of bytes: `<H`, `<I`, `>H`, `>I`.
-- A packer takes the value modulo its width; where the source relies on `struct.error` for a
-- value that does not fit, the caller tests it.
use Prim.Native.Nat.{ℕ, ◌+◌, ◌*◌, ◌/◌, ◌%◌, ◌^◌, ◌<◌}
use mathlib.Core.Path.{◌≡◌}
use mathlib.Core.List.{List, [], ◌∷◌, ◌++◌}
use native.Mathlib.Omega.{arith}
use ansible_collection_intel.Prelude.Lists.{get_or}

abbrev pub Bytes : Type 0
Bytes = List ℕ

abbrev pub IsByte : ℕ → Type 0
IsByte b = b < 256

abbrev pub le16 : ℕ → Bytes
le16 n = (n % 256) ∷ (n / 256 % 256) ∷ []

abbrev pub le32 : ℕ → Bytes
le32 n = (n % 256) ∷ (n / 256 % 256) ∷ (n / 65536 % 256) ∷ (n / 16777216 % 256) ∷ []

abbrev pub be16 : ℕ → Bytes
be16 n = (n / 256 % 256) ∷ (n % 256) ∷ []

abbrev pub be32 : ℕ → Bytes
be32 n = (n / 16777216 % 256) ∷ (n / 65536 % 256) ∷ (n / 256 % 256) ∷ (n % 256) ∷ []

abbrev pub at : Bytes → ℕ → ℕ
at bs i = get_or bs i 0

-- `struct.unpack_from(format, bs, i)[0]`
abbrev pub get_le16 : Bytes → ℕ → ℕ
get_le16 bs i = at bs i + 256 * at bs (i + 1)

abbrev pub get_le32 : Bytes → ℕ → ℕ
get_le32 bs i = at bs i + 256 * at bs (i + 1) + 65536 * at bs (i + 2) + 16777216 * at bs (i + 3)

abbrev pub get_be16 : Bytes → ℕ → ℕ
get_be16 bs i = 256 * at bs i + at bs (i + 1)

abbrev pub get_be32 : Bytes → ℕ → ℕ
get_be32 bs i = 16777216 * at bs i + 65536 * at bs (i + 1) + 256 * at bs (i + 2) + at bs (i + 3)

pub get_le16-le16 : (n : ℕ) (rest : Bytes) → n < 2 ^ 16 → get_le16 (le16 n ++ rest) 0 ≡ n
get_le16-le16 n rest h = omega arith

pub get_le32-le32 : (n : ℕ) (rest : Bytes) → n < 2 ^ 32 → get_le32 (le32 n ++ rest) 0 ≡ n
get_le32-le32 n rest h = omega arith
