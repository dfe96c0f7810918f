-- ===== src/Tls/Der.antt =====
-- tls.py: `_der_read_tlv` and `_der_iter_children`. The loop runs on fuel, and `none` is a loop that is
-- still running when the fuel is used up.
use ansible_collection_intel.Prelude.{
  ℕ, zero, suc, ◌+◌, ◌-◌, ◌*◌, Option, none, some, List, [], ◌∷◌, Bytes, length, take, drop, at,
  ltb, leb, if◌then◌else◌,
}
use ansible_collection_intel.Errors.{Result, ok, refuse, ◌>>=◌, ◌>>◌, index_error}

-- A tag, its value and the offset behind it.
pub record Tlv : Type 0 where
  pub tag : ℕ
  pub value : Bytes
  pub next : ℕ

-- `int.from_bytes(bytes, "big")`, behind the digits so far
unfoldable pub from_big_endian : ℕ → Bytes → ℕ
from_big_endian n [] = n
from_big_endian n (b ∷ bs) = from_big_endian (256 * n + b) bs

-- `data[i : i + n]`
abbrev pub slice : ℕ → ℕ → Bytes → Bytes
slice i n bytes = take n (drop i bytes)

-- the value and what is behind it
abbrev pub tlv_at : ℕ → ℕ → ℕ → Bytes → Tlv
tlv_at tag start size bytes = record {
  tag = tag;
  value = slice start size bytes;
  next = start + size;
}

-- behind the tag and the first byte of the length: its lowest seven bits are a length, or the number
-- of bytes of one
unfoldable pub tlv_of_length : ℕ → ℕ → ℕ → Bytes → Tlv
unfolding from_big_endian
tlv_of_length tag length_byte start bytes =
    if leb 128 length_byte
    then tlv_at tag (start + (length_byte - 128))
        (from_big_endian 0 (slice start (length_byte - 128) bytes)) bytes
    else tlv_at tag start length_byte bytes

unfoldable pub read_tlv : Bytes → ℕ → Result Tlv
unfolding tlv_of_length
read_tlv bytes offset =
    refuse (leb (length bytes) (offset + 1)) index_error
    >> ok (tlv_of_length (at bytes offset) (at bytes (offset + 1)) (offset + 2) bytes)

abbrev pub add_child : ℕ → Bytes → Option (List (ℕ × Bytes)) → Option (List (ℕ × Bytes))
add_child tag value none = none
add_child tag value (some children) = some ((tag, value) ∷ children)

-- the loop from an offset on
unfoldable pub children_from : ℕ → Bytes → ℕ → Result (Option (List (ℕ × Bytes)))
unfolding read_tlv
children_from zero content offset = ok (if ltb offset (length content) then none else some [])
children_from (suc fuel) content offset =
    if ltb offset (length content)
    then (read_tlv content offset >>= λ tlv. children_from fuel content tlv.next >>= λ children.
        ok (add_child tlv.tag tlv.value children))
    else ok (some [])

unfoldable pub iter_children : Bytes → Result (Option (List (ℕ × Bytes)))
unfolding children_from
iter_children content = children_from (length content) content 0
