-- ===== src/MessageLog/Slots.antt =====
-- message_log.py: which records `is_empty_record_slot` takes for padding.
use Prim.Native.Char.{Char, code, nul}
use text.Mathlib.TextLemmas.{head-eq_of_cons-eq, tail-eq_of_cons-eq, nil≢cons, cons≢nil}
use ansible_collection_intel.Prelude.{
  ℕ, zero, suc, ◌/◌, ◌%◌, ◌<◌, ◌≡◌, ◌≢◌, ◌↔◌, inl, inr, refl, sym, ap, ◌∙◌, Bool, true, false, not,
  ◌&&◌, Option, none, some, String, List, [], ◌∷◌, Bytes, length, replicate, get_or, ltb-cases,
  ◌==◌, eq_iff, true_not_false, some_injective, arith,
}
use ansible_collection_intel.Models.{Python}
use ansible_collection_intel.MessageLog.Decode.{
  Library, DecodeError, not_base64, too_short, nonzero_digits, hex_digit, hex, undecoded, decoded,
  decode_record, decode_raw, empty_slot_hex, is_empty_record_slot,
}
use ansible_collection_intel.MessageLog.RoundTrip.{decode_raw-long, decode_raw-short}

abbrev none_is_zero : List Char → Bool
none_is_zero [] = true
none_is_zero (c ∷ cs) = not (code c == 48) && none_is_zero cs

get_or-none_is_zero :
    (cs : List Char) (n : ℕ) → none_is_zero cs ≡ true → code (get_or cs n nul) ≢ 48
get_or-none_is_zero [] n h = λ e. omega arith
get_or-none_is_zero (c ∷ cs) zero h = λ e. ground arith
get_or-none_is_zero (c ∷ cs) (suc n) h = get_or-none_is_zero cs n (ground arith)

hex_digit-zero : (n : ℕ) → hex_digit n ≡ hex_digit 0 → n ≡ 0
unfolding hex_digit
hex_digit-zero zero e = refl
hex_digit-zero (suc n) e = absurd (get_or-none_is_zero nonzero_digits n refl (ap code e))

byte_zero : (b : ℕ) → hex_digit (b / 16) ≡ hex_digit 0 → hex_digit (b % 16) ≡ hex_digit 0 → b ≡ 0
byte_zero b h l = omega (arith, hex_digit-zero (b / 16) h, hex_digit-zero (b % 16) l)

-- Only zero bytes are shown as zeros.
hex-zeros : (bs : Bytes) (n : ℕ) → hex bs ≡ hex (replicate n 0) → bs ≡ replicate n 0
unfolding hex
hex-zeros [] zero e = refl
hex-zeros [] (suc n) e = absurd (nil≢cons e)
hex-zeros (b ∷ bs) zero e = absurd (cons≢nil e)
hex-zeros (b ∷ bs) (suc n) e =
    let rest = tail-eq_of_cons-eq e in
    let first : b ≡ 0 = byte_zero b (head-eq_of_cons-eq e) (head-eq_of_cons-eq rest) in
    cc (first, hex-zeros bs n (tail-eq_of_cons-eq rest))

module _ (python : Python) (library : Library) where
  slot-undecoded :
      (encoded : String) (raw : Option Bytes) (error : DecodeError)
      → is_empty_record_slot (undecoded python library encoded raw error) ≡ false
  unfolding is_empty_record_slot undecoded
  slot-undecoded encoded raw error = refl

  slot-decoded_iff :
      (encoded : String) (raw : Bytes)
      → (is_empty_record_slot (decoded python library encoded raw) ≡ true) ↔ (raw ≡ replicate 21 0)
  unfolding is_empty_record_slot decoded empty_slot_hex
  slot-decoded_iff encoded raw = (
    λ e. hex-zeros raw 21 ((eq_iff (hex raw) (hex (replicate 21 0))).0 e),
    λ e. (eq_iff (hex raw) (hex (replicate 21 0))).1 (ap hex e),
  )

  short_not_empty :
      (raw : Bytes) → length raw < 21 → Path (Option Bytes) (some raw) (some (replicate 21 0)) → ⊥
  short_not_empty raw h e =
      let n : length raw ≡ 21 = ap (λ o. elim o [ none ↦ 0 | some x ↦ length x ]) e in omega arith

  slot-decode_raw_iff :
      (encoded : String) (raw : Option Bytes)
      → (is_empty_record_slot (decode_raw python library encoded raw) ≡ true)
        ↔ (raw ≡ some (replicate 21 0))
  unfolding decode_raw
  slot-decode_raw_iff encoded none =
      (λ e. absurd (true_not_false (sym e ∙ slot-undecoded encoded none not_base64)), λ e. cc)
  slot-decode_raw_iff encoded (some raw) = elim (ltb-cases (length raw) 21) [
    | inl h ↦ (
      λ e. absurd (
          true_not_false (
            sym e
            ∙ ap is_empty_record_slot (decode_raw-short python library encoded raw h)
            ∙ slot-undecoded encoded (some raw) (too_short (length raw)))),
      λ e. absurd (short_not_empty raw h e),
    )
    | inr h ↦ (
      λ e. ap some (
          (slot-decoded_iff encoded raw).0
            (sym (ap is_empty_record_slot (decode_raw-long python library encoded raw h)) ∙ e)),
      λ e.
          ap is_empty_record_slot (decode_raw-long python library encoded raw h)
          ∙ (slot-decoded_iff encoded raw).1 (some_injective e),
    )
  ]

  -- For every text: its record counts as an empty slot exactly when the text is the base64 of 21
  -- zero bytes. No record with a set bit, of another length or that failed to decode is dropped.
  pub is_empty_record_slot-decode_record_iff :
      (encoded : String)
      → (is_empty_record_slot (decode_record python library encoded) ≡ true)
        ↔ (library.b64decode encoded ≡ some (replicate 21 0))
  unfolding decode_record
  is_empty_record_slot-decode_record_iff encoded =
      slot-decode_raw_iff encoded (library.b64decode encoded)
