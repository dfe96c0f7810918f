-- ===== src/Tls/Elements.antt =====
-- tls.py: when the loop of `_der_iter_children` ends.
use ansible_collection_intel.Prelude.{
  ℕ, zero, suc, ◌+◌, ◌≤◌, ◌≢◌, refl, inl, inr, sym, Bool-cases, Option, none, some, List, Bytes,
  length, ltb, leb, none_not_some, at, ap, arith,
}
use ansible_collection_intel.Errors.{Result, ok, err, ◌>>=◌, ok_injective, raised_not_ok}
use ansible_collection_intel.Tls.Der.{
  tlv_of_length, read_tlv, add_child, children_from, iter_children,
}

tlv_of_length-next :
    (tag length_byte start : ℕ) (bytes : Bytes)
    → start ≤ (tlv_of_length tag length_byte start bytes).next
unfolding tlv_of_length
tlv_of_length-next tag length_byte start bytes = elim (Bool-cases (leb 128 length_byte)) [
  | inl e ↦ rw (e) (omega arith)
  | inr e ↦ rw (e) (omega arith)
]

add_child-IsListed :
    (tag : ℕ) (value : Bytes) (children : Option (List (ℕ × Bytes)))
    → children ≢ none
    → add_child tag value children ≢ none
add_child-IsListed tag value none h = λ e. h refl
add_child-IsListed tag value (some children) h = λ e. none_not_some (sym e)

-- what is read after an element
added-Ends :
    (tag : ℕ) (value : Bytes) (rest : Result (Option (List (ℕ × Bytes))))
    → rest ≢ ok none
    → (rest >>= λ children. ok (add_child tag value children)) ≢ ok none
added-Ends tag value (err e) h = raised_not_ok
added-Ends tag value (ok children) h =
    λ e. add_child-IsListed tag value children (λ k. h (ap ok k)) (ok_injective e)

children_from-Ends :
    (fuel : ℕ) (content : Bytes) (offset : ℕ)
    → length content ≤ fuel + offset
    → children_from fuel content offset ≢ ok none
unfolding children_from read_tlv
children_from-Ends zero content offset enough = elim (Bool-cases (ltb offset (length content))) [
  | inl e ↦ absurd (ground (arith, e))
  | inr e ↦ rw (e) (λ k. none_not_some (sym (ok_injective k)))
]
children_from-Ends (suc fuel) content offset enough =
    elim (Bool-cases (ltb offset (length content))) [
      | inl e ↦ rw (e) (elim (Bool-cases (leb (length content) (offset + 1))) [
        | inl short ↦ rw (short) raised_not_ok
        | inr long ↦
            let tlv =
              tlv_of_length (at content offset) (at content (offset + 1)) (offset + 2) content in
            let further : offset + 2 ≤ tlv.next = tlv_of_length-next _ _ _ content in
            rw (long) (
              added-Ends tlv.tag tlv.value (children_from fuel content tlv.next)
                (children_from-Ends fuel content tlv.next (omega arith)))
      ])
      | inr e ↦ rw (e) (λ k. none_not_some (sym (ok_injective k)))
    ]

-- The loop of `_der_iter_children` ends on all bytes: as many rounds as there are bytes are enough
-- for it to return the elements or to raise.
pub iter_children-ends : (content : Bytes) → iter_children content ≢ ok none
unfolding iter_children
iter_children-ends content = children_from-Ends (length content) content 0 (omega arith)
