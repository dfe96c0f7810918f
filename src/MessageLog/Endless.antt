-- ===== src/MessageLog/Endless.antt =====
-- message_log.py: a firmware for which the loop of `read_records` never ends.
use ansible_collection_intel.Prelude.{
  ℕ, zero, suc, ◌-◌, ◌<◌, ◌≡◌, refl, ap, ℤ, pos, negsuc, false, Option, none, some, List, [], ◌∷◌,
  take, leb, int_eq, arith,
}
use ansible_collection_intel.Errors.{Result, ok}
use ansible_collection_intel.Client.{
  Value, text, number, Call, Instance, WsmanClient, Action, resume, invoke, get,
}
use ansible_collection_intel.Models.{Python, get_value, optional_int, to_str}
use ansible_collection_intel.MessageLog.Decode.{Library}
use ansible_collection_intel.MessageLog.Container.{
  get_log_properties, get_instance, or_enumerated, is_empty, invoke_tolerating,
  position_to_first_record, first_identifier,
}
use ansible_collection_intel.MessageLog.Read.{
  Progress, Ended, Round, start_at, again, advance, count_batch, consume, add_records,
  continue_with, take_batch, after_get_records, round, go_on, read_loop, read_from, read_records,
}

abbrev successor : ℤ → ℤ
successor (pos n) = pos (suc n)
successor (negsuc n) = pos 0

-- To every identifier it answers with the next one, without a record and without NoMoreRecords.
abbrev next_of : Value → Instance
next_of (number i) = ("IterationIdentifier", number (successor i)) ∷ []
next_of _ = []

abbrev pub endless_firmware : WsmanClient
endless_firmware = record {
  answer_enumerate = λ calls name. ok [];
  answer_get = λ calls name. ok (("ElementName", text "Intel(r) AMT:MessageLog 1") ∷ []);
  answer_select = λ calls name selectors. ok [];
  answer_put = λ calls name properties. ok properties;
  answer_invoke =
      λ calls name method params selectors. ok (next_of (get_value "IterationIdentifier" params));
}

successor-moves : (i : ℤ) → int_eq (successor i) i ≡ false
successor-moves (pos n) = ground arith
successor-moves (negsuc n) = refl

take-nil {ℓ} : {A : Type ℓ} (n : ℕ) → take {A = A} n [] ≡ []
take-nil zero = refl
take-nil (suc n) = refl

again-runs :
    (r : Result Round × List Call) (calls : List Call) (rest : Progress → Action (Option Ended))
    (next : Progress)
    → r.0 ≡ ok (again next)
    → ((after : List Call) → (rest next after).0 ≡ ok none)
    → (resume r.0 r.1 (go_on rest)).0 ≡ ok none
unfolding go_on
again-runs r calls rest next e h = rw (e) (h r.1)

module _ (python : Python) (library : Library) (max_records batch_size : ℕ)
    (reads_back : (i : ℤ) → python.parse_int (python.strip (python.show_int i)) ≡ some i) where
  continue_with-moves :
      (p : Progress)
      → continue_with python library
          (python.parse_int (python.strip (python.show_int (successor p.identifier))))
          p
        ≡ again (advance p (successor p.identifier))
  unfolding continue_with
  continue_with-moves p =
      rw (reads_back (successor p.identifier), successor-moves p.identifier) refl

  round-moves :
      (p : Progress) (calls : List Call)
      → (round python library endless_firmware max_records batch_size p calls).0
        ≡ ok (again (advance (consume 0 (count_batch p)) (successor p.identifier)))
  unfolding round invoke_tolerating invoke after_get_records take_batch add_records optional_int
      to_str
  round-moves p calls =
      rw (take-nil (max_records - p.consumed))
        (ap ok (continue_with-moves (consume 0 (count_batch p))))

  read_loop-runs :
      (fuel : ℕ) (p : Progress) (calls : List Call)
      → p.consumed < max_records
      → (read_loop python library endless_firmware max_records batch_size fuel p calls).0 ≡ ok none
  unfolding read_loop
  read_loop-runs zero p calls h = refl
  read_loop-runs (suc fuel) p calls h =
      let full : leb max_records p.consumed ≡ false = ground arith in
      rw (full) (
        again-runs _ calls (read_loop python library endless_firmware max_records batch_size fuel)
          (advance (consume 0 (count_batch p)) (successor p.identifier)) (round-moves p calls)
          (λ after. read_loop-runs fuel _ after (omega arith)))

  -- For every bound above 0, every batch size, and integers that Python reads back from their
  -- digits: against a firmware that answers every GetRecords with the next identifier, no record and
  -- no NoMoreRecords, the read is still running after any number of rounds.
  pub read_records-endless :
      (fuel : ℕ)
      → 0 < max_records
      → (read_records python library endless_firmware max_records batch_size fuel []).0 ≡ ok none
  unfolding read_records get_log_properties get_instance or_enumerated is_empty get
      position_to_first_record invoke_tolerating invoke read_from first_identifier
  read_records-endless fuel h = rw (read_loop-runs fuel (start_at (pos 1)) _ h) refl
