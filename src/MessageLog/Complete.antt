-- ===== src/MessageLog/Complete.antt =====
-- message_log.py: a read that returns, by all the answers that the firmware gave.
use ansible_collection_intel.Prelude.{
  ℕ, ◌≡◌, ℤ, true, ◌||◌, Option, some, List, [], length, take, ◌==◌,
}
use ansible_collection_intel.Errors.{Result, ok}
use ansible_collection_intel.Client.{Call, WsmanClient}
use ansible_collection_intel.Models.{Python}
use ansible_collection_intel.MessageLog.Decode.{Library}
use ansible_collection_intel.MessageLog.Container.{position_to_first_record}
use ansible_collection_intel.MessageLog.Read.{MessageLogRead}
use ansible_collection_intel.MessageLog.Balance.{IsAccount}
use ansible_collection_intel.MessageLog.Faithful.{
  Answer, offered, last_says_done, kept_events, Heard,
}

module _ (max_records : ℕ) (python : Python) (library : Library) (client : WsmanClient)
    (batch_size : ℕ) where
  -- A read that returned, by the answers of the firmware behind a positioning with this ReturnValue.
  pub record IsFaithful (return_value : ℕ) (before after : List Call) (read : MessageLogRead)
      : Type 0 where
    pub answers : List Answer
    pub run : Heard python library client before answers after
    pub none_asked : (return_value == 2) ≡ true → answers ≡ []
    pub complete :
        read.ended.complete ≡ (return_value == 2 || last_says_done python library answers)
    pub records :
        read.ended.progress.records
        ≡ kept_events python library (take max_records (offered python library answers))
    pub consumed :
        read.ended.progress.consumed ≡ length (take max_records (offered python library answers))

  abbrev ReadFaithful : ℕ → List Call → Result (Option MessageLogRead) × List Call → Type 0
  ReadFaithful return_value before r =
      (read : MessageLogRead) → r.0 ≡ ok (some read) → IsFaithful return_value before r.1 read

  -- What a read that returned is, as a whole.
  pub record IsFaithfulRead (after : List Call) (read : MessageLogRead) : Type 0 where
    pub account : IsAccount max_records read.ended
    pub before : List Call
    pub between : List Call
    pub position : ℤ × ℕ
    pub positioned : position_to_first_record client python before ≡ (ok position, between)
    pub faithful : IsFaithful position.1 between after read
