-- ===== src/MessageLog/Calls.antt =====
-- message_log.py: the WS-Man calls of a read of the log.
use ansible_collection_intel.Prelude.{
  ℕ, zero, suc, ◌-◌, min, ◌≤◌, ℤ, pos, true, Option, none, some, String, List, [], ◌∷◌, ◌==◌, leb,
  arith,
}
use ansible_collection_intel.Errors.{ok, refuse, unsupported_capability}
use ansible_collection_intel.Client.{
  number, Instance, Call, got, enumerated, invoked, WsmanClient, Action, get, enumerate, ◌>>=◌,
  lift, invoke,
}
use ansible_collection_intel.Client.Made.{
  Made, Makes, Makes-lift, Makes-bind, Makes-attempt, Makes-if, Makes-get, Makes-enumerate,
  Makes-invoke,
}
use ansible_collection_intel.Models.{Python, get_value, optional_int}
use ansible_collection_intel.MessageLog.Decode.{Library}
use ansible_collection_intel.MessageLog.Container.{
  MessageLogProperties, degrade, tolerate, is_empty, properties_of, first_instance,
  first_identifier, message_log_class, get_instance, enumerated_instance, or_enumerated,
  get_log_properties, invoke_tolerating, tolerated_by_position, tolerated_by_get_records,
  position_to_first_record,
}
use ansible_collection_intel.MessageLog.Read.{
  Progress, Ended, Round, break, again, start_at, stop_at, stop_full, count_batch, no_record_exists,
  after_get_records, go_on, round, read_loop, read_from, report, report_of, get_records_params,
  read_records,
}

-- The calls that only read the log, and what they ask for: at most what the bound leaves and at
-- most 390 records.
pub data IsReadCall (max_records : ℕ) : Call → Type 0 where
  reads : IsReadCall max_records (got "AMT_MessageLog")
  lists : IsReadCall max_records (enumerated "AMT_MessageLog")
  positions : IsReadCall max_records (invoked "AMT_MessageLog" "PositionToFirstRecord" [] [])
  asks :
      (identifier : ℤ) (count : ℕ)
      → count ≤ 390
      → count ≤ max_records
      → IsReadCall max_records (
          invoked "AMT_MessageLog" "GetRecords"
            (("IterationIdentifier", number identifier)
              ∷ ("MaxReadRecords", number (pos count))
              ∷ [])
            [])

module _ (max_records : ℕ) (client : WsmanClient) where
  abbrev P : Call → Type 0
  P = IsReadCall max_records

  Makes-invoke_tolerating :
      (method : String) (params : Instance) (tolerated : List ℕ)
      → P (invoked message_log_class method params [])
      → Makes P (invoke_tolerating client method params tolerated)
  unfolding invoke_tolerating
  Makes-invoke_tolerating method params tolerated p =
      Makes-attempt P (tolerate tolerated)
        (invoke client message_log_class method params [] >>= λ output. lift (ok (output, 0)))
        (Makes-bind P _ _ (Makes-invoke P client message_log_class method params [] p)
          (λ output. Makes-lift P (ok (output, 0))))

  Makes-enumerated_instance : Makes P (enumerated_instance client)
  unfolding enumerated_instance
  Makes-enumerated_instance =
      Makes-bind P _ _
        (Makes-attempt P (degrade []) (enumerate client message_log_class)
          (Makes-enumerate P client message_log_class lists))
        (λ items. Makes-lift P (ok (first_instance items)))

  Makes-or_enumerated : (read : Instance) → Makes P (or_enumerated client read)
  unfolding or_enumerated
  Makes-or_enumerated [] = Makes-enumerated_instance
  Makes-or_enumerated (property ∷ properties) = Makes-lift P (ok (property ∷ properties))

  Makes-get_instance : Makes P (get_instance client)
  unfolding get_instance
  Makes-get_instance =
      Makes-attempt P (degrade []) (get client message_log_class)
        (Makes-get P client message_log_class reads)

  module _ (python : Python) where
    pub Makes-get_log_properties : Makes P (get_log_properties client python)
    unfolding get_log_properties
    Makes-get_log_properties = Makes-bind P (get_instance client) _ Makes-get_instance (λ read.
        Makes-bind P (or_enumerated client read) _ (Makes-or_enumerated read) (λ instance.
          Makes-bind P (lift (refuse (is_empty instance) unsupported_capability)) _
            (Makes-lift P (refuse (is_empty instance) unsupported_capability))
            (λ u. Makes-lift P (ok (properties_of python instance)))))

    Makes-position : Makes P (position_to_first_record client python)
    unfolding position_to_first_record
    Makes-position =
        Makes-bind P (invoke_tolerating client "PositionToFirstRecord" [] tolerated_by_position) _
          (Makes-invoke_tolerating "PositionToFirstRecord" [] tolerated_by_position positions)
          (λ answer.
            Makes-bind P (lift (refuse (answer.1 == 1) unsupported_capability)) _
              (Makes-lift P (refuse (answer.1 == 1) unsupported_capability))
              (λ u. Makes-lift P (
                ok (
                  first_identifier (optional_int python (get_value "IterationIdentifier" answer.0)),
                  answer.1,
                ))))

    module _ (library : Library) (batch_size : ℕ) where
      Makes-round : (p : Progress) → Makes P (round python library client max_records batch_size p)
      unfolding round
      Makes-round p =
          Makes-bind P
            (invoke_tolerating client "GetRecords"
              (get_records_params python library client max_records batch_size p)
              tolerated_by_get_records)
            _
            (Makes-invoke_tolerating "GetRecords"
              (get_records_params python library client max_records batch_size p)
              tolerated_by_get_records
              (asks p.identifier (min (min batch_size (max_records - p.consumed)) 390) (omega arith)
                (omega arith)))
            (λ answer. Makes-lift P (
              ok (
                after_get_records python library (max_records - p.consumed) answer.0 answer.1
                  (count_batch p))))

      Makes-go_on :
          (rest : Progress → Action (Option Ended)) (decision : Round)
          → ((next : Progress) → Makes P (rest next))
          → Makes P (go_on rest decision)
      unfolding go_on
      Makes-go_on rest (break ended) h = Makes-lift P (ok (some ended))
      Makes-go_on rest (again next) h = h next

      Makes-read_loop :
          (fuel : ℕ) (p : Progress)
          → Makes P (read_loop python library client max_records batch_size fuel p)
      unfolding read_loop
      Makes-read_loop zero p = Makes-lift P (ok none)
      Makes-read_loop (suc fuel) p =
          Makes-if P (leb max_records p.consumed) _ _ (Makes-lift P (ok (some (stop_full p)))) (
            Makes-bind P (round python library client max_records batch_size p) _ (Makes-round p)
              (λ decision. Makes-go_on _ decision (λ next. Makes-read_loop fuel next)))

      Makes-read_from :
          (fuel : ℕ) (properties : MessageLogProperties) (identifier : ℤ) (return_value : ℕ)
          → Makes P (
              read_from python library client max_records batch_size fuel properties identifier
                return_value)
      unfolding read_from
      Makes-read_from fuel properties identifier return_value =
          Makes-if P (return_value == 2) _ _
            (Makes-lift P (
              ok (
                some (
                  report python library client max_records batch_size properties
                    (stop_at (start_at identifier) no_record_exists true)))))
            (Makes-bind P
              (read_loop python library client max_records batch_size fuel (start_at identifier)) _
              (Makes-read_loop fuel (start_at identifier))
              (λ ended.
                Makes-lift P
                  (ok (report_of python library client max_records batch_size properties ended))))

      Makes-read_records :
          (fuel : ℕ) → Makes P (read_records python library client max_records batch_size fuel)
      unfolding read_records
      Makes-read_records fuel =
          Makes-bind P (get_log_properties client python) _ Makes-get_log_properties (λ properties.
            Makes-bind P (position_to_first_record client python) _ Makes-position
              (λ position. Makes-read_from fuel properties position.0 position.1))

      -- For every firmware, fuel, bound and batch size, and whether the read returns or raises:
      -- the calls it makes are Gets and Enumerates of the log, PositionToFirstRecord and
      -- GetRecords, each of these for at most 390 records and at most max_records. It never clears
      -- the log.
      pub read_records-IsReadCall :
          (fuel : ℕ) (calls : List Call)
          → Made
              (IsReadCall max_records)
              calls
              (read_records python library client max_records batch_size fuel calls).1
      read_records-IsReadCall fuel calls = (Makes-read_records fuel).calls_of calls
