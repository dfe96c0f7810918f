-- ===== src/MessageLog/Filter.antt =====
-- message_log.py: `filter_by_severity`.
use ansible_collection_intel.Prelude.{
  Bool, false, ◌||◌, Option, none, some, String, List, [], ◌∷◌, str_eq, if◌then◌else◌,
}
use ansible_collection_intel.MessageLog.Decode.{EventRecord}

unfoldable pub is_wanted : List String → Option String → Bool
is_wanted severities none = false
is_wanted [] (some name) = false
is_wanted (severity ∷ severities) (some name) =
    str_eq severity name || is_wanted severities (some name)

-- the comprehension of `filter_by_severity`
unfoldable pub keep_wanted : List String → List EventRecord → List EventRecord
unfolding is_wanted
keep_wanted severities [] = []
keep_wanted severities (event ∷ events) =
    let rest = keep_wanted severities events in
    if is_wanted severities event.event_severity_text then event ∷ rest else rest

-- `None` and the empty list both keep everything
unfoldable pub filter_by_severity : List EventRecord → List String → List EventRecord
unfolding keep_wanted
filter_by_severity events [] = events
filter_by_severity events (severity ∷ severities) = keep_wanted (severity ∷ severities) events
