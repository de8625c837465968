-- ===== src/Bridge/Reasoning.antt =====
-- The reasoning buffer of .opencode/plugins/soren-bridge.ts: parts of a thought that are still
-- growing wait for a quiet moment before they are posted. The keys of pending debounce timers and
-- the posts made so far are part of the state; a fired timer is an event.
pub mod Invariant
pub mod Flushing
pub mod Keeping
use soren.Base.{
  ℕ, Bool, true, false, not, ◌&&◌, Option, none, some, List, [], ◌∷◌, ◌++◌, Text, codes, ◌==◌,
  text_Eq, ltb, if◌then◌else◌, length, lookup, put, erase, has, add, filter,
}
use soren.Bridge.Settings.{not_empty}
use soren.Bridge.Delivery.{truncate}

pub record Entry : Type 0 where
  pub session : Text
  pub text : Text

pub record Buffer : Type 0 where
  -- `reasoningEntries`, in insertion order
  pub entries : List (Text × Entry)
  -- the keys of `reasoningTimers`
  pub timers : List Text
  -- the content of each post to the thoughts URL, oldest first
  pub posted : List Text

abbrev pub empty : Buffer
empty = record { entries = []; timers = []; posted = [] }

-- `REASONING_MAX_ENTRIES`, and the length of a post
abbrev pub max_entries : ℕ
max_entries = 300

abbrev pub max_content : ℕ
max_content = 2000

abbrev pub drop_timer : Text → List Text → List Text
drop_timer key = filter (λ k. not (k == key))

abbrev pub content_of : Option Entry → List Text
content_of none = []
content_of (some e) = if not_empty e.text then truncate e.text max_content ∷ [] else []

-- `flushReasoningEntry`
unfoldable pub flush_entry : Text → Buffer → Buffer
flush_entry key b = record {
  entries = erase key b.entries;
  timers = drop_timer key b.timers;
  posted = b.posted ++ content_of (lookup key b.entries);
}

-- The loop of `flushReasoningForSession`, over the entries as they stood when it began.
unfoldable pub flush_listed : Text → List (Text × Entry) → Buffer → Buffer
flush_listed session [] b = b
flush_listed session ((key, e) ∷ rest) b =
    flush_listed session rest (if e.session == session then flush_entry key b else b)

-- `flushReasoningForSession`
unfoldable pub flush_session : Text → Buffer → Buffer
unfolding flush_listed
flush_session session b = flush_listed session b.entries b

-- Evicting the oldest entry when there are too many.
abbrev pub evict : Text → List (Text × Entry) → Buffer → Buffer
evict key [] b = b
evict key ((oldest, e) ∷ rest) b = if oldest == key then b else flush_entry oldest b

-- The cap on the number of entries.
unfoldable pub trim : Text → Buffer → Buffer
trim key b = if ltb max_entries (length b.entries) then evict key b.entries b else b

unfoldable pub restart_timer : Text → Buffer → Buffer
restart_timer key b = record b { timers = add key (drop_timer key b.timers) }

-- `message.part.updated` of a reasoning part with text: buffer it and restart its timer.
unfoldable pub update_part : Text → Entry → Buffer → Buffer
unfolding trim restart_timer
update_part key e b = restart_timer key (trim key (record b { entries = put key e b.entries }))

pub data Event : Type 0 where
  -- a part that is a reasoning part of a session, with its message id, part id and text
  part_updated : Text → Text → Text → Text → Event
  -- the debounce time of a key is over
  timer_fired : Text → Event
  -- `session.idle`
  idle : Text → Event

-- `${part.messageID}:${part.id}`
abbrev pub key_of : Text → Text → Text
key_of message part = message ++ codes ":" ++ part

-- A timer that was cleared does not fire.
unfoldable pub step : Buffer → Event → Buffer
step b (part_updated message part session text) =
    if not_empty text
    then update_part (key_of message part) (record { session = session; text = text }) b
    else b
step b (timer_fired key) = if has key b.timers then flush_entry key b else b
step b (idle session) = if not_empty session then flush_session session b else b

unfoldable pub run : Buffer → List Event → Buffer
unfolding step
run b [] = b
run b (e ∷ es) = run (step b e) es
