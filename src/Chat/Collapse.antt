-- ===== src/Chat/Collapse.antt =====
-- The order and the collapsing of messages in src/frontend/src/hooks/useMessageFeed.ts, with the
-- labels that src/frontend/src/components/chat/ChatMessage.tsx gives to system notifications.
pub mod Groups
use soren.Base.{
  ℕ, zero, suc, ◌+◌, Bool, true, false, not, ◌&&◌, ◌||◌, Option, none, some, List, [], ◌∷◌, ◌++◌,
  Text, codes, ◌==◌, text_Eq, ltb, if◌then◌else◌, is_some, has, includes, starts_with, reverse,
  length, take, drop, sort,
}
use soren.Bridge.Regex.{is_space}
use soren.Chat.{Message}

abbrev pub trim_start : Text → Text
trim_start [] = []
trim_start (c ∷ s) = if is_space c then trim_start s else c ∷ s

-- `s.trim()`
abbrev pub trim : Text → Text
trim s = reverse (trim_start (reverse (trim_start s)))

abbrev pub system_agents : List Text
system_agents = codes "health" ∷ codes "monitor" ∷ codes "system" ∷ []

-- `SYSTEM_CONTENT_PREFIXES`, with the labels
abbrev pub system_content_prefixes : List (Text × Text)
system_content_prefixes =
    (codes "SENTRY BRIEFING", codes "Sentry Recovery")
    ∷ (codes "SYSTEM ALERT", codes "System Alert")
    ∷ (codes "[HEARTBEAT]", codes "Heartbeat")
    ∷ (codes "[SYSTEM AUTO-JOURNAL", codes "Journal Reminder")
    ∷ []

abbrev pub prefix_label : Text → List (Text × Text) → Option Text
prefix_label content [] = none
prefix_label content ((prefix, label) ∷ rest) =
    if starts_with prefix content then some label else prefix_label content rest

-- The label of `getSystemNotificationInfo`, if the message is a system notification.
unfoldable pub system_label : Message → Option Text
system_label m =
    let content = trim m.content in
    if m.kind == codes "system"
    then some (codes "System")
    else if has m.from_agent system_agents
    then if includes (codes "rollback") content || includes (codes "SYSTEM ALERT") content
      then some (codes "System Alert")
      else some (codes "System Message")
    else prefix_label content system_content_prefixes

-- `useSortedMessages`, with the time of a timestamp as an argument
unfoldable pub sorted_messages : (Text → ℕ) → List Message → List Message
sorted_messages get_time = sort (λ a b. ltb (get_time b.timestamp) (get_time a.timestamp))

pub record CollapsedMessage : Type 0 where
  pub message : Message
  pub collapse_count : Option ℕ

abbrev pub same_label : Text → Option Text → Bool
same_label label none = false
same_label label (some l) = l == label

-- Whether a later message joins the group of `m`.
abbrev pub joins : Message → Option Text → Message → Bool
joins m (some label) n = same_label label (system_label n)
joins m none n =
    not (is_some (system_label n)) && n.from_agent == m.from_agent && n.content == m.content

-- How many messages at the front satisfy a test.
unfoldable pub run_length : (Message → Bool) → List Message → ℕ
run_length p [] = 0
run_length p (m ∷ ms) = if p m then suc (run_length p ms) else 0

abbrev pub last_of : Message → List Message → Message
last_of m [] = m
last_of m (n ∷ ms) = last_of n ms

-- The count that is shown: always for notifications, and else when there are several.
abbrev pub shown_count : Option Text → ℕ → Option ℕ
shown_count (some label) count = some count
shown_count none count = if ltb 1 count then some count else none

abbrev pub entry_of : Message → List Message → CollapsedMessage
entry_of m more = record {
  message = last_of m more;
  collapse_count = shown_count (system_label m) (suc (length more));
}

-- The outer loop of `useCollapsedMessages`, with so many rounds left.
unfoldable pub collapse_from : ℕ → List Message → List CollapsedMessage
unfolding run_length system_label
collapse_from zero ms = []
collapse_from (suc left) [] = []
collapse_from (suc left) (m ∷ ms) =
    let count = run_length (joins m (system_label m)) ms in
    entry_of m (take count ms) ∷ collapse_from left (drop count ms)

-- `useCollapsedMessages`: one round for each message is enough.
unfoldable pub collapsed_messages : List Message → List CollapsedMessage
unfolding collapse_from
collapsed_messages ms = collapse_from (length ms) ms
