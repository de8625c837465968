-- ===== src/Chat.antt =====
-- Messages on the client: src/frontend/src/types/message.ts, the notifications of
-- src/frontend/src/lib/notifications.ts, and the cached pages that new messages are put into.
pub mod Collapse
pub mod Thoughts
pub mod Tools
pub mod Timeline
mod Tests
use soren.Base.{
  ℕ, ◌+◌, Bool, true, false, not, ◌&&◌, ◌||◌, Option, none, some, List, [], ◌∷◌, ◌++◌, Text, codes,
  ◌==◌, text_Eq, nat_eq, if◌then◌else◌, any, includes, take,
}

pub record Message : Type 0 where
  pub id : Text
  pub timestamp : Text
  pub from_agent : Text
  pub to_agent : Text
  pub kind : Text
  pub content : Text

abbrev pub notify_patterns : List Text
notify_patterns =
    codes "[DONE]"
    ∷ codes "[BLOCKED]"
    ∷ codes "[VERIFY-FAILED]"
    ∷ codes "SYSTEM ALERT"
    ∷ codes "SENTRY"
    ∷ []

-- `isNotifyWorthy`
unfoldable pub is_notify_worthy : Message → Bool
is_notify_worthy msg =
    if msg.to_agent == codes "user" then true else any (λ p. includes p msg.content) notify_patterns

-- What `maybeNotify` reads of the store and the browser.
pub record Browser : Type 0 where
  pub enabled : Bool
  pub supported : Bool
  pub granted : Bool
  pub hidden : Bool

-- `s.split('\n')[0]`
abbrev pub first_line : Text → Text
first_line [] = []
first_line (c ∷ s) = if nat_eq c 10 then [] else c ∷ first_line s

pub record Notification : Type 0 where
  pub sender : Text
  pub body : Text
  pub tag : Text

-- `maybeNotify`
unfoldable pub maybe_notify : Browser → Message → List Notification
unfolding is_notify_worthy
maybe_notify b msg =
    if not b.enabled
    then []
    else if not b.supported || not b.granted
    then []
    else if not b.hidden
    then []
    else if msg.from_agent == codes "user"
    then []
    else if not (is_notify_worthy msg)
    then []
    else record { sender = msg.from_agent; body = take 140 (first_line msg.content); tag = msg.id }
      ∷ []

-- A page of the infinite query for messages, without the flag `has_more`.
pub record Page : Type 0 where
  pub messages : List Message
  pub total : ℕ

-- The updater that puts a new message into the first cached page.
unfoldable pub insert_message : Message → Option (List Page) → Option (List Page)
insert_message msg none = none
insert_message msg (some []) = some []
insert_message msg (some (first ∷ rest)) =
    if any (λ m. m.id == msg.id) first.messages
    then some (first ∷ rest)
    else some (record { messages = msg ∷ first.messages; total = first.total + 1 } ∷ rest)
