-- ===== src/Bridge/Turn.antt =====
-- The end of a turn in .opencode/plugins/soren-bridge.ts: what the handler of `session.idle` reads
-- from the session's messages, what it reports, and whom it nudges.
pub mod Report
pub mod Gate
use soren.Base.{
  ℕ, suc, ◌+◌, Bool, true, false, not, ◌&&◌, ◌||◌, Option, none, some, List, [], ◌∷◌, ◌++◌, Text,
  codes, ◌==◌, text_Eq, ltb, leb, if◌then◌else◌, or_else, is_some, length, all, sort, text_lt, has,
  add, drop,
}
use soren.Bridge.Regex.{Regex, either, text, test}
use soren.Bridge.Settings.{Env, agent, is_supervisor, is_permanent, is_empty, not_empty, defined_as}

-- The fields of `MessageEnvelope` that the handler reads.
pub record Part : Type 0 where
  pub kind : Option Text
  pub content : Option Text
  -- `state?.input?.command`
  pub command : Option Text

pub record Tokens : Type 0 where
  pub input : Option ℕ
  pub output : Option ℕ
  pub cache_read : Option ℕ
  pub cache_write : Option ℕ

pub record Message : Type 0 where
  pub id : Option Text
  pub role : Option Text
  pub tokens : Tokens
  pub parts : List Part

abbrev pub id_of : Message → Text
id_of m = or_else m.id []

-- Sort by id when there are several messages and all have one.
unfoldable pub in_order : List Message → List Message
in_order messages =
    if ltb 1 (length messages) && all (λ m. not_empty (id_of m)) messages
    then sort (λ a b. text_lt (id_of b) (id_of a)) messages
    else messages

pub record Scan : Type 0 where
  pub last_assistant : Option Message
  pub response : Text
  pub tool_calls : ℕ
  pub hygiene_seen : Bool

abbrev pub start_scan : Scan
start_scan = record { last_assistant = none; response = []; tool_calls = 0; hygiene_seen = false }

-- /git commit|tools\/journal|tools\/mailbox/
abbrev pub hygiene : Regex
hygiene = either (text "git commit") (either (text "tools/journal") (text "tools/mailbox"))

abbrev pub is_text : Part → Bool
is_text p = defined_as p.kind (codes "text")

abbrev pub is_tool : Part → Bool
is_tool p = defined_as p.kind (codes "tool")

abbrev pub is_assistant : Message → Bool
is_assistant m = defined_as m.role (codes "assistant")

abbrev pub is_user : Message → Bool
is_user m = defined_as m.role (codes "user")

abbrev pub content_of : Part → Text
content_of p = or_else p.content []

-- The three tests of the loop over the parts, in order.
unfoldable pub note_response : Bool → Part → Scan → Scan
note_response assistant p s =
    if assistant && is_text p && not_empty (content_of p)
    then record s { response = content_of p }
    else s

unfoldable pub note_user : Bool → Part → Scan → Scan
note_user user p s =
    if user && is_text p then record s { tool_calls = 0; hygiene_seen = false } else s

unfoldable pub note_tool : Part → Scan → Scan
note_tool p s =
    if is_tool p
    then record s {
      tool_calls = s.tool_calls + 1;
      hygiene_seen = s.hygiene_seen || test hygiene (or_else p.command []);
    }
    else s

unfoldable pub scan_parts : Message → List Part → Scan → Scan
unfolding note_response note_user note_tool
scan_parts m [] s = s
scan_parts m (p ∷ ps) s =
    scan_parts m ps (note_tool p (note_user (is_user m) p (note_response (is_assistant m) p s)))

unfoldable pub scan_message : Message → Scan → Scan
unfolding scan_parts
scan_message m s =
    scan_parts m m.parts (if is_assistant m then record s { last_assistant = some m } else s)

unfoldable pub scan : List Message → Scan → Scan
unfolding scan_message
scan [] s = s
scan (m ∷ ms) s = scan ms (scan_message m s)

pub record Usage : Type 0 where
  pub input_tokens : ℕ
  pub output_tokens : ℕ
  pub cache_read_input_tokens : ℕ
  pub cache_creation_input_tokens : ℕ

unfoldable pub usage_of : Option Message → Usage
usage_of none = record {
  input_tokens = 0;
  output_tokens = 0;
  cache_read_input_tokens = 0;
  cache_creation_input_tokens = 0;
}
usage_of (some m) = record {
  input_tokens = or_else m.tokens.input 0;
  output_tokens = or_else m.tokens.output 0;
  cache_read_input_tokens = or_else m.tokens.cache_read 0;
  cache_creation_input_tokens = or_else m.tokens.cache_write 0;
}

-- `turnLikelyHadOutput`
unfoldable pub likely_had_output : Scan → Bool
likely_had_output s =
    is_some s.last_assistant
    || ltb 0 (usage_of s.last_assistant).output_tokens
    || ltb 0 s.tool_calls

-- The texts that one retry finds: the last of the assistant's replaces what was there.
unfoldable pub retry_parts : List Part → Text → Text
retry_parts [] response = response
retry_parts (p ∷ ps) response =
    retry_parts ps (if is_text p && not_empty (content_of p) then content_of p else response)

unfoldable pub retry_messages : List Message → Text → Text
unfolding retry_parts
retry_messages [] response = response
retry_messages (m ∷ ms) response =
    retry_messages ms (if is_assistant m then retry_parts m.parts response else response)

-- The loop over the backoffs; `fetched n` is what `fetchMessages` gives at the n-th call.
unfoldable pub retry_loop : (ℕ → List Message) → List ℕ → ℕ → Text → Text
unfolding retry_messages
retry_loop fetched [] n response = response
retry_loop fetched (delay ∷ delays) n response =
    let found = retry_messages (fetched n) response in
    let later = retry_loop fetched delays (suc n) found in if not_empty found then found else later

abbrev pub backoffs_ms : List ℕ
backoffs_ms = 500 ∷ 1000 ∷ 1500 ∷ []

abbrev pub placeholder : Text
placeholder =
    codes
      "[SYS] (response text unavailable — the agent completed a turn but its text wasn't retrievable via the API in time; check the terminal pane for the actual output)"

-- The response that the Stop event carries; the first fetch is the 0-th call.
unfoldable pub final_response : (ℕ → List Message) → Scan → Text
unfolding retry_loop likely_had_output
final_response fetched s =
    if is_empty s.response && likely_had_output s
    then (let found = retry_loop fetched backoffs_ms 1 s.response in
        if is_empty found then placeholder else found)
    else s.response

-- The stop-gate: the sessions nudged so far, oldest first, and whether to nudge.
abbrev pub max_nudged : ℕ
max_nudged = 200

-- Adding a session, and dropping the oldest when there are too many.
unfoldable pub remember : Text → List Text → List Text
remember session nudged =
    let grown = add session nudged in if ltb max_nudged (length grown) then drop 1 grown else grown

unfoldable pub stop_gate : Env → Scan → Text → List Text → List Text × Bool
unfolding remember
stop_gate env s session nudged =
    if not (is_supervisor env)
      && not (is_permanent env)
      && leb 5 s.tool_calls
      && not s.hygiene_seen
      && not (has session nudged)
    then (remember session nudged, true)
    else (nudged, false)
