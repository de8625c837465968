-- ===== src/Bridge/Hooks.antt =====
-- The hooks of .opencode/plugins/soren-bridge.ts other than the write guard: a user's prompt, the
-- end of a tool call, and the events of the bus. Each returns what it asks of the outside,
-- but for the end of a turn, which keeps a log of what it sends.
pub mod Laws
use soren.Base.{
  ℕ, Bool, true, false, not, ◌&&◌, ◌||◌, Option, none, some, List, [], ◌∷◌, ◌++◌, map, drop, length,
  Text, codes, ◌==◌, text_Eq, if◌then◌else◌, or_else, is_some,
}
use soren.Bridge.Regex.{
  Regex, unit, seq, either, maybe, start, boundary, some_of, test, text, is_space, one_of,
}
use soren.Bridge.Settings.{Env, agent, soren_home, is_empty, not_empty, defined_as}
use soren.Bridge.Delivery.{truncate}
use soren.Bridge.Reasoning.{Buffer, flush_session}
use soren.Bridge.Reasoning
use soren.Bridge.Turn.{
  Message, Scan, start_scan, in_order, scan, Usage, usage_of, final_response, stop_gate,
}

-- A finished tool call; `args` is the text of `JSON.stringify(input.args)`.
pub record Finished : Type 0 where
  pub session : Text
  pub tool : Text
  pub args : Text
  pub command : Option Text
  pub output : Text

pub record Stop : Type 0 where
  pub session : Text
  pub agent_id : Text
  pub response_content : Option Text
  pub usage : Usage

pub data Effect : Type 0 where
  prompt_submit : Text → Text → Effect
  -- agent, session, tool, input, output
  post_tool_use : Text → Text → Text → Text → Text → Effect
  -- agent, tool, response
  tool_result : Text → Text → Text → Effect
  -- agent, tool, input summary, session
  audit : Text → Text → Text → Text → Effect
  heartbeat : Text → Effect
  -- script, session, command, output
  spawn_hook : Text → Text → Text → Text → Effect

-- `chat.message`
unfoldable pub chat_message : Env → Text → List Effect
chat_message env session = prompt_submit (agent env) session ∷ []

-- `touchHeartbeat`: the file that is written, if any.
unfoldable pub touch_heartbeat : Env → List Effect
touch_heartbeat env =
    if agent env == codes "supervisor"
    then heartbeat (soren_home env ++ codes "/.soren/.supervisor-heartbeat") ∷ []
    else if defined_as env.agent_role (codes "project-supervisor")
    then heartbeat (soren_home env ++ codes "/.soren/." ++ agent env ++ codes "-heartbeat") ∷ []
    else []

-- `auditLog`
unfoldable pub audit_log : Env → Finished → List Effect
audit_log env f = audit (agent env) f.tool (truncate f.args 200) f.session ∷ []

-- /(^|[\s;&|])(\.\/)?(tools\/)?mailbox +done\b/
abbrev pub mailbox_done : Regex
mailbox_done = seq (either start (unit (λ c. is_space c || one_of (codes ";&|") c))) (
    seq (maybe (text "./")) (
      seq (maybe (text "tools/"))
        (seq (text "mailbox") (seq (some_of (one_of (codes " "))) (seq (text "done") boundary)))))

-- The verification pipeline, started by a done report through bash.
unfoldable pub verify_hooks : Finished → List Effect
verify_hooks f =
    if f.tool == codes "bash" && test mailbox_done (or_else f.command [])
    then spawn_hook (codes "verify-done.sh") f.session (or_else f.command [])
        (truncate f.output 10000)
      ∷ spawn_hook (codes "verify-ui-check.sh") f.session (or_else f.command [])
          (truncate f.output 10000)
      ∷ []
    else []

-- `tool.execute.after`
unfoldable pub tool_after : Env → Finished → List Effect
unfolding touch_heartbeat audit_log verify_hooks
tool_after env f =
    (post_tool_use (agent env) f.session f.tool (truncate f.args 2000) (truncate f.output 10000)
      ∷ tool_result (agent env) f.tool (truncate f.output 500)
      ∷ [])
    ++ (audit_log env f ++ (touch_heartbeat env ++ verify_hooks f))

-- What the plugin has sent, oldest first
pub data Sent : Type 0 where
  sent_thought : Text → Sent
  sent_stop : Stop → Sent
  sent_prompt : Text → Sent

-- The plugin's state between events.
pub record Plugin : Type 0 where
  pub buffer : Buffer
  pub nudged : List Text
  pub sent : List Sent

-- A change of the buffer, which only appends to its posts
abbrev pub with_buffer : Buffer → Plugin → Plugin
with_buffer b st = record st {
  buffer = b;
  sent = st.sent ++ map sent_thought (drop (length st.buffer.posted) b.posted);
}

-- What happens to the buffer while a handler waits
unfoldable pub meanwhile : List Reasoning.Event → Plugin → Plugin
meanwhile [] st = st
meanwhile (e ∷ es) st = meanwhile es (with_buffer (Reasoning.step st.buffer e) st)

-- The reply to the request for a session's data; `known` holds its `parentID`.
pub data SessionReply : Type 0 where
  no_instance unavailable : SessionReply
  known : Option Text → SessionReply

-- `isRootSession`: when in doubt, a session counts as a root.
unfoldable pub is_root_session : SessionReply → Bool
is_root_session no_instance = true
is_root_session unavailable = true
is_root_session (known parent) = is_empty (or_else parent [])

-- `fetchMessages`: `none` where there is no instance, or the request fails.
abbrev pub fetch_messages : Option (List Message) → List Message
fetch_messages reply = or_else reply []

pub record World : Type 0 where
  pub instance_known : Bool
  pub session_reply : SessionReply
  -- the reply to the n-th request for the messages
  pub messages_reply : ℕ → Option (List Message)
  -- the events of the buffer while the session is asked for, while its messages are fetched, and
  -- while the Stop event is posted
  pub while_asking : List Reasoning.Event
  pub while_fetching : List Reasoning.Event
  pub while_posting : List Reasoning.Event

abbrev pub scanned : World → Scan
scanned w = scan (in_order (fetch_messages (w.messages_reply 0))) start_scan

unfoldable pub stop_of : Env → World → Text → Stop
unfolding final_response
stop_of env w session =
    let response = final_response (λ n. fetch_messages (w.messages_reply n)) (scanned w) in
    record {
      session = session;
      agent_id = agent env;
      response_content = if is_empty response then none else some response;
      usage = usage_of (scanned w).last_assistant;
    }

-- The stop gate, after the Stop event
unfoldable pub after_stop : Env → World → Text → Plugin → Plugin
after_stop env w session st =
    let gate = stop_gate env (scanned w) session st.nudged in
    record st {
      nudged = gate.0;
      sent = if gate.1 && w.instance_known then st.sent ++ sent_prompt session ∷ [] else st.sent;
    }

-- What follows the request for the session
unfoldable pub report_turn : Env → World → Text → Plugin → Plugin
unfolding stop_of after_stop meanwhile
report_turn env w session st =
    let fetched = meanwhile w.while_fetching st in
    let reported = record fetched {
      sent = fetched.sent ++ sent_stop (stop_of env w session) ∷ [];
    } in
    after_stop env w session (meanwhile w.while_posting reported)

-- The branch of `event` for `session.idle`, in which only reasoning is handled meanwhile.
unfoldable pub on_idle : Env → World → Text → Plugin → Plugin
unfolding report_turn
on_idle env w session st =
    if is_empty session
    then st
    else (let asked = meanwhile w.while_asking (with_buffer (flush_session session st.buffer) st) in
        if is_root_session w.session_reply then report_turn env w session asked else asked)
