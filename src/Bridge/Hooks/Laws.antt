-- ===== src/Bridge/Hooks/Laws.antt =====
-- What a turn's end reports through the hook for `session.idle`, from the whole handler.
use soren.Base.{true, false, some, List, [], ◌∷◌, ◌++◌, map, any, Text, ◌≡◌, ◌⊎◌, text_Eq}
use soren.Bridge.Settings.{Env, agent, not_empty}
use soren.Bridge.Reasoning
use soren.Bridge.Turn.{Message, is_assistant, in_order}
use soren.Bridge.Hooks.{World, Stop, Sent, sent_thought, sent_stop, sent_prompt, fetch_messages}

-- The messages that the handler reads
abbrev pub read_messages : World → List Message
read_messages w = in_order (fetch_messages (w.messages_reply 0))

-- What a Stop event must carry: the session and agent, and some text if one of the messages read is
-- the assistant's.
abbrev pub Reports : Env → World → Text → Stop → Type 0
Reports env w session s =
    (s.session ≡ session)
    × (s.agent_id ≡ agent env)
    × ((any is_assistant (read_messages w) ≡ false)
        ⊎ ((t : Text) × (s.response_content ≡ some t) × (not_empty t ≡ true)))

-- What is sent from the request for the session on: thoughts, the Stop event, thoughts, and at
-- most a prompt.
abbrev pub Turn : Text → Stop → List Sent → Type 0
Turn session s sent =
    (before after : List Text) × (rest : List Sent) × ((rest ≡ [])
      ⊎ (rest ≡ sent_prompt session ∷ []))
    × (sent ≡ map sent_thought before ++ (sent_stop s ∷ (map sent_thought after ++ rest)))
