-- ===== src/Chat/Tests.antt =====
-- The theorems on the client's messages at concrete inputs.
use soren.Base.{
  ◌&&◌, Bool, inr, none, some, text_Eq, true, List, [], ◌∷◌, codes, String, ◌≡◌, refl, length,
  arith, inl,
}
use soren.Chat.{Message}
use soren.Chat.Collapse.{collapsed_messages}
use soren.Chat.Collapse.Groups.{Collapses, sum_counts, collapsed_messages_lem}
use soren.Chat.Thoughts.{thoughts_by_message, thought_once}
use mathlib.Core.List.{Perm}
use soren.Chat.Tools.{tool_calls_by_message, put_persisted, add_live, calls_of}
use soren.Chat.Tools.Counting.{count}
use soren.Chat.Tools.Linking.{is_due, tool_calls_lem}
use soren.Chat.Timeline.{
  build_timeline, thought, tool, shown, Chronological, Joined, build_timeline_lem,
}
use soren.Stores.Activities.{Activity}
use soren.Stores.Thoughts.{Thought}

abbrev said : String → String → Message
said time content = record {
  id = codes time;
  timestamp = codes time;
  from_agent = codes "eng-1";
  to_agent = codes "user";
  kind = codes "response";
  content = codes content;
}

abbrev three : List Message
three = said "a" "ok" ∷ said "ab" "ok" ∷ said "abc" "[HEARTBEAT] all clear" ∷ []

collapsed_messages_lem_example :
    Collapses three (collapsed_messages three) × (sum_counts (collapsed_messages three) ≡ 3)
collapsed_messages_lem_example = collapsed_messages_lem three

abbrev idea : Thought
idea = record {
  id = codes "t";
  agent_name = codes "eng-1";
  thought_type = codes "reasoning";
  content = none;
  tool_name = none;
  tool_input = none;
  tool_response = none;
  timestamp = codes "xy";
}

thought_once_example : codes "ab" ≡ codes "ab"
unfolding thoughts_by_message
thought_once_example =
    thought_once length (λ s. s) three (idea ∷ []) [] idea (codes "ab") (codes "ab")
      (omega arith, (omega arith, (omega arith, tt))) (inl refl) (inl refl)

abbrev call : Activity
call = record {
  id = codes "c";
  timestamp = codes "abc";
  kind = codes "tool_call";
  agent_id = codes "eng-1";
  payload = [];
}

abbrev any_call : Activity → Bool
any_call c = true

tool_calls_lem_example :
    count any_call (
      calls_of
        (codes "abc")
        (tool_calls_by_message length (λ s. s) (λ e. []) three (([], []) ∷ []) (call ∷ [])))
    ≡ count (λ c. is_due length (λ s. s) (λ e. []) (codes "eng-1") 2 3 c && any_call c) (call ∷ [])
tool_calls_lem_example =
    tool_calls_lem length (λ s. s) (λ e. []) (said "a" "ok" ∷ said "ab" "ok" ∷ []) []
      (said "abc" "[HEARTBEAT] all clear") 2 (([], []) ∷ []) (call ∷ []) (codes "abc") any_call
      (refl, tt) tt refl refl (inr (said "a" "ok" ∷ [], said "ab" "ok", refl, refl))

-- The call is under the last message, which is no user's.
call_is_shown :
    tool_calls_by_message length (λ s. s) (λ e. []) three [] (call ∷ [])
    ≡ (codes "abc", call ∷ []) ∷ []
unfolding tool_calls_by_message add_live put_persisted
call_is_shown = refl

abbrev spoken : Thought
spoken = record idea { id = codes "u"; content = some (codes "so"); timestamp = codes "x" }

build_timeline_lem_example :
    Perm
      (shown (build_timeline length (spoken ∷ idea ∷ []) (call ∷ [])))
      (thought spoken ∷ tool call ∷ [])
    × Chronological length (shown (build_timeline length (spoken ∷ idea ∷ []) (call ∷ [])))
    × Joined (build_timeline length (spoken ∷ idea ∷ []) (call ∷ []))
build_timeline_lem_example = build_timeline_lem length (spoken ∷ idea ∷ []) (call ∷ [])
