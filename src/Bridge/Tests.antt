-- ===== src/Bridge/Tests.antt =====
-- The theorems on .opencode/plugins/soren-bridge.ts at concrete inputs, and runs of its code.
use soren.Base.{
  ℕ, true, false, Option, none, some, String, List, [], ◌∷◌, Text, codes, ◌≡◌, ◌≢◌, refl, ◌↔◌, inl,
  inr, arith, In, nat_eq, if◌then◌else◌,
}
use soren.Bridge.Regex.{test}
use soren.Bridge.Settings.{Env, is_protected}
use soren.Bridge.Contracts.Cache.{load_contracts-on_disk, loads, on_disk}
use soren.Bridge.Contracts.{
  Json, Disk, Cached, contract_forbids_protected, str, obj, end, field, Fields,
}
use soren.Bridge.Guard.{ToolCall, allowed, blocked, protected_live, contract_path, lifecycle, guard}
use soren.Bridge.Guard.Edits.{guard_live, guard-worktree, guard_escape}
use soren.Bridge.Guard.Commands.{guard_writes, guard_lifecycle}
use soren.Bridge.Delivery.{Reply, accepted, failed, post, truncate}
use soren.Bridge.Delivery.Retries.{post_lem, requests, Accepts}
use soren.Bridge.Reasoning.{empty, part_updated, timer_fired, idle, run, step}
use soren.Bridge.Reasoning.Invariant.{IsValid, step-IsValid, empty-IsValid}
use soren.Bridge.Reasoning.Keeping.{reasoning_delivered}
use soren.Bridge.Turn.{Part, Tokens, Message, Scan, start_scan, scan, stop_gate}
use soren.Bridge.Turn.Report.{scan_lem, since_user, items}
use soren.Bridge.Turn.Gate.{gates, nudged_once}
use soren.Bridge.Hooks.{Plugin, World, known}
use soren.Bridge.Hooks.Laws.{Turn}

-- An agent with no worktree, and one whose worktree lies beside the checkout.
abbrev plain : Env
plain = record {
  agent_flag = some (codes "true");
  agent_name = some (codes "eng-1");
  agent_role = none;
  home_dir = some (codes "/srv/soren");
  user_home = some (codes "/home/dev");
  worktree_dir = none;
  override_flag = none;
  working_dir = codes "/srv/soren";
  directory = none;
}

abbrev jailed : Env
jailed = record plain { worktree_dir = some (codes "/srv/trees/eng-1/") }

abbrev edit_of : Text → ToolCall
edit_of path = record {
  tool = codes "edit";
  file_path_camel = some path;
  file_path_snake = none;
  output_command = none;
  input_command = none;
}

abbrev bash_of : Text → ToolCall
bash_of command = record {
  tool = codes "bash";
  file_path_camel = none;
  file_path_snake = none;
  output_command = some command;
  input_command = none;
}

-- A parser that knows one text, and a disk that holds it.
abbrev forbidding : Fields
forbidding =
    field (codes "eng-1") (obj (field (codes "protected_paths") (str (codes "forbidden")) end)) end

abbrev parse_one : Text → Option Json
parse_one [] = none
parse_one (c ∷ s) = some (obj forbidding)

abbrev disk : Disk
disk = record { stat = some 7; content = some (codes "{…}") }

abbrev no_disk : Disk
no_disk = record { stat = none; content = none }

abbrev stale : Option Cached
stale = some (record { mtime_ms = 6; entries = none })

guard_live_example :
    (guard parse_one plain none disk (edit_of (codes "/srv/soren/soren.sh"))).1
    ≡ blocked protected_live
unfolding is_protected
guard_live_example =
    guard_live parse_one plain none disk (edit_of (codes "/srv/soren/soren.sh")) (codes "soren.sh")
      refl refl refl refl refl refl

guard-worktree_example :
    (guard parse_one jailed stale disk (edit_of (codes "/srv/trees/eng-1/soren.sh"))).1
    ≡ blocked contract_path
unfolding is_protected contract_forbids_protected
guard-worktree_example =
    guard-worktree parse_one jailed stale disk (edit_of (codes "/srv/trees/eng-1/soren.sh"))
      (codes "soren.sh") refl refl refl refl refl

guard_escape_example :
    (guard parse_one jailed none disk (edit_of (codes "/srv/soren/.soren/../soren.sh"))).1 ≡ allowed
guard_escape_example =
    guard_escape parse_one jailed none disk (edit_of (codes "/srv/soren/.soren/../soren.sh"))
      (codes "soren.sh") refl refl refl refl refl (λ h. cc)

-- The file is read, is found unchanged, is gone, and comes back later without a text.
abbrev history : List Disk
history =
    disk
    ∷ disk
    ∷ record { stat = none; content = none }
    ∷ record { stat = some 9; content = none }
    ∷ []

load_contracts-on_disk_example :
    loads parse_one none history
    ≡ on_disk parse_one disk ∷ on_disk parse_one disk ∷ none ∷ none ∷ []
load_contracts-on_disk_example = load_contracts-on_disk parse_one history (
  (λ e. refl, (λ e. cc, (λ e. ground (arith, e), tt))),
  ((λ e. cc, (λ e. ground (arith, e), tt)), ((λ e. cc, tt), (tt, tt))),
)

-- A network that accepts the second attempt.
abbrev second : ℕ → Reply
second n = if nat_eq n 2 then accepted else failed

post_lem_example :
    (((post second 3).0 ≡ true) ↔ Accepts second 4 1) × (requests (post second 3).1 ≡ 1 ∷ 2 ∷ [])
post_lem_example = post_lem second 3

step-IsValid_example :
    IsValid (step empty (part_updated (codes "m") (codes "p") (codes "s") (codes "hm")))
step-IsValid_example =
    step-IsValid empty (part_updated (codes "m") (codes "p") (codes "s") (codes "hm")) empty-IsValid

guard_writes_example :
    (guard parse_one plain none disk (bash_of (codes "cd src; rm ../src/orchestrator/x"))).1
    ≢ allowed
guard_writes_example =
    guard_writes parse_one plain none disk (bash_of (codes "cd src; rm ../src/orchestrator/x"))
      (codes "cd src; ") (codes "rm ") (codes "../src/orchestrator/x") (codes "cd src; rm ../")
      (codes "src/orchestrator/") (codes "x") refl refl refl refl
      (inr (inr (inr (inr (inr (inl refl))))))
      (inr (codes "cd src;", 32, inr (inr (inl refl)), refl)) (inl refl)
      (inr (codes "cd src; rm ..", b'/', inr (inr (inr (inl refl))), refl)) (inl refl)

guard_lifecycle_example :
    (guard parse_one jailed none disk (bash_of (codes "./soren.sh  stop && date"))).1
    ≡ blocked lifecycle
guard_lifecycle_example =
    guard_lifecycle parse_one jailed none disk (bash_of (codes "./soren.sh  stop && date"))
      (codes "./") (codes " ") (codes "stop") (codes " && date") 32 refl refl refl refl (refl, tt)
      (inl refl) refl

reasoning_delivered_example : In (codes "hm") (
    (run empty (
      part_updated (codes "m") (codes "p") (codes "s") (codes "hm")
      ∷ part_updated (codes "m") (codes "q") (codes "s") (codes "so")
      ∷ timer_fired (codes "m:q")
      ∷ idle (codes "s")
      ∷ [])).posted)
unfolding truncate
reasoning_delivered_example =
    reasoning_delivered empty (codes "m") (codes "p") (codes "s") (codes "hm")
      (part_updated (codes "m") (codes "q") (codes "s") (codes "so")
        ∷ timer_fired (codes "m:q")
        ∷ [])
      refl refl (refl, (tt, tt))

-- A turn: the user asks, the assistant runs a command and answers.
abbrev no_tokens : Tokens
no_tokens = record { input = none; output = none; cache_read = none; cache_write = none }

abbrev said : String → Part
said s = record { kind = some (codes "text"); content = some (codes s); command = none }

abbrev ran : String → Part
ran s = record { kind = some (codes "tool"); content = none; command = some (codes s) }

abbrev turn : List Message
turn =
    record {
      id = some (codes "a");
      role = some (codes "user");
      tokens = no_tokens;
      parts = said "go" ∷ [];
    }
    ∷ record {
      id = some (codes "b");
      role = some (codes "assistant");
      tokens = no_tokens;
      parts = said "first" ∷ ran "git commit -m x" ∷ ran "ls" ∷ said "done" ∷ [];
    }
    ∷ []

scan_lem_example :
    ((scan turn start_scan).response ≡ codes "done")
    × ((scan turn start_scan).tool_calls ≡ 2)
    × ((scan turn start_scan).hygiene_seen ≡ true)
unfolding test since_user items
scan_lem_example = scan_lem turn

-- A turn with five tool calls and no hygiene.
abbrev busy : Scan
busy = record start_scan { tool_calls = 5 }

nudged_once_example :
    (stop_gate plain busy
      (codes "s")
      (gates plain ((busy, codes "t") ∷ []) (stop_gate plain busy (codes "s") []).0)).1
    ≡ false
nudged_once_example =
    nudged_once plain busy busy (codes "s") [] ((busy, codes "t") ∷ []) (unfold stop_gate in refl)
      (omega arith)

-- A root session whose messages can be fetched.
abbrev world : World
world = record {
  instance_known = true;
  session_reply = known none;
  messages_reply = λ n. some turn;
  while_asking = [];
  while_fetching = part_updated (codes "m") (codes "q") (codes "s") (codes "so") ∷ [];
  while_posting = timer_fired (codes "m:q") ∷ [];
}

abbrev thinking : Plugin
thinking = record {
  buffer = record empty {
    entries = (codes "m:p", record { session = codes "s"; text = codes "hm" }) ∷ [];
  };
  nudged = [];
  sent = [];
}
