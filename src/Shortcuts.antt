-- ===== src/Shortcuts.antt =====
-- src/frontend/src/hooks/useKeyboardShortcuts.ts: the global shortcuts. What the browser answers
-- about the focus, the dialogs and the clock comes with each event.
pub mod Cycling
mod Tests
use soren.Base.{
  ℕ, suc, ◌+◌, ◌-◌, ◌%◌, Bool, true, false, ◌&&◌, ◌||◌, Option, none, some, List, [], ◌∷◌, ◌++◌,
  map, Text, codes, ◌==◌, text_Eq, ltb, if◌then◌else◌, or_else, length, lookup,
}
use soren.Stores.Agents.{Agent}
use soren.Sidebar.{ProjectGroupData, Project, group_agents_by_project}
use soren.Input.Keys.{get_elem?}
use soren.Navigation.{Urls, route_overview, route_chat, route_tasks, route_terminal, route_agent}

abbrev pub sequence_timeout_ms : ℕ
sequence_timeout_ms = 1000

-- What a key event carries; `target` is none if it is no HTML element.
pub record Target : Type 0 where
  pub tag_name : Text
  pub is_content_editable : Bool

pub record KeyboardEvent : Type 0 where
  pub key : Text
  pub meta_key : Bool
  pub ctrl_key : Bool
  pub alt_key : Bool
  pub target : Option Target
  pub dialog_open : Bool
  pub now : ℕ

-- What a handler does besides changing the hook's state
pub data Effect : Type 0 where
  prevent_default : Effect
  navigate : Text → Effect
  focus_filter : Effect

pub record Prefix : Type 0 where
  pub key : Text
  pub at_time : ℕ

pub record Shortcuts : Type 0 where
  pub help_open : Bool
  pub pending_prefix : Option Prefix

unfoldable pub is_typing_target : Option Target → Bool
is_typing_target none = false
is_typing_target (some el) =
    el.tag_name == codes "INPUT"
    || el.tag_name == codes "TEXTAREA"
    || el.tag_name == codes "SELECT"
    || el.is_content_editable

abbrev pub supervisor_id : Option Agent → List Text
supervisor_id none = []
supervisor_id (some a) = a.id ∷ []

-- The loop that fills `ids`.
abbrev pub group_ids : List ProjectGroupData → List Text
group_ids [] = []
group_ids (g ∷ groups) = supervisor_id g.supervisor ++ map (λ a. a.id) g.agents ++ group_ids groups

-- `orderedAgentIds`
unfoldable pub ordered_agent_ids : (Text → Text → Bool) → List Agent → List Project → List Text
ordered_agent_ids after agents projects = group_ids (group_agents_by_project after agents projects)

-- `ids.indexOf(id)`, from a position on
abbrev pub index_from : ℕ → Text → List Text → Option ℕ
index_from n id [] = none
index_from n id (x ∷ ids) = let rest = index_from (suc n) id ids in if x == id then some n else rest

-- `currentAgentId ? orderedAgentIds.indexOf(currentAgentId) : -1`
abbrev pub index_of : Option Text → List Text → Option ℕ
index_of none ids = none
index_of (some []) ids = none
index_of (some (c ∷ id)) ids = index_from 0 (c ∷ id) ids

-- `next`: the position that j, or k, goes to
abbrev pub next_index : Bool → Option ℕ → ℕ → ℕ
next_index forward none n = if forward then 0 else n - 1
next_index forward (some i) n = if forward then (i + 1 + n) % n else (i + n - 1) % n

abbrev pub go_to : Option Text → List Effect
go_to none = []
go_to (some path) = navigate path ∷ []

abbrev pub move : Urls → Option Text → List Text → Bool → List Effect
move urls current [] forward = []
move urls current (a ∷ ids) forward =
    let next = next_index forward (index_of current (a ∷ ids)) (length (a ∷ ids)) in
    prevent_default
    ∷ go_to (route_agent urls (or_else (get_elem? next (a ∷ ids)) (codes "undefined")))

-- `dest`
abbrev pub dest : List (Text × Text)
dest =
    (codes "o", route_overview)
    ∷ (codes "c", route_chat)
    ∷ (codes "t", route_tasks)
    ∷ (codes "e", route_terminal)
    ∷ []

-- The destination of a key behind a prefix that is recent enough
abbrev pub sequence : Option Prefix → Text → ℕ → Option Text
sequence none key now = none
sequence (some p) key now =
    if ltb (now - p.at_time) sequence_timeout_ms && (p.key == codes "g")
    then lookup key dest
    else none

-- The prefix is taken when it is recent enough.
abbrev pub left_prefix : Option Prefix → ℕ → Option Prefix
left_prefix none now = none
left_prefix (some p) now = if ltb (now - p.at_time) sequence_timeout_ms then none else some p

-- The `switch` over the key
unfoldable pub single_key : Urls → Option Text → List Text → Text → List Effect
single_key urls current ids key =
    if key == codes "j"
    then move urls current ids true
    else if key == codes "k"
    then move urls current ids false
    else if key == codes "/"
    then prevent_default ∷ focus_filter ∷ []
    else if key == codes "Escape"
    then navigate route_overview ∷ []
    else []

-- What follows the test for a sequence
unfoldable pub after_sequence :
    Urls
    → Option Text
    → List Text
    → KeyboardEvent
    → Option Text
    → Shortcuts
    → Shortcuts × List Effect
unfolding single_key
after_sequence urls current ids e (some path) s = (
  record s { pending_prefix = left_prefix s.pending_prefix e.now },
  prevent_default ∷ navigate path ∷ [],
)
after_sequence urls current ids e none s =
    if e.key == codes "g"
    then (record s { pending_prefix = some (record { key = codes "g"; at_time = e.now }) }, [])
    else (
      record s { pending_prefix = left_prefix s.pending_prefix e.now },
      single_key urls current ids e.key,
    )

-- `onKeyDown`
unfoldable pub on_key_down :
    Urls → Option Text → List Text → KeyboardEvent → Shortcuts → Shortcuts × List Effect
unfolding is_typing_target after_sequence
on_key_down urls current ids e s =
    if e.meta_key || e.ctrl_key || e.alt_key
    then (s, [])
    else if is_typing_target e.target
    then (s, [])
    else if e.key == codes "?"
    then (record s { help_open = if s.help_open then false else true }, prevent_default ∷ [])
    else if e.dialog_open
    then (s, [])
    else after_sequence urls current ids e (sequence s.pending_prefix e.key e.now) s
