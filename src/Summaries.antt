-- ===== src/Summaries.antt =====
-- src/frontend/src/lib/toolSummary.ts: what a tool call is called where it is listed. A field of a
-- call's input is a text or another value (a number, a truth value or an object, but no array), of
-- which only its truth and its text form are read; a summary of such a field throws, which is `none`.
pub mod Details
pub mod Lengths
mod Tests
use soren.Base.{
  ℕ, suc, ◌+◌, ◌-◌, Bool, true, false, not, ◌&&◌, ◌||◌, Option, none, some, List, [], ◌∷◌, ◌++◌,
  Text, codes, if◌then◌else◌, leb, length, take, drop, take_last, lookup, text_Eq, ◌==◌, nat_eq,
  has, or_else,
}
use soren.Chat.Collapse.{trim}

pub data Value : Type 0 where
  text : Text → Value
  other : Bool → Text → Value

-- An input's fields, and `questions?.[0]?.question` of it.
pub record Fields : Type 0 where
  pub entries : List (Text × Value)
  pub first_question : Option Value

-- `toolInput`: what is falsy, a text, an object, or anything else
pub data ToolInput : Type 0 where
  absent : ToolInput
  json : Text → ToolInput
  object : Fields → ToolInput
  scalar : ToolInput

-- `normalizeInput`; JSON's parser gives nothing where it throws or finds no object.
unfoldable pub normalize_input : (Text → Option Fields) → ToolInput → Option Fields
normalize_input parse absent = none
normalize_input parse (json []) = none
normalize_input parse (json (c ∷ s)) = parse (c ∷ s)
normalize_input parse (object fields) = some fields
normalize_input parse scalar = none

abbrev pub is_truthy : Option Value → Bool
is_truthy none = false
is_truthy (some (text [])) = false
is_truthy (some (text (c ∷ s))) = true
is_truthy (some (other truth shown)) = truth

abbrev pub ellipsis : Text
ellipsis = 8230 ∷ []

-- `truncate`
unfoldable pub truncate : Text → ℕ → Text
truncate s n = if leb (length s) n then s else take n s ++ ellipsis

-- `s.split("/")`, from the part that is being read
abbrev pub split_from : ℕ → Text → Text → List Text
split_from separator part [] = part ∷ []
split_from separator part (c ∷ s) =
    if nat_eq c separator
    then part ∷ split_from separator [] s
    else split_from separator (part ++ c ∷ []) s

abbrev pub split : ℕ → Text → List Text
split separator s = split_from separator [] s

abbrev pub join_with : ℕ → List Text → Text
join_with separator [] = []
join_with separator (part ∷ []) = part
join_with separator (part ∷ next ∷ parts) = part ++ separator ∷ join_with separator (next ∷ parts)

abbrev pub landmarks : List Text
landmarks = codes "src" ∷ codes "tools" ∷ codes "docs" ∷ codes "tests" ∷ codes ".opencode" ∷ []

-- The parts from the first landmark on
abbrev pub from_landmark : List Text → Option (List Text)
from_landmark [] = none
from_landmark (part ∷ parts) =
    if has part landmarks then some (part ∷ parts) else from_landmark parts

abbrev pub last_two : List Text → Text
last_two parts = codes ".../" ++ join_with b'/' (take_last 2 parts)

abbrev pub landmark_or_last : Option (List Text) → List Text → ℕ → Text
landmark_or_last none parts n = last_two parts
landmark_or_last (some found) parts n =
    if leb (length (join_with b'/' found)) n then join_with b'/' found else last_two parts

-- `shortenPath`
unfoldable pub shorten_path : Text → ℕ → Text
shorten_path path n =
    if leb (length path) n
    then path
    else if leb (length (split b'/' path)) 2
    then truncate path n
    else landmark_or_last (from_landmark (split b'/' path)) (split b'/' path) n

-- A falsy field gives the default, a text what is made of it, and anything else throws.
abbrev pub shown_as : Text → (Text → Text) → Option Value → Option Text
shown_as default f none = some default
shown_as default f (some (text [])) = some default
shown_as default f (some (text (c ∷ s))) = some (f (c ∷ s))
shown_as default f (some (other true shown)) = none
shown_as default f (some (other false shown)) = some default

abbrev pub field : Text → Fields → Option Value
field name fields = lookup name fields.entries

-- `desc || prompt`
abbrev pub or_value : Option Value → Option Value → Option Value
or_value v w = if is_truthy v then v else w

abbrev pub first_line : Text → Text
first_line [] = []
first_line (c ∷ s) = if nat_eq c 10 then [] else c ∷ first_line s

abbrev pub quoted : Text → Text
quoted s = codes "\"" ++ s ++ codes "\""

abbrev pub grep_in : Option Value → Text → Option Text
grep_in path pattern =
    if is_truthy path
    then shown_as []
        (λ p. codes "Grep " ++ quoted (truncate pattern 25) ++ codes " in " ++ shorten_path p 45)
        path
    else some (codes "Grep " ++ quoted (truncate pattern 40))

abbrev pub grep_summary : Option Value → Option Value → Option Text
grep_summary none path = some (codes "Grep")
grep_summary (some (text [])) path = some (codes "Grep")
grep_summary (some (text (c ∷ s))) path = grep_in path (c ∷ s)
grep_summary (some (other true shown)) path = none
grep_summary (some (other false shown)) path = some (codes "Grep")

-- A case of `getToolSummary`: the tool, what it is called without a value, and with one
pub record Case : Type 0 where
  pub tool : Text
  pub default : Text
  pub show : Text → Text
  pub value : Option Value

abbrev pub path_case : Text → Text → Text → Fields → Case
path_case tool prefix name fields = record {
  tool = tool;
  default = tool;
  show = λ p. prefix ++ shorten_path p 45;
  value = field name fields;
}

abbrev pub cut_case : Text → Text → Text → ℕ → Option Value → Case
cut_case tool default prefix n value = record {
  tool = tool;
  default = default;
  show = λ s. prefix ++ truncate s n;
  value = value;
}

-- The cases but that of Grep, which reads two fields
unfoldable pub cases : Fields → List Case
cases fields =
    path_case (codes "Read") (codes "Read ") (codes "file_path") fields
    ∷ path_case (codes "Write") (codes "Write ") (codes "file_path") fields
    ∷ path_case (codes "Edit") (codes "Edit ") (codes "file_path") fields
    ∷ record {
      tool = codes "Bash";
      default = codes "Bash";
      show = λ c. codes "$ " ++ truncate (trim (first_line c)) 60;
      value = field (codes "command") fields;
    }
    ∷ cut_case (codes "Glob") (codes "Glob") (codes "Glob ") 50 (field (codes "pattern") fields)
    ∷ cut_case (codes "Task") (codes "Task") (codes "Task: ") 50
        (or_value (field (codes "description") fields) (field (codes "prompt") fields))
    ∷ cut_case (codes "WebFetch") (codes "WebFetch") (codes "Fetch ") 50
        (field (codes "url") fields)
    ∷ record {
      tool = codes "WebSearch";
      default = codes "WebSearch";
      show = λ q. codes "Search " ++ quoted (truncate q 45);
      value = field (codes "query") fields;
    }
    ∷ path_case (codes "NotebookEdit") (codes "Notebook ") (codes "notebook_path") fields
    ∷ cut_case (codes "question") (codes "Question") (codes "Question: ") 60 fields.first_question
    ∷ []

abbrev pub pick : Text → List Case → Option Text
pick tool_name [] = some tool_name
pick tool_name (c ∷ rest) =
    if tool_name == c.tool then shown_as c.default c.show c.value else pick tool_name rest

-- `getToolSummary`, for an input that is an object
unfoldable pub summary_of : Text → Fields → Option Text
summary_of tool_name fields =
    if tool_name == codes "Grep"
    then grep_summary (field (codes "pattern") fields) (field (codes "path") fields)
    else pick tool_name (cases fields)

abbrev pub summary_or_name : Text → Option Fields → Option Text
summary_or_name tool_name none = some tool_name
summary_or_name tool_name (some fields) = summary_of tool_name fields

-- `getToolSummary`
unfoldable pub get_tool_summary : (Text → Option Fields) → Text → ToolInput → Option Text
get_tool_summary parse tool_name input = summary_or_name tool_name (normalize_input parse input)
