-- ===== src/Summaries/Details.antt =====
-- `getToolLabel`, `getToolInputDetails` and `getToolOutputSummary` of src/frontend/src/lib/toolSummary.ts.
use soren.Base.{
  ℕ, Option, none, some, List, [], ◌∷◌, ◌++◌, Text, codes, if◌then◌else◌, length, lookup, text_Eq,
  ◌==◌, or_else, ltb,
}
use soren.Summaries.{
  Value, text, other, Fields, ToolInput, normalize_input, is_truthy, truncate, field,
}

abbrev pub labels : List (Text × Text)
labels =
    (codes "Read", codes "Reading")
    ∷ (codes "Write", codes "Writing")
    ∷ (codes "Edit", codes "Editing")
    ∷ (codes "Bash", codes "Running command")
    ∷ (codes "Glob", codes "Finding files")
    ∷ (codes "Grep", codes "Searching code")
    ∷ (codes "Task", codes "Running task")
    ∷ (codes "WebFetch", codes "Fetching web")
    ∷ (codes "WebSearch", codes "Searching web")
    ∷ (codes "AskUserQuestion", codes "Waiting for input")
    ∷ (codes "question", codes "Waiting for input")
    ∷ (codes "NotebookEdit", codes "Editing notebook")
    ∷ []

-- `getToolLabel`
unfoldable pub get_tool_label : Text → Text
get_tool_label tool_name = or_else (lookup tool_name labels) tool_name

-- `String(value)`
abbrev pub string_of : Option Value → Text
string_of none = []
string_of (some (text s)) = s
string_of (some (other truth shown)) = shown

-- One detail: its field, its label, and how its text is shown
pub record Detail : Type 0 where
  pub name : Text
  pub label : Text
  pub show : Text → Text

abbrev pub whole : Text → Text → Detail
whole name label = record { name = name; label = label; show = λ s. s }

abbrev pub cut : Text → Text → ℕ → Detail
cut name label n = record { name = name; label = label; show = λ s. truncate s n }

-- The cases of `getToolInputDetails`
unfoldable pub details_for : Text → List Detail
details_for tool_name =
    if tool_name == codes "Read"
    then whole (codes "file_path") (codes "Path")
      ∷ record { name = codes "offset"; label = codes "Offset"; show = λ s. codes "Line " ++ s }
      ∷ record { name = codes "limit"; label = codes "Limit"; show = λ s. s ++ codes " lines" }
      ∷ []
    else if tool_name == codes "Write"
    then whole (codes "file_path") (codes "Path") ∷ []
    else if tool_name == codes "Edit"
    then whole (codes "file_path") (codes "Path")
      ∷ cut (codes "old_string") (codes "Replace") 100
      ∷ cut (codes "new_string") (codes "With") 100
      ∷ []
    else if tool_name == codes "Bash"
    then cut (codes "command") (codes "Command") 200
      ∷ whole (codes "description") (codes "Description")
      ∷ []
    else if tool_name == codes "Grep"
    then whole (codes "pattern") (codes "Pattern")
      ∷ whole (codes "path") (codes "Path")
      ∷ whole (codes "glob") (codes "Glob")
      ∷ []
    else if tool_name == codes "Glob"
    then whole (codes "pattern") (codes "Pattern") ∷ whole (codes "path") (codes "Path") ∷ []
    else if tool_name == codes "Task"
    then whole (codes "description") (codes "Description")
      ∷ cut (codes "prompt") (codes "Prompt") 200
      ∷ []
    else if tool_name == codes "WebFetch"
    then whole (codes "url") (codes "URL") ∷ []
    else if tool_name == codes "WebSearch"
    then whole (codes "query") (codes "Query") ∷ []
    else []

-- The details whose fields are truthy
abbrev pub show_details : List Detail → Fields → List (Text × Text)
show_details [] fields = []
show_details (d ∷ details) fields =
    let rest = show_details details fields in
    if is_truthy (field d.name fields)
    then (d.label, d.show (string_of (field d.name fields))) ∷ rest
    else rest

abbrev pub details_or_none : List Detail → Option Fields → List (Text × Text)
details_or_none details none = []
details_or_none details (some fields) = show_details details fields

-- `getToolInputDetails`
unfoldable pub get_tool_input_details :
    (Text → Option Fields) → Text → ToolInput → List (Text × Text)
get_tool_input_details parse tool_name input =
    details_or_none (details_for tool_name) (normalize_input parse input)

-- `toolOutput`: what is falsy, a text, or a value with its fields `content` and `output` and its JSON
pub data ToolOutput : Type 0 where
  nothing : ToolOutput
  output_text : Text → ToolOutput
  output_value : Option Value → Option Value → Text → ToolOutput

abbrev pub text_of : Option Value → Option Text
text_of none = none
text_of (some (text [])) = none
text_of (some (text (c ∷ s))) = some (c ∷ s)
text_of (some (other truth shown)) = none

abbrev pub first_text : Option Text → Option Text → Text → Option Text
first_text (some s) output json = some (truncate s 300)
first_text none (some s) json = some (truncate s 300)
first_text none none json = if ltb 5 (length json) then some (truncate json 300) else none

-- `getToolOutputSummary`
unfoldable pub get_tool_output_summary : ToolOutput → Option Text
get_tool_output_summary nothing = none
get_tool_output_summary (output_text s) = if ltb 0 (length s) then some (truncate s 300) else none
get_tool_output_summary (output_value content output json) =
    first_text (text_of content) (text_of output) json
