-- ===== src/Navigation.antt =====
-- src/frontend/src/lib/navigation.ts: the paths of the client's routes. `encodeURIComponent` and
-- `decodeURIComponent` are arguments that fail where JavaScript's throw, and so is the router's
-- `useMatch` for the pattern of an agent's route: the parameter that it finds in a path.
pub mod Paths
mod Tests
use soren.Base.{Option, none, some, List, [], ◌∷◌, ◌++◌, Text, codes}
use soren.Summaries.{split, join_with}

-- What is asked of the browser and of the router.
pub record Urls : Type 0 where
  pub encode_uri_component : Text → Option Text
  pub decode_uri_component : Text → Option Text
  pub match_agent : Text → Option Text

abbrev pub behind : Text → Option Text → Option Text
behind prefix none = none
behind prefix (some s) = some (prefix ++ s)

abbrev pub cons_if : Option Text → Option (List Text) → Option (List Text)
cons_if none parts = none
cons_if (some s) none = none
cons_if (some s) (some parts) = some (s ∷ parts)

-- `parts.map(f)` for an `f` that may throw
abbrev pub map_each : (Text → Option Text) → List Text → Option (List Text)
map_each f [] = some []
map_each f (part ∷ parts) = cons_if (f part) (map_each f parts)

abbrev pub joined : Option (List Text) → Option Text
joined none = none
joined (some parts) = some (join_with b'/' parts)

abbrev pub route_overview : Text
route_overview = codes "/"

abbrev pub route_chat : Text
route_chat = codes "/chat"

abbrev pub route_terminal : Text
route_terminal = codes "/terminal"

abbrev pub route_tasks : Text
route_tasks = codes "/tasks"

abbrev pub route_reliability : Text
route_reliability = codes "/reliability"

unfoldable pub route_agent : Urls → Text → Option Text
route_agent urls agent_id = behind (codes "/agents/") (urls.encode_uri_component agent_id)

unfoldable pub route_archived : Urls → Text → Option Text
route_archived urls archive_id = behind (codes "/archived/") (urls.encode_uri_component archive_id)

-- `path.split('/').map(encodeURIComponent).join('/')`
abbrev pub encoded_file : Urls → Text → Option Text
encoded_file urls path = joined (map_each urls.encode_uri_component (split b'/' path))

unfoldable pub route_file : Urls → Text → Option Text
route_file urls path = behind (codes "/files/") (encoded_file urls path)

-- `decodeFileSplat`
unfoldable pub decode_file_splat : Urls → Text → Option Text
decode_file_splat urls splat = joined (map_each urls.decode_uri_component (split b'/' splat))

abbrev pub found_agent : Option Text → Option (Option Text)
found_agent none = none
found_agent (some id) = some (some id)

abbrev pub agent_of_match : Urls → Option Text → Option (Option Text)
agent_of_match urls none = some none
agent_of_match urls (some []) = some none
agent_of_match urls (some (c ∷ s)) = found_agent (urls.decode_uri_component (c ∷ s))

-- `useRouteAgentId`: the agent that a path selects, if any, unless the decoding throws
unfoldable pub route_agent_id : Urls → Text → Option (Option Text)
route_agent_id urls path = agent_of_match urls (urls.match_agent path)
