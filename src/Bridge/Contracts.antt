-- ===== src/Bridge/Contracts.antt =====
-- The role contracts of .opencode/plugins/soren-bridge.ts: a file of JSON, read lazily and cached
-- by its modification time. The file system and JSON's parser are arguments.
pub mod Cache
use soren.Base.{
  ℕ, Bool, true, false, ◌&&◌, Option, none, some, String, Text, codes, ◌==◌, text_Eq, nat_eq,
  if◌then◌else◌,
}

mutual
  pub data Json : Type 0 where
    null : Json
    bool : Bool → Json
    num : ℕ → Json
    str : Text → Json
    arr : Items → Json
    obj : Fields → Json

  pub data Items : Type 0 where
    nil : Items
    cons : Json → Items → Items

  pub data Fields : Type 0 where
    end : Fields
    field : Text → Json → Fields → Fields

-- `o[key]` on a parsed object, whose keys are distinct.
unfoldable pub member : Text → Fields → Option Json
member key end = none
member key (field k v fs) = if k == key then some v else member key fs

-- What the file system says of `contracts.json`: `none` where a call throws.
pub record Disk : Type 0 where
  pub stat : Option ℕ
  pub content : Option Text

pub record Cached : Type 0 where
  pub mtime_ms : ℕ
  pub entries : Option Fields

-- `typeof parsed === "object" && !Array.isArray(parsed)`, and not null
abbrev pub as_object : Json → Option Fields
as_object (obj fs) = some fs
as_object null = none
as_object (bool b) = none
as_object (num n) = none
as_object (str s) = none
as_object (arr xs) = none

-- What is kept and returned for a text that the parser read, or that it threw on.
abbrev pub keep_parsed : ℕ → Option Json → Option Cached × Option Fields
keep_parsed mtime none = (none, none)
keep_parsed mtime (some j) =
    (some (record { mtime_ms = mtime; entries = as_object j }), as_object j)

module _ (parse : Text → Option Json) where
  abbrev pub read_text : ℕ → Option Text → Option Cached × Option Fields
  read_text mtime none = (none, none)
  read_text mtime (some t) = keep_parsed mtime (parse t)

  -- The part of `loadContracts` after a miss of the cache.
  unfoldable pub reload : Disk → ℕ → Option Cached × Option Fields
  reload disk mtime = read_text mtime disk.content

  unfoldable pub hit_or_reload : Option Cached → Disk → ℕ → Option Cached × Option Fields
  unfolding reload
  hit_or_reload none disk mtime = reload disk mtime
  hit_or_reload (some c) disk mtime =
      if nat_eq c.mtime_ms mtime then (some c, c.entries) else reload disk mtime

  abbrev pub load_at : Option Cached → Disk → Option ℕ → Option Cached × Option Fields
  load_at cache disk none = (none, none)
  load_at cache disk (some mtime) = hit_or_reload cache disk mtime

  -- `loadContracts`: the cache after the call, and its result.
  unfoldable pub load_contracts : Option Cached → Disk → Option Cached × Option Fields
  unfolding hit_or_reload
  load_contracts cache disk = load_at cache disk disk.stat

-- `c.protected_paths === "forbidden"`, where `c` is an object
abbrev pub is_text : Option Json → Text → Bool
is_text (some (str s)) t = s == t
is_text none t = false
is_text (some null) t = false
is_text (some (bool b)) t = false
is_text (some (num n)) t = false
is_text (some (arr xs)) t = false
is_text (some (obj fs)) t = false

abbrev pub entry_forbids : Option Json → Bool
entry_forbids (some (obj fs)) = is_text (member (codes "protected_paths") fs) (codes "forbidden")
entry_forbids none = false
entry_forbids (some null) = false
entry_forbids (some (bool b)) = false
entry_forbids (some (num n)) = false
entry_forbids (some (str s)) = false
entry_forbids (some (arr xs)) = false

abbrev pub entries_forbid : Option Fields → Text → Bool
entries_forbid none name = false
entries_forbid (some fs) name = entry_forbids (member name fs)

-- `contractForbidsProtected`: the cache after the call, and whether the agent's contract forbids.
unfoldable pub contract_forbids_protected :
    (Text → Option Json) → Option Cached → Disk → Text → Option Cached × Bool
unfolding load_contracts member
contract_forbids_protected parse cache disk name =
    let (cache', entries) = load_contracts parse cache disk in (cache', entries_forbid entries name)
