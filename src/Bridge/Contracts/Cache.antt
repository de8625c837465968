-- ===== src/Bridge/Contracts/Cache.antt =====
-- The cache of role contracts in .opencode/plugins/soren-bridge.ts is invisible, however the file
-- changes between the calls.
use soren.Base.{
  ℕ, List, [], ◌∷◌, map, ◌≡◌, ◌∙◌, sym, refl, Option, none, some, Text, All, All-imp, Bool-cases,
  inl, inr, nat_eq, nat_eq_iff, ap, ap₂,
}
use soren.Bridge.Contracts.{
  Json, Fields, Cached, Disk, as_object, keep_parsed, read_text, load_at, reload, hit_or_reload,
  load_contracts,
}

module _ (parse : Text → Option Json) where
  -- What a content is read as, if there is one: the object that it is the text of.
  abbrev pub parsed : Option Json → Option Fields
  parsed none = none
  parsed (some j) = as_object j

  abbrev pub object_of : Option Text → Option Fields
  object_of none = none
  object_of (some t) = parsed (parse t)

  abbrev pub at_time : Option ℕ → Option Text → Option Fields
  at_time none content = none
  at_time (some mtime) content = object_of content

  -- What is on a disk: nothing, if the file's time is not to be had.
  abbrev pub on_disk : Disk → Option Fields
  on_disk disk = at_time disk.stat disk.content

  -- The results of calls, each with the cache that the one before left, on one disk after another
  abbrev pub loads : Option Cached → List Disk → List (Option Fields)
  loads cache [] = []
  loads cache (disk ∷ disks) =
      (load_contracts parse cache disk).1 ∷ loads (load_contracts parse cache disk).0 disks

  -- Whenever the file has one time, it has one content.
  abbrev pub Dated : List Disk → Type 0
  Dated [] = Unit
  Dated (disk ∷ disks) =
      All (λ d. (d.stat ≡ disk.stat) → d.content ≡ disk.content) disks × Dated disks

  -- The cache holds what is on each disk of its time.
  abbrev Tells : Option Cached → List Disk → Type 0
  Tells none disks = Unit {0}
  Tells (some c) disks =
      All (λ d. (d.stat ≡ some c.mtime_ms) → object_of d.content ≡ c.entries) disks

  kept_lem :
      (mtime : ℕ) (o : Option Json) (disks : List Disk)
      → All (λ d. (d.stat ≡ some mtime) → object_of d.content ≡ parsed o) disks
      → ((keep_parsed mtime o).1 ≡ parsed o) × Tells (keep_parsed mtime o).0 disks
  kept_lem mtime none disks h = (refl, tt)
  kept_lem mtime (some j) disks h = (refl, h)

  read_lem :
      (mtime : ℕ) (content : Option Text) (disks : List Disk)
      → All (λ d. (d.stat ≡ some mtime) → object_of d.content ≡ object_of content) disks
      → ((read_text parse mtime content).1 ≡ object_of content)
        × Tells (read_text parse mtime content).0 disks
  read_lem mtime none disks h = (refl, tt)
  read_lem mtime (some t) disks h = kept_lem mtime (parse t) disks h

  -- A call gives what is on the disk, and leaves a cache that tells the truth of what comes.
  load_lem :
      (cache : Option Cached) (disk : Disk) (stat : Option ℕ) (disks : List Disk)
      → Tells cache (disk ∷ disks)
      → disk.stat ≡ stat
      → All (λ d. (d.stat ≡ stat) → d.content ≡ disk.content) disks
      → ((load_at parse cache disk stat).1 ≡ at_time stat disk.content)
        × Tells (load_at parse cache disk stat).0 disks
  unfolding hit_or_reload reload
  load_lem cache disk none disks h e same = (refl, tt)
  load_lem none disk (some mtime) disks h e same =
      read_lem mtime disk.content disks (All-imp _ _ disks (λ d f k. ap object_of (f k)) same)
  load_lem (some c) disk (some mtime) disks (h, hs) e same =
      elim (Bool-cases (nat_eq c.mtime_ms mtime)) [
        | inl hit ↦
            let now : disk.stat ≡ some c.mtime_ms =
              e ∙ ap some (sym ((nat_eq_iff c.mtime_ms mtime).0 hit)) in
            rw hit (sym (h now), hs)
        | inr miss ↦ rw miss (
            read_lem mtime disk.content disks
              (All-imp _ _ disks (λ d f k. ap object_of (f k)) same))
      ]

  loads_lem :
      (cache : Option Cached) (disks : List Disk)
      → Tells cache disks
      → Dated disks
      → loads cache disks ≡ map on_disk disks
  unfolding load_contracts
  loads_lem cache [] h d = refl
  loads_lem cache (disk ∷ disks) h (same, d) =
      let (now, next) = load_lem cache disk disk.stat disks h refl same in
      ap₂ (λ r rest. r ∷ rest) now (loads_lem (load_contracts parse cache disk).0 disks next d)

  -- Starting with no cache, and however the file comes, goes and changes between the calls, if it
  -- has one content whenever it has one time, every call gives the object that is on the disk at
  -- that moment, and nothing if there is no such object.
  pub load_contracts-on_disk :
      (disks : List Disk) → Dated disks → loads none disks ≡ map on_disk disks
  load_contracts-on_disk disks d = loads_lem none disks tt d
