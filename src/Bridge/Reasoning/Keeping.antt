-- ===== src/Bridge/Reasoning/Keeping.antt =====
-- No reasoning is lost: what is buffered stays buffered until it is posted, and is posted at the
-- latest when its session goes idle.
use soren.Base.{
  true, false, some, List, [], ◌∷◌, ◌++◌, Text, ◌≡◌, refl, ◌⊎◌, inl, inr, arith, ◌==◌, text_Eq,
  text_eq_iff, ltb, length, lookup, put, has, lookup-put, lookup-erase, Bool-cases, In, append-In,
  All,
}
use soren.Bridge.Settings.{not_empty}
use soren.Bridge.Delivery.{truncate}
use soren.Bridge.Reasoning.{
  Entry, Buffer, Event, part_updated, timer_fired, idle, max_entries, max_content, content_of,
  flush_entry, flush_listed, flush_session, evict, trim, restart_timer, update_part, step, run,
  key_of,
}

abbrev pub Posted : Entry → Buffer → Type 0
Posted e b = In (truncate e.text max_content) b.posted

-- `e` is buffered under `k`, or its content has been posted.
abbrev pub Kept : Text → Entry → Buffer → Type 0
Kept k e b = (lookup k b.entries ≡ some e) ⊎ Posted e b

module _ (k : Text) (e : Entry) (text : not_empty e.text ≡ true) where
  flush_entry-Posted : (j : Text) (b : Buffer) → Posted e b → Posted e (flush_entry j b)
  unfolding flush_entry
  flush_entry-Posted j b h = append-In _ b.posted (content_of (lookup j b.entries)) (inl h)

  flush_entry_posts : (b : Buffer) → Kept k e b → Posted e (flush_entry k b)
  flush_entry_posts b (inr h) = flush_entry-Posted k b h
  flush_entry_posts b (inl h) =
      unfold flush_entry in
      append-In _ b.posted (content_of (lookup k b.entries)) (inr (rw (h, text) (inl refl)))

  flush_entry_keeps : (j : Text) (b : Buffer) → Kept k e b → Kept k e (flush_entry j b)
  flush_entry_keeps j b (inr h) = inr (flush_entry-Posted j b h)
  flush_entry_keeps j b (inl h) = elim (Bool-cases (j == k)) [
    | inl same ↦
        let equal : j ≡ k = (text_eq_iff j k).0 same in inr (rw equal (flush_entry_posts b (inl h)))
    | inr other ↦ inl (unfold flush_entry in (rw (lookup-erase j k b.entries, other) h))
  ]

  flush_listed_keeps :
      (session : Text) (listed : List (Text × Entry)) (b : Buffer)
      → Kept k e b
      → Kept k e (flush_listed session listed b)
  unfolding flush_listed
  flush_listed_keeps session [] b h = h
  flush_listed_keeps session ((j, x) ∷ rest) b h = elim (Bool-cases (x.session == session)) [
    | inl s ↦ rw (s, flush_listed) (flush_listed_keeps session rest _ (flush_entry_keeps j b h))
    | inr s ↦ rw (s, flush_listed) (flush_listed_keeps session rest b h)
  ]

  flush_listed-Posted :
      (session : Text) (listed : List (Text × Entry)) (b : Buffer)
      → Posted e b
      → Posted e (flush_listed session listed b)
  unfolding flush_listed
  flush_listed-Posted session [] b h = h
  flush_listed-Posted session ((j, x) ∷ rest) b h = elim (Bool-cases (x.session == session)) [
    | inl s ↦ rw (s, flush_listed) (flush_listed-Posted session rest _ (flush_entry-Posted j b h))
    | inr s ↦ rw (s, flush_listed) (flush_listed-Posted session rest b h)
  ]

  flush_listed_posts :
      (session : Text) (listed : List (Text × Entry)) (b : Buffer)
      → lookup k listed ≡ some e
      → (e.session == session) ≡ true
      → Kept k e b
      → Posted e (flush_listed session listed b)
  unfolding flush_listed
  flush_listed_posts session [] b l s h = cc
  flush_listed_posts session ((j, x) ∷ rest) b l s h = elim (Bool-cases (j == k)) [
    | inl same ↦
        let equal : j ≡ k = (text_eq_iff j k).0 same in
        let entry : x ≡ e = ground arith in
        rw (entry, s, flush_listed, equal)
          (flush_listed-Posted session rest _ (flush_entry_posts b h))
    | inr other ↦
        let later : lookup k rest ≡ some e = ground arith in
        elim (Bool-cases (x.session == session)) [
          | inl t ↦
              rw (t, flush_listed)
                (flush_listed_posts session rest _ later s (flush_entry_keeps j b h))
          | inr t ↦ rw (t, flush_listed) (flush_listed_posts session rest b later s h)
        ]
  ]

  evict_keeps :
      (key : Text) (m : List (Text × Entry)) (b : Buffer) → Kept k e b → Kept k e (evict key m b)
  evict_keeps key [] b h = h
  evict_keeps key ((j, x) ∷ m) b h = elim (Bool-cases (j == key)) [
    | inl s ↦ rw s h
    | inr s ↦ rw s (flush_entry_keeps j b h)
  ]

  trim_keeps : (key : Text) (b : Buffer) → Kept k e b → Kept k e (trim key b)
  unfolding trim
  trim_keeps key b h = elim (Bool-cases (ltb max_entries (length b.entries))) [
    | inl s ↦ rw s (evict_keeps key b.entries b h)
    | inr s ↦ rw s h
  ]

  update_part_keeps :
      (key : Text) (x : Entry) (b : Buffer)
      → (key == k) ≡ false
      → Kept k e b
      → Kept k e (update_part key x b)
  unfolding update_part restart_timer
  update_part_keeps key x b other (inl h) =
      trim_keeps key (record b { entries = put key x b.entries })
        (inl (rw (lookup-put key k x b.entries, other) h))
  update_part_keeps key x b other (inr h) = trim_keeps key _ (inr h)

  update_part_stores : (b : Buffer) → Kept k e (update_part k e b)
  unfolding update_part restart_timer
  update_part_stores b =
      trim_keeps k (record b { entries = put k e b.entries })
        (inl (rw (lookup-put k k e b.entries, (text_eq_iff k k).1 refl) refl))

  -- An event that does not write the key.
  abbrev pub Spares : Event → Type 0
  Spares (part_updated message part session text) = (key_of message part == k) ≡ false
  Spares (timer_fired key) = Unit {0}
  Spares (idle session) = Unit {0}

  step_keeps : (b : Buffer) (ev : Event) → Spares ev → Kept k e b → Kept k e (step b ev)
  unfolding step flush_session
  step_keeps b (part_updated message part session t) other h = elim (Bool-cases (not_empty t)) [
    | inl s ↦ rw s (update_part_keeps (key_of message part) _ b other h)
    | inr s ↦ rw s h
  ]
  step_keeps b (timer_fired key) other h = elim (Bool-cases (has key b.timers)) [
    | inl s ↦ rw s (flush_entry_keeps key b h)
    | inr s ↦ rw s h
  ]
  step_keeps b (idle session) other h = elim (Bool-cases (not_empty session)) [
    | inl s ↦ rw s (flush_listed_keeps session b.entries b h)
    | inr s ↦ rw s h
  ]

  idle_posts :
      (b : Buffer) → not_empty e.session ≡ true → Kept k e b → Posted e (step b (idle e.session))
  unfolding step flush_session
  idle_posts b some_session (inl h) = rw some_session (
      flush_listed_posts e.session b.entries b h ((text_eq_iff e.session e.session).1 refl) (inl h))
  idle_posts b some_session (inr h) = rw some_session (flush_listed-Posted e.session b.entries b h)

  run_posts :
      (b : Buffer) (es : List Event)
      → All Spares es
      → not_empty e.session ≡ true
      → Kept k e b
      → Posted e (run b (es ++ idle e.session ∷ []))
  unfolding run
  run_posts b [] spared some_session h = idle_posts b some_session h
  run_posts b (ev ∷ es) (spare, spared) some_session h =
      run_posts (step b ev) es spared some_session (step_keeps b ev spare h)

-- A part of a thought with text, in a session with an id, is never lost: whatever events follow
-- that do not replace its text, its content (cut at 2000) has been posted once its session is
-- idle.
pub reasoning_delivered :
    (b : Buffer) (message part session text : Text) (es : List Event)
    (some_text : not_empty text ≡ true)
    → not_empty session ≡ true
    → All (Spares (key_of message part) (record { session = session; text = text }) some_text) es
    → In
        (truncate text max_content)
        (run b (part_updated message part session text ∷ (es ++ idle session ∷ []))).posted
unfolding run
reasoning_delivered b message part session text es some_text some_session spared =
    let k = key_of message part in
    let e : Entry = record { session = session; text = text } in
    run_posts k e some_text _ es spared some_session
      (unfold step in (rw some_text (update_part_stores k e some_text b)))
