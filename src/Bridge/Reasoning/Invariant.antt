-- ===== src/Bridge/Reasoning/Invariant.antt =====
-- The buffer keeps one entry for each key, a timer for each entry and no other, and its bound.
use soren.Base.{
  suc, ◌≤◌, true, false, not, ◌&&◌, List, [], ◌∷◌, Text, ◌≡◌, refl, arith, ◌==◌, text_Eq,
  text_eq_iff, length, put, keys, has, Distinct, has-add, has-keys-put, has-keys-erase,
  put-Distinct, erase-Distinct, length-put, length-erase-le, Bool-cases, inl, inr, ◌⊎◌, ap, dec_lt,
}
use soren.Bridge.Settings.{not_empty}
use soren.Bridge.Reasoning.{
  Entry, Buffer, Event, part_updated, timer_fired, idle, max_entries, empty, drop_timer,
  flush_entry, flush_listed, flush_session, trim, restart_timer, update_part, step, run, key_of,
}

has-drop_timer :
    (k j : Text) (ts : List Text) → has j (drop_timer k ts) ≡ (not (k == j) && has j ts)
has-drop_timer k j [] = ground arith
has-drop_timer k j (t ∷ ts) =
    ground (arith, text_eq_iff t k, text_eq_iff t j, text_eq_iff k j, has-drop_timer k j ts)

pub record IsValid (b : Buffer) : Type 0 where
  -- one entry for each key
  pub distinct : Distinct (keys b.entries)
  -- a pending timer for each entry, and for nothing else
  pub timed : (k : Text) → has k b.timers ≡ has k (keys b.entries)
  pub bounded : length b.entries ≤ max_entries

flush_entry-IsValid : (key : Text) (b : Buffer) → IsValid b → IsValid (flush_entry key b)
unfolding flush_entry
flush_entry-IsValid key b v = record {
  distinct = erase-Distinct key b.entries v.distinct;
  timed = λ k. rw (has-drop_timer key k b.timers, has-keys-erase key k b.entries, v.timed k) refl;
  bounded = omega (arith, length-erase-le key b.entries, v.bounded);
}

flush_listed-IsValid :
    (session : Text) (listed : List (Text × Entry)) (b : Buffer)
    → IsValid b
    → IsValid (flush_listed session listed b)
unfolding flush_listed
flush_listed-IsValid session [] b v = v
flush_listed-IsValid session ((key, e) ∷ rest) b v = elim (Bool-cases (e.session == session)) [
  | inl h ↦ rw h (flush_listed-IsValid session rest _ (flush_entry-IsValid key b v))
  | inr h ↦ rw h (flush_listed-IsValid session rest b v)
]

-- The state between the write of `key` and the restart of its timer: the timer of `key` is open.
record IsOpen (key : Text) (b : Buffer) : Type 0 where
  distinct : Distinct (keys b.entries)
  held : has key (keys b.entries) ≡ true
  timed : (k : Text) → (key == k) ≡ false → has k b.timers ≡ has k (keys b.entries)

put-IsOpen :
    (key : Text) (e : Entry) (b : Buffer)
    → IsValid b
    → IsOpen key (record b { entries = put key e b.entries })
put-IsOpen key e b v = record {
  distinct = put-Distinct key e b.entries v.distinct;
  held = ground (arith, has-keys-put key key e b.entries, text_eq_iff key key);
  timed = λ k other. ground (arith, has-keys-put key k e b.entries, v.timed k);
}

flush-IsOpen :
    (key oldest : Text) (b : Buffer)
    → (oldest == key) ≡ false
    → IsOpen key b
    → IsOpen key (flush_entry oldest b)
unfolding flush_entry
flush-IsOpen key oldest b other o = record {
  distinct = erase-Distinct oldest b.entries o.distinct;
  held = ground (arith, has-keys-erase oldest key b.entries, o.held);
  timed = λ k h.
      rw (has-drop_timer oldest k b.timers, has-keys-erase oldest k b.entries, o.timed k h) refl;
}

-- At most one entry is too many, and then the oldest is another one.
IsCapped : Text → List (Text × Entry) → Type 0
IsCapped key [] = Unit {0}
IsCapped key ((k, e) ∷ rest) =
    (suc (length rest) ≤ max_entries)
    ⊎ ((suc (length rest) ≤ suc max_entries) × ((k == key) ≡ false))

put-IsCapped :
    (key : Text) (e : Entry) (m : List (Text × Entry))
    → length m ≤ max_entries
    → IsCapped key (put key e m)
unfolding IsCapped
put-IsCapped key e [] h = inl (omega arith)
put-IsCapped key e ((k, x) ∷ m) h = ground (arith, length-put key e m)

trim_small : (key : Text) (b : Buffer) → length b.entries ≤ max_entries → trim key b ≡ b
unfolding trim
trim_small key b h = ground arith

trim_large :
    (key k : Text) (x : Entry) (m : List (Text × Entry)) (b : Buffer)
    → b.entries ≡ (k, x) ∷ m
    → max_entries ≤ length m
    → (k == key) ≡ false
    → trim key b ≡ flush_entry k b
unfolding trim
trim_large key k x m b e h other = ground arith

flush_first :
    (k : Text) (x : Entry) (m : List (Text × Entry)) (b : Buffer)
    → b.entries ≡ (k, x) ∷ m
    → length (flush_entry k b).entries ≤ length m
unfolding flush_entry
flush_first k x m b e = rw e (ground (arith, length-erase-le k m, text_eq_iff k k))

trim-IsOpen :
    (key : Text) (m : List (Text × Entry)) (b : Buffer)
    → b.entries ≡ m
    → IsCapped key m
    → IsOpen key b
    → IsOpen key (trim key b) × (length (trim key b).entries ≤ max_entries)
unfolding IsCapped
trim-IsOpen key [] b e c o =
    let small : length b.entries ≤ max_entries = omega (arith, ap length e) in
    rw (trim_small key b small) (o, small)
trim-IsOpen key ((k, x) ∷ m) b e c o = elim (dec_lt max_entries (length b.entries)) [
  | no h ↦ rw (trim_small key b (omega arith)) (o, omega arith)
  | yes h ↦
      let size : length b.entries ≡ suc (length m) = ap length e in
      elim c [
        | inl small ↦ absurd (omega arith)
        | inr (most, other) ↦
            rw (trim_large key k x m b e (omega arith) other)
              (flush-IsOpen key k b other o, omega (arith, flush_first k x m b e))
      ]
]

restart-IsValid :
    (key : Text) (b : Buffer)
    → IsOpen key b
    → length b.entries ≤ max_entries
    → IsValid (restart_timer key b)
unfolding restart_timer
restart-IsValid key b o h = record {
  distinct = o.distinct;
  timed = λ k. elim (Bool-cases (key == k)) [
    | inl same ↦
        rw (has-add key k (drop_timer key b.timers)) (ground (arith, o.held, text_eq_iff key k))
    | inr other ↦
        rw (has-add key k (drop_timer key b.timers), has-drop_timer key k b.timers)
          (ground (arith, o.timed k other))
  ];
  bounded = h;
}

update_part-IsValid :
    (key : Text) (e : Entry) (b : Buffer) → IsValid b → IsValid (update_part key e b)
unfolding update_part
update_part-IsValid key e b v =
    let (o, h) =
      trim-IsOpen key (put key e b.entries) (record b { entries = put key e b.entries }) refl
        (put-IsCapped key e b.entries v.bounded) (put-IsOpen key e b v) in
    restart-IsValid key _ o h

-- Every event keeps the reasoning buffer well formed: one entry for each key, a pending timer for
-- each entry and no other, and at most 300 entries.
pub step-IsValid : (b : Buffer) (e : Event) → IsValid b → IsValid (step b e)
unfolding step flush_session
step-IsValid b (part_updated message part session text) v = elim (Bool-cases (not_empty text)) [
  | inl h ↦ rw h (update_part-IsValid (key_of message part) _ b v)
  | inr h ↦ rw h v
]
step-IsValid b (timer_fired key) v = elim (Bool-cases (has key b.timers)) [
  | inl h ↦ rw h (flush_entry-IsValid key b v)
  | inr h ↦ rw h v
]
step-IsValid b (idle session) v = elim (Bool-cases (not_empty session)) [
  | inl h ↦ rw h (flush_listed-IsValid session b.entries b v)
  | inr h ↦ rw h v
]

pub empty-IsValid : IsValid empty
empty-IsValid = record { distinct = tt; timed = λ k. refl; bounded = omega arith }

pub run-IsValid : (b : Buffer) (es : List Event) → IsValid b → IsValid (run b es)
unfolding run
run-IsValid b [] v = v
run-IsValid b (e ∷ es) v = run-IsValid (step b e) es (step-IsValid b e v)
