-- ===== src/Chat/Collapse/Groups.antt =====
-- What collapsing does: it cuts the messages into maximal groups, and counts each of them once.
use soren.Base.{
  ℕ, zero, suc, ◌+◌, ◌≤◌, Bool, true, false, Option, none, some, List, [], ◌∷◌, ◌++◌, ◌≡◌, refl,
  or_else, length, ltb, take, drop, take-append-drop, length-drop, length-append, All, arith,
  Bool-cases, inl, inr, subst, Text, ◌⊎◌, ◌≢◌, ◌↔◌, text_eq_iff, ◌<◌, ap, ◌∙◌, text_Eq,
}
use soren.Chat.{Message}
use soren.Chat.Collapse.{
  CollapsedMessage, joins, system_label, run_length, entry_of, collapse_from, collapsed_messages,
  shown_count, last_of,
}

-- The next message, if any, does not pass.
abbrev pub Stops : (Message → Bool) → List Message → Type 0
Stops p [] = Unit
Stops p (m ∷ ms) = p m ≡ false

-- Two notifications of one label, or two other messages of one sender with one content
abbrev pub Alike : Message → Message → Type 0
Alike m n =
    ((label : Text) × (system_label m ≡ some label) × (system_label n ≡ some label))
    ⊎ ((system_label m ≡ none)
        × (system_label n ≡ none)
        × (n.from_agent ≡ m.from_agent)
        × (n.content ≡ m.content))

-- What is shown for a group of so many messages, whose first is `m`: of a notification always the
-- number, and of other messages only if there are several.
abbrev pub Counts : Message → ℕ → Option ℕ → Type 0
Counts m n count =
    ((system_label m ≢ none) × (count ≡ some n))
    ⊎ (((system_label m ≡ none) × (1 < n) × (count ≡ some n))
        ⊎ ((system_label m ≡ none) × (n ≡ 1) × (count ≡ none)))

-- The next message, if any, is not like `m`.
abbrev pub Unlike : Message → List Message → Type 0
Unlike m [] = Unit
Unlike m (n ∷ ns) = ¬ Alike m n

-- The messages fall into groups, in order. All of a group are like its first message, the message
-- after a group is not, and the entry of a group shows its last message and its size.
pub data Collapses : List Message → List CollapsedMessage → Type 0 where
  nothing : Collapses [] []
  group :
      (m l : Message) (more before rest : List Message) (e : CollapsedMessage)
      {entries : List CollapsedMessage}
      → All (Alike m) more
      → Unlike m rest
      → m ∷ more ≡ before ++ l ∷ []
      → e.message ≡ l
      → Counts m (suc (length more)) e.collapse_count
      → Collapses rest entries
      → Collapses (m ∷ (more ++ rest)) (e ∷ entries)

labels_agree :
    (m n : Message) (lm ln : Option Text)
    → system_label m ≡ lm
    → system_label n ≡ ln
    → (joins m lm n ≡ true) ↔ Alike m n
labels_agree m n (some s) (some t) e f = (
  λ h. inl (s, e, f ∙ ap some ((text_eq_iff t s).0 (rw f at h))),
  λ a. elim a [ inl (l, p, q) ↦ rw f ((text_eq_iff t s).1 cc) | inr (p, q, r, t) ↦ cc ],
)
labels_agree m n (some s) none e f =
    (λ h. cc, λ a. elim a [ inl (l, p, q) ↦ cc | inr (p, q, r, t) ↦ cc ])
labels_agree m n none (some t) e f =
    (λ h. absurd (ground (arith, h, f)), λ a. elim a [ inl (l, p, q) ↦ cc | inr (p, q, r, t) ↦ cc ])
labels_agree m n none none e f = (
  λ h. inr (
    e,
    f,
    ground (arith, h, text_eq_iff n.from_agent m.from_agent),
    ground (arith, h, text_eq_iff n.content m.content),
  ),
  λ a. elim a [
    | inl (l, p, q) ↦ cc
    | inr (p, q, r, t) ↦ rw f (
        ground (
          arith,
          (text_eq_iff n.from_agent m.from_agent).1 r,
          (text_eq_iff n.content m.content).1 t,
        ))
  ],
)

joins-Alike : (m n : Message) → (joins m (system_label m) n ≡ true) ↔ Alike m n
joins-Alike m n = labels_agree m n (system_label m) (system_label n) refl refl

run_length-Alike :
    (m : Message) (ms : List Message)
    → All (Alike m) (take (run_length (joins m (system_label m)) ms) ms)
unfolding run_length
run_length-Alike m [] = tt
run_length-Alike m (n ∷ ns) = elim (Bool-cases (joins m (system_label m) n)) [
  | inl e ↦ rw e ((joins-Alike m n).0 e, run_length-Alike m ns)
  | inr e ↦ rw e tt
]

run_length-Unlike :
    (m : Message) (ms : List Message)
    → Unlike m (drop (run_length (joins m (system_label m)) ms) ms)
unfolding run_length
run_length-Unlike m [] = tt
run_length-Unlike m (n ∷ ns) = elim (Bool-cases (joins m (system_label m) n)) [
  | inl e ↦ rw e (run_length-Unlike m ns)
  | inr e ↦ rw e (λ a. cc ((joins-Alike m n).1 a))
]

all_but_last :
    (m : Message) (more : List Message)
    → (before : List Message) × (m ∷ more ≡ before ++ last_of m more ∷ [])
all_but_last m [] = ([], refl)
all_but_last m (n ∷ ns) = let (before, e) = all_but_last n ns in (m ∷ before, ap (◌∷◌ m) e)

shown-Counts :
    (m : Message) (label : Option Text) (n : ℕ)
    → system_label m ≡ label
    → 1 ≤ n
    → Counts m n (shown_count label n)
shown-Counts m (some s) n e h = inl (λ x. cc, refl)
shown-Counts m none n e h = elim (Bool-cases (ltb 1 n)) [
  | inl f ↦ rw f (inr (inl (e, ground (arith, f), refl)))
  | inr f ↦ rw f (inr (inr (e, ground (arith, f, h), refl)))
]

collapse_from-Collapses :
    (left : ℕ) (ms : List Message) → length ms ≤ left → Collapses ms (collapse_from left ms)
unfolding collapse_from
collapse_from-Collapses zero [] h = nothing
collapse_from-Collapses zero (m ∷ ms) h = absurd (omega arith)
collapse_from-Collapses (suc left) [] h = nothing
collapse_from-Collapses (suc left) (m ∷ ms) h =
    let count = run_length (joins m (system_label m)) ms in
    let more = take count ms in
    let rest = drop count ms in
    let (before, e) = all_but_last m more in
    subst (λ l. Collapses (m ∷ l) (entry_of m more ∷ collapse_from left rest))
      (take-append-drop count ms)
      (group m (last_of m more) more before rest (entry_of m more) (run_length-Alike m ms)
        (run_length-Unlike m ms) e refl
        (shown-Counts m (system_label m) (suc (length more)) refl (omega arith))
        (collapse_from-Collapses left rest (omega (arith, length-drop count ms))))

-- The number of messages that the entries stand for.
abbrev pub sum_counts : List CollapsedMessage → ℕ
sum_counts [] = 0
sum_counts (e ∷ es) = or_else e.collapse_count 1 + sum_counts es

Counts_lem : (m : Message) (n : ℕ) (count : Option ℕ) → Counts m n count → or_else count 1 ≡ n
Counts_lem m n count (inl (a, e)) = rw e refl
Counts_lem m n count (inr (inl (a, b, e))) = rw e refl
Counts_lem m n count (inr (inr (a, b, e))) = rw (e, b) refl

Collapses-sum :
    {ms : List Message} {es : List CollapsedMessage} → Collapses ms es → sum_counts es ≡ length ms
Collapses-sum nothing = refl
Collapses-sum (group m l more before rest e {entries} a s f g k c) = omega (
  arith,
  Counts_lem m (suc (length more)) e.collapse_count k,
  Collapses-sum c,
  length-append more rest,
)

-- Collapsing cuts any list of messages into maximal groups of notifications with one label, or of
-- other messages with one sender and content, shows each by its last message, with the size of a
-- group of notifications or of several messages, and the sizes add up to the number of messages:
-- none is lost and none counted twice.
pub collapsed_messages_lem :
    (ms : List Message)
    → Collapses ms (collapsed_messages ms) × (sum_counts (collapsed_messages ms) ≡ length ms)
unfolding collapsed_messages
collapsed_messages_lem ms =
    let c = collapse_from-Collapses (length ms) ms (omega arith) in (c, Collapses-sum c)
