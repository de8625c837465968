-- ===== src/Bridge/Turn/Report.antt =====
-- What the Stop event reports: the last text of the assistant, and the tool calls since the user
-- last spoke, against descriptions of both that read the messages as plain lists.
use soren.Base.{
  ℕ, ◌+◌, Bool, true, false, ◌&&◌, ◌||◌, some, List, [], ◌∷◌, ◌++◌, Text, ◌≡◌, refl, ◌⊎◌, inl, inr,
  text_Eq, if◌then◌else◌, or_else, length, any, arith, Bool-cases, ◌∙◌, sym, ap,
}
use soren.Bridge.Regex.{test}
use soren.Bridge.Settings.{is_empty, not_empty}
use soren.Bridge.Turn.{
  Part, Message, Scan, start_scan, hygiene, is_text, is_tool, is_assistant, is_user, content_of,
  note_response, note_user, note_tool, scan_parts, scan_message, scan, likely_had_output,
  final_response,
}

-- The texts of the assistant that are not empty, in order.
abbrev pub texts_of : Bool → List Part → List Text
texts_of assistant [] = []
texts_of assistant (p ∷ ps) =
    if assistant && is_text p && not_empty (content_of p)
    then content_of p ∷ texts_of assistant ps
    else texts_of assistant ps

abbrev pub texts : List Message → List Text
texts [] = []
texts (m ∷ ms) = texts_of (is_assistant m) m.parts ++ texts ms

abbrev pub last_or : Text → List Text → Text
last_or d [] = d
last_or d (t ∷ ts) = last_or t ts

last_or-append : (d : Text) (xs ys : List Text) → last_or d (xs ++ ys) ≡ last_or (last_or d xs) ys
last_or-append d [] ys = refl
last_or-append d (x ∷ xs) ys = last_or-append x xs ys

note-response :
    (assistant user : Bool) (p : Part) (s : Scan)
    → (note_tool p (note_user user p (note_response assistant p s))).response
      ≡ (if assistant && is_text p && not_empty (content_of p) then content_of p else s.response)
unfolding note_tool note_user note_response
note-response assistant user p s = ground arith

scan_parts-response :
    (m : Message) (ps : List Part) (s : Scan)
    → (scan_parts m ps s).response ≡ last_or s.response (texts_of (is_assistant m) ps)
unfolding scan_parts
scan_parts-response m [] s = refl
scan_parts-response m (p ∷ ps) s =
    rw (scan_parts-response m ps _, note-response (is_assistant m) (is_user m) p s) (ground arith)

scan_message-response :
    (m : Message) (s : Scan)
    → (scan_message m s).response ≡ last_or s.response (texts_of (is_assistant m) m.parts)
unfolding scan_message
scan_message-response m s = elim (Bool-cases (is_assistant m)) [
  | inl a ↦ rw a (rw a at (scan_parts-response m m.parts (record s { last_assistant = some m })))
  | inr a ↦ rw a (rw a at (scan_parts-response m m.parts s))
]

scan-response :
    (ms : List Message) (s : Scan) → (scan ms s).response ≡ last_or s.response (texts ms)
unfolding scan
scan-response [] s = refl
scan-response (m ∷ ms) s =
    rw
      (
        scan-response ms (scan_message m s),
        scan_message-response m s,
        last_or-append s.response (texts_of (is_assistant m) m.parts) (texts ms),
      )
      refl

-- What counts for the gate: the user spoke, or a tool ran a command.
pub data Item : Type 0 where
  said : Item
  used : Text → Item

abbrev pub items_of : Bool → List Part → List Item
items_of user [] = []
items_of user (p ∷ ps) =
    (if user && is_text p then said ∷ [] else [])
    ++ ((if is_tool p then used (or_else p.command []) ∷ [] else []) ++ items_of user ps)

abbrev pub items : List Message → List Item
items [] = []
items (m ∷ ms) = items_of (is_user m) m.parts ++ items ms

abbrev pub has_said : List Item → Bool
has_said [] = false
has_said (said ∷ xs) = true
has_said (used c ∷ xs) = has_said xs

-- The commands that follow the last word of the user.
abbrev pub since_user : List Item → List Text
since_user [] = []
since_user (said ∷ xs) = since_user xs
since_user (used c ∷ xs) = if has_said xs then since_user xs else c ∷ since_user xs

-- The same by one pass from the left, with what went before.
count : List Item → ℕ × Bool → ℕ × Bool
count [] r = r
count (said ∷ xs) r = count xs (0, false)
count (used c ∷ xs) (n, h) = count xs (n + 1, h || test hygiene c)

count-append : (xs ys : List Item) (r : ℕ × Bool) → count (xs ++ ys) r ≡ count ys (count xs r)
unfolding count
count-append [] ys r = refl
count-append (said ∷ xs) ys r = count-append xs ys (0, false)
count-append (used c ∷ xs) ys (n, h) = count-append xs ys (n + 1, h || test hygiene c)

count_said : (xs : List Item) (r : ℕ × Bool) → has_said xs ≡ true → count xs r ≡ count xs (0, false)
unfolding count
count_said [] r h = cc
count_said (said ∷ xs) r h = refl
count_said (used c ∷ xs) (n, b) h =
    count_said xs (n + 1, b || test hygiene c) h ∙ sym (count_said xs (1, test hygiene c) h)

count-since_user :
    (xs : List Item) (n : ℕ) (h : Bool)
    → has_said xs ≡ false
    → count xs (n, h) ≡ (n + length (since_user xs), h || any (test hygiene) (since_user xs))
unfolding count
count-since_user [] n h e = ground arith
count-since_user (said ∷ xs) n h e = cc
count-since_user (used c ∷ xs) n h e =
    ground (arith, count-since_user xs (n + 1) (h || test hygiene c))

count_start :
    (xs : List Item)
    → count xs (0, false) ≡ (length (since_user xs), any (test hygiene) (since_user xs))
unfolding count
count_start [] = refl
count_start (said ∷ xs) = count_start xs
count_start (used c ∷ xs) = elim (Bool-cases (has_said xs)) [
  | inl e ↦ rw e (count_said xs (1, test hygiene c) e ∙ count_start xs)
  | inr e ↦ rw e (count-since_user xs 1 (test hygiene c) e ∙ ground arith)
]

abbrev counts : Scan → ℕ × Bool
counts s = (s.tool_calls, s.hygiene_seen)

note-counts :
    (m : Message) (p : Part) (s : Scan)
    → counts (note_tool p (note_user (is_user m) p (note_response (is_assistant m) p s)))
      ≡ count (items_of (is_user m) (p ∷ [])) (counts s)
unfolding note_tool note_user note_response count
note-counts m p s = ground arith

items_of-cons :
    (user : Bool) (p : Part) (ps : List Part)
    → items_of user (p ∷ ps) ≡ items_of user (p ∷ []) ++ items_of user ps
items_of-cons user p ps = ground arith

scan_parts-counts :
    (m : Message) (ps : List Part) (s : Scan)
    → counts (scan_parts m ps s) ≡ count (items_of (is_user m) ps) (counts s)
unfolding scan_parts
scan_parts-counts m [] s = unfold count in refl
scan_parts-counts m (p ∷ ps) s =
    rw
      (
        items_of-cons (is_user m) p ps,
        count-append (items_of (is_user m) (p ∷ [])) (items_of (is_user m) ps) (counts s),
        ← note-counts m p s,
      )
      (scan_parts-counts m ps _)

scan_message-counts :
    (m : Message) (s : Scan)
    → counts (scan_message m s) ≡ count (items_of (is_user m) m.parts) (counts s)
unfolding scan_message
scan_message-counts m s = elim (Bool-cases (is_assistant m)) [
  | inl a ↦ rw a (scan_parts-counts m m.parts (record s { last_assistant = some m }))
  | inr a ↦ rw a (scan_parts-counts m m.parts s)
]

scan-counts : (ms : List Message) (s : Scan) → counts (scan ms s) ≡ count (items ms) (counts s)
unfolding scan
scan-counts [] s = unfold count in refl
scan-counts (m ∷ ms) s =
    rw
      (
        scan-counts ms (scan_message m s),
        scan_message-counts m s,
        count-append (items_of (is_user m) m.parts) (items ms) (counts s),
      )
      refl

-- One pass over the messages finds the last text of the assistant, the number of tools that ran
-- since the user last spoke, and whether one of their commands was a commit, a journal entry or a
-- report.
pub scan_lem :
    (ms : List Message)
    → ((scan ms start_scan).response ≡ last_or [] (texts ms))
      × ((scan ms start_scan).tool_calls ≡ length (since_user (items ms)))
      × ((scan ms start_scan).hygiene_seen ≡ any (test hygiene) (since_user (items ms)))
scan_lem ms =
    let e = scan-counts ms start_scan ∙ count_start (items ms) in
    (scan-response ms start_scan, ap (λ r. r.0) e, ap (λ r. r.1) e)

-- A turn with evidence of output never reports an empty response, whatever the retries find; and a
-- response that the first fetch shows is the one that is reported.
pub final_response_lem :
    (fetched : ℕ → List Message) (s : Scan)
    → ((likely_had_output s ≡ false) ⊎ (not_empty (final_response fetched s) ≡ true))
      × ((is_empty s.response ≡ true) ⊎ (final_response fetched s ≡ s.response))
unfolding final_response
final_response_lem fetched s = ground arith
