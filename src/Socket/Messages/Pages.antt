-- ===== src/Socket/Messages/Pages.antt =====
-- The first cached page under new messages: no message is in it twice.
use soren.Base.{
  Option, none, some, List, [], ◌∷◌, map, Text, ◌≡◌, refl, inl, inr, ◌==◌, text_Eq, text_eq_iff,
  if◌then◌else◌, any, has, Distinct, arith, Bool-cases, ◌+◌,
}
use soren.Chat.{Message, Page, insert_message}

abbrev pub message_ids : List Message → List Text
message_ids ms = map (λ m. m.id) ms

-- No message is twice in the first page.
abbrev pub PagesOk : Option (List Page) → Type 0
PagesOk none = Unit
PagesOk (some []) = Unit
PagesOk (some (first ∷ rest)) = Distinct (message_ids first.messages)

any_id : (k : Text) (ms : List Message) → any (λ m. m.id == k) ms ≡ has k (message_ids ms)
any_id k [] = refl
any_id k (m ∷ ms) = ground (arith, any_id k ms)

pub insert_message-PagesOk :
    (m : Message) (pages : Option (List Page)) → PagesOk pages → PagesOk (insert_message m pages)
unfolding insert_message
insert_message-PagesOk m none h = tt
insert_message-PagesOk m (some []) h = tt
insert_message-PagesOk m (some (first ∷ rest)) h =
    elim (Bool-cases (any (λ x. x.id == m.id) first.messages)) [
      | inl e ↦ rw e h
      | inr e ↦ rw e (rw (any_id m.id) at e, h)
    ]

-- Delivering a message a second time changes no page and no total, and the first delivery adds it
-- to the first page exactly if it is not there yet.
pub insert_message_lem :
    (m : Message) (first : Page) (rest : List Page)
    → (insert_message m (insert_message m (some (first ∷ rest)))
        ≡ insert_message m (some (first ∷ rest)))
      × (insert_message m (some (first ∷ rest))
          ≡ some (
              (if has m.id (message_ids first.messages)
                then first
                else record { messages = m ∷ first.messages; total = first.total + 1 })
              ∷ rest))
unfolding insert_message
insert_message_lem m first rest = elim (Bool-cases (any (λ x. x.id == m.id) first.messages)) [
  | inl e ↦ (rw (e, e) refl, rw (e, rw (any_id m.id) at e) refl)
  | inr e ↦ (rw (e, (text_eq_iff m.id m.id).1 refl) refl, rw (e, rw (any_id m.id) at e) refl)
]
