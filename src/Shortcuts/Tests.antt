-- ===== src/Shortcuts/Tests.antt =====
-- The theorem on src/frontend/src/hooks/useKeyboardShortcuts.ts with three agents.
use soren.Base.{
  ℕ, zero, suc, Bool, true, false, none, some, List, [], ◌∷◌, Text, codes, drop, or_else, subst, ap,
  ◌≡◌, refl, arith,
}
use soren.Input.Keys.{get_elem?}
use soren.Navigation.{Urls, route_agent, route_agent_id}
use soren.Shortcuts.{Shortcuts, is_typing_target}
use soren.Shortcuts.Cycling.{walk, walk_lem, IsAddressable}

-- Ids of letters are encoded as they are.
abbrev urls : Urls
urls = record {
  encode_uri_component = λ s. some s;
  decode_uri_component = λ s. some s;
  match_agent = λ s. some (drop 8 s);
}

abbrev three : List Text
three = codes "sup" ∷ codes "eng" ∷ codes "qa" ∷ []

addressable : (i : ℕ) (id : Text) → get_elem? i three ≡ some id → IsAddressable urls id
unfolding route_agent route_agent_id
addressable zero id h =
    subst (IsAddressable urls) (ap (λ o. or_else o []) h)
      (omega arith, codes "/agents/sup", refl, refl)
addressable (suc zero) id h =
    subst (IsAddressable urls) (ap (λ o. or_else o []) h)
      (omega arith, codes "/agents/eng", refl, refl)
addressable (suc (suc zero)) id h =
    subst (IsAddressable urls) (ap (λ o. or_else o []) h)
      (omega arith, codes "/agents/qa", refl, refl)
addressable (suc (suc (suc i))) id h = ground (arith, h)

abbrev idle : Shortcuts
idle = record { help_open = false; pending_prefix = none }

abbrev presses : List (Bool × ℕ)
presses = (false, 1000) ∷ (false, 1200) ∷ (true, 1300) ∷ (true, 2600) ∷ (true, 9000) ∷ []

walk_lem_example :
    (next : Text) × (get_elem? 1 three ≡ some next)
    × (route_agent_id urls (walk urls three none presses idle (codes "/agents/sup"))
        ≡ some (some next))
unfolding is_typing_target route_agent_id
walk_lem_example =
    walk_lem urls three none (refl, (refl, (refl, tt))) addressable refl presses idle 0
      (codes "sup") (codes "/agents/sup") refl refl
