-- ===== src/Navigation/Tests.antt =====
-- The theorem on the routes of src/frontend/src/lib/navigation.ts with an escape of slashes.
use soren.Base.{
  ℕ, true, false, none, some, [], ◌∷◌, ◌++◌, Text, codes, nat_eq, nat_Eq, text_Eq, has, drop,
  if◌then◌else◌, ◌≡◌, ◌⊎◌, refl, arith,
}
use soren.Summaries.{split}
use soren.Navigation.{Urls, route_file, decode_file_splat}
use soren.Navigation.Paths.{file_splat_lem}

abbrev escape : Text → Text
escape [] = []
escape (c ∷ s) =
    if nat_eq c b'/'
    then b'%' ∷ b'2' ∷ escape s
    else if nat_eq c b'%'
    then b'%' ∷ b'3' ∷ escape s
    else c ∷ escape s

abbrev unescape : Text → Text
unescape [] = []
unescape (c ∷ []) = c ∷ []
unescape (c ∷ d ∷ s) =
    let skipped = unescape s in
    let next = unescape (d ∷ s) in
    if nat_eq c b'%' then (if nat_eq d b'2' then b'/' else b'%') ∷ skipped else c ∷ next

unescape-plain : (c : ℕ) (s : Text) → nat_eq c b'%' ≡ false → unescape (c ∷ s) ≡ c ∷ unescape s
unescape-plain c [] h = refl
unescape-plain c (d ∷ s) h = rw h refl

unescape-escape : (s : Text) → unescape (escape s) ≡ s
unescape-escape [] = refl
unescape-escape (c ∷ s) = ground (arith, unescape-escape s, unescape-plain c (escape s))

escape-no_slash : (s : Text) → has b'/' (escape s) ≡ false
escape-no_slash [] = refl
escape-no_slash (c ∷ s) = ground (arith, escape-no_slash s)

abbrev urls : Urls
urls = record {
  encode_uri_component = λ s. some (escape s);
  decode_uri_component = λ s. some (unescape s);
  match_agent = λ s. some (drop 8 s);
}

file_splat_lem_example :
    (((part : Text) × (has part (split b'/' (codes "a/50%")) ≡ true)
        × (urls.encode_uri_component part ≡ none))
      × (route_file urls (codes "a/50%") ≡ none))
    ⊎ ((splat : Text) × (route_file urls (codes "a/50%") ≡ some (codes "/files/" ++ splat))
        × (decode_file_splat urls splat ≡ some (codes "a/50%")))
file_splat_lem_example =
    file_splat_lem urls (λ s e h. ground (arith, h, unescape-escape s))
      (λ s e h. ground (arith, h, escape-no_slash s)) (codes "a/50%")

file_route : route_file urls (codes "a/50%") ≡ some (codes "/files/a/50%3")
unfolding route_file
file_route = refl
