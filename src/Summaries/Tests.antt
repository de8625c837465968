-- ===== src/Summaries/Tests.antt =====
-- The theorems on src/frontend/src/lib/toolSummary.ts at concrete calls.
use soren.Base.{◌≡◌, refl, Text, codes, text_Eq}
use soren.Summaries.{shorten_path}
use soren.Summaries.Lengths.{Shortened, shorten_path_lem}

abbrev long_path : Text
long_path = codes "/home/somebody/projects/soren/src/frontend/src/lib/utils.ts"

shorten_path_lem_example : Shortened long_path 45 (shorten_path long_path 45)
shorten_path_lem_example = shorten_path_lem long_path 45

short_enough : shorten_path long_path 45 ≡ codes "src/frontend/src/lib/utils.ts"
unfolding shorten_path
short_enough = refl
