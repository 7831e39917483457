-- ===== src/Samples/Wildcards.antt =====
-- `wildcard_match` on paths of the default policy.
use code_is_cheap.Common.{◌≡◌, refl, ◌↔◌, Bool, true, false, some, [], ◌∷◌, arith}
use code_is_cheap.Text.{Text, text, utf8}
use code_is_cheap.Wildcard.{match_bytes, wildcard_match}
use code_is_cheap.Wildcard.Relation.{Matches, star}
use code_is_cheap.Wildcard.Decides.{
  match_bytes_total, wildcard_match_sound, wildcard_match_iff, literal_star_missed,
}

abbrev generate : Text
generate = text "/v1/models/*:generate"

abbrev gemini_path : Text
gemini_path = text "/v1/models/pro:generate"

accepts_gemini : wildcard_match generate gemini_path ≡ true
unfolding wildcard_match utf8
accepts_gemini = refl

is_anchored : wildcard_match generate (text "/x/v1/models/pro:generate") ≡ false
unfolding wildcard_match utf8
is_anchored = refl

backtracks : wildcard_match (text "/a*bc*d") (text "/abxbcbcd") ≡ true
unfolding wildcard_match utf8
backtracks = refl

wildcard_match_sound_example : Matches (utf8 generate) (utf8 gemini_path)
wildcard_match_sound_example = wildcard_match_sound generate gemini_path accepts_gemini

wildcard_match_iff_example :
    (wildcard_match (text "/a*b") (text "/axb") ≡ true)
    ↔ Matches (utf8 (text "/a*b")) (utf8 (text "/axb"))
unfolding utf8
wildcard_match_iff_example = wildcard_match_iff (text "/a*b") (text "/axb") (omega arith)

literal_star_missed_example :
    (match_bytes (star ∷ []) (star ∷ b'x' ∷ []) ≡ some false)
    × Matches (star ∷ []) (star ∷ b'x' ∷ [])
literal_star_missed_example = literal_star_missed b'x' []

match_bytes_total_example : (b : Bool) × (match_bytes (star ∷ []) [] ≡ some b)
match_bytes_total_example = match_bytes_total (star ∷ []) []

-- A path of Gemini with a star in it is out of scope, though the pattern matches it.
misses_star : wildcard_match generate (text "/v1/models/*x:generate") ≡ false
unfolding wildcard_match utf8
misses_star = refl
