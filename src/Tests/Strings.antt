-- ===== src/Tests/Strings.antt =====
-- Runs of the string helpers.
use stdsc.Base.{◌≡◌, refl, true, [], ◌∷◌}
use stdsc.Exec.{ok}
use stdsc.Packet.{Bytes}
use stdsc.Utility.{split, basename, isdigit}
use stdsc.Utility.Words.{words}
use stdsc.Utility.Splitting.{split-words}

-- " ab  c", at spaces
abbrev text : Bytes
text = 32 ∷ 97 ∷ 98 ∷ 32 ∷ 32 ∷ 99 ∷ []

split-words_example : split text (32 ∷ []) ≡ ok (words (32 ∷ []) [] text)
split-words_example = split-words text (32 ∷ [])

two_words : words (32 ∷ []) [] text ≡ (97 ∷ 98 ∷ []) ∷ (99 ∷ []) ∷ []
unfolding words
two_words = refl

last_part : basename (97 ∷ 47 ∷ 98 ∷ []) ≡ 98 ∷ []
unfolding basename
last_part = refl

-- a sign without digits passes the test
lone_sign : isdigit (45 ∷ []) ≡ true
unfolding isdigit
lone_sign = refl
