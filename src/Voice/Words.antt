-- ===== src/Voice/Words.antt =====
-- The words of a text, as apps/gateway/src/lib/voice takes them with the regular expression \s+.
use modelforge_ai.Base.{ℕ, Bool, true, false, List, [], ◌∷◌, if◌then◌else◌}
use modelforge_ai.Base.Units.{Units, trim, join}

abbrev pub space : ℕ
space = 32

-- words.join(" ")
abbrev pub join_words : List Units → Units
join_words words = join (space ∷ []) words

abbrev pub prepend_unit : ℕ → List Units → List Units
prepend_unit c [] = (c ∷ []) ∷ []
prepend_unit c (w ∷ ws) = (c ∷ w) ∷ ws

module _ (is_space : ℕ → Bool) where
  -- The text is empty, or white space comes first.
  abbrev pub at_end_of_word : Units → Bool
  at_end_of_word [] = true
  at_end_of_word (c ∷ cs) = is_space c

  abbrev pub starts_with_space : Units → Bool
  starts_with_space [] = false
  starts_with_space (c ∷ cs) = is_space c

  abbrev pub add_unit : ℕ → Units → List Units → List Units
  add_unit c rest words = if at_end_of_word rest then (c ∷ []) ∷ words else prepend_unit c words

  -- text.trim().split(/\s+/).filter(Boolean): the longest pieces without white space.
  unfoldable pub words_of : Units → List Units
  words_of [] = []
  words_of (c ∷ cs) = let words = words_of cs in if is_space c then words else add_unit c cs words

  -- text.replace(/\s+/g, " ")
  unfoldable pub single_spaces : Units → Units
  single_spaces [] = []
  single_spaces (c ∷ cs) =
      let rest = single_spaces cs in
      if is_space c then if starts_with_space cs then rest else space ∷ rest else c ∷ rest

  -- text.replace(/\s+/g, " ").trim()
  unfoldable pub squeeze : Units → Units
  squeeze text = trim is_space (single_spaces text)
