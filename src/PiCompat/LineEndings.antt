-- ===== src/PiCompat/LineEndings.antt =====
-- The line endings and the byte order mark of an edited text,
-- src/millforge/tools/pi_compat/editing.py.
pub mod RoundTrip
use millforge.Prelude.{
  ℕ, suc, List, [], ◌∷◌, Bool, true, false, ◌&&◌, Option, none, some, map, ltb, ◌==◌, if◌then◌else◌,
}
use mathlib.Core.Option
use millforge.PiCompat.Truncation.{Text}

pub data LineEnding : Type 0 where
  lf crlf : LineEnding

-- `content.find("\n")`
unfoldable pub find_lf : Text → Option ℕ
find_lf [] = none
find_lf (c ∷ text) = if c == 10 then some 0 else Option.map suc (find_lf text)

-- `content.find("\r\n")`
unfoldable pub find_crlf : Text → Option ℕ
find_crlf [] = none
find_crlf (c ∷ []) = none
find_crlf (c ∷ d ∷ text) =
    if c == 13 && d == 10 then some 0 else Option.map suc (find_crlf (d ∷ text))

-- The ending that the two places give; `none` is the index -1.
abbrev pub earlier_ending : Option ℕ → Option ℕ → LineEnding
earlier_ending (some crlf_index) (some lf_index) =
    if ltb crlf_index lf_index then LineEnding.crlf else LineEnding.lf
earlier_ending _ _ = LineEnding.lf

-- `detect_line_ending`
unfoldable pub detect_line_ending : Text → LineEnding
detect_line_ending content = earlier_ending (find_crlf content) (find_lf content)

-- `text.replace("\r\n", "\n")`
unfoldable pub replace_crlf : Text → Text
replace_crlf [] = []
replace_crlf (c ∷ []) = c ∷ []
replace_crlf (c ∷ d ∷ text) =
    if c == 13 && d == 10 then 10 ∷ replace_crlf text else c ∷ replace_crlf (d ∷ text)

-- `text.replace("\r", "\n")`, one character
unfoldable pub replace_cr : ℕ → ℕ
replace_cr c = if c == 13 then 10 else c

-- `normalize_to_lf`
unfoldable pub normalize_to_lf : Text → Text
normalize_to_lf text = map replace_cr (replace_crlf text)

-- `text.replace("\n", "\r\n")`
unfoldable pub replace_lf : Text → Text
replace_lf [] = []
replace_lf (c ∷ text) = if c == 10 then 13 ∷ 10 ∷ replace_lf text else c ∷ replace_lf text

-- `restore_line_endings`
unfoldable pub restore_line_endings : Text → LineEnding → Text
restore_line_endings text LineEnding.lf = text
restore_line_endings text LineEnding.crlf = replace_lf text

-- `strip_bom`
unfoldable pub strip_bom : Text → Text × Text
strip_bom [] = ([], [])
strip_bom (c ∷ text) = if c == 0xFEFF then (c ∷ [], text) else ([], c ∷ text)
