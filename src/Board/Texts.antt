-- ===== src/Board/Texts.antt =====
-- bin/board.py, `normalise`, `text_hash` and `read_text_file`: the texts of briefs and notes.
use Prim.Native.Char.{code}
use hermes_agent_workforce_p.Prelude.{
  ℕ, String, Bool, true, false, not, ◌&&◌, if◌then◌else◌, str_eq, rstrip, leb, ◌==◌, length,
}
use hermes_agent_workforce_p.Dates.{codes}
use hermes_agent_workforce_p.Board.{World, empty_text, long_text, Result, ok, require, ◌>>=◌}

-- CRLF and a lone CR become LF: the flag says that a CR has just been written as LF.
abbrev unix_lines : Bool → String → String
unix_lines after_cr String.[] = String.[]
unix_lines after_cr (String.◌∷◌ c s) =
    if code c == 13
    then String.◌∷◌ "\n" (unix_lines true s)
    else if after_cr && (code c == 10)
    then unix_lines false s
    else String.◌∷◌ c (unix_lines false s)

unfoldable pub normalise : String → String
normalise s = rstrip (unix_lines false s)

unfoldable pub text_hash : World → String → String
unfolding normalise
text_hash w s = w.sha256 (normalise s)

-- `MAX_TEXT`
abbrev max_text : ℕ
max_text = 60000

-- `read_text_file`, on the text of the file.
unfoldable pub checked_text : String → Result String
checked_text s = do
  u ← require (not (str_eq (normalise s) "")) empty_text
  v ← require (leb (length (codes s)) max_text) long_text
  ok s
