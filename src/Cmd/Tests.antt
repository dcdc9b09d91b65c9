-- ===== src/Cmd/Tests.antt =====
-- Tests of the two command line parsers, on inputs of the tests of src/cmd.
use octobuild.Prelude.{List, [], ◌∷◌, ok, err, Text, codes, ◌≡◌, refl}
use octobuild.Cmd.Words.{words, command_line}
use octobuild.Cmd.Unix
use octobuild.Cmd.Unix.Quoting.{quote_arg, parse-command_line}
use octobuild.Cmd.Unix.Plain.{parse-words}
use octobuild.Cmd.Windows
use octobuild.Cmd.Windows.Quoting.{backslashes, parse-command_line_windows}
use octobuild.Cmd.Windows.Quoting as WindowsQuoting
use octobuild.Cmd.Windows.Plain.{parse-words_windows}
use octobuild.Cmd.Windows.Halving.{around, parse-backslashes}

unix_quotes :
    Unix.parse (codes "\"\" \"abc\" d e \"\"")
    ≡ ok (codes "" ∷ codes "abc" ∷ codes "d" ∷ codes "e" ∷ codes "" ∷ [])
unfolding Unix.parse
unix_quotes = refl

unix_backslashes :
    Unix.parse (codes "a\\\\b d\"e f\"g h") ≡ ok (codes "a\\b" ∷ codes "de fg" ∷ codes "h" ∷ [])
unfolding Unix.parse
unix_backslashes = refl

unix_blank :
    Unix.parse (codes "begin some\\ text end")
    ≡ ok (codes "begin" ∷ codes "some text" ∷ codes "end" ∷ [])
unfolding Unix.parse
unix_blank = refl

unix_open : Unix.parse (codes "a 'b") ≡ err Unix.single_quote_not_closed
unfolding Unix.parse
unix_open = refl

windows_quotes :
    Windows.parse (codes "\"\" \"abc\" d e \"\"")
    ≡ codes "" ∷ codes "abc" ∷ codes "d" ∷ codes "e" ∷ codes "" ∷ []
unfolding Windows.parse
windows_quotes = refl

windows_backslashes :
    Windows.parse (codes "a\\\\\\\"b c d") ≡ codes "a\\\"b" ∷ codes "c" ∷ codes "d" ∷ []
unfolding Windows.parse
windows_backslashes = refl

windows_path :
    Windows.parse (codes "/Fp\"Debug\\HelloWorld.pch\" /Fo\"Debug\\\\\" /Gd")
    ≡ codes "/FpDebug\\HelloWorld.pch" ∷ codes "/FoDebug\\" ∷ codes "/Gd" ∷ []
unfolding Windows.parse
windows_path = refl

abbrev two_args : List Text
two_args = codes "it's" ∷ codes "" ∷ []

abbrev two_paths : List Text
two_paths = codes "C:\\a b\\" ∷ codes "say \"hi\"" ∷ []

parse-command_line_example : Unix.parse (command_line quote_arg two_args) ≡ ok two_args
parse-command_line_example = parse-command_line two_args

parse-command_line_windows_example :
    Windows.parse (command_line WindowsQuoting.quote_arg two_paths) ≡ two_paths
parse-command_line_windows_example = parse-command_line_windows two_paths

parse-words_example : Unix.parse (codes " ab  c ") ≡ ok (words Unix.is_blank (codes " ab  c "))
parse-words_example = parse-words (codes " ab  c ") refl

parse-words_windows_example :
    Windows.parse (codes " C:\\\\ab  c ") ≡ words Windows.is_blank (codes " C:\\\\ab  c ")
parse-words_windows_example = parse-words_windows (codes " C:\\\\ab  c ") refl

parse-backslashes_example :
    (Windows.parse (around (codes "C:") 2 b'x' (codes "y")) ≡ codes "C:\\xy" ∷ [])
    × (Windows.parse (around (codes "C:") 3 b'x' (codes "y")) ≡ codes "C:\\\\\\xy" ∷ [])
parse-backslashes_example = parse-backslashes (codes "C:") (codes "y") 1 b'x' refl refl
