-- ===== src/Vs/Postprocess/Directives.antt =====
-- vs/postprocess.rs: lines and their directives.
use octobuild.Prelude.{
  ℕ, ◌-◌, Bool, true, false, not, ◌++◌, ◌==◌, ◌||◌, ◌&&◌, ltb, if◌then◌else◌, Option, none, some,
  Bytes, codes, text_eq, ok, ◌>>=◌, length, drop, get_or,
}
use octobuild.Compiler.{eq_ignore_ascii_case}
use octobuild.Io.Stream.{Reader, Writer}
use octobuild.Vs.Postprocess.Buffer.{
  Scan, Scanner, next, peek, write, parse_spaces, parse_empty, next_line, next_line_eol,
}
use octobuild.Vs.Postprocess.Literals.{parse_token, parse_path}

unfoldable pub is_subpath : Bytes → Bytes → Bool
is_subpath parent child =
    if ltb (length parent) (length child)
    then false
    else if not (length parent == length child)
        && not (get_or parent ((length parent - length child) - 1) 0 == b'/')
    then false
    else eq_ignore_ascii_case child (drop (length parent - length child) parent)

abbrev pub is_marked : Option Bytes → Bytes → Bool
is_marked marker file = elim marker [ none ↦ false | some path ↦ is_subpath file path ]

-- The mark that ends the headers, before the line of the directive `line`.
abbrev pub mark : Bytes → Bytes → Bytes → Bytes
mark eol line raw =
    codes "#pragma hdrstop" ++ (eol ++ (codes "#line " ++ (line ++ (codes " " ++ (raw ++ eol)))))

module _ {R W : Type 0} (w : Writer W) (keep_headers : Bool) (marker : Option Bytes) where
  -- The `match` on the entry file behind the parsing of a `#line`.
  unfoldable pub found_line : Bytes → Bytes → Bytes → Bytes → Scanner R W → Scan (Scanner R W)
  unfolding write is_subpath
  found_line line file raw eol s = elim s.entry_file [
    | none ↦ ok (record s { entry_file = some file })
    | some path ↦ do
      t ←
          if s.header_found && text_eq path file
          then write w keep_headers (mark eol line raw) (record s { done = true })
          else ok s
      ok (record t { header_found = t.header_found || is_marked marker file })
  ]

module _ {R W : Type 0} (w : Writer W) (keep_headers : Bool) where
  -- `#pragma hdrstop` is found.
  unfoldable pub found_hdrstop : Scanner R W → Scan (Scanner R W)
  unfolding write
  found_hdrstop s = do
    t ← if keep_headers then ok s else write w keep_headers (codes "#pragma hdrstop") s
    ok (record t { done = true })

module _ {R W : Type 0} (w : Writer W) (keep_headers : Bool) (r : Reader R) (buf_size : ℕ)
    (marker : Option Bytes) (fuel : ℕ) where
  unfoldable pub parse_directive_line : Scanner R W → Scan (Scanner R W)
  unfolding parse_spaces parse_token parse_path next_line_eol found_line
  parse_directive_line s = do
    s1 ← parse_spaces w keep_headers r buf_size fuel s
    (line, s2) ← parse_token w keep_headers r buf_size 16 fuel s1
    s3 ← parse_spaces w keep_headers r buf_size fuel s2
    (literal, s4) ← parse_path w keep_headers r buf_size 1024 fuel s3
    (eol, s5) ← next_line_eol w keep_headers r buf_size fuel s4
    found_line w keep_headers marker line literal.0 literal.1 eol s5

  unfoldable pub parse_directive_pragma : Scanner R W → Scan (Scanner R W)
  unfolding parse_spaces parse_token found_hdrstop next_line
  parse_directive_pragma s = do
    s1 ← parse_spaces w keep_headers r buf_size fuel s
    (token, s2) ← parse_token w keep_headers r buf_size 32 fuel s1
    if text_eq token (codes "hdrstop")
        then found_hdrstop w keep_headers s2
        else next_line w keep_headers r buf_size fuel s2

  unfoldable pub parse_directive : Scanner R W → Scan (Scanner R W)
  unfolding parse_spaces parse_token parse_directive_line parse_directive_pragma next_line
  parse_directive s = do
    s1 ← parse_spaces w keep_headers r buf_size fuel s
    (token, s2) ← parse_token w keep_headers r buf_size 16 fuel s1
    if text_eq token (codes "line")
        then parse_directive_line s2
        else if text_eq token (codes "pragma")
        then parse_directive_pragma s2
        else next_line w keep_headers r buf_size fuel s2

  unfoldable pub parse_line : Scanner R W → Scan (Scanner R W)
  unfolding parse_empty peek parse_directive next_line
  parse_line s = do
    s1 ← parse_empty w keep_headers r buf_size fuel s
    (c, s2) ← peek w keep_headers r buf_size s1
    elim c [
      | none ↦ ok s2
      | some c' ↦
          if c' == b'#'
          then parse_directive (next s2)
          else next_line w keep_headers r buf_size fuel s2
    ]
