-- ===== src/Vs/Postprocess/Tests.antt =====
-- Tests of the filter, some of them of the tests of vs/postprocess.rs.
use octobuild.Prelude.{
  true, false, Bool, List, [], ◌∷◌, ◌++◌, Text, Bytes, none, some, Option, ok, err, codes, ◌≡◌,
  refl, ◌↔◌,
}
use octobuild.Io.Stream.{vec_writer}
use octobuild.Io.MemStream.{MemReader, mem_reader}
use octobuild.Vs.Postprocess.Buffer.{Scan, unwrap_none, marker_not_found}
use octobuild.Vs.Postprocess.Directives.{is_subpath}
use octobuild.Vs.Postprocess.Filter.{Encoding, filter_preprocessed}
use octobuild.Vs.Postprocess.Filtered.{Filtered}
use octobuild.Vs.Postprocess.Subpath.{IsEndOf, is_subpath_lem}

abbrev stream_of : Bytes → MemReader
stream_of b = record { offset = 0; iter = record { size = 0; iter = [] }; last = some b }

abbrev ascii : Encoding
ascii = record { utf8 = λ t. t; ansi = λ t. ok t }

abbrev lines : List Text → Bytes
lines [] = []
lines (t ∷ ts) = t ++ (b'\n' ∷ lines ts)

abbrev header : List Text
header =
    codes "#line 1 \"s.cpp\""
    ∷ codes "#line 1 \"e:/w/s h.h\""
    ∷ codes "# pragma once"
    ∷ codes "#line 2 \"s.cpp\""
    ∷ []

abbrev body : List Text
body = [] ∷ codes "int x;" ∷ []

abbrev stopped : List Text
stopped = codes "#pragma hdrstop" ∷ codes "#line 2 \"s.cpp\"" ∷ body

unfoldable filtered : Bool → List Text → Option Text → Scan Bytes
unfolding filter_preprocessed
filtered keep text marker =
    filter_preprocessed vec_writer keep mem_reader 8 ascii marker 200 (stream_of (lines text)) []

filter_precompiled_keep :
    filtered true (header ++ body) (some (codes "s h.h")) ≡ ok (lines (header ++ stopped))
unfolding filtered mem_reader
filter_precompiled_keep = refl

filter_precompiled_remove :
    filtered false (header ++ body) (some (codes "S H.H")) ≡ ok (lines stopped)
unfolding filtered mem_reader
filter_precompiled_remove = refl

filter_hdrstop :
    filtered false (codes "void f();" ∷ codes "# pragma  hdrstop" ∷ body) none
    ≡ ok (lines (codes "#pragma hdrstop" ∷ body))
unfolding filtered mem_reader
filter_hdrstop = refl

filter_no_marker : filtered true body none ≡ err marker_not_found
unfolding filtered mem_reader
filter_no_marker = refl

-- In the text of the mark an escaped character is a backslash, whatever it is in the input.
escaped_mark :
    filtered false
      (codes "#line 1 \"a\\tb\"" ∷ codes "#line 1 \"h\"" ∷ codes "#line 2 \"a\\tb\"" ∷ body)
      (some (codes "h"))
    ≡ ok (lines (codes "#pragma hdrstop" ∷ codes "#line 2 \"a\\\\b\"" ∷ body))
unfolding filtered mem_reader
escaped_mark = refl

-- A directive whose file name is missing at the end of the input.
line_without_file :
    filter_preprocessed vec_writer true mem_reader 8 ascii none 99 (stream_of (codes "#line 1 ")) []
    ≡ err unwrap_none
unfolding filter_preprocessed mem_reader
line_without_file = refl

-- The token at the end of the input has zeros behind it, so that the pragma is not found.
hdrstop_at_end :
    filter_preprocessed vec_writer true mem_reader 8 ascii none 99
      (stream_of (codes "#pragma hdrstop"))
      []
    ≡ err marker_not_found
unfolding filter_preprocessed mem_reader
hdrstop_at_end = refl

is_subpath_lem_example :
    (is_subpath (codes "e:/w/StdAfx.h") (codes "stdafx.h") ≡ true)
    ↔ IsEndOf (codes "stdafx.h") (codes "e:/w/StdAfx.h")
is_subpath_lem_example = is_subpath_lem (codes "e:/w/StdAfx.h") (codes "stdafx.h")
