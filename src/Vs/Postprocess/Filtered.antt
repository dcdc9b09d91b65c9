-- ===== src/Vs/Postprocess/Filtered.antt =====
-- `filter_preprocessed` of vs/postprocess.rs as a whole.
use octobuild.Prelude.{ℕ, ◌<◌, Bool, ◌++◌, Bytes, ◌≡◌}
use octobuild.Io.Stream.{Reader, IsReader, Writer, IsWriter}
use octobuild.Vs.Postprocess.Buffer.{Scanner}
use octobuild.Vs.Postprocess.Moves.{kept, content, output, size, Moved}
use octobuild.Vs.Postprocess.Marks.{IsMark}

-- What is written for the input: a part of it, which may be left out and ends with the directive at
-- which the headers end, the mark, and all that follows.
pub record Filtered (keep : Bool) (whole before after : Bytes) : Type 0 where
  pub passed : Bytes
  pub marked : Bytes
  pub followed : Bytes
  pub splits : whole ≡ passed ++ followed
  pub is_mark : IsMark keep passed marked
  pub puts : after ≡ ((before ++ kept keep passed) ++ marked) ++ followed

module _ {R W : Type 0} (keep : Bool) (Valid : R → Type 0) (rest : R → Bytes) (written : W → Bytes)
    (w : Writer W) (wlaws : IsWriter w written) (r : Reader R) (laws : IsReader r Valid rest)
    (buf_size : ℕ) (positive : 0 < buf_size) where
  abbrev Mv : Scanner R W → Scanner R W → Type 0
  Mv = Moved keep Valid rest written

  abbrev left_of : Scanner R W → ℕ
  left_of = size keep Valid rest written

  abbrev Fl : Scanner R W → W → Type 0
  Fl s v =
      Filtered keep (content keep Valid rest written s) (output keep Valid rest written s)
        (written v)
