-- ===== src/Tests/Plain.antt =====
-- A byte file in memory that can seek, for the function table of mxf/mxf_file.h.
use ebu_libmxf.Base.{
  ℕ, ◌+◌, ◌-◌, refl, Bool, true, false, some, List, [], ◌∷◌, length, take, ltb, leb, if◌then◌else◌,
  le→leb, lt→ltb, arith,
}
use ebu_libmxf.Base.Int.{ℤ, pos, negsuc}
use ebu_libmxf.File.Ops.{
  FileOps, View, Whence, seek_set, seek_cur, seek_end, ByteFile, contents, forward, put, at, head?,
}
use ebu_libmxf.File.Monad.{MxfFile}
use ebu_libmxf.File.Laws.{IsOpen}

-- Goes there if the test holds.
abbrev go : Bool → View → View → Bool × View
go b there v = if b then (true, there) else (false, v)

abbrev plain_seek : View → ℤ → Whence → Bool × View
plain_seek v (pos p) seek_set = go (leb p (length (contents v))) (at p v) v
plain_seek v (pos p) seek_cur = go (leb p (length v.after)) (forward p v) v
plain_seek v (pos p) seek_end = (false, v)
plain_seek v (negsuc n) seek_set = (false, v)
plain_seek v (negsuc n) seek_cur = go (ltb n (length v.before)) (at (length v.before - (n + 1)) v) v
plain_seek v (negsuc n) seek_end =
    go (ltb n (length (contents v))) (at (length (contents v) - (n + 1)) v) v

instance abbrev pub plain : FileOps View
plain = record {
  read = λ v n. (take n v.after, forward n v);
  write = λ v bs. (length bs, put bs v);
  get_char = λ v. (head? v.after, forward 1 v);
  put_char = λ v c. (some c, put (c ∷ []) v);
  seek = plain_seek;
  tell = λ v. some (length v.before);
  is_seekable = λ v. true;
}

abbrev pub plain_file : ByteFile plain
plain_file = record {
  Ready = λ v. Unit {0};
  view = λ v. v;
  read_bytes = λ v n r h. refl;
  read_view = λ v n r h. refl;
  read_ready = λ v n r. tt;
  write_count = λ v bs r h. refl;
  write_view = λ v bs r h. refl;
  write_ready = λ v bs r h. tt;
  get_char_byte = λ v r. refl;
  get_char_view = λ v r. refl;
  get_char_ready = λ v r. tt;
  put_char_byte = λ v c r h. refl;
  put_char_view = λ v c r h. refl;
  put_char_ready = λ v c r h. tt;
  tell_position = λ v r. refl;
  seek_set_ok = λ v p r h. rw (le→leb p (length (contents v)) h) refl;
  seek_set_view = λ v p r h. rw (le→leb p (length (contents v)) h) refl;
  seek_set_ready = λ v p r h. tt;
  seek_cur_ok = λ v n r s h. rw (le→leb n (length v.after) h) refl;
  seek_cur_view = λ v n r s h. rw (le→leb n (length v.after) h) refl;
  seek_cur_ready = λ v n r s h. tt;
  seek_back_ok = λ v n r h. rw (lt→ltb n (length v.before) h) refl;
  seek_back_view = λ v n r h. rw (lt→ltb n (length v.before) h) refl;
  seek_back_ready = λ v n r h. tt;
  seek_end_ok = λ v n r h. rw (lt→ltb n (length (contents v)) h) refl;
  seek_end_view = λ v n r h. rw (lt→ltb n (length (contents v)) h) refl;
  seek_end_ready = λ v n r h. tt;
}

-- A file with bytes in front of the position and behind it.
abbrev pub plain_with : List ℕ → List ℕ → MxfFile View
plain_with before after = record {
  sys = record { before = before; after = after };
  min_llen = 0;
  runin_len = 0;
  zeros_size = 0;
}

abbrev pub blank : MxfFile View
blank = plain_with [] []

pub plain-IsOpen : (before after : List ℕ) → IsOpen plain_file (plain_with before after)
plain-IsOpen before after = record { is_ready = tt; small_zeros = omega arith }
