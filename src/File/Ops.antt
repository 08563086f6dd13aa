-- ===== src/File/Ops.antt =====
-- mxf/mxf_file.h: the function table of an `MXFFile`, and the byte file that an implementation
-- of the table stands for.
use ebu_libmxf.Base.{
  ℕ, ◌+◌, ◌-◌, ◌≤◌, ◌<◌, ◌^◌, ◌≡◌, Bool, true, Option, none, some, List, [], ◌∷◌, ◌++◌, length,
  take, drop,
}
use ebu_libmxf.Base.Int.{ℤ, pos, negsuc}

-- SEEK_SET, SEEK_CUR and SEEK_END
pub data Whence : Type 0 where
  seek_set seek_cur seek_end : Whence

-- The functions that an implementation sets. Each takes the implementation's private data and
-- returns it anew. `read` returns the bytes that it got, `write` the number that it wrote; `none`
-- is EOF for the two character functions and a negative result for `tell`.
pub record FileOps (S : Type 0) : Type 0 where
  pub read : S → ℕ → List ℕ × S
  pub write : S → List ℕ → ℕ × S
  pub get_char : S → Option ℕ × S
  pub put_char : S → ℕ → Option ℕ × S
  pub seek : S → ℤ → Whence → Bool × S
  pub tell : S → Option ℕ
  pub is_seekable : S → Bool

-- The abstract file: the bytes in front of the file position, and those behind it.
pub record View : Type 0 where
  pub before : List ℕ
  pub after : List ℕ

abbrev pub contents : View → List ℕ
contents v = v.before ++ v.after

-- Passing over `n` bytes.
abbrev pub forward : ℕ → View → View
forward n v = record { before = v.before ++ take n v.after; after = drop n v.after }

-- Writing over what follows the position, past the end if need be.
abbrev pub put : List ℕ → View → View
put bs v = record { before = v.before ++ bs; after = drop (length bs) v.after }

-- Going to the position `p`.
abbrev pub at : ℕ → View → View
at p v = record { before = take p (contents v); after = drop p (contents v) }

abbrev pub head? : List ℕ → Option ℕ
head? [] = none
head? (x ∷ xs) = some x

-- What the code relies on of an implementation: its private data stands for a byte file, as long
-- as `Ready` holds, which each operation keeps.
pub record ByteFile {S : Type 0} (ops : FileOps S) : Type 1 where
  pub Ready : S → Type 0
  pub view : S → View
  pub read_bytes : (s : S) (n : ℕ) → Ready s → n < 2 ^ 32 → (ops.read s n).0 ≡ take n (view s).after
  pub read_view :
      (s : S) (n : ℕ) → Ready s → n < 2 ^ 32 → view (ops.read s n).1 ≡ forward n (view s)
  pub read_ready : (s : S) (n : ℕ) → Ready s → Ready (ops.read s n).1
  pub write_count :
      (s : S) (bs : List ℕ) → Ready s → length bs < 2 ^ 32 → (ops.write s bs).0 ≡ length bs
  pub write_view :
      (s : S) (bs : List ℕ)
      → Ready s
      → length bs < 2 ^ 32
      → view (ops.write s bs).1 ≡ put bs (view s)
  pub write_ready : (s : S) (bs : List ℕ) → Ready s → length bs < 2 ^ 32 → Ready (ops.write s bs).1
  pub get_char_byte : (s : S) → Ready s → (ops.get_char s).0 ≡ head? (view s).after
  pub get_char_view : (s : S) → Ready s → view (ops.get_char s).1 ≡ forward 1 (view s)
  pub get_char_ready : (s : S) → Ready s → Ready (ops.get_char s).1
  pub put_char_byte : (s : S) (c : ℕ) → Ready s → c < 256 → (ops.put_char s c).0 ≡ some c
  pub put_char_view :
      (s : S) (c : ℕ) → Ready s → c < 256 → view (ops.put_char s c).1 ≡ put (c ∷ []) (view s)
  pub put_char_ready : (s : S) (c : ℕ) → Ready s → c < 256 → Ready (ops.put_char s c).1
  pub tell_position : (s : S) → Ready s → ops.tell s ≡ some (length (view s).before)
  pub seek_set_ok :
      (s : S) (p : ℕ)
      → Ready s
      → p ≤ length (contents (view s))
      → (ops.seek s (pos p) seek_set).0 ≡ true
  pub seek_set_view :
      (s : S) (p : ℕ)
      → Ready s
      → p ≤ length (contents (view s))
      → view (ops.seek s (pos p) seek_set).1 ≡ at p (view s)
  pub seek_set_ready :
      (s : S) (p : ℕ)
      → Ready s
      → p ≤ length (contents (view s))
      → Ready (ops.seek s (pos p) seek_set).1
  pub seek_cur_ok :
      (s : S) (n : ℕ)
      → Ready s
      → ops.is_seekable s ≡ true
      → n ≤ length (view s).after
      → (ops.seek s (pos n) seek_cur).0 ≡ true
  pub seek_cur_view :
      (s : S) (n : ℕ)
      → Ready s
      → ops.is_seekable s ≡ true
      → n ≤ length (view s).after
      → view (ops.seek s (pos n) seek_cur).1 ≡ forward n (view s)
  pub seek_cur_ready :
      (s : S) (n : ℕ)
      → Ready s
      → ops.is_seekable s ≡ true
      → n ≤ length (view s).after
      → Ready (ops.seek s (pos n) seek_cur).1
  pub seek_back_ok :
      (s : S) (n : ℕ)
      → Ready s
      → n < length (view s).before
      → (ops.seek s (negsuc n) seek_cur).0 ≡ true
  pub seek_back_view :
      (s : S) (n : ℕ)
      → Ready s
      → n < length (view s).before
      → view (ops.seek s (negsuc n) seek_cur).1 ≡ at (length (view s).before - (n + 1)) (view s)
  pub seek_back_ready :
      (s : S) (n : ℕ)
      → Ready s
      → n < length (view s).before
      → Ready (ops.seek s (negsuc n) seek_cur).1
  pub seek_end_ok :
      (s : S) (n : ℕ)
      → Ready s
      → n < length (contents (view s))
      → (ops.seek s (negsuc n) seek_end).0 ≡ true
  pub seek_end_view :
      (s : S) (n : ℕ)
      → Ready s
      → n < length (contents (view s))
      → view (ops.seek s (negsuc n) seek_end).1 ≡ at (length (contents (view s)) - (n + 1)) (view s)
  pub seek_end_ready :
      (s : S) (n : ℕ)
      → Ready s
      → n < length (contents (view s))
      → Ready (ops.seek s (negsuc n) seek_end).1
