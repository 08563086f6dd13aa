-- ===== src/IndexTable/Arrays.antt =====
-- How long the arrays of an index table segment may become.
use ebu_libmxf.Base.{
  ◌+◌, ◌*◌, ◌%◌, ◌^◌, ◌<◌, ◌≡◌, refl, some, List, [], ◌∷◌, ◌++◌, length, arith, length-append,
  le→leb,
}
use ebu_libmxf.IndexTable.Defs.{DeltaEntry, add_delta_entry, delta_array_len}

-- If the size of the array with one more entry fits 16 bits, the entry is added behind the others,
-- and the local length of the new array is its size.
pub add_delta_entry-fits :
    (es : List DeltaEntry) (e : DeltaEntry)
    → 8 + (length es + 1) * 6 < 2 ^ 16
    → (add_delta_entry es e ≡ some (es ++ (e ∷ [])))
      × (delta_array_len (length (es ++ (e ∷ []))) ≡ 8 + length (es ++ (e ∷ [])) * 6)
unfolding add_delta_entry delta_array_len
add_delta_entry-fits [] e h = (refl, omega arith)
add_delta_entry-fits (x ∷ xs) e h = (
  rw (le→leb ((8 + length xs * 6) % 2 ^ 32) 65535 (omega arith)) refl,
  omega (arith, length-append xs (e ∷ [])),
)

-- To an array of 10921 entries, whose size is the greatest that fits 16 bits, one more is added,
-- and the local length of the new array wraps around to 4.
pub add_delta_entry-overflows :
    (es : List DeltaEntry) (e : DeltaEntry)
    → length es ≡ 10921
    → (add_delta_entry es e ≡ some (es ++ (e ∷ [])))
      × (delta_array_len (length (es ++ (e ∷ []))) ≡ 4)
unfolding add_delta_entry delta_array_len
add_delta_entry-overflows [] e h = absurd (omega arith)
add_delta_entry-overflows (x ∷ xs) e h = (
  rw (le→leb ((8 + length xs * 6) % 2 ^ 32) 65535 (omega arith)) refl,
  omega (arith, length-append xs (e ∷ [])),
)
