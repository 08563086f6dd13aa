-- ===== src/Keys.antt =====
-- mxf/mxf_utils.c and mxf/mxf_labels_and_keys.h: comparison of keys, and the keys of the packs.
use ebu_libmxf.Base.{ℕ, Bool, ◌&&◌, [], ◌∷◌, get_or, take, drop, list_eq}
use ebu_libmxf.File.Klv.{Key}

-- memcmp over all 16 octets
abbrev pub equals_key : Key → Key → Bool
equals_key a b = list_eq a b

abbrev pub equals_uid : Key → Key → Bool
equals_uid a b = list_eq a b

abbrev pub equals_key_prefix : Key → Key → ℕ → Bool
equals_key_prefix a b n = list_eq (take n a) (take n b)

-- Ignores octet 7, the registry version.
abbrev pub equals_key_mod_regver : Key → Key → Bool
equals_key_mod_regver a b =
    list_eq (take 7 a) (take 7 b) && list_eq (take 8 (drop 8 a)) (take 8 (drop 8 b))

abbrev pub octet_of : Key → ℕ → ℕ
octet_of k i = get_or k i 0

abbrev pub null_key : Key
null_key = 0 ∷ 0 ∷ 0 ∷ 0 ∷ 0 ∷ 0 ∷ 0 ∷ 0 ∷ 0 ∷ 0 ∷ 0 ∷ 0 ∷ 0 ∷ 0 ∷ 0 ∷ 0 ∷ []

-- MXF_PP_KEY(regver, kind, status)
abbrev pub pp_key : ℕ → ℕ → ℕ → Key
pp_key regver kind status =
    0x06 ∷ 0x0e ∷ 0x2b ∷ 0x34 ∷ 0x02 ∷ 0x05 ∷ 0x01 ∷ regver ∷ 0x0d ∷ 0x01 ∷ 0x02 ∷ 0x01 ∷ 0x01
    ∷ kind ∷ status ∷ 0x00 ∷ []

abbrev pub random_index_pack_key : Key
random_index_pack_key = pp_key 0x01 0x11 0x01

abbrev pub primer_pack_key : Key
primer_pack_key = pp_key 0x01 0x05 0x01

-- The legacy key of fillers, which g_KLVFill_key has unless the application sets another.
abbrev pub klv_fill_key : Key
klv_fill_key =
    0x06 ∷ 0x0e ∷ 0x2b ∷ 0x34 ∷ 0x01 ∷ 0x01 ∷ 0x01 ∷ 0x01 ∷ 0x03 ∷ 0x01 ∷ 0x02 ∷ 0x10 ∷ 0x01 ∷ 0x00
    ∷ 0x00 ∷ 0x00 ∷ []

abbrev pub index_table_segment_key : Key
index_table_segment_key =
    0x06 ∷ 0x0e ∷ 0x2b ∷ 0x34 ∷ 0x02 ∷ 0x53 ∷ 0x01 ∷ 0x01 ∷ 0x0d ∷ 0x01 ∷ 0x02 ∷ 0x01 ∷ 0x01 ∷ 0x10
    ∷ 0x01 ∷ 0x00 ∷ []
