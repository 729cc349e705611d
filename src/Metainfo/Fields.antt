-- ===== src/Metainfo/Fields.antt =====
-- Lookup in a dictionary and the readings of a value. A value read as what it is not is a fault: the
-- code reads the union's other member.
use bite_bit_bitten.Common.{
  ℕ, ◌+◌, Bool, false, Option, none, some, List, leb, ◌==◌, if◌then◌else◌, length, drop, slice, ℤ,
}
use bite_bit_bitten.Common.Outcome.{Outcome, ok, failed, fault, ◌>>=◌}
use bite_bit_bitten.Bencode.{
  BenString, BenValue, BenList, BenPair, number, string, list, dict, pair_end, pair_node,
}
use bite_bit_bitten.Bencode.Strtol.{strncmp_eq}

-- `key` is a C string without its NUL.
unfoldable pub ben_string_equals : List ℕ → BenString → List ℕ → Outcome Bool
ben_string_equals buffer b_key key =
    if b_key.length == length key
    then strncmp_eq (drop b_key.start buffer) key b_key.length
    else ok false

unfoldable pub get_ben_value_by_key : List ℕ → BenPair → List ℕ → Outcome (Option BenValue)
unfolding ben_string_equals
get_ben_value_by_key buffer pair_end key = ok none
get_ben_value_by_key buffer (pair_node k v next) key =
    let rest = get_ben_value_by_key buffer next key in
    ben_string_equals buffer k key >>= λ found. if found then ok (some v) else rest

abbrev pub as_number : BenValue → Outcome ℤ
as_number (number z) = ok z
as_number _ = fault

abbrev pub as_string : BenValue → Outcome BenString
as_string (string s) = ok s
as_string _ = fault

abbrev pub as_list : BenValue → Outcome BenList
as_list (list l) = ok l
as_list _ = fault

abbrev pub as_dict : BenValue → Outcome BenPair
as_dict (dict d) = ok d
as_dict _ = fault

-- the bytes that `memcpy` takes from a slice
abbrev pub slice_bytes : List ℕ → BenString → Outcome (List ℕ)
slice_bytes buffer s =
    if leb (s.start + s.length) (length buffer) then ok (slice buffer s.start s.length) else fault

-- The copy in the arena, without the NUL behind it.
unfoldable pub ben_string_to_c_string : List ℕ → BenString → Outcome (List ℕ)
ben_string_to_c_string buffer b_string = slice_bytes buffer b_string

-- a value that a malformed file lacks
abbrev pub required {ℓ} : {A : Type ℓ} → Option A → Outcome A
required none = failed
required (some a) = ok a
