-- ===== src/Metainfo/InfoHash.antt =====
-- `get_info_hash` of parser/parser.c: the hash that names a torrent.
use bite_bit_bitten.Common.{
  ℕ, ◌-◌, ◌*◌, ◌%◌, ◌^◌, ◌<◌, ◌≡◌, ap, ◌∙◌, subst, ◌≢◌, Option, none, some, List, ◌++◌, length,
  slice,
}
use bite_bit_bitten.Common.Outcome.{Outcome, ok, fault, ◌>>=◌}
use bite_bit_bitten.Bencode.Skip.{get_info_value_offset}
use bite_bit_bitten.Bencode.Tree.{Tree, Fields, dict, encode}
use bite_bit_bitten.Bencode.Offsets.{info_of, Marks, get_info_value_offset-Marks}
use bite_bit_bitten.Sha1.{sha1_hash}
use bite_bit_bitten.Sha1.Digest.{fips_hash, sha1_hash-fips}

-- Offsets that are left unset are undefined.
unfoldable pub hash_span : List ℕ → Option (ℕ × ℕ) → Outcome (List ℕ)
hash_span buffer none = fault
hash_span buffer (some (begin, stop)) = ok (sha1_hash (slice buffer begin (stop - begin)))

unfoldable pub get_info_hash : List ℕ → ℕ → Outcome (List ℕ)
unfolding hash_span
get_info_hash buffer f = get_info_value_offset buffer f >>= λ span. hash_span buffer span

hash_span-Marks :
    (buffer : List ℕ) (span : Option (ℕ × ℕ)) (t : Tree)
    → Marks buffer span (some t)
    → hash_span buffer span ≡ ok (sha1_hash (encode t))
unfolding hash_span
hash_span-Marks buffer none t m = elim m [ ]
hash_span-Marks buffer (some (begin, stop)) t m = ap (λ (bytes : List ℕ). ok (sha1_hash bytes)) m

-- In a file that begins with a written dictionary whose first field `info` has the value `t`, the
-- info hash is what the blocks of the standard's padding of the bytes that `t` is written with are
-- mixed to, whatever follows the dictionary, unless the length of those bytes is 55 more than a
-- multiple of 64.
pub get_info_hash-fips :
    (fs : Fields) (t : Tree) (rest : List ℕ) (f : ℕ)
    → length (encode (dict fs) ++ rest) < 2 ^ 31
    → 2 * length (encode (dict fs)) < f
    → info_of fs ≡ some t
    → length (encode t) < 2 ^ 61
    → length (encode t) % 64 ≢ 55
    → get_info_hash (encode (dict fs) ++ rest) f ≡ ok (fips_hash (encode t))
unfolding get_info_hash
get_info_hash-fips fs t rest f small fuel is_info short ne =
    let buffer = encode (dict fs) ++ rest in
    let found = get_info_value_offset-Marks fs rest f small fuel in
    rw found.1 (
      hash_span-Marks buffer found.0 t (subst (Marks buffer found.0) is_info found.2)
      ∙ ap ok (sha1_hash-fips (encode t) short ne))
