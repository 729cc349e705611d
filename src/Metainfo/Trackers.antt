-- ===== src/Metainfo/Trackers.antt =====
-- The trackers of a torrent file: `parse_BEN_announce_to_TR_info` of parser/parser.c on what `parse_dict`
-- reads.
use bite_bit_bitten.Common.{
  ℕ, ◌+◌, ◌*◌, ◌^◌, ◌≤◌, ◌<◌, ◌≡◌, ◌⊎◌, inl, inr, refl, ap, ◌∙◌, none, some, List, [], ◌∷◌, ◌++◌,
  map, arith, le→leb, append_assoc, length, length-append, length-drop,
}
use bite_bit_bitten.Common.Outcome.{Outcome, ok, failed, ◌>>=◌}
use bite_bit_bitten.Bencode.Tree.{
  string, list, dict, Trees, nil, cons, Fields, decimal, encode_string, encode, encode_items,
  encode_fields, locate_string, locate, locate_items, locate_fields, InRange,
}
use bite_bit_bitten.Bencode.Parser.{parse_dict}
use bite_bit_bitten.Bencode.Read.{Holds, Holds-advance, Holds-next}
use bite_bit_bitten.Bencode.RoundTrip.{slice_at, parse_dict-locate}
use bite_bit_bitten.Metainfo.{TrTracker, TrInfo}
use bite_bit_bitten.Metainfo.Key
use bite_bit_bitten.Metainfo.Fields.{as_dict, ben_string_to_c_string}
use bite_bit_bitten.Metainfo.Build.{tier_trackers, all_trackers, parse_ben_announce_to_tr_info}
use bite_bit_bitten.Metainfo.Lookup.{field_of, lookup-some, lookup-none}

-- a list of strings
abbrev pub strings : List (List ℕ) → Trees
strings [] = nil
strings (s ∷ ss) = cons (string s) (strings ss)

-- a list of tiers, each of which is a list of addresses
abbrev pub tiers_tree : List (List (List ℕ)) → Trees
tiers_tree [] = nil
tiers_tree (ss ∷ tiers) = cons (list (strings ss)) (tiers_tree tiers)

abbrev pub in_tier : ℕ → List ℕ → TrTracker
in_tier tier s = record { announce = s; tier = tier }

-- The trackers of the tiers, in their order and numbered from `tier` on.
abbrev pub numbered : ℕ → List (List (List ℕ)) → List TrTracker
numbered tier [] = []
numbered tier (ss ∷ tiers) = map (in_tier tier) ss ++ numbered (tier + 1) tiers

module _ (buffer : List ℕ) (small : length buffer < 2 ^ 31) where
  c_string_at :
      (c : ℕ) (s more : List ℕ)
      → Holds buffer c (encode_string s ++ more)
      → ben_string_to_c_string buffer (locate_string c s) ≡ ok s
  unfolding ben_string_to_c_string
  c_string_at c s more at =
      let size = ap length at in
      let inside : c + (length (decimal (length s)) + 1) + length s ≤ length buffer = omega (
        arith,
        size,
        length-drop c buffer,
        length-append (decimal (length s)) (b':' ∷ s),
        length-append (encode_string s) more,
      ) in
      let fits = le→leb _ _ inside in rw fits (ap ok (slice_at buffer small c s more at))

  tier_at :
      (ss : List (List ℕ)) (tier c : ℕ) (more : List ℕ)
      → Holds buffer c (encode_items (strings ss) ++ more)
      → tier_trackers buffer tier (locate_items c (strings ss)) ≡ ok (map (in_tier tier) ss)
  unfolding tier_trackers encode locate
  tier_at [] tier c more at = refl
  tier_at (s ∷ ss) tier c more at =
      let bytes = at ∙ append_assoc (encode_string s) (encode_items (strings ss)) more in
      let after = Holds-advance buffer c (encode_string s) _ bytes in
      rw (c_string_at c s _ bytes, tier_at ss tier (c + length (encode_string s)) more after) refl

  all_at :
      (tiers : List (List (List ℕ))) (tier c : ℕ) (more : List ℕ)
      → Holds buffer c (encode_items (tiers_tree tiers) ++ more)
      → all_trackers buffer tier (locate_items c (tiers_tree tiers)) ≡ ok (numbered tier tiers)
  unfolding all_trackers encode locate
  all_at [] tier c more at = refl
  all_at (ss ∷ tiers) tier c more at =
      let here = encode (list (strings ss)) in
      let bytes = at ∙ append_assoc here (encode_items (tiers_tree tiers)) more in
      let inner = Holds-next buffer c b'l' _ bytes in
      let after = Holds-advance buffer c here _ bytes in
      rw (tier_at ss tier (c + 1) _ inner, all_at tiers (tier + 1) (c + length here) more after)
        refl

-- What the fields of a file say of its trackers: the tiers of `announce-list` when there are some, or
-- else the one of `announce`, or else nothing, which is a failure.
abbrev pub Announces : Fields → Outcome (List TrTracker) → Type 0
Announces fs result =
    ((tiers : List (List (List ℕ))) × (field_of Key.announce_list fs
        ≡ some (list (tiers_tree tiers)))
      × (result ≡ ok (numbered 0 tiers)))
    ⊎ (((s : List ℕ) × (field_of Key.announce_list fs ≡ none)
          × (field_of Key.announce fs ≡ some (string s))
          × (result ≡ ok (in_tier 0 s ∷ [])))
        ⊎ ((field_of Key.announce_list fs ≡ none)
            × (field_of Key.announce fs ≡ none)
            × (result ≡ failed)))

announced_at :
    (buffer : List ℕ) (small : length buffer < 2 ^ 31) (fs : Fields) (rest : List ℕ) (info : TrInfo)
    (result : Outcome (List TrTracker))
    → Holds buffer 1 (encode_fields fs ++ rest)
    → Announces fs result
    → parse_ben_announce_to_tr_info buffer (locate_fields 1 fs) info ≡ (
        result >>= λ trackers.
        ok (record info { trackers = trackers; trackers_count = length trackers }))
unfolding parse_ben_announce_to_tr_info locate encode
announced_at buffer small fs rest info result at (inl (tiers, found, says)) =
    let (c, more, looked, there) =
      lookup-some buffer small Key.announce_list (omega arith) fs 1 rest (list (tiers_tree tiers))
        at found in
    rw (looked, all_at buffer small tiers 0 (c + 1) more (Holds-next buffer c b'l' _ there), says)
      refl
announced_at buffer small fs rest info result at (inr (inl (s, none_there, found, says))) =
    let (c, more, looked, there) =
      lookup-some buffer small Key.announce (omega arith) fs 1 rest (string s) at found in
    rw
      (
        lookup-none buffer small Key.announce_list (omega arith) fs 1 rest at none_there,
        looked,
        c_string_at buffer small c s more there,
        says,
      )
      refl
announced_at buffer small fs rest info result at (inr (inr (none_there, none_here, says))) =
    rw
      (
        lookup-none buffer small Key.announce_list (omega arith) fs 1 rest at none_there,
        lookup-none buffer small Key.announce (omega arith) fs 1 rest at none_here,
        says,
      )
      refl

-- From a torrent file to its trackers: of a file of less than 2 GiB that is a written dictionary, whose
-- numbers are `int64_t`, `parse_dict` and `parse_BEN_announce_to_TR_info` make the trackers that its
-- fields say. These are all addresses of the tiers of its first `announce-list`, in their order, each
-- with the number of its tier, when that is a list of lists of strings; with no `announce-list` the one
-- of its first `announce`, when that is a string; and with neither the result is a failure. Nothing else
-- of the description changes.
pub parse_dict-announce :
    (fs : Fields) (f : ℕ) (info : TrInfo) (result : Outcome (List TrTracker))
    → length (encode (dict fs)) < 2 ^ 31
    → InRange (dict fs)
    → 2 * length (encode (dict fs)) < f
    → Announces fs result
    → let buffer = encode (dict fs) in
      (parse_dict buffer f 0 >>= λ r.
      as_dict r.0 >>= λ d. parse_ben_announce_to_tr_info buffer d info)
      ≡ (result >>= λ trackers.
          ok (record info { trackers = trackers; trackers_count = length trackers }))
parse_dict-announce fs f info result small r fuel says =
    let buffer = encode (dict fs) in
    let (parsed, at) = parse_dict-locate fs f small r fuel in
    ap (λ o. o >>= λ r. as_dict r.0 >>= λ d. parse_ben_announce_to_tr_info buffer d info) parsed
    ∙ announced_at buffer small fs [] info result at says
