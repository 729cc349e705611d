-- ===== src/Metainfo/Lookup.antt =====
-- Lookup by key in a dictionary that was read from its written form.
use bite_bit_bitten.Common.{
  ℕ, ◌+◌, ◌^◌, ◌<◌, ◌≡◌, refl, sym, ap, ◌∙◌, inl, inr, Option, none, some, List, [], ◌∷◌, ◌++◌,
  append_assoc, arith, ◌==◌, if◌then◌else◌, ==_iff, Bool-cases, length, drop, All, subst,
  length-append, drop-append,
}
use bite_bit_bitten.Common.Outcome.{ok}
use bite_bit_bitten.Bencode.Tree.{
  Tree, Fields, end, field, decimal, encode_string, encode, encode_fields, locate_string, locate,
  locate_fields, view,
}
use bite_bit_bitten.Bencode.{BenValue}
use bite_bit_bitten.Bencode.Keys.{same_bytes, same_bytes-length, strncmp_eq_lem}
use bite_bit_bitten.Bencode.Read.{Holds, Holds-advance}
use bite_bit_bitten.Bencode.Written.{fields_bytes}
use bite_bit_bitten.Bencode.RoundTrip.{view-locate_at}
use bite_bit_bitten.Metainfo.Fields.{ben_string_equals, get_ben_value_by_key}

-- the value of the first field with that key
unfoldable pub field_of : List ℕ → Fields → Option Tree
unfolding same_bytes
field_of key end = none
field_of key (field k t fs) = if same_bytes k key then some t else field_of key fs

-- A parsed value, if any, stands for the tree, if any.
abbrev pub Stands : List ℕ → Option BenValue → Option Tree → Type 0
Stands buffer none none = Unit
Stands buffer none (some t) = ⊥
Stands buffer (some v) none = ⊥
Stands buffer (some v) (some t) = view buffer v ≡ t

located_field : ℕ → List ℕ → Fields → Option BenValue
unfolding same_bytes encode locate
located_field c key end = none
located_field c key (field k t fs) =
    let value_at = c + length (encode_string k) in
    if same_bytes k key
    then some (locate value_at t)
    else located_field (value_at + length (encode t)) key fs

module _ (buffer : List ℕ) (small : length buffer < 2 ^ 31) (key : List ℕ)
    (nonzero : All (λ k. 0 < k) key) where
  ben_string_equals-locate :
      (c : ℕ) (k more : List ℕ)
      → Holds buffer c (encode_string k ++ more)
      → ben_string_equals buffer (locate_string c k) key ≡ ok (same_bytes k key)
  unfolding ben_string_equals
  ben_string_equals-locate c k more e =
      let before = decimal (length k) ++ b':' ∷ [] in
      let bytes =
        e
        ∙ append_assoc (decimal (length k)) (b':' ∷ k) more
        ∙ sym (append_assoc (decimal (length k)) (b':' ∷ []) (k ++ more)) in
      let at =
        ap (λ n. drop (c + n) buffer) (sym (length-append (decimal (length k)) (b':' ∷ [])))
        ∙ Holds-advance buffer c before (k ++ more) bytes in
      elim (Bool-cases (length k == length key)) [
        | inl same ↦ rw (same, at) (strncmp_eq_lem k key more ((==_iff _ _).0 same) nonzero)
        | inr other ↦ rw (other, same_bytes-length k key (ground arith))
      ]

  located_field_lem :
      (fs : Fields) (c : ℕ) (rest : List ℕ)
      → Holds buffer c (encode_fields fs ++ rest)
      → (get_ben_value_by_key buffer (locate_fields c fs) key ≡ ok (located_field c key fs))
        × Stands buffer (located_field c key fs) (field_of key fs)
  unfolding get_ben_value_by_key located_field field_of
  located_field_lem end c rest e = (refl, tt)
  located_field_lem (field k t fs) c rest e =
      let more = encode_fields fs ++ rest in
      let bytes = fields_bytes buffer k t fs rest c e in
      let begin = c + length (encode_string k) in
      let value_at = Holds-advance buffer c (encode_string k) (encode t ++ more) bytes in
      let after = Holds-advance buffer begin (encode t) more value_at in
      let equals = ben_string_equals-locate c k (encode t ++ more) bytes in
      let rest_of = located_field_lem fs (begin + length (encode t)) rest after in
      elim (Bool-cases (same_bytes k key)) [
        | inl found ↦
            (rw (equals, found), rw found (view-locate_at buffer small t begin more value_at))
        | inr other ↦ (rw (equals, other) rest_of.0, rw other rest_of.1)
      ]

  -- The value that is found stands where its tree is written.
  located_field-at :
      (fs : Fields) (c : ℕ) (rest : List ℕ) (t : Tree)
      → Holds buffer c (encode_fields fs ++ rest)
      → field_of key fs ≡ some t
      → (at : ℕ) × (more : List ℕ) × (located_field c key fs ≡ some (locate at t))
        × Holds buffer at (encode t ++ more)
  unfolding located_field field_of
  located_field-at end c rest t e found = cc
  located_field-at (field k t' fs) c rest t e found =
      let more = encode_fields fs ++ rest in
      let bytes = fields_bytes buffer k t' fs rest c e in
      let begin = c + length (encode_string k) in
      let value_at = Holds-advance buffer c (encode_string k) (encode t' ++ more) bytes in
      let after = Holds-advance buffer begin (encode t') more value_at in
      elim (Bool-cases (same_bytes k key)) [
        | inl same ↦
            let here : some t' ≡ some t = rw same at found in
            let is_t : t' ≡ t = cc in
            (
              begin,
              more,
              rw same (ap (λ x. some (locate begin x)) is_t),
              subst (λ x. Holds buffer begin (encode x ++ more)) is_t value_at,
            )
        | inr other ↦
            rw other
              (located_field-at fs (begin + length (encode t')) rest t after (rw other at found))
      ]

  located_field-none :
      (fs : Fields) (c : ℕ) → field_of key fs ≡ none → located_field c key fs ≡ none
  unfolding located_field field_of
  located_field-none end c found = refl
  located_field-none (field k t fs) c found = elim (Bool-cases (same_bytes k key)) [
    | inl same ↦ let wrong : ◌≡◌ {A = Option Tree} (some t) none = rw same at found in cc
    | inr other ↦ rw other (located_field-none fs _ (rw other at found))
  ]

  -- A key that the fields have is found, at its tree.
  pub lookup-some :
      (fs : Fields) (c : ℕ) (rest : List ℕ) (t : Tree)
      → Holds buffer c (encode_fields fs ++ rest)
      → field_of key fs ≡ some t
      → (at : ℕ) × (more : List ℕ) × (get_ben_value_by_key buffer (locate_fields c fs) key
          ≡ ok (some (locate at t)))
        × Holds buffer at (encode t ++ more)
  lookup-some fs c rest t e found =
      let (at, more, place, there) = located_field-at fs c rest t e found in
      (at, more, (located_field_lem fs c rest e).0 ∙ ap ok place, there)

  -- A key that they do not have is not.
  pub lookup-none :
      (fs : Fields) (c : ℕ) (rest : List ℕ)
      → Holds buffer c (encode_fields fs ++ rest)
      → field_of key fs ≡ none
      → get_ben_value_by_key buffer (locate_fields c fs) key ≡ ok none
  lookup-none fs c rest e found =
      (located_field_lem fs c rest e).0 ∙ ap ok (located_field-none fs c found)

-- In a parsed dictionary, `get_BEN_value_by_key` finds the value of the first field whose key is
-- exactly the C string, and NULL when there is none.
pub get_ben_value_by_key-Stands :
    (before : List ℕ) (fs : Fields) (rest key : List ℕ)
    → length (before ++ (encode_fields fs ++ rest)) < 2 ^ 31
    → All (λ k. 0 < k) key
    → let buffer = before ++ (encode_fields fs ++ rest) in
      (v : Option BenValue) × (get_ben_value_by_key buffer (locate_fields (length before) fs) key
        ≡ ok v)
      × Stands buffer v (field_of key fs)
get_ben_value_by_key-Stands before fs rest key small nonzero =
    let found =
      located_field_lem (before ++ (encode_fields fs ++ rest)) small key nonzero fs (length before)
        rest (drop-append before (encode_fields fs ++ rest)) in
    (located_field (length before) key fs, found.0, found.1)
