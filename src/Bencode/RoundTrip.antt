-- ===== src/Bencode/RoundTrip.antt =====
-- The parser reads back every tree that is written in its buffer.
use bite_bit_bitten.Common.{
  ℕ, zero, suc, ◌+◌, ◌-◌, ◌*◌, ◌^◌, ◌<◌, ◌≡◌, refl, sym, ap, ap₂, ◌∙◌, List, [], ◌∷◌, ◌++◌,
  append_assoc, append-nil, arith, length, take, drop, length-append, drop-append, take-append,
  slice,
}
use bite_bit_bitten.Common.Outcome.{ok}
use bite_bit_bitten.Bencode.{BenValue, BenPair}
use bite_bit_bitten.Bencode.Parser.{parse_value, list_items, parse_dict, dict_pairs}
use bite_bit_bitten.Bencode.Tree.{
  Tree, Trees, Fields, number, string, list, dict, nil, cons, end, field, decimal, signed_decimal,
  encode_string, encode, encode_items, encode_fields, locate_string, locate, locate_items,
  locate_fields, view, view_items, view_fields, InRange, InRangeItems, InRangeFields,
}
use bite_bit_bitten.Bencode.Read.{
  Holds, Holds-advance, Holds-next, parse_raw_string_lem, parse_string_lem, parse_num_lem,
}
use bite_bit_bitten.Bencode.Step.{
  parse_value-number, parse_value-list, parse_value-dict, parse_value-string, list_items-cons,
  list_items-end, dict_pairs-cons, dict_pairs-end, parse_list_lem, parse_dict_lem,
}
use bite_bit_bitten.Bencode.Written.{
  encode_string-head, encode-head, length-encode_pos, items_pos, fields_pos, items_end, fields_end,
  fields_bytes,
}

module _ (buffer : List ℕ) (small : length buffer < 2 ^ 31) where
  pub slice_at :
      (c : ℕ) (s rest : List ℕ)
      → Holds buffer c (encode_string s ++ rest)
      → slice buffer (locate_string c s).start (length s) ≡ s
  slice_at c s rest e =
      let prefix = decimal (length s) ++ b':' ∷ [] in
      let e' =
        e
        ∙ append_assoc (decimal (length s)) (b':' ∷ s) rest
        ∙ sym (append_assoc (decimal (length s)) (b':' ∷ []) (s ++ rest)) in
      let at = Holds-advance buffer c prefix (s ++ rest) e' in
      let same = length-append (decimal (length s)) (b':' ∷ []) in
      ap (λ n. take (length s) (drop (c + n) buffer)) (sym same)
      ∙ ap (take (length s)) at
      ∙ take-append s rest

  mutual
    unfolding encode locate

    parse_value_at :
        (t : Tree) (f c : ℕ) (rest : List ℕ)
        → InRange t
        → 2 * length (encode t) < f
        → Holds buffer c (encode t ++ rest)
        → parse_value buffer f c ≡ ok (locate c t, c + length (encode t))
    parse_value_at t zero c rest r h e = absurd (omega arith)
    parse_value_at (number z) (suc f) c rest r h e =
        let bytes = e ∙ ap (λ l. b'i' ∷ l) (append_assoc (signed_decimal z) (b'e' ∷ []) rest) in
        rw (parse_value-number buffer small f c _ e, parse_num_lem buffer small c z rest r bytes)
          (ground (arith, length-append (signed_decimal z) (b'e' ∷ [])))
    parse_value_at (string s) (suc f) c rest r h e =
        let head = encode_string-head s in
        rw (
          parse_value-string buffer small f c head.0 (head.1 ++ rest) head.3
              (e ∙ ap (λ l. l ++ rest) head.2),
          parse_string_lem buffer small c s rest e,
        )
    parse_value_at (list ts) (suc zero) c rest r h e = absurd (omega (arith, items_pos ts))
    parse_value_at (list ts) (suc (suc f)) c rest r h e =
        let inner = Holds-next buffer c b'l' (encode_items ts ++ rest) e in
        let stop = c + 1 + (length (encode_items ts) - 1) in
        let items = list_items_at ts f (c + 1) rest r (omega arith) inner in
        rw
          (
            parse_value-list buffer small (suc f) c _ e,
            parse_list_lem buffer small f c stop _ _ rest e items
                (items_end buffer (c + 1) ts rest inner),
          )
          (ground (arith, items_pos ts))
    parse_value_at (dict fs) (suc zero) c rest r h e = absurd (omega (arith, fields_pos fs))
    parse_value_at (dict fs) (suc (suc f)) c rest r h e =
        let inner = Holds-next buffer c b'd' (encode_fields fs ++ rest) e in
        let stop = c + 1 + (length (encode_fields fs) - 1) in
        let pairs = dict_pairs_at fs f (c + 1) rest r (omega arith) inner in
        rw
          (
            parse_value-dict buffer small (suc f) c _ e,
            parse_dict_lem buffer small f c stop _ _ rest e pairs
                (fields_end buffer (c + 1) fs rest inner),
          )
          (ground (arith, fields_pos fs))

    list_items_at :
        (ts : Trees) (f c : ℕ) (rest : List ℕ)
        → InRangeItems ts
        → 2 * length (encode_items ts) < f
        → Holds buffer c (encode_items ts ++ rest)
        → list_items buffer f c ≡ ok (locate_items c ts, c + (length (encode_items ts) - 1))
    list_items_at ts zero c rest r h e = absurd (omega arith)
    list_items_at nil (suc f) c rest r h e =
        rw (list_items-end buffer small f c rest e) (ground arith)
    list_items_at (cons t ts) (suc f) c rest r h e =
        let head = encode-head t in
        let bytes = e ∙ append_assoc (encode t) (encode_items ts) rest in
        let more = encode_items ts ++ rest in
        let after = Holds-advance buffer c (encode t) more bytes in
        let total = length-append (encode t) (encode_items ts) in
        let some_items = items_pos ts in
        let some_bytes = length-encode_pos t in
        rw
          (
            list_items-cons buffer small f c head.0 (head.1 ++ more) head.3
                (bytes ∙ ap (λ l. l ++ more) head.2),
            parse_value_at t f c more r.0 (omega arith) bytes,
            list_items_at ts f (c + length (encode t)) rest r.1 (omega arith) after,
          )
          (ground arith)

    dict_pairs_at :
        (fs : Fields) (f c : ℕ) (rest : List ℕ)
        → InRangeFields fs
        → 2 * length (encode_fields fs) < f
        → Holds buffer c (encode_fields fs ++ rest)
        → dict_pairs buffer f c ≡ ok (locate_fields c fs, c + (length (encode_fields fs) - 1))
    dict_pairs_at fs zero c rest r h e = absurd (omega arith)
    dict_pairs_at end (suc f) c rest r h e =
        rw (dict_pairs-end buffer small f c rest e) (ground arith)
    dict_pairs_at (field k t fs) (suc f) c rest r h e =
        let head = encode_string-head k in
        let more = encode_fields fs ++ rest in
        let bytes = fields_bytes buffer k t fs rest c e in
        let value_at = Holds-advance buffer c (encode_string k) (encode t ++ more) bytes in
        let after = Holds-advance buffer (c + length (encode_string k)) (encode t) more value_at in
        let total = length-append (encode_string k) (encode t ++ encode_fields fs) in
        let inner = length-append (encode t) (encode_fields fs) in
        let some_fields = fields_pos fs in
        let some_bytes = length-encode_pos t in
        rw
          (
            dict_pairs-cons buffer small f c head.0 (head.1 ++ (encode t ++ more)) (ground arith)
                (bytes ∙ ap (λ l. l ++ (encode t ++ more)) head.2),
            parse_raw_string_lem buffer small c k (encode t ++ more) bytes,
            parse_value_at t f (c + length (encode_string k)) more r.0 (omega arith) value_at,
            dict_pairs_at fs f (c + length (encode_string k) + length (encode t)) rest r.1
                (omega arith) after,
          )
          (ground arith)

  mutual
    unfolding encode locate view

    pub view-locate_at :
        (t : Tree) (c : ℕ) (rest : List ℕ)
        → Holds buffer c (encode t ++ rest)
        → view buffer (locate c t) ≡ t
    view-locate_at (number z) c rest e = refl
    view-locate_at (string s) c rest e = ap string (slice_at c s rest e)
    view-locate_at (list ts) c rest e =
        ap list (view-locate_items ts (c + 1) rest (Holds-next buffer c b'l' _ e))
    view-locate_at (dict fs) c rest e =
        ap dict (view-locate_fields fs (c + 1) rest (Holds-next buffer c b'd' _ e))

    view-locate_items :
        (ts : Trees) (c : ℕ) (rest : List ℕ)
        → Holds buffer c (encode_items ts ++ rest)
        → view_items buffer (locate_items c ts) ≡ ts
    view-locate_items nil c rest e = refl
    view-locate_items (cons t ts) c rest e =
        let bytes = e ∙ append_assoc (encode t) (encode_items ts) rest in
        let after = Holds-advance buffer c (encode t) (encode_items ts ++ rest) bytes in
        ap₂ cons (view-locate_at t c (encode_items ts ++ rest) bytes)
          (view-locate_items ts (c + length (encode t)) rest after)

    view-locate_fields :
        (fs : Fields) (c : ℕ) (rest : List ℕ)
        → Holds buffer c (encode_fields fs ++ rest)
        → view_fields buffer (locate_fields c fs) ≡ fs
    view-locate_fields end c rest e = refl
    view-locate_fields (field k t fs) c rest e =
        let more = encode_fields fs ++ rest in
        let bytes = fields_bytes buffer k t fs rest c e in
        let value_at = Holds-advance buffer c (encode_string k) (encode t ++ more) bytes in
        let after = Holds-advance buffer (c + length (encode_string k)) (encode t) more value_at in
        cc (
          slice_at c k (encode t ++ more) bytes,
          view-locate_at t (c + length (encode_string k)) more value_at,
          view-locate_fields fs (c + length (encode_string k) + length (encode t)) rest after,
        )

-- With more fuel than twice the bytes of a tree, the parser reads the tree off any place of a buffer
-- of less than 2 GiB that holds it, stops right behind it, and gives a parse tree that stands for it.
-- The numbers of the tree are `int64_t`.
pub parse_value-encode :
    (before : List ℕ) (t : Tree) (rest : List ℕ) (f : ℕ)
    → length (before ++ (encode t ++ rest)) < 2 ^ 31
    → InRange t
    → 2 * length (encode t) < f
    → let buffer = before ++ (encode t ++ rest) in
      (v : BenValue) × (parse_value buffer f (length before)
        ≡ ok (v, length before + length (encode t)))
      × (view buffer v ≡ t)
parse_value-encode before t rest f small r fuel =
    let buffer = before ++ (encode t ++ rest) in
    let at = drop-append before (encode t ++ rest) in
    (
      locate (length before) t,
      parse_value_at buffer small t f (length before) rest r fuel at,
      view-locate_at buffer small t (length before) rest at,
    )

-- A file that is a written dictionary parses to the tree of its fields, which stand behind its first
-- byte.
pub parse_dict-locate :
    (fs : Fields) (f : ℕ)
    → length (encode (dict fs)) < 2 ^ 31
    → InRange (dict fs)
    → 2 * length (encode (dict fs)) < f
    → let buffer = encode (dict fs) in
      (parse_dict buffer f 0 ≡ ok (BenValue.dict (locate_fields 1 fs), length buffer))
      × Holds buffer 1 (encode_fields fs ++ [])
unfolding locate encode
parse_dict-locate fs f small r fuel =
    let buffer = encode (dict fs) in
    let at : Holds buffer 0 (buffer ++ []) = sym (append-nil buffer) in
    (
      sym (parse_value-dict buffer small f 0 _ refl)
          ∙ parse_value_at buffer small (dict fs) (suc f) 0 [] r (omega arith) at
          ∙ ap (λ n. ok (BenValue.dict (locate_fields 1 fs), n)) (omega arith),
      Holds-next buffer 0 b'd' _ at,
    )

-- `parse_dict` reads a whole file of less than 2 GiB that is a written dictionary, to its last byte,
-- and the result stands for that dictionary, when its numbers are `int64_t`.
pub parse_dict-encode :
    (fs : Fields) (f : ℕ)
    → length (encode (dict fs)) < 2 ^ 31
    → InRange (dict fs)
    → 2 * length (encode (dict fs)) < f
    → let buffer = encode (dict fs) in
      (d : BenPair) × (parse_dict buffer f 0 ≡ ok (BenValue.dict d, length buffer))
      × (view_fields buffer d ≡ fs)
parse_dict-encode fs f small r fuel =
    let (parsed, at) = parse_dict-locate fs f small r fuel in
    (locate_fields 1 fs, parsed, view-locate_fields (encode (dict fs)) small fs 1 [] at)
