-- ===== src/Tracker/Address.antt =====
-- `tracker_string_to_NET_tracker` of announcer/announcer.c takes apart what an address is made of.
use bite_bit_bitten.Common.{
  ℕ, ◌%◌, ◌^◌, ◌<◌, ◌≡◌, refl, ap, ap₂, ◌∙◌, ◌≢◌, inl, inr, ◌&&◌, none, some, List, [], ◌∷◌, ◌++◌,
  append_assoc, arith, ◌==◌, if◌then◌else◌, ==_iff, ==_refl, Bool-cases, take, drop, All, pos,
  to_word, same_list,
}
use bite_bit_bitten.Common.Outcome.{ok}
use bite_bit_bitten.Bencode.Strtol.{strtol}
use bite_bit_bitten.Bencode.Tree.{decimal}
use bite_bit_bitten.Bencode.Decimal.{IsDigit, decimal_digits-IsDigit, strtol-signed_decimal}
use bite_bit_bitten.Tracker.{NetTracker}
use bite_bit_bitten.Tracker.Url.{
  separator, behind, split_schema, split_at, atoi_u16, path_of, first_state,
  tracker_string_to_net_tracker,
}

split_at_lem :
    (c : ℕ) (before rest : List ℕ)
    → All (λ b. b ≢ c) before
    → split_at c (before ++ c ∷ rest) ≡ some (before, rest)
unfolding split_at
split_at_lem c [] rest h = rw (==_refl c) refl
split_at_lem c (b ∷ before) rest h = elim (Bool-cases (b == c)) [
  | inl same ↦ absurd (h.0 ((==_iff b c).0 same))
  | inr other ↦ rw (other, split_at_lem c before rest h.1) refl
]

split_schema_lem :
    (schema rest : List ℕ)
    → All (λ b. b ≢ b':') schema
    → split_schema (schema ++ (separator ++ rest)) ≡ some (schema, rest)
unfolding split_schema
split_schema_lem [] rest h = refl
split_schema_lem (b ∷ schema) rest h = elim (Bool-cases (b == b':')) [
  | inl same ↦ absurd (h.0 ((==_iff b b':').0 same))
  | inr other ↦
      let more = split_schema_lem schema rest h.1 in
      ap₂
        (λ t r.
          if t && same_list (take 2 (schema ++ (separator ++ rest))) (b'/' ∷ b'/' ∷ [])
          then some ([], drop 2 (schema ++ (separator ++ rest)))
          else behind b r)
        other more
]

All-weaken {κ ℓ} :
    (P : ℕ → Type κ) (Q : ℕ → Type ℓ) (xs : List ℕ) → ((x : ℕ) → P x → Q x) → All P xs → All Q xs
All-weaken P Q [] f h = tt
All-weaken P Q (x ∷ xs) f h = (f x h.0, All-weaken P Q xs f h.1)

-- the number in front of a path, and the path
atoi_u16-decimal :
    (port : ℕ) (path : List ℕ) → port < 2 ^ 16 → atoi_u16 (decimal port ++ b'/' ∷ path) ≡ port
atoi_u16-decimal port path small =
    let read = strtol-signed_decimal (pos port) b'/' (path ++ 0 ∷ []) (omega arith) refl in
    let word : port % 2 ^ 16 ≡ port = omega arith in
    ap (λ bytes. elim (strtol bytes) [ none ↦ 0 | some r ↦ to_word 16 r.0 ])
      (append_assoc (decimal port) (b'/' ∷ path) (0 ∷ []))
    ∙ ap (λ o. elim o [ none ↦ 0 | some r ↦ to_word 16 r.0 ]) read
    ∙ word

path_of-decimal :
    (port : ℕ) (path : List ℕ) → path_of (split_at b'/' (decimal port ++ b'/' ∷ path)) ≡ b'/' ∷ path
path_of-decimal port path =
    let digits =
      All-weaken IsDigit (λ b. b ≢ b'/') (decimal port)
        (λ b digit same. absurd (omega (arith, digit, same))) (decimal_digits-IsDigit port port) in
    ap path_of (split_at_lem b'/' (decimal port) path digits)

-- An address that is made of a schema and a host without colons, a port of 16 bits in decimal and a
-- path is taken apart into these: the tracker has them, no address yet, and the state that its schema
-- begins with.
pub tracker_string_to_net_tracker_lem :
    (schema host path : List ℕ) (port : ℕ) (track : NetTracker)
    → All (λ b. b ≢ b':') schema
    → All (λ b. b ≢ b':') host
    → port < 2 ^ 16
    → tracker_string_to_net_tracker
        (schema ++ (separator ++ (host ++ b':' ∷ (decimal port ++ b'/' ∷ path))))
        track
      ≡ ok (record track {
        schema = schema;
        host = host;
        port = port;
        path = b'/' ∷ path;
        state = first_state schema track.state;
        ip = 0;
      })
unfolding tracker_string_to_net_tracker
tracker_string_to_net_tracker_lem schema host path port track plain_schema plain_host small =
    let after = decimal port ++ b'/' ∷ path in
    rw
      (
        split_schema_lem schema (host ++ b':' ∷ after) plain_schema,
        split_at_lem b':' host after plain_host,
      )
      (ap₂
        (λ p q. ok (record track {
          schema = schema;
          host = host;
          port = p;
          path = q;
          state = first_state schema track.state;
          ip = 0;
        }))
        (atoi_u16-decimal port path small) (path_of-decimal port path))
