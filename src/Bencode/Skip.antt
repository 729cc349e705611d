-- ===== src/Bencode/Skip.antt =====
-- `skip_value` and the search for the bytes of the info dictionary in parser/parser.c.
use bite_bit_bitten.Common.{
  ℕ, zero, suc, Bool, true, false, ◌||◌, Option, none, some, List, [], ◌∷◌, ◌==◌, if◌then◌else◌,
  drop,
}
use bite_bit_bitten.Common.Outcome.{Outcome, ok, out_of_fuel, ◌>>=◌}
use bite_bit_bitten.Bencode.{BenString}
use bite_bit_bitten.Bencode.Strtol.{is_digit, strncmp_eq}
use bite_bit_bitten.Bencode.Parser.{peek, consume, parse_raw_string}

-- `while (consume(parser) != 'e')`
unfoldable pub skip_number : List ℕ → ℕ → ℕ → Outcome ℕ
unfolding consume
skip_number buffer zero c = out_of_fuel
skip_number buffer (suc f) c =
    let more = λ (c₁ : ℕ). skip_number buffer f c₁ in
    consume buffer c >>= λ (b, c₁). elim (b == b'e') [ true ↦ ok c₁ | false ↦ more c₁ ]

-- A byte that starts no value is left where it is.
unfoldable mutual
  unfolding peek consume parse_raw_string skip_number

  pub skip_value : List ℕ → ℕ → ℕ → Outcome ℕ
  skip_value buffer zero c = out_of_fuel
  skip_value buffer (suc f) c =
      let items = λ (c₁ : ℕ). skip_items buffer f c₁ in
      peek buffer c >>= λ (b, c).
      if b == b'd' || b == b'l'
      then (do (first, c₁) ← consume buffer c; c₂ ← items c₁; (e, c₃) ← consume buffer c₂; ok c₃)
      else if b == b'i'
      then skip_number buffer f c
      else if is_digit b
      then (parse_raw_string buffer c >>= λ (s, c₁). ok c₁)
      else ok c

  pub skip_items : List ℕ → ℕ → ℕ → Outcome ℕ
  skip_items buffer zero c = out_of_fuel
  skip_items buffer (suc f) c =
      let more = skip_value buffer f c >>= λ c₁. skip_items buffer f c₁ in
      peek buffer c >>= λ (b, c). if b == b'e' then ok c else more

-- `"info"`
abbrev pub info_key : List ℕ
info_key = b'i' ∷ b'n' ∷ b'f' ∷ b'o' ∷ []

abbrev pub is_info_key : List ℕ → BenString → Outcome Bool
is_info_key buffer key =
    if key.length == 4 then strncmp_eq (drop key.start buffer) info_key key.length else ok false

-- The loop over the keys; `none` leaves the two offsets unset.
unfoldable pub info_offset_from : List ℕ → ℕ → ℕ → Outcome (Option (ℕ × ℕ))
unfolding peek parse_raw_string skip_value
info_offset_from buffer zero c = out_of_fuel
info_offset_from buffer (suc f) c =
    let next = λ (c₁ : ℕ). info_offset_from buffer f c₁ in
    peek buffer c >>= λ (b, c). if b == b'e' then ok none else (do
      (key, c₁) ← parse_raw_string buffer c
      found ← is_info_key buffer key
      c₂ ← skip_value buffer f c₁
      if found then ok (some (c₁, c₂)) else next c₂)

unfoldable pub get_info_value_offset : List ℕ → ℕ → Outcome (Option (ℕ × ℕ))
get_info_value_offset buffer f = consume buffer 0 >>= λ (d, c). info_offset_from buffer f c
