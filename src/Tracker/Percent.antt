-- ===== src/Tracker/Percent.antt =====
-- `HTTP_url_encode_hash` of announcer/announcer.c against the decoding of percent signs.
use bite_bit_bitten.Common.{
  ℕ, ◌+◌, ◌-◌, ◌*◌, ◌/◌, ◌%◌, ◌<◌, ◌≡◌, refl, ap, ap₂, ◌∙◌, List, [], ◌∷◌, ◌++◌, arith, leb, ◌==◌,
  if◌then◌else◌, le→leb, length, take, All, take_all,
}
use bite_bit_bitten.Common.Outcome.{ok}
use bite_bit_bitten.Peer.Bits.{IsByte}
use bite_bit_bitten.Tracker.Url.{hex_digit, percent_all, http_url_encode_hash}

-- the value of a hexadecimal digit with capital letters
abbrev pub digit_value : ℕ → ℕ
digit_value c = if leb c b'9' then c - b'0' else c - b'A' + 10

-- what a server reads: two digits after each percent sign, up to a 0
unfoldable pub percent_decode : List ℕ → List ℕ
percent_decode [] = []
percent_decode (c ∷ []) = c ∷ []
percent_decode (c ∷ h ∷ []) = c ∷ h ∷ []
percent_decode (c ∷ h ∷ l ∷ rest) =
    if c == b'%'
    then (digit_value h * 16 + digit_value l) ∷ percent_decode rest
    else c ∷ percent_decode (h ∷ l ∷ rest)

digit_value-hex_digit : (d : ℕ) → d < 16 → digit_value (hex_digit d) ≡ d
digit_value-hex_digit d small = ground (arith, small)

percent_decode-percent_all :
    (bytes : List ℕ) → All IsByte bytes → percent_decode (percent_all bytes) ≡ bytes
unfolding percent_decode
percent_decode-percent_all [] h = refl
percent_decode-percent_all (b ∷ bytes) h =
    let high = digit_value-hex_digit (b / 16) (omega (arith, h)) in
    let low = digit_value-hex_digit (b % 16) (omega arith) in
    let whole : b / 16 * 16 + b % 16 ≡ b = omega arith in
    ap₂ (λ x y. (x * 16 + y) ∷ percent_decode (percent_all bytes)) high low
    ∙ ap₂ (λ x rest. x ∷ rest) whole (percent_decode-percent_all bytes h.1)

length-percent_all : (bytes : List ℕ) → length (percent_all bytes) ≡ 3 * length bytes
length-percent_all [] = omega arith
length-percent_all (b ∷ bytes) = omega (arith, length-percent_all bytes)

-- The text of a hash of twenty bytes has sixty characters and the 0 behind them, and decoding its
-- percent signs gives the hash.
pub http_url_encode_hash_lem :
    (hash_info : List ℕ)
    → length hash_info ≡ 20
    → All IsByte hash_info
    → (text : List ℕ) × (http_url_encode_hash hash_info ≡ ok (text ++ 0 ∷ []))
      × (length text ≡ 60)
      × (percent_decode text ≡ hash_info)
unfolding http_url_encode_hash
http_url_encode_hash_lem hash_info size bytes =
    let whole : take 20 hash_info ≡ hash_info = take_all 20 hash_info (omega arith) in
    (
      percent_all hash_info,
      rw (le→leb 20 (length hash_info) (omega arith))
          (ap (λ h. ok (percent_all h ++ 0 ∷ [])) whole),
      omega (arith, length-percent_all hash_info, size),
      percent_decode-percent_all hash_info bytes,
    )
