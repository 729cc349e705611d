-- ===== src/Resume/RoundTrip.antt =====
-- A resume file that was written is read back, and one that is cut off is refused.
use bite_bit_bitten.Common.{
  ℕ, zero, suc, ◌+◌, ◌^◌, ◌≤◌, ◌<◌, ◌≡◌, refl, sym, ap, ◌∙◌, ◌⊎◌, inl, inr, true, false, some, List,
  [], ◌∷◌, ◌++◌, append-nil, arith, ◌==◌, Bool-cases, length, take, drop, length-append,
  length-take, u32, strlen, le_bytes, le_word, take_all,
}
use bite_bit_bitten.Common.Outcome.{ok, ◌>>=◌, >>=-eq-ok, ok-injective}
use bite_bit_bitten.Resume.{
  Kept, Files, pig_name, Calls, create_resume_file, read_all, read_kept, read_resume_file,
}
use bite_bit_bitten.Resume.Atomic.{kept_bytes, create_resume_file_lem}
use bite_bit_bitten.Resume.ReadBack.{Gives, read_all_append, read_all-short}

le_word-le_bytes : (x : ℕ) → x < 2 ^ 32 → le_word (le_bytes x ++ []) ≡ x
le_word-le_bytes x small = omega arith

-- A first part of two lists ends in one of them.
take_append-cases {ℓ} :
    {A : Type ℓ} (xs ys : List A) (k : ℕ)
    → k < length xs + length ys
    → ((k < length xs) × (length (take k (xs ++ ys)) ≡ k))
      ⊎ ((j : ℕ) × (j < length ys) × (take k (xs ++ ys) ≡ xs ++ take j ys))
take_append-cases [] ys k h = inr (k, omega (arith, h), refl)
take_append-cases (x ∷ xs) ys zero h = inl (omega arith, refl)
take_append-cases (x ∷ xs) ys (suc k) h = elim (take_append-cases xs ys k (omega arith)) [
  | inl early ↦ inl (omega (arith, early.0), ap suc early.1)
  | inr late ↦ inr (late.0, late.1, ap (λ l. x ∷ l) late.2)
]

-- the fields of a resume file, in the order in which they stand
abbrev pub fields : List ℕ → List ℕ → List ℕ
fields path bits = le_bytes (length path) ++ (path ++ (le_bytes (length bits) ++ bits))

-- The torrent after it has read them: each buffer keeps what is behind the bytes that were read.
abbrev pub with_fields : Kept → List ℕ → List ℕ → Kept
with_fields torrent path bits = record torrent {
  download_path = path ++ drop (length path) torrent.download_path;
  bitfield_length = length bits;
  bitfield = bits ++ drop (length bits) torrent.bitfield;
}

module _ (read : List ℕ → ℕ → ℕ) (gives : Gives read) (torrent : Kept) (path bits : List ℕ) where
  module _ (path_small : length path < 2 ^ 32) (bits_small : length bits < 2 ^ 32)
      (path_room : length path ≤ length torrent.download_path)
      (bits_room : length bits ≤ length torrent.bitfield) where
    read_kept_lem :
        read_kept read torrent (fields path bits) ≡ ok (true, with_fields torrent path bits)
    unfolding read_kept
    read_kept_lem =
        let behind = le_bytes (length bits) ++ bits in
        let a =
          read_all_append read gives (le_bytes (length path)) (path ++ behind) (le_bytes 0)
            (omega arith) in
        let b = read_all_append read gives path behind torrent.download_path path_room in
        let c =
          read_all_append read gives (le_bytes (length bits)) bits
            (le_bytes torrent.bitfield_length) (omega arith) in
        let d = read_all_append read gives bits [] torrent.bitfield bits_room in
        let d' = rw (append-nil bits) at d in
        rw
          (
            a,
            le_word-le_bytes (length path) path_small,
            b,
            c,
            le_word-le_bytes (length bits) bits_small,
            d',
          )
          refl

    cut_bits :
        (k : ℕ)
        → k < length bits
        → read_all read (take k bits) torrent.bitfield (length bits)
          ≡ ok (false, take k bits ++ drop k torrent.bitfield, [])
    cut_bits k early =
        let size : length (take k bits) ≡ k = omega (arith, length-take k bits) in
        read_all-short read gives (take k bits) torrent.bitfield (length bits) (omega arith)
          (omega arith)
        ∙ ap (λ n. ok (false, take k bits ++ drop n torrent.bitfield, [])) size

    -- the four places where the file can end
    read_kept-cut :
        (k : ℕ)
        → k < length (fields path bits)
        → (read_kept read torrent (take k (fields path bits)) >>= λ r. ok r.0) ≡ ok false
    unfolding read_kept
    read_kept-cut k early =
        let count = le_bytes (length bits) in
        let start = le_bytes (length path) in
        let behind = count ++ bits in
        let sizes = length-append path behind in
        let path_len = le_word-le_bytes (length path) path_small in
        let bits_len = le_word-le_bytes (length bits) bits_small in
        let old = le_bytes torrent.bitfield_length in
        elim (take_append-cases start (path ++ behind) k (omega (arith, early))) [
          | inl h ↦
              rw
                (read_all-short read gives (take k (fields path bits)) (le_bytes 0) 4
                  (omega (arith, h)) (omega (arith, h)))
                refl
          | inr (k₁, h₁, e₁) ↦
              let a =
                read_all_append read gives start (take k₁ (path ++ behind)) (le_bytes 0)
                  (omega arith) in
              elim (take_append-cases path behind k₁ (omega (arith, h₁, sizes))) [
                | inl h ↦
                    rw
                      (
                        e₁,
                        a,
                        path_len,
                        read_all-short read gives (take k₁ (path ++ behind)) torrent.download_path
                            (length path) (omega (arith, h)) (omega (arith, h)),
                      )
                      refl
                | inr (k₂, h₂, e₂) ↦
                    let b =
                      read_all_append read gives path (take k₂ behind) torrent.download_path
                        path_room in
                    elim (take_append-cases count bits k₂ (omega (arith, h₂))) [
                      | inl h ↦
                          rw
                            (
                              e₁,
                              a,
                              path_len,
                              e₂,
                              b,
                              read_all-short read gives (take k₂ behind) old 4 (omega (arith, h))
                                  (omega (arith, h)),
                            )
                            refl
                      | inr (k₃, h₃, e₃) ↦
                          rw
                            (
                              e₁,
                              a,
                              path_len,
                              e₂,
                              b,
                              e₃,
                              read_all_append read gives count (take k₃ bits) old (omega arith),
                              bits_len,
                              cut_bits k₃ h₃,
                            )
                            refl
                    ]
              ]
        ]

strlen-le : (xs : List ℕ) (n : ℕ) → strlen xs ≡ ok n → n ≤ length xs
strlen-le [] n h = cc
strlen-le (x ∷ xs) n h = elim (Bool-cases (x == 0)) [
  | inl end ↦ let zero_len : ok 0 ≡ ok n = rw end at h in omega (arith, ok-injective zero_len)
  | inr more ↦
      let chain : (strlen xs >>= λ m. ok (suc m)) ≡ ok n = rw more at h in
      let (m, found, next) = >>=-eq-ok (strlen xs) (λ m. ok (suc m)) chain in
      omega (arith, strlen-le xs m found, ok-injective next)
]

kept_bytes-fields :
    (torrent : Kept) (len : ℕ)
    → len < 2 ^ 32
    → length (take len torrent.download_path) ≡ len
    → torrent.bitfield_length ≡ length torrent.bitfield
    → kept_bytes torrent len ≡ fields (take len torrent.download_path) torrent.bitfield
kept_bytes-fields torrent len small size bits =
    let word : u32 len ≡ len = omega arith in
    rw (word, size, bits, take_all (length torrent.bitfield) torrent.bitfield (omega arith)) refl

-- A `create_resume_file` that answers true has left a file that `read_resume_file` reads back into any
-- torrent whose buffers have the room: the answer is true, the buffer of the path begins with the
-- path, and the bitfield and its length are those that were written. `write` takes no more than it
-- is given, `read` gives no more than there is and something while there is, and the names fit.
pub read_resume_file-create_resume_file :
    (write : List ℕ → List ℕ → ℕ) (read : List ℕ → ℕ → ℕ) (calls : Calls) (torrent other : Kept)
    (dir : List ℕ) (files after : Files) (len : ℕ)
    → ((f b : List ℕ) → write f b ≤ length b)
    → Gives read
    → strlen torrent.download_path ≡ ok len
    → len < 2 ^ 32
    → torrent.bitfield_length ≡ length torrent.bitfield
    → torrent.bitfield_length < 2 ^ 32
    → length dir + length torrent.name < 1019
    → len ≤ length other.download_path
    → torrent.bitfield_length ≤ length other.bitfield
    → create_resume_file write calls torrent dir files ≡ ok (true, after)
    → read_resume_file read other (after (pig_name dir torrent.name))
      ≡ ok (true, with_fields other (take len torrent.download_path) torrent.bitfield)
unfolding read_resume_file
read_resume_file-create_resume_file write read calls torrent other dir files after len most gives
      path path_small bits bits_small names path_room bits_room created =
    let pig = pig_name dir torrent.name in
    let done =
      create_resume_file_lem write calls torrent dir files len most path (omega (arith, bits))
        names in
    let same = ok-injective (sym done.2 ∙ created) in
    let content : after pig ≡ some (kept_bytes torrent len) =
      sym (ap (λ r. r.1 pig) same) ∙ done.4 (ap (λ r. r.0) same) in
    let path_bytes = take len torrent.download_path in
    let size : length path_bytes ≡ len =
      omega
        (arith, length-take len torrent.download_path, strlen-le torrent.download_path len path) in
    let layout = kept_bytes-fields torrent len path_small size bits in
    let back =
      read_kept_lem read gives other path_bytes torrent.bitfield (omega (arith, size))
        (omega (arith, bits)) (omega (arith, size)) (omega (arith, bits)) in
    ap (read_resume_file read other) (content ∙ ap some layout) ∙ back

-- A resume file that is cut off anywhere is refused, when the reader's buffers have the room for the
-- path and the bitfield that were written and both are shorter than 4 GiB: when the file holds only a
-- first part of what `create_resume_file` writes, `read_resume_file` answers false. `read` gives no
-- more than there is and something while there is.
pub read_resume_file-cut :
    (read : List ℕ → ℕ → ℕ) (other : Kept) (path bits : List ℕ) (k : ℕ)
    → Gives read
    → length path < 2 ^ 32
    → length bits < 2 ^ 32
    → length path ≤ length other.download_path
    → length bits ≤ length other.bitfield
    → k < length (fields path bits)
    → (read_resume_file read other (some (take k (fields path bits))) >>= λ r. ok r.0) ≡ ok false
unfolding read_resume_file
read_resume_file-cut read other path bits k gives path_small bits_small path_room bits_room early =
    read_kept-cut read gives other path bits path_small bits_small path_room bits_room k early
