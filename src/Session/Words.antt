-- ===== src/Session/Words.antt =====
-- `tokenize` of repl/repl.c takes a line apart into its words.
use bite_bit_bitten.Common.{
  ℕ, ◌<◌, ◌≡◌, refl, sym, ap, ◌∙◌, false, List, [], ◌∷◌, ◌++◌, append_assoc, append-nil, arith,
  length, take, All,
}
use bite_bit_bitten.Session.Commands.{is_delimiter, flush, strtok_all, tokenize}

-- words with one space between them
abbrev pub join : List (List ℕ) → List ℕ
join [] = []
join (word ∷ []) = word
join (word ∷ next ∷ words) = word ++ b' ' ∷ join (next ∷ words)

-- Bytes, at least one, none of which is a space, a tab or the end of a line.
abbrev pub IsWord : List ℕ → Type 0
IsWord word = (0 < length word) × All (λ b. is_delimiter b ≡ false) word

strtok_all-word :
    (word token rest : List ℕ)
    → All (λ b. is_delimiter b ≡ false) word
    → strtok_all (word ++ rest) token ≡ strtok_all rest (token ++ word)
unfolding strtok_all
strtok_all-word [] token rest h = ap (strtok_all rest) (sym (append-nil token))
strtok_all-word (b ∷ word) token rest h = rw h.0 (
    strtok_all-word word (token ++ b ∷ []) rest h.1
    ∙ ap (strtok_all rest) (append_assoc token (b ∷ []) word))

flush_lem :
    (word : List ℕ) (words : List (List ℕ)) → 0 < length word → flush word words ≡ word ∷ words
flush_lem [] words h = absurd (omega arith)
flush_lem (b ∷ word) words h = refl

strtok_all-join : (words : List (List ℕ)) → All IsWord words → strtok_all (join words) [] ≡ words
unfolding strtok_all
strtok_all-join [] h = refl
strtok_all-join (word ∷ []) h =
    ap (λ l. strtok_all l []) (sym (append-nil word))
    ∙ strtok_all-word word [] [] h.0.1
    ∙ flush_lem word [] h.0.0
strtok_all-join (word ∷ next ∷ words) h =
    strtok_all-word word [] (b' ' ∷ join (next ∷ words)) h.0.1
    ∙ flush_lem word (strtok_all (join (next ∷ words)) []) h.0.0
    ∙ ap (λ l. word ∷ l) (strtok_all-join (next ∷ words) h.1)

-- A line of words with one space between them is taken apart into these words, in order, up to the
-- number that `tokenize` is given.
pub tokenize-join :
    (words : List (List ℕ)) (max_args : ℕ)
    → All IsWord words
    → tokenize (join words) max_args ≡ take max_args words
unfolding tokenize
tokenize-join words max_args h = ap (take max_args) (strtok_all-join words h)
