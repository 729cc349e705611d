-- ===== src/Resume/WriteAll.antt =====
-- `write_all` of resume/resume.c: a `write` that takes only a part of the buffer is repeated.
use bite_bit_bitten.Common.{
  ℕ, zero, suc, ◌+◌, ◌≤◌, ◌<◌, ◌≡◌, refl, sym, ap, ◌∙◌, inl, inr, Bool, true, false, List, [], ◌∷◌,
  ◌++◌, append_assoc, append-nil, arith, ◌==◌, ==_iff, Bool-cases, length, take, drop, length-drop,
  take-add,
}
use bite_bit_bitten.Common.Outcome.{ok}
use bite_bit_bitten.Resume.{write_loop, write_all}

module _ (write : List ℕ → List ℕ → ℕ) (most : (f b : List ℕ) → write f b ≤ length b) where
  write_loop_lem :
      (fuel : ℕ) (file buf : List ℕ)
      → length buf ≤ fuel
      → (done : Bool) × (k : ℕ) × (write_loop write fuel file buf ≡ ok (done, file ++ take k buf))
        × (done ≡ true → length buf ≤ k)
        × (((f : List ℕ) (b : ℕ) (bs : List ℕ) → 0 < write f (b ∷ bs)) → done ≡ true)
  unfolding write_loop
  write_loop_lem fuel file [] h =
      (true, 0, ap (λ l. ok (true, l)) (sym (append-nil file)), λ e. omega arith, λ p. refl)
  write_loop_lem zero file (b ∷ buf) h = absurd (omega arith)
  write_loop_lem (suc fuel) file (b ∷ buf) h =
      let n = write file (b ∷ buf) in
      elim (Bool-cases (n == 0)) [
        | inl none_taken ↦ (
          false,
          0,
          rw none_taken (ap (λ l. ok (false, l)) (sym (append-nil file))),
          λ e. cc,
          λ p. absurd (omega (arith, p file b buf, (==_iff n 0).0 none_taken)),
        )
        | inr progress ↦
            let positive : 0 < n = ground (arith, progress) in
            let short : length (drop n (b ∷ buf)) ≤ fuel =
              omega (arith, length-drop n (b ∷ buf), positive) in
            let rest = write_loop_lem fuel (file ++ take n (b ∷ buf)) (drop n (b ∷ buf)) short in
            (
              rest.0,
              n + rest.1,
              rw progress (
                  rest.2
                  ∙ ap (λ l. ok (rest.0, l))
                      (append_assoc file (take n (b ∷ buf)) (take rest.1 (drop n (b ∷ buf)))
                        ∙ ap (λ l. file ++ l) (sym (take-add n rest.1 (b ∷ buf))))),
              λ e. omega (arith, rest.3 e, length-drop n (b ∷ buf), most file (b ∷ buf)),
              rest.4,
            )
      ]

  -- When the system never takes more than it is given, `write_all` comes to an end, whatever part of
  -- the buffer each `write` takes: the file has grown by a first part of the buffer, by all of it
  -- when the answer is true, and the answer is true when each `write` takes something.
  pub write_all_lem :
      (file buf : List ℕ)
      → (done : Bool) × (k : ℕ) × (write_all write file buf ≡ ok (done, file ++ take k buf))
        × (done ≡ true → length buf ≤ k)
        × (((f : List ℕ) (b : ℕ) (bs : List ℕ) → 0 < write f (b ∷ bs)) → done ≡ true)
  unfolding write_all
  write_all_lem file buf = write_loop_lem (length buf) file buf (omega arith)
