-- ===== src/Logs/Buffer.antt =====
-- Theorems on the buffer of LogCollector (maubot/management/api/log.py).
use mathlib.Core.List.{append_assoc, append-nil}
use maubot.Base.{
  if◌then◌else◌, false, ◌<◌, true, inl, inr, sym, sym, Bool-cases, zero, ℕ, suc, ◌-◌, ◌≤◌, List, [],
  ◌∷◌, ◌++◌, ◌≡◌, refl, arith, leb, ap, ◌∙◌,
}
use maubot.Base.Lists.{length, length-append}
use maubot.Logs.{push, tail}

leb_sound : (m n : ℕ) → leb m n ≡ true → m ≤ n
leb_sound m n e = ground arith

leb-true : (m n : ℕ) → m ≤ n → leb m n ≡ true
leb-true m n le = ground arith

leb-false : (m n : ℕ) → n < m → leb m n ≡ false
leb-false m n lt = ground arith

leb_not : (m n : ℕ) → leb m n ≡ false → n < m
leb_not m n e = ground arith

module _ {A : Type 0} where
  -- xs[n:]
  unfoldable pub drop : ℕ → List A → List A
  drop zero xs = xs
  drop (suc n) [] = []
  drop (suc n) (x ∷ xs) = drop n xs

  -- The lines that are kept of the lines that came in, in order.
  unfoldable pub push_all : ℕ → List A → List A → List A
  push_all n kept [] = kept
  push_all n kept (x ∷ xs) = push_all n (push n kept x) xs

  -- The last n elements
  unfoldable pub latest : ℕ → List A → List A
  latest n xs = drop (length xs - n) xs

  drop-nil : (k : ℕ) → drop k [] ≡ []
  unfolding drop
  drop-nil zero = refl
  drop-nil (suc k) = refl

  length-drop : (k : ℕ) (xs : List A) → length (drop k xs) ≡ length xs - k
  unfolding drop
  length-drop zero xs = omega arith
  length-drop (suc k) [] = omega arith
  length-drop (suc k) (x ∷ xs) = omega (arith, length-drop k xs)

  drop-snoc :
      (k : ℕ) (xs : List A) (x : A)
      → k ≤ length xs
      → drop k (xs ++ (x ∷ [])) ≡ drop k xs ++ (x ∷ [])
  unfolding drop
  drop-snoc zero xs x le = refl
  drop-snoc (suc k) [] x le = ground (arith, le)
  drop-snoc (suc k) (y ∷ xs) x le = drop-snoc k xs x (omega (arith, le))

  tail-drop : (k : ℕ) (xs : List A) → tail (drop k xs) ≡ drop (suc k) xs
  unfolding drop tail
  tail-drop zero [] = refl
  tail-drop zero (x ∷ xs) = refl
  tail-drop (suc k) [] = refl
  tail-drop (suc k) (x ∷ xs) = tail-drop k xs

  push-latest : (n : ℕ) (xs : List A) (x : A) → push n (latest n xs) x ≡ latest n (xs ++ (x ∷ []))
  unfolding push latest
  push-latest n xs x = elim (Bool-cases (leb n (length xs))) [
    | inl full ↦
        let k = length xs - n in
        let le = leb_sound n (length xs) full in
        ap (λ b. if b then tail (drop k xs ++ (x ∷ [])) else drop k xs ++ (x ∷ []))
          (leb-true n (length (drop k xs)) (omega (arith, le, length-drop k xs)))
        ∙ (ap tail (sym (drop-snoc k xs x (omega arith)))
            ∙ (tail-drop k (xs ++ (x ∷ []))
                ∙ ap (λ j. drop j (xs ++ (x ∷ []))) (omega (arith, le, length-append xs (x ∷ [])))))
    | inr free ↦
        let k = length xs - n in
        let lt = leb_not n (length xs) free in
        ap (λ b. if b then tail (drop k xs ++ (x ∷ [])) else drop k xs ++ (x ∷ []))
          (leb-false n (length (drop k xs)) (omega (arith, lt, length-drop k xs)))
        ∙ (sym (drop-snoc k xs x (omega arith))
            ∙ ap (λ j. drop j (xs ++ (x ∷ []))) (omega (arith, lt, length-append xs (x ∷ []))))
  ]

  push_all-latest :
      (n : ℕ) (seen xs : List A) → push_all n (latest n seen) xs ≡ latest n (seen ++ xs)
  unfolding push_all latest
  push_all-latest n seen [] = ap (latest n) (sym (append-nil seen))
  push_all-latest n seen (x ∷ xs) =
      ap (λ kept. push_all n kept xs) (push-latest n seen x)
      ∙ (push_all-latest n (seen ++ (x ∷ [])) xs ∙ ap (latest n) (append_assoc seen (x ∷ []) xs))

  -- A deque of length n that was empty holds the last n of the elements that were appended to it, in
  -- their order, and so at most n.
  pub push_all-refines :
      (n : ℕ) (xs : List A) → (push_all n [] xs ≡ latest n xs) × (length (push_all n [] xs) ≤ n)
  unfolding latest
  push_all-refines n xs =
      let same = ap (λ l. push_all n l xs) (sym (drop-nil (0 - n))) ∙ push_all-latest n [] xs in
      (same, omega (arith, ap length same, length-drop (length xs - n) xs))
