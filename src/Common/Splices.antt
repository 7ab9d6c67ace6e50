-- ===== src/Common/Splices.antt =====
-- Runs of a list: what stands in a run after the run, or another one, was written.
use native.Mathlib.Nat.{zero-add, suc-add}
use Prim.Native.Nat.{ℕ, zero, suc, ◌+◌, ◌-◌, ◌≤◌}
use mathlib.Core.Path.{◌≡◌, refl, ap, ◌∙◌}
use mathlib.Core.List.{List, [], ◌∷◌, ◌++◌, append_assoc}
use native.Mathlib.Omega.{arith}
use cyclone_cache.Common.Lists.{
  length, take, drop, length-append, length-take_of_le, length-drop, take-append_of_length,
  drop-append_of_length,
}

-- The `k` elements from position `m` on, replaced by `b`.
unfoldable pub splice {ℓ} : {A : Type ℓ} → ℕ → ℕ → List A → List A → List A
splice m k b xs = take m xs ++ b ++ drop (m + k) xs

module _ {ℓ} {A : Type ℓ} where
  pub take-append-drop : (n : ℕ) (xs : List A) → take n xs ++ drop n xs ≡ xs
  take-append-drop zero xs = refl
  take-append-drop (suc n) [] = refl
  take-append-drop (suc n) (x ∷ xs) = ap (◌∷◌ x) (take-append-drop n xs)

  pub drop-drop : (a b : ℕ) (xs : List A) → drop a (drop b xs) ≡ drop (b + a) xs
  drop-drop a zero xs = rw zero-add
  drop-drop a (suc b) [] = rw suc-add (drop-nil a)
    where
      drop-nil : (n : ℕ) → drop {A = A} n [] ≡ []
      drop-nil zero = refl
      drop-nil (suc n) = refl
  drop-drop a (suc b) (x ∷ xs) = rw suc-add (drop-drop a b xs)

  -- A list in three parts.
  pub split_run :
      (m k : ℕ) (xs : List A) → take m xs ++ (take k (drop m xs) ++ drop (m + k) xs) ≡ xs
  split_run m k xs = rw (← drop-drop k m xs, take-append-drop k (drop m xs)) (take-append-drop m xs)

  pub take-append_le : (j : ℕ) (xs ys : List A) → j ≤ length xs → take j (xs ++ ys) ≡ take j xs
  take-append_le zero xs ys h = refl
  take-append_le (suc j) [] ys h = absurd (omega arith)
  take-append_le (suc j) (x ∷ xs) ys h = ap (◌∷◌ x) (take-append_le j xs ys (omega arith))

  take-take_le : (j k : ℕ) (xs : List A) → j ≤ k → take j (take k xs) ≡ take j xs
  take-take_le zero k xs h = refl
  take-take_le (suc j) zero xs h = absurd (omega arith)
  take-take_le (suc j) (suc k) [] h = refl
  take-take_le (suc j) (suc k) (x ∷ xs) h = ap (◌∷◌ x) (take-take_le j k xs (omega arith))

  -- A run that ends before the cut.
  run_before :
      (m j k : ℕ) (xs ys : List A)
      → m + j ≤ k
      → k ≤ length xs
      → take j (drop m (take k xs ++ ys)) ≡ take j (drop m xs)
  run_before zero j k xs ys h l =
      take-append_le j (take k xs) ys (omega (arith, length-take_of_le k xs l))
      ∙ take-take_le j k xs (omega arith)
  run_before (suc m) j zero xs ys h l = absurd (omega arith)
  run_before (suc m) j (suc k) [] ys h l = absurd (omega arith)
  run_before (suc m) j (suc k) (x ∷ xs) ys h l = run_before m j k xs ys (omega arith) (omega arith)

  drop-append_ge :
      (m : ℕ) (xs ys : List A) → length xs ≤ m → drop m (xs ++ ys) ≡ drop (m - length xs) ys
  drop-append_ge m [] ys h = let e : m - 0 ≡ m = omega arith in rw e
  drop-append_ge zero (x ∷ xs) ys h = absurd (omega arith)
  drop-append_ge (suc m) (x ∷ xs) ys h =
      let e : suc m - suc (length xs) ≡ m - length xs = omega arith in
      rw e (drop-append_ge m xs ys (omega arith))

  module _ (m k : ℕ) (b xs : List A) (full : length b ≡ k) (inside : m + k ≤ length xs) where
    before : length (take m xs) ≡ m
    before = length-take_of_le m xs (omega arith)

    pub length-splice : length (splice m k b xs) ≡ length xs
    unfolding splice
    length-splice = omega (
      arith,
      length-append (take m xs ++ b) (drop (m + k) xs),
      length-append (take m xs) b,
      length-drop (m + k) xs,
      before,
    )

    -- The run reads back what was written.
    pub run-splice : take k (drop m (splice m k b xs)) ≡ b
    unfolding splice
    run-splice =
        rw (append_assoc (take m xs) b, drop-append_of_length m (take m xs) _ before)
          (take-append_of_length k b _ full)

    pub run-splice_before :
        (m' j : ℕ) → m' + j ≤ m → take j (drop m' (splice m k b xs)) ≡ take j (drop m' xs)
    unfolding splice
    run-splice_before m' j h =
        rw (append_assoc (take m xs) b) (run_before m' j m xs _ h (omega arith))

    pub run-splice-behind :
        (m' j : ℕ) → m + k ≤ m' → take j (drop m' (splice m k b xs)) ≡ take j (drop m' xs)
    unfolding splice
    run-splice-behind m' j h =
        let l : length (take m xs ++ b) ≡ m + k =
          omega (arith, length-append (take m xs) b, before) in
        let e : m + k + (m' - length (take m xs ++ b)) ≡ m' = omega arith in
        rw (drop-append_ge m' (take m xs ++ b) (drop (m + k) xs) (omega arith), drop-drop, e)

pub splice-skip {ℓ} :
    {A : Type ℓ} (n m k : ℕ) (b xs ys : List A)
    → length xs ≡ n
    → splice (n + m) k b (xs ++ ys) ≡ xs ++ splice m k b ys
unfolding splice
splice-skip zero m k b [] ys h = rw zero-add refl
splice-skip zero m k b (x ∷ xs) ys h = absurd (omega arith)
splice-skip (suc n) m k b [] ys h = absurd (omega arith)
splice-skip (suc n) m k b (x ∷ xs) ys h =
    let e : suc n + m ≡ suc (n + m) = omega arith in
    let e2 : suc (n + m) + k ≡ suc (n + m + k) = omega arith in
    rw (e, e2) (ap (◌∷◌ x) (splice-skip n m k b xs ys (omega arith)))
