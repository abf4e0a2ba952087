-- ===== src/Base/Ends.antt =====
-- The ends of lists: what `take` and `drop` leave at the back of a list.
use Prim.Native.Nat.{ℕ, zero, suc, ◌+◌, ◌-◌, ◌≤◌}
use mathlib.Core.List.{List, [], reverse, reverse-append, reverse-cons, reverse-reverse, ◌++◌, ◌∷◌}
use mathlib.Core.Path.{ap, refl, sym, ◌∙◌, ◌≡◌}
use native.Mathlib.Omega.{arith}
use scpefe.Base.Lists.{
  drop, drop-append_length, length, length-append, length-drop, take, take-append-drop,
}

module _ {ℓ} {A : Type ℓ} where
  pub length-reverse : (xs : List A) → length (reverse xs) ≡ length xs
  length-reverse [] = refl
  length-reverse (x ∷ xs) =
      rw (reverse-cons x xs, length-append (reverse xs) (x ∷ []), length-reverse xs) (omega arith)

  drop_nil : (n : ℕ) (xs : List A) → xs ≡ [] → drop n xs ≡ []
  drop_nil zero xs h = h
  drop_nil (suc n) [] h = refl
  drop_nil (suc n) (x ∷ xs) h = cc

  pub drop-drop : (m n : ℕ) (xs : List A) → drop n (drop m xs) ≡ drop (m + n) xs
  drop-drop zero n xs = ap (λ k. drop k xs) (omega arith)
  drop-drop (suc m) n [] = drop_nil n [] refl ∙ sym (drop_nil (suc m + n) [] refl)
  drop-drop (suc m) n (x ∷ xs) =
      let size : suc (m + n) ≡ suc m + n = omega arith in
      drop-drop m n xs ∙ ap (λ k. drop k (x ∷ xs)) size

  -- The end of a list is the start of the reversed list.
  pub reverse-take-reverse :
      (n : ℕ) (xs : List A)
      → n ≤ length xs
      → reverse (take n (reverse xs)) ≡ drop (length xs - n) xs
  reverse-take-reverse n xs h =
      let ys = reverse xs in
      let whole : reverse (drop n ys) ++ reverse (take n ys) ≡ xs =
        sym (reverse-append (take n ys) (drop n ys))
        ∙ (ap reverse (take-append-drop n ys) ∙ reverse-reverse xs) in
      let size : length (reverse (drop n ys)) ≡ length xs - n =
        length-reverse (drop n ys) ∙ (length-drop n ys ∙ ap (λ k. k - n) (length-reverse xs)) in
      sym (rw (size, whole) at (drop-append_length (reverse (drop n ys)) (reverse (take n ys))))
