-- ===== src/Rules/Entropy.antt =====
-- core-rs/core/src/rules/engine.rs: `shannon_entropy`, and the labels of a name.
use netmon_polyglot.Prelude.{
  replicate, ltb, length, ◌==◌, ℕ, if◌then◌else◌, List, ◌∷◌, suc, zero, [],
}
use netmon_polyglot.Alert.{Text}
use netmon_polyglot.Float.{Float}
use netmon_polyglot.Prelude.Words.{add32}

-- `freq[usize::from(b)] += 1`
unfoldable pub bump : List ℕ → ℕ → List ℕ
bump [] i = []
bump (n ∷ freq) zero = add32 n 1 ∷ freq
bump (n ∷ freq) (suc i) = n ∷ bump freq i

unfoldable pub frequencies : List ℕ → Text → List ℕ
unfolding bump
frequencies freq [] = freq
frequencies freq (b ∷ text) = frequencies (bump freq b) text

-- `text.split(separator)`
unfoldable pub push_front : ℕ → List Text → List Text
push_front c [] = (c ∷ []) ∷ []
push_front c (label ∷ labels) = (c ∷ label) ∷ labels

unfoldable pub split : ℕ → Text → List Text
unfolding push_front
split separator [] = [] ∷ []
split separator (c ∷ text) =
    let rest = split separator text in if c == separator then [] ∷ rest else push_front c rest

module _ (f : Float) where
  open f use {F64, decimal, of_ℕ, add, mul, div, neg, log2}

  -- The sum of `-p * p.log2()` over the bytes that occur.
  unfoldable pub sum_terms : F64 → F64 → List ℕ → F64
  sum_terms acc len [] = acc
  sum_terms acc len (n ∷ freq) =
      let p = div (of_ℕ n) len in
      sum_terms (if ltb 0 n then add acc (mul (neg p) (log2 p)) else acc) len freq

  unfoldable pub shannon_entropy : Text → F64
  unfolding sum_terms frequencies
  shannon_entropy text =
      if length text == 0
      then decimal 0 0
      else sum_terms (decimal 0 0) (of_ℕ (length text)) (frequencies (replicate 256 0) text)
