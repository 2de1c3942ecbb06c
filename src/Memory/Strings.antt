-- ===== src/Memory/Strings.antt =====
-- Blocks in which a string ends, and blocks in which none does.
use simple_vpn.Base.{
  ℕ, suc, ◌≡◌, refl, sym, ap, ◌∙◌, arith, true, false, some, some_not_none, Option-cases, [], ◌∷◌,
  ◌++◌, none, ◌==◌, ==_iff, ◌⊎◌, inl, inr, Bool-cases,
}
use simple_vpn.Memory.{Bytes, IsBytes, IsText, strlen, c_string}

-- The block begins with a string: a text, and a NUL behind it.
abbrev pub IsEnded : Bytes → Type 0
IsEnded block = (s : Bytes) × (rest : Bytes) × IsText s × (block ≡ s ++ 0 ∷ rest)

-- Every block either begins with a string, or a search for its NUL leaves the block.
pub strlen_cases :
    (block : Bytes)
    → IsBytes block
    → IsEnded block ⊎ ((strlen block ≡ none) × (c_string block ≡ none))
unfolding strlen c_string
strlen_cases [] h = inr (refl, refl)
strlen_cases (c ∷ block) h = elim (Bool-cases (c == 0)) [
  | inl nul ↦ inl ([], block, tt, ap (λ (x : ℕ). x ∷ block) ((==_iff c 0).0 nul))
  | inr other ↦ elim (strlen_cases block h.1) [
    | inl (s, rest, text, parts) ↦
        inl (c ∷ s, rest, (ground arith, h.0, text), ap (λ (b : Bytes). c ∷ b) parts)
    | inr (no_length, no_string) ↦ inr (rw (other, no_length) refl, rw (other, no_string) refl)
  ]
]

-- A block with a NUL in it begins with a string.
pub IsEnded-append : (xs rest : Bytes) → IsBytes xs → IsEnded (xs ++ 0 ∷ rest)
IsEnded-append [] rest h = ([], rest, tt, refl)
IsEnded-append (c ∷ xs) rest h = elim (Bool-cases (c == 0)) [
  | inl nul ↦ ([], xs ++ 0 ∷ rest, tt, ap (λ (x : ℕ). x ∷ (xs ++ 0 ∷ rest)) ((==_iff c 0).0 nul))
  | inr other ↦
      let (s, behind, text, parts) = IsEnded-append xs rest h.1 in
      (c ∷ s, behind, (ground arith, h.0, text), ap (λ (b : Bytes). c ∷ b) parts)
]

-- A block that is all text has no end in it, and a block without an end is all text.
pub strlen_unended : (s : Bytes) → IsText s → strlen s ≡ none
unfolding strlen
strlen_unended [] text = refl
strlen_unended (c ∷ s) (positive, small, text) =
    let other : (c == 0) ≡ false = ground arith in rw (other, strlen_unended s text) refl

strlen_nul : (c : ℕ) (block : Bytes) → (c == 0) ≡ true → strlen (c ∷ block) ≡ some 0
unfolding strlen
strlen_nul c block nul = rw nul refl

strlen_later :
    (c n : ℕ) (block : Bytes)
    → (c == 0) ≡ false
    → strlen block ≡ some n
    → strlen (c ∷ block) ≡ some (suc n)
unfolding strlen
strlen_later c n block other found = rw (other, found) refl

pub IsText-unended : (block : Bytes) → IsBytes block → strlen block ≡ none → IsText block
IsText-unended [] bytes endless = tt
IsText-unended (c ∷ block) bytes endless = elim (Bool-cases (c == 0)) [
  | inl nul ↦ absurd (some_not_none (sym (strlen_nul c block nul) ∙ endless))
  | inr other ↦ elim (Option-cases (strlen block)) [
    | inl still ↦ (ground arith, bytes.0, IsText-unended block bytes.1 still)
    | inr (n, found) ↦ absurd (some_not_none (sym (strlen_later c n block other found) ∙ endless))
  ]
]

pub c_string_unended : (s : Bytes) → IsText s → c_string s ≡ none
unfolding c_string
c_string_unended [] text = refl
c_string_unended (c ∷ s) (positive, small, text) =
    let other : (c == 0) ≡ false = ground arith in rw (other, c_string_unended s text) refl
