-- ===== src/Memory/Laws.antt =====
-- How stores and strings behave on a block that is given in parts.
use simple_vpn.Base.{
  ℕ, zero, suc, ◌+◌, ◌*◌, ◌/◌, ◌^◌, ◌≤◌, ◌<◌, ◌≡◌, refl, ap, ap₂, sym, ◌∙◌, arith, [], ◌∷◌, ◌++◌,
  append_assoc, Option, none, some, ◌>>=◌, u8, length, replicate, length-append, take, drop,
  take-append-drop, length-take, Bool-cases, ltb, ltb→lt, ltb→le, inl, inr,
}
use simple_vpn.Memory.{Bytes, IsBytes, IsText, load8, store8, write, read, padded, strlen, c_string}

-- A store at the boundary of two parts replaces the first byte of the second.
pub store8_at :
    (front : Bytes) (x : ℕ) (rest : Bytes) (v : ℕ)
    → store8 (front ++ x ∷ rest) (length front) v ≡ some (front ++ u8 v ∷ rest)
unfolding store8
store8_at [] x rest v = refl
store8_at (y ∷ front) x rest v = rw (store8_at front x rest v)

pub store8_beyond : (block : Bytes) (i v : ℕ) → length block ≤ i → store8 block i v ≡ none
unfolding store8
store8_beyond [] i v h = refl
store8_beyond (x ∷ block) zero v h = absurd (omega arith)
store8_beyond (x ∷ block) (suc i) v h = rw (store8_beyond block i v (omega arith))

pub load8_at :
    (front : Bytes) (x : ℕ) (rest : Bytes) → load8 (front ++ x ∷ rest) (length front) ≡ some x
load8_at [] x rest = refl
load8_at (y ∷ front) x rest = load8_at front x rest

pub load8_beyond : (block : Bytes) (i : ℕ) → length block ≤ i → load8 block i ≡ none
load8_beyond [] i h = refl
load8_beyond (x ∷ block) zero h = absurd (omega arith)
load8_beyond (x ∷ block) (suc i) h = load8_beyond block i (omega arith)

pub IsBytes-append : (xs ys : Bytes) → IsBytes xs → IsBytes ys → IsBytes (xs ++ ys)
IsBytes-append [] ys hx hy = hy
IsBytes-append (x ∷ xs) ys hx hy = (hx.0, IsBytes-append xs ys hx.1 hy)

pub IsBytes-front : (xs ys : Bytes) → IsBytes (xs ++ ys) → IsBytes xs
IsBytes-front [] ys h = tt
IsBytes-front (x ∷ xs) ys h = (h.0, IsBytes-front xs ys h.1)

pub IsBytes-back : (xs ys : Bytes) → IsBytes (xs ++ ys) → IsBytes ys
IsBytes-back [] ys h = h
IsBytes-back (x ∷ xs) ys h = IsBytes-back xs ys h.1

pub IsBytes-zeros : (n : ℕ) → IsBytes (replicate n 0)
IsBytes-zeros zero = tt
IsBytes-zeros (suc n) = (omega arith, IsBytes-zeros n)

pub IsText-IsBytes : (s : Bytes) → IsText s → IsBytes s
IsText-IsBytes [] h = tt
IsText-IsBytes (c ∷ s) h = (h.1, IsText-IsBytes s h.2)

pub IsText-append : (s t : Bytes) → IsText s → IsText t → IsText (s ++ t)
IsText-append [] t hs ht = ht
IsText-append (c ∷ s) t hs ht = (hs.0, hs.1, IsText-append s t hs.2 ht)

write_step :
    (front : Bytes) (x : ℕ) (rest : Bytes) (v : ℕ) (vs : Bytes)
    → v < 256
    → write (front ++ x ∷ rest) (length front) (v ∷ vs)
      ≡ write ((front ++ v ∷ []) ++ rest) (length (front ++ v ∷ [])) vs
unfolding write
write_step front x rest v vs h =
    let byte : u8 v ≡ v = omega arith in
    let one : length front + 1 ≡ length (front ++ v ∷ []) =
      omega (arith, length-append front (v ∷ [])) in
    ap (λ (m : Option Bytes). m >>= λ block. write block (length front + 1) vs)
      (store8_at front x rest v)
    ∙ ap₂ (λ (b : Bytes) (i : ℕ). write b i vs)
        (ap (λ (w : ℕ). front ++ w ∷ rest) byte ∙ sym (append_assoc front (v ∷ []) rest)) one

-- Bytes written over the middle part of a block.
pub write-append :
    (front old back new : Bytes)
    → length old ≡ length new
    → IsBytes new
    → write (front ++ (old ++ back)) (length front) new ≡ some (front ++ (new ++ back))
write-append front [] back [] e h = unfold write in refl
write-append front [] back (v ∷ vs) e h = absurd (omega arith)
write-append front (x ∷ old) back [] e h = absurd (omega arith)
write-append front (x ∷ old) back (v ∷ vs) e h =
    write_step front x (old ++ back) v vs h.0
    ∙ write-append (front ++ v ∷ []) old back vs (omega arith) h.1
    ∙ ap some (append_assoc front (v ∷ []) (vs ++ back))

-- Bytes written over the beginning of a block.
pub write_over :
    (block new : Bytes)
    → length new ≤ length block
    → IsBytes new
    → write block 0 new ≡ some (new ++ drop (length new) block)
write_over block new room bytes =
    ap (λ (b : Bytes). write b 0 new) (sym (take-append-drop (length new) block))
    ∙ write-append [] (take (length new) block) (drop (length new) block) new
        (omega (arith, length-take (length new) block)) bytes

-- The whole first part of a block is read.
pub read-append : (xs back : Bytes) → read (xs ++ back) (length xs) ≡ some xs
unfolding read
read-append [] back = refl
read-append (x ∷ xs) back = rw (read-append xs back)

pub padded-length : (s : Bytes) → padded s (length s) ≡ s
padded-length [] = refl
padded-length (c ∷ s) = ap (λ (t : Bytes). c ∷ t) (padded-length s)

pub strlen-append : (s back : Bytes) → IsText s → strlen (s ++ 0 ∷ back) ≡ some (length s)
unfolding strlen
strlen-append [] back h = refl
strlen-append (c ∷ s) back h = ground (arith, strlen-append s back h.2)

pub c_string-append : (s back : Bytes) → IsText s → c_string (s ++ 0 ∷ back) ≡ some s
unfolding c_string
c_string-append [] back h = refl
c_string-append (c ∷ s) back h = ground (arith, c_string-append s back h.2)

-- A load or store inside the block happens, and a store keeps the block's length.
pub load8_within : (block : Bytes) (i : ℕ) → i < length block → (x : ℕ) × (load8 block i ≡ some x)
load8_within [] i h = absurd (omega arith)
load8_within (x ∷ block) zero h = (x, refl)
load8_within (x ∷ block) (suc i) h = load8_within block i (omega arith)

pub store8_within :
    (block : Bytes) (i v : ℕ)
    → i < length block
    → (block' : Bytes) × (store8 block i v ≡ some block') × (length block' ≡ length block)
unfolding store8
store8_within [] i v h = absurd (omega arith)
store8_within (x ∷ block) zero v h = (u8 v ∷ block, refl, refl)
store8_within (x ∷ block) (suc i) v h =
    let (rest, stored, same) = store8_within block i v (omega arith) in
    (x ∷ rest, rw stored, ap suc same)

pub IsBytes-drop : (n : ℕ) (xs : Bytes) → IsBytes xs → IsBytes (drop n xs)
IsBytes-drop zero xs h = h
IsBytes-drop (suc n) [] h = tt
IsBytes-drop (suc n) (x ∷ xs) h = IsBytes-drop n xs h.1

pub IsBytes-take : (n : ℕ) (xs : Bytes) → IsBytes xs → IsBytes (take n xs)
IsBytes-take zero xs h = tt
IsBytes-take (suc n) [] h = tt
IsBytes-take (suc n) (x ∷ xs) h = (h.0, IsBytes-take n xs h.1)

-- A string written to the start of a block that has room for it and its NUL.
pub write_string :
    (block s : Bytes)
    → length s < length block
    → IsText s
    → write block 0 (s ++ 0 ∷ []) ≡ some (s ++ 0 ∷ drop (length s + 1) block)
write_string block s room h =
    let n = length s + 1 in
    let stored : length (take n block) ≡ length (s ++ 0 ∷ []) =
      omega (arith, length-take n block, length-append s (0 ∷ [])) in
    ap (λ (b : Bytes). write b 0 (s ++ 0 ∷ [])) (sym (take-append-drop n block))
    ∙ write-append [] (take n block) (drop n block) (s ++ 0 ∷ []) stored
        (IsBytes-append s (0 ∷ []) (IsText-IsBytes s h) (omega arith, tt))
    ∙ ap some (append_assoc s (0 ∷ []) (drop n block))

-- A write that does not end inside the block is an access outside it.
pub write_beyond :
    (block : Bytes) (i : ℕ) (vs : Bytes)
    → i ≤ length block
    → length block < i + length vs
    → write block i vs ≡ none
unfolding write
write_beyond block i [] start out = absurd (omega arith)
write_beyond block i (v ∷ vs) start out = elim (Bool-cases (ltb i (length block))) [
  | inr at_end ↦
      ap (λ (m : Option Bytes). m >>= λ block. write block (i + 1) vs)
        (store8_beyond block i v (ltb→le _ _ at_end))
  | inl inside ↦
      let (block', stored, same) = store8_within block i v (ltb→lt _ _ inside) in
      ap (λ (m : Option Bytes). m >>= λ block. write block (i + 1) vs) stored
      ∙ write_beyond block' (i + 1) vs (omega (arith, same, ltb→lt _ _ inside))
          (omega (arith, same))
]

-- A word read back from its bytes.
pub word16 : (v : ℕ) → v < 65536 → u8 v + u8 (v / 256) * 256 ≡ v
word16 v h = omega arith

pub word32 :
    (v : ℕ)
    → v < 2 ^ 32
    → u8 v + u8 (v / 256) * 256 + u8 (v / 65536) * 65536 + u8 (v / 16777216) * 16777216 ≡ v
word32 v h = omega arith
