-- ===== src/Cipher/Laws.antt =====
-- What `xor_encrypt_decrypt` computes, and when it stays inside its blocks.
use simple_vpn.Base.{
  ℕ, zero, suc, ◌+◌, ◌≤◌, ◌<◌, ◌≡◌, ◌⊎◌, inl, inr, refl, ap, ap₂, sym, ◌∙◌, arith, [], ◌∷◌, ◌++◌,
  none, some, length, take, drop, bit_xor, take-append-drop, length-take, ltb, ltb→lt, ltb→le,
  Bool-cases, eq_of_some, some_not_none, Option-cases,
}
use simple_vpn.Memory.{Bytes, IsBytes, load8, store8}
use simple_vpn.Memory.Laws.{store8_beyond, load8_beyond, load8_within, store8_within, IsBytes-take}
use simple_vpn.Cipher.{xor_loop, xor_encrypt_decrypt}
use simple_vpn.Cipher.Loop.{
  key_byte, key_load, mask, xor_loop-mask, xor_loop_round, xor-lt, xor_twice,
}

pub length-mask : (i : ℕ) (xs : Bytes) → length (mask i xs) ≡ length xs
length-mask i [] = refl
length-mask i (x ∷ xs) = ap suc (length-mask (suc i) xs)

pub IsBytes-mask : (i : ℕ) (xs : Bytes) → IsBytes xs → IsBytes (mask i xs)
IsBytes-mask i [] h = tt
IsBytes-mask i (x ∷ xs) h = (xor-lt i x h.0, IsBytes-mask (suc i) xs h.1)

pub mask-mask : (i : ℕ) (xs : Bytes) → IsBytes xs → mask i (mask i xs) ≡ xs
mask-mask i [] h = refl
mask-mask i (x ∷ xs) h = ap₂ ◌∷◌ (xor_twice i x h.0) (mask-mask (suc i) xs h.1)

pub mask-append : (i : ℕ) (xs ys : Bytes) → mask i (xs ++ ys) ≡ mask i xs ++ mask (i + length xs) ys
mask-append i [] ys = ap (λ (j : ℕ). mask j ys) (omega arith)
mask-append i (x ∷ xs) ys =
    let next : suc i + length xs ≡ i + suc (length xs) = omega arith in
    ap (λ (t : Bytes). bit_xor x (key_byte i) ∷ t)
      (mask-append (suc i) xs ys ∙ ap (λ (j : ℕ). mask (suc i) xs ++ mask j ys) next)

-- With room for `n` bytes in both blocks, `xor_encrypt_decrypt` puts the input's first `n` bytes
-- into the output, each under the key byte at its place modulo 4, and keeps the rest of the
-- output.
pub xor_encrypt_decrypt-mask :
    (input output : Bytes) (n : ℕ)
    → n ≤ length input
    → n ≤ length output
    → IsBytes input
    → xor_encrypt_decrypt input output n ≡ some (mask 0 (take n input) ++ drop n output)
unfolding xor_encrypt_decrypt
xor_encrypt_decrypt-mask input output n hi ho bytes =
    let taken : length (take n input) ≡ n = omega (arith, length-take n input) in
    let room : length (take n output) ≡ n = omega (arith, length-take n output) in
    ap₂ (λ (b o : Bytes). xor_loop b n 0 o) (sym (take-append-drop n input))
      (sym (take-append-drop n output))
    ∙ ap (λ (m : ℕ). xor_loop (take n input ++ drop n input) m 0 (take n output ++ drop n output))
        (sym taken)
    ∙ xor_loop-mask [] (take n input) (drop n input) [] (take n output) (drop n output) refl
        (taken ∙ sym room) (IsBytes-take n input bytes)

xor_loop_beyond :
    (input : Bytes) (left i : ℕ) (output : Bytes)
    → i ≤ length input
    → i ≤ length output
    → (length input < i + left) ⊎ (length output < i + left)
    → xor_loop input left i output ≡ none
xor_loop_beyond input zero i output hi ho h = absurd (omega arith)
xor_loop_beyond input (suc left) i output hi ho h = elim (Bool-cases (ltb i (length input))) [
  | inr out ↦ unfold xor_loop in rw (load8_beyond input i (ltb→le _ _ out))
  | inl inside ↦
      let (x, loaded) = load8_within input i (ltb→lt _ _ inside) in
      elim (Bool-cases (ltb i (length output))) [
        | inr out ↦
            unfold xor_loop in
            rw
              (loaded, key_load i, store8_beyond output i (bit_xor x (key_byte i)) (ltb→le _ _ out))
        | inl room ↦
            let (output', stored, same) = store8_within output i _ (ltb→lt _ _ room) in
            xor_loop_round input left i output x output' loaded stored
            ∙ xor_loop_beyond input left (i + 1) output' (omega (arith, ltb→lt _ _ inside))
                (omega (arith, ltb→lt _ _ room)) (ground arith)
      ]
]

-- `xor_encrypt_decrypt` accesses memory outside a block when its length exceeds one of the two
-- blocks.
xor_encrypt_decrypt_beyond :
    (input output : Bytes) (n : ℕ)
    → (length input < n) ⊎ (length output < n)
    → xor_encrypt_decrypt input output n ≡ none
unfolding xor_encrypt_decrypt
xor_encrypt_decrypt_beyond input output n h =
    xor_loop_beyond input n 0 output (omega arith) (omega arith) (ground arith)

-- A masked beginning is unmasked.
unmask :
    (xs back output : Bytes) (n : ℕ)
    → length xs ≡ n
    → n ≤ length output
    → IsBytes xs
    → xor_encrypt_decrypt (mask 0 xs ++ back) output n ≡ some (xs ++ drop n output)
unfolding xor_encrypt_decrypt
unmask xs back output n e ho bytes =
    let room : length (take n output) ≡ n = omega (arith, length-take n output) in
    ap₂ (λ (m : ℕ) (o : Bytes). xor_loop (mask 0 xs ++ back) m 0 o) (sym e ∙ sym (length-mask 0 xs))
      (sym (take-append-drop n output))
    ∙ xor_loop-mask [] (mask 0 xs) back [] (take n output) (drop n output) refl
        (length-mask 0 xs ∙ e ∙ sym room) (IsBytes-mask 0 xs bytes)
    ∙ ap (λ (t : Bytes). some (t ++ drop n output)) (mask-mask 0 xs bytes)

-- Encrypting the first `n` bytes of a block into a second one and those of the second into a
-- third, each of at least `n` bytes, puts the first block's `n` bytes in the third and keeps what
-- follows there.
pub xor_encrypt_decrypt_twice :
    (input middle output : Bytes) (n : ℕ)
    → n ≤ length input
    → n ≤ length middle
    → n ≤ length output
    → IsBytes input
    → (hidden : Bytes) × (xor_encrypt_decrypt input middle n ≡ some hidden)
      × (xor_encrypt_decrypt hidden output n ≡ some (take n input ++ drop n output))
xor_encrypt_decrypt_twice input middle output n hi hm ho bytes = (
  mask 0 (take n input) ++ drop n middle,
  xor_encrypt_decrypt-mask input middle n hi hm bytes,
  unmask (take n input) (drop n middle) output n (omega (arith, length-take n input)) ho
      (IsBytes-take n input bytes),
)

length-store8 :
    (block : Bytes) (i v : ℕ) {block' : Bytes}
    → store8 block i v ≡ some block'
    → length block' ≡ length block
length-store8 block i v h = elim (Bool-cases (ltb i (length block))) [
  | inl inside ↦
      let (b, stored, same) = store8_within block i v (ltb→lt _ _ inside) in
      ap length (eq_of_some (sym h ∙ stored)) ∙ same
  | inr out ↦ absurd (some_not_none (sym h ∙ store8_beyond block i v (ltb→le _ _ out)))
]

length-xor_loop :
    (input : Bytes) (left i : ℕ) (output : Bytes) {output' : Bytes}
    → xor_loop input left i output ≡ some output'
    → length output' ≡ length output
length-xor_loop input zero i output h = ap length (eq_of_some (unfold xor_loop in sym h))
length-xor_loop input (suc left) i output h = elim (Option-cases (load8 input i)) [
  | inl outside ↦ absurd (some_not_none (sym h ∙ (unfold xor_loop in rw outside)))
  | inr (x, loaded) ↦
      let v = bit_xor x (key_byte i) in
      elim (Option-cases (store8 output i v)) [
        | inl outside ↦
            absurd (some_not_none (sym h ∙ (unfold xor_loop in rw (loaded, key_load i, outside))))
        | inr (output'', stored) ↦
            length-xor_loop input left (i + 1) output''
              (sym (xor_loop_round input left i output x output'' loaded stored) ∙ h)
            ∙ length-store8 output i v stored
      ]
]

-- The output block keeps its length.
pub length-xor_encrypt_decrypt :
    (input output : Bytes) (n : ℕ) {output' : Bytes}
    → xor_encrypt_decrypt input output n ≡ some output'
    → length output' ≡ length output
unfolding xor_encrypt_decrypt
length-xor_encrypt_decrypt input output n h = length-xor_loop input n 0 output h

-- The first parts of two blocks.
pub xor_front :
    (xs back old tail : Bytes) (n : ℕ)
    → length xs ≡ n
    → length old ≡ n
    → IsBytes xs
    → xor_encrypt_decrypt (xs ++ back) (old ++ tail) n ≡ some (mask 0 xs ++ tail)
unfolding xor_encrypt_decrypt
xor_front xs back old tail n e room bytes =
    ap (λ (m : ℕ). xor_loop (xs ++ back) m 0 (old ++ tail)) (sym e)
    ∙ xor_loop-mask [] xs back [] old tail refl (e ∙ sym room) bytes
