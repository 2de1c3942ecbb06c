-- ===== src/Packet/Transfer/Receive.antt =====
-- What the receiving functions make of the bytes that arrive.
use simple_vpn.Base.{
  drop-append, subst, ℕ, suc, ◌+◌, ◌-◌, ◌≤◌, ◌≡◌, refl, ap, ap₂, ◌∙◌, arith, [], ◌∷◌, ◌++◌, some,
  length, length-append, drop, Bool-cases, inl, inr, bit_xor, ◌==◌, if◌then◌else◌, replicate-add,
}
use simple_vpn.Memory.{Bytes, IsBytes, IsText, calloc, write, strlen}
use simple_vpn.Memory.Laws.{IsBytes-back, IsText-IsBytes, IsBytes-append, write-append}
use simple_vpn.Cipher.Loop.{mask, key_byte, xor-zero_iff}
use simple_vpn.Cipher.Laws.{mask-append, length-mask, mask-mask, IsBytes-mask}
use simple_vpn.Packet.Create.{clamp_length}
use simple_vpn.Packet.Create.Shape.{calloc_eq, length-calloc, take_all, terminate_at}
use simple_vpn.Packet.Create.Encrypted.{xor_whole}
use simple_vpn.Packet.Transfer.{recv_into, serv_rec_from_cli}

-- The text up to the first byte that its key byte hides as NUL.
abbrev pub clear_prefix : ℕ → Bytes → Bytes
clear_prefix i [] = []
clear_prefix i (c ∷ s) = if c == key_byte i then [] else c ∷ clear_prefix (suc i) s

-- The bytes that arrive, and zeros behind them.
pub recv_into_zeros :
    (n : ℕ) (received : Bytes)
    → length received ≤ n
    → IsBytes received
    → recv_into (calloc n) n received ≡ some (received ++ calloc (n - length received))
recv_into_zeros n received fits bytes =
    let m = length received in
    let zeros : calloc n ≡ calloc m ++ calloc (n - m) =
      calloc_eq n (m + (n - m)) (omega arith) ∙ replicate-add m (n - m) 0 in
    unfold recv_into in
    ap₂ (λ (b r : Bytes). write b 0 r) zeros (take_all n received fits)
    ∙ write-append [] (calloc m) (calloc (n - m)) received (length-calloc m) bytes

-- The length that the receiver takes the hidden text for.
strlen-mask :
    (i : ℕ) (t rest : Bytes)
    → IsText t
    → strlen (mask i t ++ 0 ∷ rest) ≡ some (length (clear_prefix i t))
unfolding strlen
strlen-mask i [] rest h = refl
strlen-mask i (c ∷ t) rest h = ground (arith, strlen-mask (suc i) t rest h.2, xor-zero_iff i c h.1)

pub clear_prefix-IsText : (i : ℕ) (t : Bytes) → IsText t → IsText (clear_prefix i t)
clear_prefix-IsText i [] h = tt
clear_prefix-IsText i (c ∷ t) h = elim (Bool-cases (c == key_byte i)) [
  | inl hidden ↦ rw hidden tt
  | inr clear ↦ rw clear (h.0, h.1, clear_prefix-IsText (suc i) t h.2)
]

-- The clear part begins the text, and a byte follows it.
clear_prefix_split :
    (i : ℕ) (t : Bytes) (y : ℕ) (z : Bytes)
    → (x : ℕ) × (rest : Bytes) × (t ++ y ∷ z ≡ clear_prefix i t ++ x ∷ rest)
clear_prefix_split i [] y z = (y, z, refl)
clear_prefix_split i (c ∷ t) y z =
    let (x, rest, e) = clear_prefix_split (suc i) t y z in
    elim (Bool-cases (c == key_byte i)) [
      | inl hidden ↦ (c, t ++ y ∷ z, rw hidden refl)
      | inr clear ↦ (x, rest, rw clear (ap (λ (w : Bytes). c ∷ w) e))
    ]

length-clear_prefix-le : (i : ℕ) (t : Bytes) → length (clear_prefix i t) ≤ length t
length-clear_prefix-le i [] = omega arith
length-clear_prefix-le i (c ∷ t) = ground (arith, length-clear_prefix-le (suc i) t)

pub clamp_length_self : (n : ℕ) → n ≤ 127 → clamp_length n ≡ n
clamp_length_self n h = ground arith

module _ (front t z : Bytes) (header : length front ≡ 46) (front_bytes : IsBytes front)
    (text : IsText t) (z_bytes : IsBytes z) (size : length t + length z ≡ 127) where
  -- A hidden packet, with its text ended by a NUL in plain.
  abbrev arrived : Bytes
  arrived = mask 0 front ++ (mask 46 t ++ 0 ∷ z)

  length-arrived : length arrived ≡ 174
  length-arrived = omega (
    arith,
    header,
    size,
    length-mask 0 front,
    length-mask 46 t,
    length-append (mask 0 front) (mask 46 t ++ 0 ∷ z),
    length-append (mask 46 t) (0 ∷ z),
  )

  arrived-IsBytes : IsBytes arrived
  arrived-IsBytes =
      IsBytes-append (mask 0 front) (mask 46 t ++ 0 ∷ z) (IsBytes-mask 0 front front_bytes) (
        IsBytes-append (mask 46 t) (0 ∷ z) (IsBytes-mask 46 t (IsText-IsBytes t text))
          (omega arith, z_bytes))

  -- Under the key once more it is the packet in plain, with the key's bytes behind the text.
  mask-arrived : mask 0 arrived ≡ front ++ (t ++ mask (46 + length t) (0 ∷ z))
  mask-arrived =
      mask-append 0 (mask 0 front) (mask 46 t ++ 0 ∷ z)
      ∙ ap₂ (λ (f : Bytes) (i : ℕ). f ++ mask i (mask 46 t ++ 0 ∷ z))
          (mask-mask 0 front front_bytes) at_header
      ∙ ap (λ (m : Bytes). front ++ m) (mask-append 46 (mask 46 t) (0 ∷ z))
      ∙ ap₂ (λ (m : Bytes) (n : ℕ). front ++ (m ++ mask (46 + n) (0 ∷ z)))
          (mask-mask 46 t (IsText-IsBytes t text)) (length-mask 46 t)
    where
      at_header : 0 + length (mask 0 front) ≡ 46
      at_header = omega (arith, header, length-mask 0 front)

  -- From such a block the receiver restores the headers, and of the text the clear part.
  pub serv_rec_from_cli-arrived :
      (received : Bytes)
      → recv_into (calloc 174) 174 received ≡ some arrived
      → (rest : Bytes) × (serv_rec_from_cli (some received)
          ≡ some (some (front ++ (clear_prefix 46 t ++ 0 ∷ rest))))
        × (length (clear_prefix 46 t) + length rest ≡ 127)
        × IsBytes rest
  serv_rec_from_cli-arrived received came =
      let shown = clear_prefix 46 t in
      let y = bit_xor 0 (key_byte (46 + length t)) in
      let behind = mask (suc (46 + length t)) z in
      let (x, rest, split) = clear_prefix_split 46 t y behind in
      let at_text : drop 46 arrived ≡ mask 46 t ++ 0 ∷ z =
        drop-append (mask 0 front) (mask 46 t ++ 0 ∷ z) 46
          (omega (arith, header, length-mask 0 front)) in
      let short : clamp_length (length shown) ≡ length shown =
        clamp_length_self (length shown) (omega (arith, size, length-clear_prefix-le 46 t)) in
      let plain : mask 0 arrived ≡ front ++ (shown ++ x ∷ rest) =
        mask-arrived ∙ ap (λ (w : Bytes). front ++ w) split in
      (
        rest,
        unfold serv_rec_from_cli in
            rw (
              came,
              at_text,
              strlen-mask 46 t z text,
              xor_whole arrived 174 length-arrived arrived-IsBytes,
              plain,
              short,
              terminate_at front shown x rest header,
            ),
        omega (
          arith,
          size,
          ap (λ (w : Bytes). length w) split,
          length-append t (y ∷ behind),
          length-append shown (x ∷ rest),
          length-mask (suc (46 + length t)) z,
        ),
        (IsBytes-back shown (x ∷ rest) (
            subst (λ (w : Bytes). IsBytes w) split
              (IsBytes-append t (y ∷ behind) (IsText-IsBytes t text)
                (IsBytes-mask (46 + length t) (0 ∷ z) (omega arith, z_bytes))))).1,
      )
