-- ===== src/Packet/Transfer/Safety.antt =====
-- What the receiving functions return for any bytes at all.
use simple_vpn.Base.{
  ℕ, zero, suc, ◌+◌, ◌-◌, ◌≤◌, ◌<◌, ◌≡◌, refl, sym, ap, ap₂, ◌∙◌, arith, [], ◌∷◌, ◌++◌,
  append_assoc, none, some, ◌⊎◌, inl, inr, length, length-append, length-take, length-drop, take,
  drop, drop-append, drop-append-le, replicate-add, Bool-cases, ltb, ltb→lt, ltb→le,
  take-append-drop, subst,
}
use simple_vpn.Memory.{Bytes, IsBytes, IsText, calloc, strlen, store8}
use simple_vpn.Memory.Laws.{
  IsBytes-front, IsBytes-back, IsBytes-append, IsBytes-zeros, IsBytes-drop, strlen-append,
}
use simple_vpn.Memory.Strings.{IsEnded, strlen_cases, IsEnded-append}
use simple_vpn.Cipher.Loop.{mask}
use simple_vpn.Cipher.Laws.{length-mask, IsBytes-mask}
use simple_vpn.Packet.Create.Shape.{length-calloc, take_all, terminate_at}
use simple_vpn.Packet.Create.Encrypted.{xor_whole}
use simple_vpn.Packet.Transfer.{serv_rec_from_cli}
use simple_vpn.Packet.Transfer.Receive.{clamp_length_self}
use simple_vpn.Packet.Transfer.Arrives.{arrives, length-arrives, arrives-IsBytes, recv_into-arrives}

-- A packet in memory: 174 bytes, and the payload's text ends inside them.
pub record IsPacket (packet : Bytes) : Type 0 where
  pub size : length packet ≡ 174
  pub bytes : IsBytes packet
  pub ended : IsEnded (drop 46 packet)

-- What came holds all its text: with the payload from `start` on, a NUL lies in the first `n` bytes of
-- the message, or the message is shorter than that.
abbrev pub IsDelivered : ℕ → ℕ → Bytes → Type 0
IsDelivered n start received = IsBytes received × IsEnded (drop start (arrives n received))

cut_at :
    (block : Bytes) (k : ℕ)
    → k < length block
    → (x : ℕ) × (rest : Bytes) × (block ≡ take k block ++ x ∷ rest)
cut_at [] k h = absurd (omega arith)
cut_at (x ∷ block) zero h = (x, block, refl)
cut_at (x ∷ block) (suc k) h =
    let (y, rest, e) = cut_at block k (omega arith) in (y, rest, ap (λ (b : Bytes). x ∷ b) e)

-- A NUL stored in the payload of 174 bytes makes them a packet.
IsPacket-ended :
    (block : Bytes) (k : ℕ)
    → length block ≡ 174
    → IsBytes block
    → k ≤ 127
    → (packet : Bytes) × (store8 block (46 + k) 0 ≡ some packet) × IsPacket packet
IsPacket-ended block k size bytes fits =
    let front = take 46 block in
    let (x, rest, parts) = cut_at (drop 46 block) k (omega (arith, size, length-drop 46 block)) in
    let t = take k (drop 46 block) in
    let header : length front ≡ 46 = omega (arith, size, length-take 46 block) in
    let whole : block ≡ front ++ (t ++ x ∷ rest) =
      sym (take-append-drop 46 block) ∙ ap (λ (b : Bytes). front ++ b) parts in
    let at_text : 46 + k ≡ 46 + length t =
      omega (arith, size, length-drop 46 block, length-take k (drop 46 block)) in
    let sizes : length (front ++ (t ++ 0 ∷ rest)) ≡ length (front ++ (t ++ x ∷ rest)) = omega (
      arith,
      length-append front (t ++ 0 ∷ rest),
      length-append front (t ++ x ∷ rest),
      length-append t (0 ∷ rest),
      length-append t (x ∷ rest),
    ) in
    let split : IsBytes (front ++ (t ++ x ∷ rest)) = subst (λ (b : Bytes). IsBytes b) whole bytes in
    (
      front ++ (t ++ 0 ∷ rest),
      ap₂ (λ (b : Bytes) (i : ℕ). store8 b i 0) whole at_text ∙ terminate_at front t x rest header,
      record {
        size = sizes ∙ sym (ap (λ (b : Bytes). length b) whole) ∙ size;
        bytes = set_byte front t rest x split;
        ended =
            subst (λ (b : Bytes). IsEnded b) (sym (drop-append front (t ++ 0 ∷ rest) 46 header))
              (IsEnded-append t rest
                (IsBytes-front t (x ∷ rest) (IsBytes-back front (t ++ x ∷ rest) split)));
      },
    )
  where
    set_byte :
        (front t rest : Bytes) (x : ℕ)
        → IsBytes (front ++ (t ++ x ∷ rest))
        → IsBytes (front ++ (t ++ 0 ∷ rest))
    set_byte (y ∷ front) t rest x h = (h.0, set_byte front t rest x h.1)
    set_byte [] (y ∷ t) rest x h = (h.0, set_byte [] t rest x h.1)
    set_byte [] [] rest x h = (omega arith, h.1)

-- The bytes of a message that is too short to fill the block are followed by a NUL.
pub IsDelivered-short :
    (n start : ℕ) (received : Bytes)
    → IsBytes received
    → length received < n
    → start < n
    → IsDelivered n start received
IsDelivered-short n start received bytes short below =
    let m = n - 1 - length received in
    let zeros : calloc (n - length (take n received)) ≡ calloc m ++ 0 ∷ [] =
      ap calloc (omega (arith, length-take n received)) ∙ replicate-add m 1 0 in
    let whole : arrives n received ≡ (received ++ calloc m) ++ 0 ∷ [] =
      ap₂ ◌++◌ (take_all n received (omega arith)) zeros
      ∙ sym (append_assoc received (calloc m) (0 ∷ [])) in
    let behind : drop start (arrives n received) ≡ drop start (received ++ calloc m) ++ 0 ∷ [] =
      ap (λ (b : Bytes). drop start b) whole
      ∙ drop-append-le (received ++ calloc m) (0 ∷ []) start
          (omega (arith, length-append received (calloc m), length-calloc m)) in
    let front_bytes : IsBytes (drop start (received ++ calloc m)) =
      IsBytes-drop start (received ++ calloc m)
        (IsBytes-append received (calloc m) bytes (IsBytes-zeros m)) in
    (
      bytes,
      subst (λ (b : Bytes). IsEnded b) (sym behind)
          (IsEnded-append (drop start (received ++ calloc m)) [] front_bytes),
    )

-- The steps of the receiver on a text `s` whose length it finds.
received_text :
    (received s rest packet : Bytes)
    → IsBytes received
    → IsText s
    → length s ≤ 127
    → drop 46 (arrives 174 received) ≡ s ++ 0 ∷ rest
    → store8 (mask 0 (arrives 174 received)) (46 + length s) 0 ≡ some packet
    → serv_rec_from_cli (some received) ≡ some (some packet)
received_text received s rest packet bytes text fits parts stored =
    unfold serv_rec_from_cli in
    rw (
      recv_into-arrives 174 received bytes,
      parts,
      strlen-append s rest text,
      xor_whole (arrives 174 received) 174 (length-arrives 174 received)
          (arrives-IsBytes 174 received bytes),
      clamp_length_self (length s) fits,
      stored,
    )

-- If the text of what comes from the tunnel ends, a packet is made of it.
pub serv_rec_from_cli-IsPacket :
    (received : Bytes)
    → IsDelivered 174 46 received
    → (packet : Bytes) × (serv_rec_from_cli (some received) ≡ some (some packet)) × IsPacket packet
serv_rec_from_cli-IsPacket received (bytes, (s, rest, text, parts)) =
    let block = arrives 174 received in
    let size = length-arrives 174 received in
    let block_bytes = arrives-IsBytes 174 received bytes in
    let fits : length s ≤ 127 = omega (
      arith,
      size,
      length-drop 46 block,
      ap (λ (b : Bytes). length b) parts,
      length-append s (0 ∷ rest),
    ) in
    let (packet, stored, packed) =
      IsPacket-ended (mask 0 block) (length s) (length-mask 0 block ∙ size)
        (IsBytes-mask 0 block block_bytes) fits in
    (packet, received_text received s rest packet bytes text fits parts stored, packed)

-- For all bytes that come from the tunnel, either `serv_rec_from_cli` makes a packet of 174 bytes
-- whose payload holds a NUL, or at least 174 bytes came with no NUL in their payload, and its
-- search for the end leaves the block.
pub serv_rec_from_cli_cases :
    (received : Bytes)
    → IsBytes received
    → ((packet : Bytes) × (serv_rec_from_cli (some received) ≡ some (some packet))
        × IsPacket packet)
      ⊎ ((174 ≤ length received)
          × (strlen (drop 46 (arrives 174 received)) ≡ none)
          × (serv_rec_from_cli (some received) ≡ none))
serv_rec_from_cli_cases received bytes = elim (Bool-cases (ltb (length received) 174)) [
  | inl short ↦ inl (
      serv_rec_from_cli-IsPacket received
        (IsDelivered-short 174 46 received bytes (ltb→lt _ _ short) (omega arith)))
  | inr long ↦
      elim (strlen_cases (drop 46 (arrives 174 received))
        (IsBytes-drop 46 (arrives 174 received) (arrives-IsBytes 174 received bytes))) [
          | inl ended ↦ inl (serv_rec_from_cli-IsPacket received (bytes, ended))
          | inr (endless, _) ↦ inr (
            ltb→le _ _ long,
            endless,
            unfold serv_rec_from_cli in rw (recv_into-arrives 174 received bytes, endless),
          )
        ]
]
