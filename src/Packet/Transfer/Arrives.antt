-- ===== src/Packet/Transfer/Arrives.antt =====
-- The blocks that bytes of any number arrive in.
use simple_vpn.Base.{
  ℕ, ◌+◌, ◌-◌, ◌≤◌, ◌≡◌, sym, ap, ap₂, ◌∙◌, arith, ◌++◌, append_assoc, some, inl, inr, length,
  length-append, length-take, take, drop, take-add, append-nil, replicate-add, Bool-cases, ltb,
  ltb→lt, ltb→le, Option, none,
}
use simple_vpn.Memory.{Bytes, IsBytes, calloc, write}
use simple_vpn.Memory.Laws.{IsBytes-append, IsBytes-zeros, IsBytes-take}
use simple_vpn.Packet.Create.Shape.{length-calloc, take_all}
use simple_vpn.Packet.Transfer.{recv_into, serv_rec_from_des, dest_rec_pkt}
use simple_vpn.Packet.Transfer.Receive.{recv_into_zeros}

-- A block of `n` bytes of zeros after `recv` into it.
abbrev pub arrives : ℕ → Bytes → Bytes
arrives n received = take n received ++ calloc (n - length (take n received))

pub length-arrives : (n : ℕ) (received : Bytes) → length (arrives n received) ≡ n
length-arrives n received = omega (
  arith,
  length-take n received,
  length-append (take n received) (calloc (n - length (take n received))),
  length-calloc (n - length (take n received)),
)

pub arrives-IsBytes : (n : ℕ) (received : Bytes) → IsBytes received → IsBytes (arrives n received)
arrives-IsBytes n received bytes =
    IsBytes-append (take n received) (calloc (n - length (take n received)))
      (IsBytes-take n received bytes) (IsBytes-zeros (n - length (take n received)))

pub recv_into-arrives :
    (n : ℕ) (received : Bytes)
    → IsBytes received
    → recv_into (calloc n) n received ≡ some (arrives n received)
recv_into-arrives n received bytes =
    let short : length (take n received) ≤ n = omega (arith, length-take n received) in
    let cut : recv_into (calloc n) n received ≡ recv_into (calloc n) n (take n received) =
      unfold recv_into in ap (write (calloc n) 0) (sym (take_all n (take n received) short)) in
    cut ∙ recv_into_zeros n (take n received) short (IsBytes-take n received bytes)

-- What comes into a larger block begins as what comes into a smaller one.
arrives-add :
    (m n : ℕ) (received : Bytes)
    → (back : Bytes) × (arrives (m + n) received ≡ arrives m received ++ back)
arrives-add m n received = elim (Bool-cases (ltb (length received) m)) [
  | inl short ↦
      let below = ltb→lt _ _ short in
      let small = take_all m received (omega arith) in
      let large = take_all (m + n) received (omega arith) in
      (
        calloc n,
        ap₂ ◌++◌ large (
              ap calloc (
                omega
                  (arith, ap (λ (b : Bytes). length b) large, ap (λ (b : Bytes). length b) small))
              ∙ replicate-add (m - length (take m received)) n 0)
            ∙ sym (append_assoc received (calloc (m - length (take m received))) (calloc n))
            ∙ ap (λ (b : Bytes). (b ++ calloc (m - length (take m received))) ++ calloc n)
                (sym small),
      )
  | inr long ↦
      let full : m - length (take m received) ≡ 0 =
        omega (arith, ltb→le _ _ long, length-take m received) in
      let back = take n (drop m received) ++ calloc (m + n - length (take (m + n) received)) in
      (
        back,
        ap (λ (b : Bytes). b ++ calloc (m + n - length (take (m + n) received)))
              (take-add m n received)
            ∙ append_assoc (take m received) (take n (drop m received))
                (calloc (m + n - length (take (m + n) received)))
            ∙ ap (λ (b : Bytes). b ++ back)
                (sym (
                  ap (λ (k : ℕ). take m received ++ calloc k) full ∙ append-nil (take m received))),
      )
]

-- The block that the server gets from the destination: 168 bytes and six behind them.
pub serv_rec_from_des-arrives :
    (received : Bytes)
    → IsBytes received
    → (back : Bytes) × (serv_rec_from_des (some received)
        ≡ some (some (arrives 168 received ++ back)))
serv_rec_from_des-arrives received bytes =
    let (back, parts) = arrives-add 168 6 received in
    (
      back,
      unfold serv_rec_from_des in
          rw (recv_into-arrives 174 received bytes) (ap (λ (b : Bytes). some (some b)) parts),
    )

pub dest_rec_pkt-arrives :
    (received : Bytes)
    → IsBytes received
    → dest_rec_pkt (some received) ≡ some (some (arrives 168 received))
dest_rec_pkt-arrives received bytes =
    unfold dest_rec_pkt in rw (recv_into-arrives 168 received bytes)

-- A message that fills the block.
pub arrives_full :
    (n : ℕ) (received : Bytes) → n ≤ length received → arrives n received ≡ take n received
arrives_full n received full =
    let size : n - length (take n received) ≡ 0 = omega (arith, full, length-take n received) in
    ap (λ (k : ℕ). take n received ++ calloc k) size ∙ append-nil (take n received)

-- What `recv` brings are bytes.
abbrev pub IsReceived : Option Bytes → Type 0
IsReceived none = Unit
IsReceived (some received) = IsBytes received
