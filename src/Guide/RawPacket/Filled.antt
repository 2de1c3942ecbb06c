-- ===== src/Guide/RawPacket/Filled.antt =====
-- The packet that the sender fills, and what the receiver shows of it.
use simple_vpn.Base.{
  ℕ, zero, suc, ◌+◌, ◌-◌, ◌%◌, ◌≤◌, ◌<◌, ◌≡◌, refl, sym, ap, ap₂, ◌∙◌, arith, [], ◌∷◌, ◌++◌,
  append_assoc, append-nil, some, length, length-append, u16, replicate-add,
}
use simple_vpn.Memory.{Bytes, IsBytes, calloc, store8, store16, read}
use simple_vpn.Memory.Laws.{IsBytes-append, IsBytes-zeros, write-append, read-append}
use simple_vpn.Protocol.{IpHdr, ip_bytes, TcpHdr, tcp_bytes}
use simple_vpn.Packet.Create.Shape.{length-calloc}
use simple_vpn.Checksum.Value.{ones_sum}
use simple_vpn.Guide.RawPacket.{
  calculate_checksum, raw_ip, raw_tcp, pseudo_header, fill_ip, fill_tcp, raw_packet,
}
use simple_vpn.Guide.RawPacket.Sum.{little_sum, calculate_checksum_lem}

little_sum-append :
    (front rest : Bytes)
    → length front % 2 ≡ 0
    → little_sum (front ++ rest) ≡ little_sum front + little_sum rest
little_sum-append [] rest h = omega arith
little_sum-append (a ∷ []) rest h = absurd (omega arith)
little_sum-append (a ∷ b ∷ xs) rest h = omega (arith, little_sum-append xs rest (omega arith))

little_sum-calloc : (n : ℕ) → little_sum (calloc n) ≡ 0
little_sum-calloc zero = refl
little_sum-calloc (suc zero) = refl
little_sum-calloc (suc (suc n)) = omega (arith, little_sum-calloc n)

-- A sum with its checksum added.
checked : (l : ℕ) → 65535 - ones_sum (l + (65535 - ones_sum l)) ≡ 0
checked l = ground arith

checksum-lt : (l : ℕ) → 65535 - ones_sum l < 65536
checksum-lt l = omega arith

-- The two checksums.
abbrev pub ip_check : ℕ → ℕ
ip_check n = 65535 - ones_sum (little_sum (ip_bytes (raw_ip n)))

abbrev pub tcp_check : Bytes → ℕ
tcp_check payload =
    65535 - ones_sum (little_sum (pseudo_header (length payload) ++ (tcp_bytes raw_tcp ++ payload)))

-- The headers as they are sent.
abbrev pub sent_ip : ℕ → IpHdr
sent_ip n = record (raw_ip n) { ip_sum = ip_check n }

abbrev pub sent_tcp : Bytes → TcpHdr
sent_tcp payload = record raw_tcp { tcp_sum = tcp_check payload }

raw_ip-IsBytes : (n : ℕ) → IsBytes (ip_bytes (raw_ip n))
raw_ip-IsBytes n = omega arith

ip_summed :
    (n : ℕ) (more : Bytes)
    → n ≤ 984
    → calculate_checksum (ip_bytes (raw_ip n) ++ (calloc (20 + n) ++ more)) (u16 (40 + n))
      ≡ some (ip_check n)
ip_summed n more fits =
    let zeros = calloc (20 + n) in
    let whole = ip_bytes (raw_ip n) ++ zeros in
    let size : u16 (40 + n) ≡ length whole = omega (arith, length-calloc (20 + n)) in
    let sum : little_sum whole ≡ little_sum (ip_bytes (raw_ip n)) =
      omega
        (arith, little_sum-append (ip_bytes (raw_ip n)) zeros refl, little_sum-calloc (20 + n)) in
    ap (calculate_checksum (whole ++ more)) size
    ∙ calculate_checksum_lem whole more
        (IsBytes-append (ip_bytes (raw_ip n)) zeros (raw_ip-IsBytes n) (IsBytes-zeros (20 + n)))
        (omega (arith, length-calloc (20 + n)))
    ∙ ap (λ (l : ℕ). some (65535 - ones_sum l)) sum

ip_stored :
    (n sum : ℕ) (back : Bytes)
    → store16 (ip_bytes (raw_ip n) ++ back) 10 sum
      ≡ some (ip_bytes (record (raw_ip n) { ip_sum = sum }) ++ back)
unfolding store16 store8
ip_stored n sum back = refl

fill_ip_lem :
    (n : ℕ) (more : Bytes)
    → n ≤ 984
    → fill_ip (calloc 20 ++ (calloc (20 + n) ++ more)) n
      ≡ some (ip_bytes (sent_ip n) ++ (calloc (20 + n) ++ more))
fill_ip_lem n more fits =
    unfold fill_ip in
    rw
      (
        write-append [] (calloc 20) (calloc (20 + n) ++ more) (ip_bytes (raw_ip n)) refl
            (raw_ip-IsBytes n),
        ip_summed n more fits,
        ip_stored n (ip_check n) (calloc (20 + n) ++ more),
      )
      refl

tcp_summed :
    (payload : Bytes)
    → IsBytes payload
    → length payload ≤ 984
    → calculate_checksum
        (pseudo_header (length payload) ++ (tcp_bytes raw_tcp ++ payload))
        (12 + (20 + length payload))
      ≡ some (tcp_check payload)
tcp_summed payload bytes fits =
    let front = pseudo_header (length payload) ++ tcp_bytes raw_tcp in
    let front_bytes : IsBytes front = omega arith in
    let size : 12 + (20 + length payload) ≡ length (front ++ payload) =
      omega (arith, length-append front payload) in
    ap₂ calculate_checksum (sym (append-nil (front ++ payload))) size
    ∙ calculate_checksum_lem (front ++ payload) [] (IsBytes-append front payload front_bytes bytes)
        (omega (arith, length-append front payload, fits))

tcp_stored :
    (n sum : ℕ) (back : Bytes)
    → store16 (ip_bytes (sent_ip n) ++ (tcp_bytes raw_tcp ++ back)) 36 sum
      ≡ some (ip_bytes (sent_ip n) ++ (tcp_bytes (record raw_tcp { tcp_sum = sum }) ++ back))
unfolding store16 store8
tcp_stored n sum back = refl

fill_tcp_lem :
    (payload old z : Bytes)
    → IsBytes payload
    → length payload ≤ 984
    → length old ≡ length payload
    → let front = ip_bytes (sent_ip (length payload)) in
      fill_tcp (front ++ (calloc 20 ++ (old ++ z))) payload
      ≡ some (front ++ (tcp_bytes (sent_tcp payload) ++ (payload ++ z)))
fill_tcp_lem payload old z bytes fits same =
    let front = ip_bytes (sent_ip (length payload)) in
    let tcp = tcp_bytes raw_tcp in
    let tcp_bytes_fit : IsBytes tcp = omega arith in
    let size : 20 + length payload ≡ length (tcp ++ payload) =
      omega (arith, length-append tcp payload) in
    unfold fill_tcp in
    rw
      (
        write-append front (calloc 20) (old ++ z) tcp refl tcp_bytes_fit,
        write-append (front ++ tcp) old z payload same bytes,
        ap (read ((tcp ++ payload) ++ z)) size ∙ read-append (tcp ++ payload) z,
        tcp_summed payload bytes fits,
        tcp_stored (length payload) (tcp_check payload) (payload ++ z),
      )
      refl

pub raw_packet_lem :
    (payload : Bytes)
    → IsBytes payload
    → length payload ≤ 984
    → raw_packet payload
      ≡ some (
          ip_bytes (sent_ip (length payload))
          ++ (tcp_bytes (sent_tcp payload) ++ (payload ++ calloc (984 - length payload))))
raw_packet_lem payload bytes fits =
    let n = length payload in
    let z = calloc (984 - n) in
    let sizes : 1024 ≡ 20 + (20 + n + (984 - n)) = omega arith in
    let split : calloc 1024 ≡ calloc 20 ++ (calloc (20 + n) ++ z) =
      ap calloc sizes
      ∙ replicate-add 20 (20 + n + (984 - n)) 0
      ∙ ap (λ (b : Bytes). calloc 20 ++ b) (replicate-add (20 + n) (984 - n) 0) in
    let inner : calloc (20 + n) ++ z ≡ calloc 20 ++ (calloc n ++ z) =
      ap (λ (b : Bytes). b ++ z) (replicate-add 20 n 0) ∙ append_assoc (calloc 20) (calloc n) z in
    let headed : fill_ip (calloc 1024) n
        ≡ some (ip_bytes (sent_ip n) ++ (calloc 20 ++ (calloc n ++ z))) =
      ap (λ (b : Bytes). fill_ip b n) split
      ∙ fill_ip_lem n z fits
      ∙ ap (λ (b : Bytes). some (ip_bytes (sent_ip n) ++ b)) inner in
    unfold raw_packet in
    rw (headed, fill_tcp_lem payload (calloc n) z bytes fits (length-calloc n)) refl

pub ip_verifies :
    (n : ℕ) (back : Bytes) → calculate_checksum (ip_bytes (sent_ip n) ++ back) 20 ≡ some 0
ip_verifies n back =
    let l = little_sum (ip_bytes (raw_ip n)) in
    let fits : IsBytes (ip_bytes (sent_ip n)) = omega arith in
    let sum : little_sum (ip_bytes (sent_ip n)) ≡ l + ip_check n = omega (arith, checksum-lt l) in
    calculate_checksum_lem (ip_bytes (sent_ip n)) back fits (omega arith)
    ∙ ap (λ (m : ℕ). some (65535 - ones_sum m)) sum
    ∙ ap some (checked l)

pub tcp_verifies :
    (payload : Bytes)
    → IsBytes payload
    → length payload ≤ 984
    → calculate_checksum
        (pseudo_header (length payload) ++ (tcp_bytes (sent_tcp payload) ++ payload))
        (32 + length payload)
      ≡ some 0
tcp_verifies payload bytes fits =
    let l = little_sum (pseudo_header (length payload) ++ (tcp_bytes raw_tcp ++ payload)) in
    let before = pseudo_header (length payload) ++ tcp_bytes raw_tcp in
    let front = pseudo_header (length payload) ++ tcp_bytes (sent_tcp payload) in
    let front_bytes : IsBytes front = omega arith in
    let size : 32 + length payload ≡ length (front ++ payload) =
      omega (arith, length-append front payload) in
    let sum : little_sum (front ++ payload) ≡ l + tcp_check payload = omega (
      arith,
      checksum-lt l,
      little_sum-append front payload refl,
      little_sum-append before payload refl,
    ) in
    ap₂ calculate_checksum (sym (append-nil (front ++ payload))) size
    ∙ calculate_checksum_lem (front ++ payload) [] (IsBytes-append front payload front_bytes bytes)
        (omega (arith, length-append front payload, fits))
    ∙ ap (λ (m : ℕ). some (65535 - ones_sum m)) sum
    ∙ ap some (checked l)
