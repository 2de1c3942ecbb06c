-- ===== src/Protocol/Decode.antt =====
-- The headers that stand in a block of bytes, as the program's structs over the block read them.
use simple_vpn.Base.{
  ℕ, zero, suc, ◌+◌, ◌*◌, ◌/◌, ◌%◌, ◌^◌, ◌≤◌, ◌<◌, ◌≡◌, refl, sym, ap, ap₂, ◌∙◌, arith, [], ◌∷◌,
  ◌++◌, length, get_or, drop, u8,
}
use simple_vpn.Memory.{Bytes, IsBytes}
use simple_vpn.Protocol.{
  bytes16, bytes32, GreHdr, gre_bytes, IpHdr, ip_bytes, TcpHdr, tcp_bytes, IsGreHdr, IsIpHdr,
  IsTcpHdr,
}

-- The byte at an index, 0 outside of the block.
abbrev byte_at : Bytes → ℕ → ℕ
byte_at b i = get_or b i 0

abbrev half_at : Bytes → ℕ → ℕ
half_at b i = byte_at b i + byte_at b (i + 1) * 256

abbrev word_at : Bytes → ℕ → ℕ
word_at b i =
    byte_at b i + byte_at b (i + 1) * 256 + byte_at b (i + 2) * 65536 + byte_at b (i + 3) * 16777216

abbrev pub gre_at : Bytes → GreHdr
gre_at b = record { c = half_at b 0; protocol = half_at b 2; gre_sum = half_at b 4 }

abbrev pub ip_at : Bytes → IpHdr
ip_at b = record {
  ip_hl = byte_at b 6 % 16;
  ip_v = byte_at b 6 / 16;
  ip_tos = byte_at b 7;
  ip_len = half_at b 8;
  ip_id = half_at b 10;
  ip_off = half_at b 12;
  ip_ttl = byte_at b 14;
  ip_p = byte_at b 15;
  ip_sum = half_at b 16;
  ip_src = word_at b 18;
  ip_dst = word_at b 22;
}

abbrev pub tcp_at : Bytes → TcpHdr
tcp_at b = record {
  src_port = half_at b 26;
  dst_port = half_at b 28;
  seq_num = word_at b 30;
  ack_num = word_at b 34;
  data_offset = byte_at b 38;
  flags = byte_at b 39;
  window = half_at b 40;
  tcp_sum = half_at b 42;
  urgent_pointer = half_at b 44;
}

byte_at-lt : (b : Bytes) (i : ℕ) → IsBytes b → byte_at b i < 256
byte_at-lt [] i h = omega arith
byte_at-lt (x ∷ b) zero h = h.0
byte_at-lt (x ∷ b) (suc i) h = byte_at-lt b i h.1

-- The `n` bytes from an index on.
abbrev entries : ℕ → ℕ → Bytes → Bytes
entries zero i b = []
entries (suc n) i b = byte_at b i ∷ entries n (suc i) b

drop_step : (i : ℕ) (b : Bytes) → i < length b → drop i b ≡ byte_at b i ∷ drop (suc i) b
drop_step i [] h = absurd (omega arith)
drop_step zero (x ∷ b) h = refl
drop_step (suc i) (x ∷ b) h = drop_step i b (omega arith)

drop-entries : (n i : ℕ) (b : Bytes) → i + n ≤ length b → drop i b ≡ entries n i b ++ drop (n + i) b
drop-entries zero i b h = let same : i ≡ 0 + i = omega arith in ap (λ (m : ℕ). drop m b) same
drop-entries (suc n) i b h =
    let next : n + suc i ≡ suc n + i = omega arith in
    drop_step i b (omega arith)
    ∙ ap (λ (t : Bytes). byte_at b i ∷ t)
        (drop-entries n (suc i) b (omega arith)
          ∙ ap (λ (m : ℕ). entries n (suc i) b ++ drop m b) next)

module _ (b : Bytes) (bytes : IsBytes b) where
  one : (i : ℕ) → u8 (byte_at b i) ≡ byte_at b i
  one i = omega (arith, byte_at-lt b i bytes)

  half : (i : ℕ) → bytes16 (half_at b i) ≡ entries 2 i b
  half i = ap₂ (λ (x y : ℕ). x ∷ y ∷ []) (omega (arith, byte_at-lt b i bytes)) high
    where
      high : u8 (half_at b i / 256) ≡ byte_at b (suc i)
      high =
          let e : i + 1 ≡ suc i = omega arith in
          omega (arith, byte_at-lt b i bytes, byte_at-lt b (i + 1) bytes, ap (byte_at b) e)

  word : (i : ℕ) → bytes32 (word_at b i) ≡ entries 4 i b
  word i =
      let first : u8 (word_at b i) ≡ byte_at b i = omega (arith, lt i) in
      let second : u8 (word_at b i / 256) ≡ byte_at b (suc i) =
        omega (arith, lt i, lt (i + 1), ap (byte_at b) next) in
      let third : u8 (word_at b i / 65536) ≡ byte_at b (suc (suc i)) =
        omega (arith, lt i, lt (i + 1), lt (i + 2), ap (byte_at b) next₂) in
      let fourth : u8 (word_at b i / 16777216) ≡ byte_at b (suc (suc (suc i))) =
        omega (arith, lt i, lt (i + 1), lt (i + 2), lt (i + 3), ap (byte_at b) next₃) in
      ap₂ ◌∷◌ first (ap₂ ◌∷◌ second (ap₂ (λ (x y : ℕ). x ∷ y ∷ []) third fourth))
    where
      lt : (j : ℕ) → byte_at b j < 256
      lt j = byte_at-lt b j bytes

      next : i + 1 ≡ suc i
      next = omega arith

      next₂ : i + 2 ≡ suc (suc i)
      next₂ = omega arith

      next₃ : i + 3 ≡ suc (suc (suc i))
      next₃ = omega arith

  gre_entries : gre_bytes (gre_at b) ≡ entries 6 0 b
  gre_entries = ap₂ ◌++◌ (half 0) (ap₂ ◌++◌ (half 2) (half 4))

  ip_entries : ip_bytes (ip_at b) ≡ entries 20 6 b
  ip_entries = ap₂ ◌∷◌ (omega (arith, byte_at-lt b 6 bytes)) (
      ap₂ ◌∷◌ (one 7) (
        ap₂ ◌++◌ (half 8) (
          ap₂ ◌++◌ (half 10) (
            ap₂ ◌++◌ (half 12) (
              ap₂ ◌∷◌ (one 14)
                (ap₂ ◌∷◌ (one 15) (ap₂ ◌++◌ (half 16) (ap₂ ◌++◌ (word 18) (word 22)))))))))

  tcp_entries : tcp_bytes (tcp_at b) ≡ entries 20 26 b
  tcp_entries = ap₂ ◌++◌ (half 26) (
      ap₂ ◌++◌ (half 28) (
        ap₂ ◌++◌ (word 30) (
          ap₂ ◌++◌ (word 34) (
            ap₂ ◌∷◌ (one 38)
              (ap₂ ◌∷◌ (one 39) (ap₂ ◌++◌ (half 40) (ap₂ ◌++◌ (half 42) (half 44))))))))

  -- The headers read from any block of at least 46 bytes, written as bytes again, and the rest of
  -- the block are that block.
  pub headers_at :
      46 ≤ length b
      → gre_bytes (gre_at b) ++ (ip_bytes (ip_at b) ++ (tcp_bytes (tcp_at b) ++ drop 46 b)) ≡ b
  headers_at long =
      ap₂ ◌++◌ gre_entries (ap₂ ◌++◌ ip_entries (ap (λ (t : Bytes). t ++ drop 46 b) tcp_entries))
      ∙ sym (drop-entries 46 0 b (omega (arith, long)))

  pub gre_at-IsGreHdr : IsGreHdr (gre_at b)
  gre_at-IsGreHdr = record {
    c_fits = omega (arith, byte_at-lt b 0 bytes, byte_at-lt b 1 bytes);
    protocol_fits = omega (arith, byte_at-lt b 2 bytes, byte_at-lt b 3 bytes);
    gre_sum_fits = omega (arith, byte_at-lt b 4 bytes, byte_at-lt b 5 bytes);
  }

  half-lt : (i : ℕ) → half_at b i < 65536
  half-lt i = omega (arith, byte_at-lt b i bytes, byte_at-lt b (i + 1) bytes)

  word-lt : (i : ℕ) → word_at b i < 2 ^ 32
  word-lt i = omega (
    arith,
    byte_at-lt b i bytes,
    byte_at-lt b (i + 1) bytes,
    byte_at-lt b (i + 2) bytes,
    byte_at-lt b (i + 3) bytes,
  )

  pub ip_at-IsIpHdr : IsIpHdr (ip_at b)
  ip_at-IsIpHdr = record {
    hl_fits = omega arith;
    v_fits = omega (arith, byte_at-lt b 6 bytes);
    tos_fits = byte_at-lt b 7 bytes;
    len_fits = half-lt 8;
    id_fits = half-lt 10;
    off_fits = half-lt 12;
    ttl_fits = byte_at-lt b 14 bytes;
    p_fits = byte_at-lt b 15 bytes;
    sum_fits = half-lt 16;
    src_fits = word-lt 18;
    dst_fits = word-lt 22;
  }

  pub tcp_at-IsTcpHdr : IsTcpHdr (tcp_at b)
  tcp_at-IsTcpHdr = record {
    src_port_fits = half-lt 26;
    dst_port_fits = half-lt 28;
    seq_num_fits = word-lt 30;
    ack_num_fits = word-lt 34;
    data_offset_fits = byte_at-lt b 38 bytes;
    flags_fits = byte_at-lt b 39 bytes;
    window_fits = half-lt 40;
    tcp_sum_fits = half-lt 42;
    urgent_pointer_fits = half-lt 44;
  }
