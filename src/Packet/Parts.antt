-- ===== src/Packet/Parts.antt =====
-- The parts of a block that holds a packet: its headers, its text, and what is left behind the text.
use simple_vpn.Base.{
  ◌+◌, ◌≤◌, ◌≡◌, sym, ap, ◌∙◌, arith, ◌∷◌, ◌++◌, length, length-append, length-drop, drop, subst,
}
use simple_vpn.Memory.{Bytes, IsBytes, IsText, calloc}
use simple_vpn.Memory.Laws.{IsBytes-append, IsBytes-back, IsBytes-drop}
use simple_vpn.Memory.Strings.{IsEnded}
use simple_vpn.Protocol.{
  GreHdr, gre_bytes, IpHdr, ip_bytes, TcpHdr, tcp_bytes, IsGreHdr, IsIpHdr, IsTcpHdr,
}
use simple_vpn.Protocol.Decode.{
  gre_at, ip_at, tcp_at, headers_at, gre_at-IsGreHdr, ip_at-IsIpHdr, tcp_at-IsTcpHdr,
}
use simple_vpn.Packet.Transfer.Safety.{IsPacket}

-- A block that starts with the IP header.
pub record PlainParts (b : Bytes) : Type 0 where
  pub ip : IpHdr
  pub tcp : TcpHdr
  pub text : Bytes
  pub rest : Bytes
  pub ip_fits : IsIpHdr ip
  pub tcp_fits : IsTcpHdr tcp
  pub is_text : IsText text
  pub rest_bytes : IsBytes rest
  pub sizes : length text + length rest + 41 ≡ length b
  pub whole : b ≡ ip_bytes ip ++ (tcp_bytes tcp ++ (text ++ 0 ∷ rest))

pub plain_parts : (b : Bytes) → IsBytes b → 40 ≤ length b → IsEnded (drop 40 b) → PlainParts b
plain_parts b bytes long (s, rest, text, parts) =
    let padded = calloc 6 ++ b in
    let padded_bytes : IsBytes padded = IsBytes-append (calloc 6) b (omega arith) bytes in
    let whole : b ≡ ip_bytes (ip_at padded) ++ (tcp_bytes (tcp_at padded) ++ drop 40 b) =
      sym (ap (λ (x : Bytes). drop 6 x) (headers_at padded padded_bytes (omega (arith, long)))) in
    record {
      ip = ip_at padded;
      tcp = tcp_at padded;
      text = s;
      rest = rest;
      ip_fits = ip_at-IsIpHdr padded padded_bytes;
      tcp_fits = tcp_at-IsTcpHdr padded padded_bytes;
      is_text = text;
      rest_bytes =
          (IsBytes-back s (0 ∷ rest)
            (subst (λ (x : Bytes). IsBytes x) parts (IsBytes-drop 40 b bytes))).1;
      sizes = omega (
        arith,
        long,
        ap (λ (x : Bytes). length x) parts,
        length-drop 40 b,
        length-append s (0 ∷ rest),
      );
      whole =
          whole
          ∙ ap (λ (x : Bytes). ip_bytes (ip_at padded) ++ (tcp_bytes (tcp_at padded) ++ x)) parts;
    }

-- A block of the tunnel, with a GRE header in front.
pub record TunnelParts (b : Bytes) : Type 0 where
  pub gre : GreHdr
  pub ip : IpHdr
  pub tcp : TcpHdr
  pub text : Bytes
  pub rest : Bytes
  pub gre_fits : IsGreHdr gre
  pub ip_fits : IsIpHdr ip
  pub tcp_fits : IsTcpHdr tcp
  pub is_text : IsText text
  pub rest_bytes : IsBytes rest
  pub sizes : length (text ++ 0 ∷ rest) ≡ 128
  pub whole : b ≡ gre_bytes gre ++ (ip_bytes ip ++ (tcp_bytes tcp ++ (text ++ 0 ∷ rest)))

pub tunnel_parts : (b : Bytes) → IsPacket b → TunnelParts b
tunnel_parts b packet =
    let (s, rest, text, parts) = packet.ended in
    record {
      gre = gre_at b;
      ip = ip_at b;
      tcp = tcp_at b;
      text = s;
      rest = rest;
      gre_fits = gre_at-IsGreHdr b packet.bytes;
      ip_fits = ip_at-IsIpHdr b packet.bytes;
      tcp_fits = tcp_at-IsTcpHdr b packet.bytes;
      is_text = text;
      rest_bytes =
          (IsBytes-back s (0 ∷ rest)
            (subst (λ (x : Bytes). IsBytes x) parts (IsBytes-drop 46 b packet.bytes))).1;
      sizes =
          sym (ap (λ (x : Bytes). length x) parts) ∙ omega (arith, packet.size, length-drop 46 b);
      whole =
          sym (headers_at b packet.bytes (omega (arith, packet.size)))
          ∙ ap
              (λ (x : Bytes).
                gre_bytes (gre_at b) ++ (ip_bytes (ip_at b) ++ (tcp_bytes (tcp_at b) ++ x)))
              parts;
    }
