-- ===== src/Server/Lost.antt =====
-- Answers of the destination that the server cannot handle.
use simple_vpn.Base.{
  ℕ, ◌≤◌, ◌<◌, ◌^◌, ◌≡◌, ◌⊎◌, refl, sym, subst, ap, ◌∙◌, arith, ◌++◌, Option, none, some, inl, inr,
  length, length-take, take, drop, ltb, ltb→lt, ltb→le, Bool-cases,
}
use simple_vpn.Memory.{Bytes, IsBytes, IsText, calloc, strlen}
use simple_vpn.Memory.Laws.{IsBytes-append, IsBytes-take, IsBytes-drop}
use simple_vpn.Memory.Strings.{IsText-unended, strlen_cases}
use simple_vpn.Address.{address_text}
use simple_vpn.Address.RoundTrip.{parse_ip_addr_to_str_lem, parse_ip_addr-address_text}
use simple_vpn.Protocol.{IpHdr, ip_bytes, TcpHdr, tcp_bytes, IsIpHdr, IsTcpHdr}
use simple_vpn.Protocol.Decode.{ip_at, tcp_at, headers_at, ip_at-IsIpHdr, tcp_at-IsTcpHdr}
use simple_vpn.Packet.Headers.Layout.{vpn_gre, packet_encapsulate_lem}
use simple_vpn.Packet.Create.Shape.{no_gre}
use simple_vpn.Packet.Handle.Rewrite.{serv_handle_pkt_dest_lem}
use simple_vpn.Packet.Transfer.{serv_rec_from_des}
use simple_vpn.Packet.Transfer.Arrives.{
  IsReceived, arrives_full, arrives, arrives-IsBytes, serv_rec_from_des-arrives,
}
use simple_vpn.Packet.Transfer.Safety.{IsDelivered-short}
use simple_vpn.Packet.Print.Fields.{address_string}
use simple_vpn.Packet.Print.Decapsulated.{vpn_gre-IsGreHdr}
use simple_vpn.Packet.Print.Unended.{print_packet_unended}
use simple_vpn.Server.{ServerOs, return_answer}
use simple_vpn.Server.Answer.{copied_behind, for_client, for_client-IsIpHdr}
use simple_vpn.Server.Safety.{IsAnswer}

-- No answer, or one of 168 bytes or more with no NUL among those of its payload.
abbrev pub IsLost : Option Bytes → Type 0
IsLost none = Unit
IsLost (some received) = (168 ≤ length received) × IsText (drop 40 (take 168 received))

-- Every answer is lost, or holds the end of its text.
pub IsLost-cases : (message : Option Bytes) → IsReceived message → IsLost message ⊎ IsAnswer message
IsLost-cases none bytes = inl tt
IsLost-cases (some received) bytes = elim (Bool-cases (ltb (length received) 168)) [
  | inl short ↦ inr (IsDelivered-short 168 40 received bytes (ltb→lt _ _ short) (omega arith))
  | inr long ↦
      let full : 168 ≤ length received = ltb→le _ _ long in
      let block = drop 40 (arrives 168 received) in
      elim (strlen_cases block
        (IsBytes-drop 40 (arrives 168 received) (arrives-IsBytes 168 received bytes))) [
          | inl ended ↦ inr (bytes, ended)
          | inr (endless, _) ↦ inl (
            full,
            IsText-unended (drop 40 (take 168 received))
                (IsBytes-drop 40 (take 168 received) (IsBytes-take 168 received bytes))
                (ap (λ (b : Bytes). strlen (drop 40 b)) (sym (arrives_full 168 received full))
                  ∙ endless),
          )
        ]
]

module _ (os : ServerOs) (server_fd new_socket client_ip : ℕ) (small : client_ip < 2 ^ 32) where
  -- An answer whose text has no end.
  endless_answer :
      (h : IpHdr) (t : TcpHdr) (s back : Bytes)
      → IsIpHdr h
      → IsTcpHdr t
      → IsText s
      → IsBytes (ip_bytes h ++ (tcp_bytes t ++ s))
      → length (ip_bytes h ++ (tcp_bytes t ++ s)) ≡ 168
      → return_answer os server_fd new_socket client_ip
          (some ((ip_bytes h ++ (tcp_bytes t ++ s)) ++ back))
        ≡ none
  endless_answer h t s back ip_fits tcp_fits text bytes size =
      unfold return_answer in
      rw
        (
          packet_encapsulate_lem no_gre (calloc 168),
          copied_behind (ip_bytes h ++ (tcp_bytes t ++ s)) back size bytes,
          parse_ip_addr_to_str_lem (calloc 16) client_ip (omega arith) small,
          address_string client_ip small,
          serv_handle_pkt_dest_lem vpn_gre h (tcp_bytes t ++ s) (address_text client_ip) ip_fits,
          parse_ip_addr-address_text client_ip small,
          print_packet_unended vpn_gre (for_client h client_ip) t s vpn_gre-IsGreHdr
              (for_client-IsIpHdr h client_ip ip_fits small) tcp_fits text,
        )
        refl

  pub answer_fails :
      (message : Option Bytes)
      → IsReceived message
      → IsLost message
      → (dest : Option Bytes) × (serv_rec_from_des message ≡ some dest)
        × (return_answer os server_fd new_socket client_ip dest ≡ none)
  unfolding serv_rec_from_des return_answer
  answer_fails none bytes lost = (none, refl, refl)
  answer_fails (some received) bytes (full, text) =
      let (back, came) = serv_rec_from_des-arrives received bytes in
      let block = take 168 received in
      let same : arrives 168 received ≡ block = arrives_full 168 received full in
      let size : length block ≡ 168 = omega (arith, full, length-take 168 received) in
      let padded = calloc 6 ++ block in
      let block_bytes : IsBytes block = IsBytes-take 168 received bytes in
      let padded_bytes : IsBytes padded =
        IsBytes-append (calloc 6) block (omega arith) block_bytes in
      let whole : ip_bytes (ip_at padded) ++ (tcp_bytes (tcp_at padded) ++ drop 40 block) ≡ block =
        ap (λ (x : Bytes). drop 6 x) (headers_at padded padded_bytes (omega (arith, size))) in
      (
        some (arrives 168 received ++ back),
        came,
        ap (λ (b : Bytes). return_answer os server_fd new_socket client_ip (some (b ++ back)))
              (same ∙ sym whole)
            ∙ endless_answer (ip_at padded) (tcp_at padded) (drop 40 block) back
                (ip_at-IsIpHdr padded padded_bytes) (tcp_at-IsTcpHdr padded padded_bytes) text
                (subst (λ (b : Bytes). IsBytes b) (sym whole) block_bytes)
                (ap (λ (b : Bytes). length b) whole ∙ size),
      )
