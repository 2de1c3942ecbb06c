-- ===== src/Client/Undefined.antt =====
-- Where the client accesses memory outside a block.
use simple_vpn.Base.{
  ℕ, ◌≤◌, ◌≡◌, ◌↔◌, refl, sym, ap, ◌∙◌, arith, Option, none, some, inl, inr, length, take, drop,
  some_not_none,
}
use simple_vpn.Memory.{Bytes, IsBytes, IsText, strlen}
use simple_vpn.Memory.Laws.{IsBytes-take, IsBytes-drop}
use simple_vpn.Memory.Strings.{IsText-unended, strlen_unended}
use simple_vpn.Packet.Create.Shape.{vpn_headers}
use simple_vpn.Packet.Create.Encrypted.{create_packets_shape}
use simple_vpn.Packet.Transfer.{serv_rec_from_cli}
use simple_vpn.Packet.Transfer.Arrives.{IsReceived, arrives_full, arrives, recv_into-arrives}
use simple_vpn.Packet.Transfer.Safety.{IsPacket, serv_rec_from_cli_cases}
use simple_vpn.Packet.Transfer.Send.{sent_wire}
use simple_vpn.Client.{ClientOs, exchange}
use simple_vpn.Protocol.{tcp_flag_syn}
use simple_vpn.Client.Exchange.{payload, payload-IsText, packet_printed}
use simple_vpn.Client.Safety.{packet_shown}

-- No answer, or one of 174 bytes or more with no NUL among those of its payload.
abbrev pub IsLost : Option Bytes → Type 0
IsLost none = Unit
IsLost (some received) = (174 ≤ length received) × IsText (drop 46 (take 174 received))

arrival_endless :
    (received : Bytes)
    → IsBytes received
    → IsLost (some received)
    → serv_rec_from_cli (some received) ≡ none
unfolding serv_rec_from_cli
arrival_endless received bytes (full, text) =
    let endless : strlen (drop 46 (arrives 174 received)) ≡ none =
      ap (λ (b : Bytes). strlen (drop 46 b)) (arrives_full 174 received full)
      ∙ strlen_unended (drop 46 (take 174 received)) text in
    rw (recv_into-arrives 174 received bytes, endless) refl

module _ (os : ClientOs) (client_fd : ℕ) (client_ip server_ip dest_ip : Bytes) where
  -- The client accesses memory outside a block when `recv` brings a message.
  abbrev Outcome : Option Bytes → Type 0
  Outcome message =
      exchange (record os { recv = message }) client_fd client_ip server_ip dest_ip ≡ none

  no_answer : Outcome none
  unfolding exchange serv_rec_from_cli
  no_answer =
      rw
        (
          create_packets_shape client_ip dest_ip payload tcp_flag_syn payload-IsText (omega arith),
          packet_printed client_ip dest_ip,
          sent_wire os.send (vpn_headers client_ip dest_ip tcp_flag_syn) payload refl (omega arith),
        )
        refl

  endless_answer :
      (received : Bytes) → serv_rec_from_cli (some received) ≡ none → Outcome (some received)
  unfolding exchange
  endless_answer received endless =
      rw
        (
          create_packets_shape client_ip dest_ip payload tcp_flag_syn payload-IsText (omega arith),
          packet_printed client_ip dest_ip,
          sent_wire os.send (vpn_headers client_ip dest_ip tcp_flag_syn) payload refl (omega arith),
          endless,
        )
        refl

  -- An answer that makes a packet lets the client end.
  packet_ends :
      (received packet : Bytes)
      → serv_rec_from_cli (some received) ≡ some (some packet)
      → IsPacket packet
      → Outcome (some received)
      → ⊥
  unfolding exchange
  packet_ends received packet made packed undefined =
      let (lines, shown) = packet_shown packet packed in
      some_not_none (
        rw
          (
            create_packets_shape client_ip dest_ip payload tcp_flag_syn payload-IsText
                (omega arith),
            packet_printed client_ip dest_ip,
            sent_wire os.send (vpn_headers client_ip dest_ip tcp_flag_syn) payload refl
                (omega arith),
            made,
            shown,
          )
          at undefined)

  exchange-IsLost : (message : Option Bytes) → IsReceived message → Outcome message ↔ IsLost message
  exchange-IsLost none bytes = (λ _. tt, λ _. no_answer)
  exchange-IsLost (some received) bytes = elim (serv_rec_from_cli_cases received bytes) [
    | inl (packet, made, packed) ↦ (
      λ undefined. absurd (packet_ends received packet made packed undefined),
      λ lost. absurd (some_not_none (sym made ∙ arrival_endless received bytes lost)),
    )
    | inr (full, endless, outside) ↦ (
      λ _. (
        full,
        IsText-unended (drop 46 (take 174 received))
            (IsBytes-drop 46 (take 174 received) (IsBytes-take 174 received bytes))
            (ap (λ (b : Bytes). strlen (drop 46 b)) (sym (arrives_full 174 received full))
              ∙ endless),
      ),
      λ _. endless_answer received outside,
    )
  ]

  -- For all answers of the system calls, `exchange` accesses memory outside a block exactly where
  -- `recv` fails, or brings 174 bytes or more with no NUL among those of the payload.
  pub exchange_undefined_iff :
      IsReceived os.recv
      → (exchange os client_fd client_ip server_ip dest_ip ≡ none) ↔ IsLost os.recv
  exchange_undefined_iff bytes = exchange-IsLost os.recv bytes
