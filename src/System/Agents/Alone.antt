-- ===== src/System/Agents/Alone.antt =====
-- Each agent on its own, against the program that it stands for.
use simple_vpn.Base.{
  ℕ, List, [], ◌∷◌, ◌++◌, Bool, Option, none, some, ◌>>=◌, if◌then◌else◌, ◌≡◌, refl, ap, ◌∙◌, u8,
  length, Status, success, failure,
}
use simple_vpn.Memory.{Bytes}
use simple_vpn.Hosts.{chars}
use simple_vpn.Protocol.{ip_protocol_tcp, tcp_flag_syn}
use simple_vpn.Packet.Create.{create_packets}
use simple_vpn.Packet.Transfer.{Sending, send_and_free_packet_vpn, serv_rec_from_cli, dest_rec_pkt}
use simple_vpn.Packet.Print.{Lines, print_packet}
use simple_vpn.Process.{returned, Event, printed, connected, sent, closed, Run, run, went_out}
use simple_vpn.Client.{ClientOs, print_received, exchange}
use simple_vpn.Server.{ServerOs, serve_connection}
use simple_vpn.Destination.{DestinationOs, respond, respond_received, respond_connection}
use simple_vpn.System.Network.{takes, ends, after, play}
use simple_vpn.System.Agents.{
  server, ◌then◌, put_out, emit, reply_agent, client_agent, server_agent, respond_agent,
  packet_agent, destination_agent,
}
use simple_vpn.System.Agents.Played.{
  behind, after-after, after-behind, play-then, play_then, play-emit, from_server, to_server,
}
use simple_vpn.System.Agents.ServerAlone.{server_alone}

module _ (os : ClientOs) (client_fd : ℕ) (client_ip server_ip dest_ip : Bytes) where
  abbrev shown : Lines → List Event
  shown lines = connected client_fd server_ip ∷ printed lines ∷ []

  reply_alone :
      (events : List Event)
      → behind events (play (from_server os.recv) (reply_agent client_fd os.recv)) ≡ (
          serv_rec_from_cli os.recv >>= λ resp_pkt. print_received resp_pkt >>= λ resp_lines.
          run (returned success) (events ++ (printed resp_lines ∷ closed client_fd ∷ [])))
  unfolding reply_agent
  reply_alone events =
      play-then (from_server os.recv) events (serv_rec_from_cli os.recv) _ _ (λ resp_pkt.
        play-then (from_server os.recv) events (print_received resp_pkt) _ _ (λ resp_lines. refl))

  sending_alone :
      (lines : Lines) (status : Status) (bytes : Bytes) (freed : Bool)
      → let s : Sending = record { status = status; bytes = bytes; freed = freed } in
        after (connected client_fd server_ip) (
          after (printed lines) (
            play
              (from_server os.recv)
              (put_out server client_fd s (takes server (reply_agent client_fd)))))
        ≡ (serv_rec_from_cli os.recv >>= λ resp_pkt. print_received resp_pkt >>= λ resp_lines.
            run (returned success) (
              connected client_fd server_ip
              ∷ printed lines
              ∷ (went_out client_fd s ++ (printed resp_lines ∷ closed client_fd ∷ []))))
  sending_alone lines failure bytes freed =
      after-after (connected client_fd server_ip) (printed lines) _ ∙ reply_alone (shown lines)
  sending_alone lines success bytes freed =
      ap (after (connected client_fd server_ip))
        (after-after (printed lines) (sent client_fd bytes) _)
      ∙ after-behind (connected client_fd server_ip) (printed lines ∷ sent client_fd bytes ∷ []) _
      ∙ reply_alone (connected client_fd server_ip ∷ printed lines ∷ sent client_fd bytes ∷ [])

  client_alone :
      play (from_server os.recv) (client_agent os client_fd client_ip server_ip dest_ip)
      ≡ exchange os client_fd client_ip server_ip dest_ip
  unfolding client_agent exchange
  client_alone =
      play_then (from_server os.recv)
        (create_packets client_ip dest_ip ip_protocol_tcp (chars "payload") tcp_flag_syn) _ _
        (λ packet. play_then (from_server os.recv) (print_packet packet 0) _ _ (λ lines.
          play_then (from_server os.recv)
            (send_and_free_packet_vpn os.send packet ip_protocol_tcp
              (u8 (length (chars "payload"))))
            _ _ (λ s. sending_alone lines s.status s.bytes s.freed)))

module _ (os : DestinationOs) (host_ip : Bytes) (dest_fd new_socket : ℕ) where
  received_alone :
      (rec_packet : Option Bytes)
      → play (from_server os.recv) (respond_agent os host_ip dest_fd new_socket rec_packet)
        ≡ respond_received os host_ip dest_fd new_socket rec_packet
  unfolding respond_agent respond_received
  received_alone none = refl
  received_alone (some rec_packet) = played (respond os host_ip dest_fd new_socket rec_packet)
    where
      played :
          (o : Option Run)
          → play (from_server os.recv) (o then λ r. emit server r.events (ends r.exit)) ≡ o
      played none = refl
      played (some r) = play-emit (from_server os.recv) server r.events r.exit

  destination_alone :
      play (from_server os.recv) (destination_agent os host_ip dest_fd new_socket)
      ≡ respond_connection os host_ip dest_fd new_socket
  unfolding destination_agent packet_agent respond_connection
  destination_alone = play_then (from_server os.recv) (dest_rec_pkt os.recv) _ _ received_alone

-- Played alone, with what the operating system answers to each `recv`, each of the three agents
-- does what `exchange` of the client, `serve_connection` of the server and `respond_connection` of
-- the destination do, on every branch, undefined behaviour included.
agents_alone :
    (client_os : ClientOs) (server_os : ServerOs) (destination_os : DestinationOs)
    → (client_fd server_fd new_socket dest_fd dest_socket : ℕ) (client_ip server_ip dest_ip : Bytes)
    → (play
          (from_server client_os.recv)
          (client_agent client_os client_fd client_ip server_ip dest_ip)
        ≡ exchange client_os client_fd client_ip server_ip dest_ip)
      × (play (to_server server_os) (server_agent server_os server_ip server_fd new_socket)
          ≡ serve_connection server_os server_ip server_fd new_socket)
      × (play
            (from_server destination_os.recv)
            (destination_agent destination_os dest_ip dest_fd dest_socket)
          ≡ respond_connection destination_os dest_ip dest_fd dest_socket)
agents_alone client_os server_os destination_os client_fd server_fd new_socket dest_fd dest_socket
      client_ip server_ip dest_ip =
    (
      client_alone client_os client_fd client_ip server_ip dest_ip,
      server_alone server_os server_fd new_socket server_ip,
      destination_alone destination_os dest_ip dest_fd dest_socket,
    )
