-- ===== src/Tests/Guide.antt =====
-- The programs of the guides at concrete messages and answers.
use simple_vpn.Base.{
  ℕ, ◌+◌, ◌↔◌, ◌≡◌, refl, arith, List, [], ◌∷◌, ◌++◌, true, false, none, some, success, length,
  take, drop, replicate,
}
use simple_vpn.Memory.{Bytes, calloc}
use simple_vpn.Hosts.{chars}
use simple_vpn.Process.{returned, sent, closed, run}
use simple_vpn.Packet.Create.Shape.{length-calloc}
use simple_vpn.Guide.RawPacket.{
  calculate_checksum, pseudo_header, raw_packet, raw_data, RawOs, send_raw, raw_receiver,
}
use simple_vpn.Guide.RawPacket.Arrival.{raw_shown, raw_packet_arrives}
use simple_vpn.Guide.Talk.Overrun.{talk_server_overrun}
use simple_vpn.Guide.Talk.{
  kill_command, begins, is_kill, TalkListening, TalkReaching, talk_server, talk_server_main,
  talk_client_main,
}
use simple_vpn.Guide.Talk.Conversation.{IsTalk, messages}
use simple_vpn.Guide.Talk.Together.{
  client_events, server_events, sent_by, bytes_of, IsReached, talk_together,
}
use simple_vpn.Guide.Talk.Lines.{typed}
use simple_vpn.Guide.Tls.{Answers, ssl_connect, ssl_accept_connection}
use simple_vpn.Guide.Tls.Handles.{library, fd, ctx, null, IsLive, next, Keeps}
use simple_vpn.Guide.Tls.Wrappers.{connected, accepted, wrappers-Keeps_iff}

abbrev talk_listening : TalkListening
talk_listening = record { socket = true; bind = true; accept = true }

abbrev talk_reaching : TalkReaching
talk_reaching = record { gethostbyname = λ host. true; socket = true; connect = true }

abbrev argv : List Bytes
argv = chars "client" ∷ chars "h2" ∷ []

reached : IsReached talk_listening talk_reaching (chars "h2")
reached = record {
  opens = refl;
  binds = refl;
  accepts = refl;
  resolves = refl;
  dials = refl;
  connects = refl;
}

-- Two lines, each with the time of its arrival.
abbrev lines : List (Bytes × Bytes)
lines = (chars "hi\n", chars "Wed 12:00\n") ∷ (chars "exit?\n", chars "Wed 12:01\n") ∷ []

lines-IsTalk : IsTalk lines
unfolding is_kill begins
lines-IsTalk =
    (omega arith, omega arith, omega arith, refl, (omega arith, omega arith, omega arith, refl, tt))

talk_together_example :
    (sent_by (client_events lines)
      ≡ bytes_of (messages lines ((kill_command ++ 0 ∷ [], chars "Wed 12:02\n") ∷ [])))
    × (talk_server_main talk_listening
          (messages lines ((kill_command ++ 0 ∷ [], chars "Wed 12:02\n") ∷ []))
          (calloc 256)
        ≡ some (record { exit = returned success; events = server_events lines }))
    × (talk_client_main talk_reaching argv
          (typed lines (kill_command ∷ chars "more" ∷ []))
          (sent_by (server_events lines))
          (calloc 256)
          (calloc 256)
        ≡ some (record { exit = returned success; events = client_events lines }))
talk_together_example =
    talk_together talk_listening talk_reaching (chars "client") (chars "h2") lines
      (chars "Wed 12:02\n") (calloc 256) (calloc 256) (calloc 256) (chars "more" ∷ []) reached
      lines-IsTalk refl refl refl

abbrev answering : Answers
answering = record {
  socket = some 3;
  bind = true;
  listen = true;
  accept = some 4;
  connect = true;
  context = some 1;
  certificate = true;
  private_key = true;
  matching = true;
  ssl = some 2;
  handshake = true;
  message = some (chars "Hello, server!");
}

-- The library is the one handle besides the context and the socket.
no_null : ¬ IsLive null (library ∷ [])
no_null (next h) = elim h [ ]

wrappers-Keeps_iff_example :
    (Keeps
        (ctx 1 ∷ fd 3 ∷ library ∷ [])
        (connected (ctx 1 ∷ fd 3 ∷ library ∷ []))
        (ssl_connect answering 3 1)
      ↔ ((s : ℕ) × (some 2 ≡ some s)))
    × (Keeps
          (ctx 1 ∷ fd 3 ∷ library ∷ [])
          (accepted (ctx 1 ∷ fd 3 ∷ library ∷ []) (some 2))
          (ssl_accept_connection answering 1)
        ↔ ((s : ℕ) × (some 2 ≡ some s)))
wrappers-Keeps_iff_example = wrappers-Keeps_iff answering 3 1 (library ∷ []) no_null

-- A line of 240 characters, behind one that the server answers.
abbrev long_line : Bytes
long_line = replicate 240 97

is_kill-long_line : is_kill long_line ≡ false
unfolding is_kill begins
is_kill-long_line = refl

talk_server_overrun_example :
    talk_server (messages lines ((long_line ++ 0 ∷ [], chars "Wed 12:02\n") ∷ [])) (calloc 256)
    ≡ none
talk_server_overrun_example =
    talk_server_overrun lines long_line (chars "Wed 12:02\n") [] (calloc 256) lines-IsTalk
      (omega arith) is_kill-long_line (omega arith) (omega arith) (omega arith) refl

-- The packet of the example, with its own payload.
abbrev raw_os : RawOs
raw_os = record { socket = some 3; setsockopt = true; sendto = true }

raw_packet_arrives_example :
    (packet : Bytes) × (raw_packet raw_data ≡ some packet)
    × (length packet ≡ 1024)
    × (calculate_checksum packet 20 ≡ some 0)
    × (calculate_checksum
          (pseudo_header (length raw_data) ++ take (20 + length raw_data) (drop 20 packet))
          (32 + length raw_data)
        ≡ some 0)
    × (take (length raw_data) (drop 40 packet) ≡ raw_data)
    × (send_raw raw_os packet raw_os.socket
        ≡ run (returned success) (sent 3 (take 1023 packet) ∷ closed 3 ∷ []))
    × (raw_receiver true (take 1023 packet ∷ []) (calloc 65536) ≡ some (1, raw_shown ∷ []))
raw_packet_arrives_example =
    raw_packet_arrives raw_data (omega arith) (omega arith) raw_os 3 (calloc 65536) refl refl refl
      (length-calloc 65536)
