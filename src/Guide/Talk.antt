-- ===== src/Guide/Talk.antt =====
-- doc/guide_mininet/examples/client.c and server.c: a client that sends lines, and a server that sends
-- each back with the time, until the line is "exit".
pub mod Conversation
pub mod Lines
pub mod Overrun
pub mod Together
use simple_vpn.Base.{
  ℕ, zero, suc, ◌+◌, ◌-◌, List, [], ◌∷◌, ◌++◌, Bool, true, false, ◌&&◌, ◌==◌, Option, none, some,
  ◌>>=◌, take, replicate, if◌then◌else◌, success,
}
use simple_vpn.Memory.{Bytes, store8, write, read, strlen, c_string}
use simple_vpn.Hosts.{chars}
use simple_vpn.Process.{Exit, returned, exited}

abbrev max_line : ℕ
max_line = 256

abbrev pub kill_command : Bytes
kill_command = chars "exit\n"

abbrev pub received_message : Bytes
received_message = chars "[from server] received at: "

abbrev pub goodbye : Bytes
goodbye = chars "[from server] connection terminated, server exited.\n"

-- What a program does that others see: text on its standard output, bytes sent, a socket closed.
pub data TalkEvent : Type 0 where
  shows : Bytes → TalkEvent
  sends : Bytes → TalkEvent
  closes : TalkEvent

-- strncmp(block, s, strlen(s)) == 0, with `s` no longer than the block.
unfoldable pub begins : Bytes → Bytes → Bool
begins block [] = true
begins [] (d ∷ s) = false
begins (c ∷ block) (d ∷ s) = c == d && begins block s

-- The test for the command to stop.
unfoldable pub is_kill : Bytes → Bool
unfolding begins
is_kill buf = begins buf kill_command

-- strncat(block, s, n)
pub strncat : Bytes → Bytes → ℕ → Option Bytes
unfolding write
strncat block s n = do len ← strlen block; write block len (take n s ++ 0 ∷ [])

-- One round of the server's loop on a line in `buf`. `stamp` is the text of ctime.
pub answer_line : Bytes → Bytes → Option (Bytes × List TalkEvent)
unfolding strncat
answer_line stamp buf = do
  line ← c_string buf
  buf ← strncat buf received_message max_line
  buf ← strncat buf stamp max_line
  len ← strlen buf
  bytes ← read buf (len + 1)
  some (buf, shows line ∷ sends bytes ∷ [])

-- The rest of a round, the loop left at the command to stop.
pub next_line : Bool → Bytes → Bytes → (Bytes → Option (List TalkEvent)) → Option (List TalkEvent)
unfolding answer_line
next_line true stamp buf go_on = some []
next_line false stamp buf go_on = do
  (buf, events) ← answer_line stamp buf
  rest ← go_on buf
  some (events ++ rest)

-- The server's loop over the messages that `recv` brings, each with the time of its arrival. The list
-- ends where `recv` returns 0. An error of `recv` is a message of no bytes: the loop goes on with what
-- `buf` holds.
pub converse : List (Bytes × Bytes) → Bytes → Option (List TalkEvent)
unfolding is_kill next_line
converse [] buf = some []
converse ((message, stamp) ∷ more) buf = do
  buf ← write buf 0 (take max_line message)
  next_line (is_kill buf) stamp buf (converse more)

-- From the connection on.
pub talk_server : List (Bytes × Bytes) → Bytes → Option (List TalkEvent)
unfolding converse
talk_server messages buf = do
  events ← converse messages buf
  some (
      events
      ++ (sends (goodbye ++ 0 ∷ []) ∷ closes ∷ shows (chars "connection terminated.\n") ∷ []))

pub record TalkRun : Type 0 where
  pub exit : Exit
  pub events : List TalkEvent

abbrev talk_exit : Option TalkRun
talk_exit = some (record { exit = exited; events = [] })

-- The answers of the operating system to the server. The result of `listen` is not looked at.
pub record TalkListening : Type 0 where
  pub socket : Bool
  pub bind : Bool
  pub accept : Bool

pub talk_server_main : TalkListening → List (Bytes × Bytes) → Bytes → Option TalkRun
unfolding talk_server
talk_server_main os messages buf =
    if os.socket
    then (if os.bind then (if os.accept then served else talk_exit) else talk_exit)
    else talk_exit
  where
    served : Option TalkRun
    served = do
      events ← talk_server messages buf
      some (record { exit = returned success; events = events })

-- The inner loop of the client: it runs at most once, and not at all where `recv` returns 0, which is
-- the end of the list of replies here. A reply of no bytes is an error of `recv`.
pub receive_reply : List Bytes → Bytes → Option (Bytes × List TalkEvent)
receive_reply [] receive_buf = some (receive_buf, [])
receive_reply (reply ∷ replies) receive_buf = do
  receive_buf ← write receive_buf 0 (take max_line reply)
  shown ← c_string receive_buf
  some (receive_buf, shows shown ∷ [])

abbrev later : List Bytes → List Bytes
later [] = []
later (reply ∷ replies) = replies

-- The end of a round: the client leaves at the command to stop.
pub next_input : Bool → List TalkEvent → Option (List TalkEvent) → Option (List TalkEvent)
next_input true events rest = some (events ++ closes ∷ [])
next_input false events rest = do rest ← rest; some (events ++ rest)

-- The client's loop over the lines that `fgets` brings, each of up to 255 characters. The list ends
-- with the input.
pub send_lines : List Bytes → List Bytes → Bytes → Bytes → Option (List TalkEvent)
unfolding receive_reply next_input is_kill
send_lines [] replies buf receive_buf = some []
send_lines (line ∷ lines) replies buf receive_buf = do
  buf ← write buf 0 (take (max_line - 1) line ++ 0 ∷ [])
  buf ← store8 buf (max_line - 1) 0
  len ← strlen buf
  bytes ← read buf (len + 1)
  (receive_buf, shown) ← receive_reply replies receive_buf
  next_input (is_kill buf) (sends bytes ∷ shown) (send_lines lines (later replies) buf receive_buf)

-- The answers of the network to the client.
pub record TalkReaching : Type 0 where
  pub gethostbyname : Bytes → Bool
  pub socket : Bool
  pub connect : Bool

pub talk_client_main :
    TalkReaching → List Bytes → List Bytes → List Bytes → Bytes → Bytes → Option TalkRun
unfolding send_lines
talk_client_main os (program ∷ host ∷ []) lines replies buf receive_buf =
    if os.gethostbyname host
    then (if os.socket then (if os.connect then talked else refused) else talk_exit)
    else talk_exit
  where
    talked : Option TalkRun
    talked = do
      events ← send_lines lines replies buf receive_buf
      some (record { exit = returned success; events = events })

    refused : Option TalkRun
    refused = some (record { exit = exited; events = closes ∷ [] })
talk_client_main os argv lines replies buf receive_buf = talk_exit
