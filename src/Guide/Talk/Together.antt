-- ===== src/Guide/Talk/Together.antt =====
-- The two programs of the conversation, each with what the other sends.
use simple_vpn.Base.{◌≡◌, refl, ap, ◌∙◌, arith, List, [], ◌∷◌, ◌++◌, true, some, length, success}
use simple_vpn.Memory.{Bytes}
use simple_vpn.Hosts.{chars}
use simple_vpn.Process.{returned}
use simple_vpn.Guide.Talk.{
  kill_command, goodbye, TalkEvent, shows, sends, closes, TalkListening, TalkReaching,
  talk_server_main, talk_client_main, send_lines,
}
use simple_vpn.Guide.Talk.Conversation.{reply, IsTalk, messages, answers, talk_server_lem}
use simple_vpn.Guide.Talk.Lines.{typed, replies_to, asks, send_lines_lem}

-- What a program puts on the network.
abbrev pub sent_by : List TalkEvent → List Bytes
sent_by [] = []
sent_by (sends bytes ∷ events) = bytes ∷ sent_by events
sent_by (shows line ∷ events) = sent_by events
sent_by (closes ∷ events) = sent_by events

-- The bytes of messages that come with their times.
abbrev pub bytes_of : List (Bytes × Bytes) → List Bytes
bytes_of [] = []
bytes_of ((message, stamp) ∷ more) = message ∷ bytes_of more

asks-sent :
    (lines : List (Bytes × Bytes)) (stamp : Bytes)
    → sent_by (asks lines (sends (kill_command ++ 0 ∷ []) ∷ shows goodbye ∷ closes ∷ []))
      ≡ bytes_of (messages lines ((kill_command ++ 0 ∷ [], stamp) ∷ []))
asks-sent [] stamp = refl
asks-sent ((s, at) ∷ lines) stamp =
    ap (λ (t : List Bytes). (s ++ 0 ∷ []) ∷ t) (asks-sent lines stamp)

answers-sent :
    (lines : List (Bytes × Bytes))
    → sent_by (
        answers lines
          (sends (goodbye ++ 0 ∷ []) ∷ closes ∷ shows (chars "connection terminated.\n") ∷ []))
      ≡ replies_to lines ((goodbye ++ 0 ∷ []) ∷ [])
answers-sent [] = refl
answers-sent ((s, at) ∷ lines) =
    ap (λ (t : List Bytes). (reply s at ++ 0 ∷ []) ∷ t) (answers-sent lines)

-- Every call of the two programs succeeds.
pub record IsReached (os : TalkListening) (net : TalkReaching) (host : Bytes) : Type 0 where
  pub opens : os.socket ≡ true
  pub binds : os.bind ≡ true
  pub accepts : os.accept ≡ true
  pub resolves : net.gethostbyname host ≡ true
  pub dials : net.socket ≡ true
  pub connects : net.connect ≡ true

-- What the two programs do in a conversation that ends with the command to stop.
abbrev pub client_events : List (Bytes × Bytes) → List TalkEvent
client_events lines = asks lines (sends (kill_command ++ 0 ∷ []) ∷ shows goodbye ∷ closes ∷ [])

abbrev pub server_events : List (Bytes × Bytes) → List TalkEvent
server_events lines =
    answers lines
      (sends (goodbye ++ 0 ∷ []) ∷ closes ∷ shows (chars "connection terminated.\n") ∷ [])

-- If all calls of the two programs of the conversation succeed and every line, with its answer's
-- 27 bytes and the time behind it, is shorter than 256 bytes and no command to stop, then a client
-- that is given these lines and then the command sends exactly the messages that the server is run
-- on, each line with a NUL, and the server's answers are those that the client is run on; the
-- server shows every line and answers it with the line, its message and the time, the client shows
-- every answer, and at the command both close their socket and return success.
pub talk_together :
    (os : TalkListening) (net : TalkReaching) (program host : Bytes)
    → (lines : List (Bytes × Bytes)) (stamp buf client_buf receive_buf : Bytes)
      (unread : List Bytes)
    → IsReached os net host
    → IsTalk lines
    → length buf ≡ 256
    → length client_buf ≡ 256
    → length receive_buf ≡ 256
    → (sent_by (client_events lines)
        ≡ bytes_of (messages lines ((kill_command ++ 0 ∷ [], stamp) ∷ [])))
      × (talk_server_main os (messages lines ((kill_command ++ 0 ∷ [], stamp) ∷ [])) buf
          ≡ some (record { exit = returned success; events = server_events lines }))
      × (talk_client_main net
            (program ∷ host ∷ [])
            (typed lines (kill_command ∷ unread))
            (sent_by (server_events lines))
            client_buf
            receive_buf
          ≡ some (record { exit = returned success; events = client_events lines }))
talk_together os net program host lines stamp buf client_buf receive_buf unread up talk size
      client_size receive_size =
    (
      asks-sent lines stamp,
      unfold talk_server_main in
          rw
            (
              up.opens,
              up.binds,
              up.accepts,
              talk_server_lem lines (0 ∷ []) stamp [] buf talk (omega arith) (omega arith) size,
            )
            refl,
      unfold talk_client_main in
          rw
            (
              up.resolves,
              up.dials,
              up.connects,
              ap
                    (λ (r : List Bytes).
                      send_lines (typed lines (kill_command ∷ unread)) r client_buf receive_buf)
                    (answers-sent lines)
                  ∙ send_lines_lem lines unread [] client_buf receive_buf talk client_size
                      receive_size,
            )
            refl,
    )
