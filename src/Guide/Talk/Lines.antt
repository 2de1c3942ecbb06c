-- ===== src/Guide/Talk/Lines.antt =====
-- What the talk client makes of its lines and of the replies.
use simple_vpn.Base.{
  ℕ, zero, suc, ◌+◌, ◌<◌, ◌≡◌, refl, ap, ◌∙◌, arith, List, [], ◌∷◌, ◌++◌, append_assoc, Bool, false,
  Option, some, length, length-append, drop, length-drop,
}
use simple_vpn.Memory.{Bytes, IsText, store8}
use simple_vpn.Memory.Laws.{
  write_over, strlen-append, c_string-append, IsBytes-append, IsText-IsBytes, IsText-append,
  store8_within, write_string,
}
use simple_vpn.Packet.Create.Shape.{take_all}
use simple_vpn.Guide.Talk.{
  kill_command, received_message, goodbye, TalkEvent, shows, sends, closes, is_kill, receive_reply,
  next_input, send_lines,
}
use simple_vpn.Guide.Talk.Conversation.{
  read_terminated, reply, IsTalk, is_kill-text, is_kill_command,
}

-- NUL in the last place of a block keeps the string in it.
last_nul :
    (s rest : Bytes) (n : ℕ)
    → length s + length rest ≡ n
    → (rest' : Bytes) × (store8 (s ++ 0 ∷ rest) n 0 ≡ some (s ++ 0 ∷ rest'))
      × (length rest' ≡ length rest)
unfolding store8
last_nul [] [] zero e = ([], refl, refl)
last_nul [] [] (suc n) e = absurd (omega arith)
last_nul [] (y ∷ rest) zero e = absurd (omega arith)
last_nul [] (y ∷ rest) (suc n) e =
    let (rest', stored, same) = store8_within (y ∷ rest) n 0 (omega arith) in
    (rest', rw stored refl, same)
last_nul (c ∷ s) rest zero e = absurd (omega arith)
last_nul (c ∷ s) rest (suc n) e =
    let (rest', stored, same) = last_nul s rest n (omega arith) in (rest', rw stored refl, same)

-- The reply in the client's second buffer is shown.
receive_reply_lem :
    (r : Bytes) (replies : List Bytes) (receive_buf : Bytes)
    → IsText r
    → length r < 256
    → length receive_buf ≡ 256
    → (buf : Bytes) × (receive_reply ((r ++ 0 ∷ []) ∷ replies) receive_buf
        ≡ some (buf, shows r ∷ []))
      × (length buf ≡ 256)
receive_reply_lem r replies receive_buf text short size =
    let message = r ++ 0 ∷ [] in
    let sized : length message ≡ length r + 1 = length-append r (0 ∷ []) in
    let behind = drop (length message) receive_buf in
    let bytes = IsBytes-append r (0 ∷ []) (IsText-IsBytes r text) (omega arith) in
    (
      message ++ behind,
      unfold receive_reply in
          rw (
            take_all 256 message (omega (arith, sized)),
            write_over receive_buf message (omega (arith, sized, size)) bytes,
            append_assoc r (0 ∷ []) behind,
            c_string-append r behind text,
          ),
      omega (
        arith,
        length-append message behind,
        sized,
        size,
        length-drop (length message) receive_buf,
      ),
    )

-- One round of the client: a line goes out, the reply is shown.
send_round :
    (s r : Bytes) (lines replies : List Bytes) (buf receive_buf : Bytes)
    → IsText s
    → length s < 256
    → IsText r
    → length r < 256
    → length buf ≡ 256
    → length receive_buf ≡ 256
    → (buf' : Bytes) × (receive_buf' : Bytes) × (length buf' ≡ 256)
      × (length receive_buf' ≡ 256)
      × (send_lines (s ∷ lines) ((r ++ 0 ∷ []) ∷ replies) buf receive_buf
          ≡ next_input
              (is_kill s)
              (sends (s ++ 0 ∷ []) ∷ shows r ∷ [])
              (send_lines lines replies buf' receive_buf'))
send_round s r lines replies buf receive_buf s_text s_short r_text r_short size receive_size =
    let rest = drop (length s + 1) buf in
    let rest_size = length-drop (length s + 1) buf in
    let (rest', ended, same) = last_nul s rest 255 (omega (arith, rest_size, size)) in
    let (receive_buf', shown, receive_size') =
      receive_reply_lem r replies receive_buf r_text r_short receive_size in
    (
      s ++ 0 ∷ rest',
      receive_buf',
      omega (arith, length-append s (0 ∷ rest'), same, rest_size, size),
      receive_size',
      unfold send_lines in
          rw (
            take_all 255 s (omega arith),
            write_string buf s (omega (arith, size)) s_text,
            ended,
            strlen-append s rest' s_text,
            read_terminated s rest',
            shown,
            is_kill-text s rest',
          ),
    )

-- What the client types in a conversation, what comes back, and what others see of it.
abbrev pub typed : List (Bytes × Bytes) → List Bytes → List Bytes
typed [] last = last
typed ((s, stamp) ∷ more) last = s ∷ typed more last

abbrev pub replies_to : List (Bytes × Bytes) → List Bytes → List Bytes
replies_to [] last = last
replies_to ((s, stamp) ∷ more) last = (reply s stamp ++ 0 ∷ []) ∷ replies_to more last

abbrev pub asks : List (Bytes × Bytes) → List TalkEvent → List TalkEvent
asks [] last = last
asks ((s, stamp) ∷ more) last = sends (s ++ 0 ∷ []) ∷ shows (reply s stamp) ∷ asks more last

goes_on :
    (stop : Bool) (events : List TalkEvent) (o : Option (List TalkEvent)) (rest : List TalkEvent)
    → stop ≡ false
    → o ≡ some rest
    → next_input stop events o ≡ some (events ++ rest)
unfolding next_input
goes_on stop events o rest other e = rw (other, e) refl

pub send_lines_lem :
    (lines : List (Bytes × Bytes)) (unread later : List Bytes) (buf receive_buf : Bytes)
    → IsTalk lines
    → length buf ≡ 256
    → length receive_buf ≡ 256
    → send_lines
        (typed lines (kill_command ∷ unread))
        (replies_to lines ((goodbye ++ 0 ∷ []) ∷ later))
        buf
        receive_buf
      ≡ some (asks lines (sends (kill_command ++ 0 ∷ []) ∷ shows goodbye ∷ closes ∷ []))
send_lines_lem [] unread later buf receive_buf talk size receive_size =
    let (buf', receive_buf', _, _, round) =
      send_round kill_command goodbye unread later buf receive_buf (omega arith) (omega arith)
        (omega arith) (omega arith) size receive_size in
    round
    ∙ unfold next_input in
      ap
        (λ (b : Bool).
          next_input b (sends (kill_command ++ 0 ∷ []) ∷ shows goodbye ∷ [])
            (send_lines unread later buf' receive_buf'))
        (is_kill_command [])
send_lines_lem ((s, stamp) ∷ lines) unread later buf receive_buf
      (s_text, stamp_text, short, other, talk) size receive_size =
    let once = IsText-append s received_message s_text (omega arith) in
    let lengths : length (reply s stamp) ≡ length s + 27 + length stamp =
      omega
        (arith, length-append (s ++ received_message) stamp, length-append s received_message) in
    let (buf', receive_buf', size', receive_size', round) =
      send_round s (reply s stamp) (typed lines (kill_command ∷ unread))
        (replies_to lines ((goodbye ++ 0 ∷ []) ∷ later)) buf receive_buf s_text
        (omega (arith, short)) (IsText-append (s ++ received_message) stamp once stamp_text)
        (omega (arith, lengths, short)) size receive_size in
    round
    ∙ goes_on (is_kill s) (sends (s ++ 0 ∷ []) ∷ shows (reply s stamp) ∷ [])
        (send_lines (typed lines (kill_command ∷ unread))
          (replies_to lines ((goodbye ++ 0 ∷ []) ∷ later)) buf' receive_buf')
        _ other (send_lines_lem lines unread later buf' receive_buf' talk size' receive_size')
