-- ===== src/Guide/Talk/Overrun.antt =====
-- The talk server on a line that its buffer has no room to answer.
use simple_vpn.Base.{
  ◌+◌, ◌≤◌, ◌<◌, ◌≡◌, refl, ap, ◌∙◌, arith, List, [], ◌∷◌, ◌++◌, append_assoc, false, none, some,
  length, length-append, drop, length-drop, Bool-cases, inl, inr, ltb, ltb→lt, ltb→le,
}
use simple_vpn.Memory.{Bytes, IsBytes, IsText}
use simple_vpn.Memory.Laws.{
  write_over, write_beyond, strlen-append, c_string-append, IsBytes-append, IsText-IsBytes,
  IsText-append,
}
use simple_vpn.Packet.Create.Shape.{take_all}
use simple_vpn.Guide.Talk.{
  received_message, TalkEvent, shows, sends, is_kill, next_line, strncat, answer_line, converse,
  talk_server,
}
use simple_vpn.Guide.Talk.Conversation.{
  IsTalk, messages, reply, strncat_lem, answer_line_lem, is_kill-text,
}

-- A text appended to the string in a block that has no room for it.
strncat_beyond :
    (s t rest : Bytes)
    → IsText s
    → length t ≤ 256
    → length rest < length t
    → strncat (s ++ 0 ∷ rest) t 256 ≡ none
strncat_beyond s t rest s_text small long =
    unfold strncat in
    rw (strlen-append s rest s_text, take_all 256 t small)
      (write_beyond (s ++ 0 ∷ rest) (length s) (t ++ 0 ∷ [])
        (omega (arith, length-append s (0 ∷ rest)))
        (omega (arith, long, length-append s (0 ∷ rest), length-append t (0 ∷ []))))

-- Either the message or the time does not fit.
answer_line_beyond :
    (s stamp rest : Bytes)
    → IsText s
    → length stamp ≤ 256
    → 256 ≤ length s + 27 + length stamp
    → length s + length rest ≡ 255
    → answer_line stamp (s ++ 0 ∷ rest) ≡ none
answer_line_beyond s stamp rest s_text stamp_short long size =
    elim (Bool-cases (ltb (length rest) 27)) [
      | inl full ↦
          unfold answer_line in
          rw
            (
              c_string-append s rest s_text,
              strncat_beyond s received_message rest s_text (omega arith)
                  (ltb→lt (length rest) 27 full),
            )
            refl
      | inr room ↦
          let message_text : IsText received_message = omega arith in
          let once : IsText (s ++ received_message) =
            IsText-append s received_message s_text message_text in
          unfold answer_line in
          rw
            (
              c_string-append s rest s_text,
              strncat_lem s received_message rest s_text message_text (omega arith)
                  (ltb→le (length rest) 27 room),
              strncat_beyond (s ++ received_message) stamp (drop 27 rest) once stamp_short
                  (omega (arith, long, size, length-drop 27 rest, ltb→le (length rest) 27 room)),
            )
            refl
    ]

round_beyond :
    (message stamp : Bytes) (more : List (Bytes × Bytes)) (buf : Bytes)
    → IsBytes message
    → length message ≤ 256
    → length buf ≡ 256
    → is_kill (message ++ drop (length message) buf) ≡ false
    → answer_line stamp (message ++ drop (length message) buf) ≡ none
    → converse ((message, stamp) ∷ more) buf ≡ none
unfolding converse next_line
round_beyond message stamp more buf bytes fits size other stuck =
    rw (take_all 256 message fits, write_over buf message (omega (arith, fits, size)) bytes)
      (rw other (rw stuck refl))

later_beyond :
    (message stamp : Bytes) (more : List (Bytes × Bytes)) (buf buf' : Bytes)
    (events : List TalkEvent)
    → IsBytes message
    → length message ≤ 256
    → length buf ≡ 256
    → is_kill (message ++ drop (length message) buf) ≡ false
    → answer_line stamp (message ++ drop (length message) buf) ≡ some (buf', events)
    → converse more buf' ≡ none
    → converse ((message, stamp) ∷ more) buf ≡ none
unfolding converse next_line
later_beyond message stamp more buf buf' events bytes fits size other answered stuck =
    rw (take_all 256 message fits, write_over buf message (omega (arith, fits, size)) bytes)
      (rw other (rw (answered, stuck) refl))

-- A message that cannot be answered, behind lines that can.
overrun :
    (lines : List (Bytes × Bytes)) (s stamp : Bytes) (more : List (Bytes × Bytes)) (buf : Bytes)
    → IsTalk lines
    → IsText s
    → is_kill s ≡ false
    → length s ≤ 255
    → length stamp ≤ 256
    → 256 ≤ length s + 27 + length stamp
    → length buf ≡ 256
    → converse (messages lines ((s ++ 0 ∷ [], stamp) ∷ more)) buf ≡ none
overrun [] s stamp more buf talk s_text other fits stamp_short long size =
    let message = s ++ 0 ∷ [] in
    let rest = drop (length message) buf in
    let sized : length message ≡ length s + 1 = length-append s (0 ∷ []) in
    let whole : message ++ rest ≡ s ++ 0 ∷ rest = append_assoc s (0 ∷ []) rest in
    round_beyond message stamp more buf
      (IsBytes-append s (0 ∷ []) (IsText-IsBytes s s_text) (omega arith))
      (omega (arith, sized, fits)) size (ap is_kill whole ∙ is_kill-text s rest ∙ other)
      (ap (answer_line stamp) whole
        ∙ answer_line_beyond s stamp rest s_text stamp_short long
            (omega (arith, sized, size, length-drop (length message) buf, fits)))
overrun ((line, at) ∷ lines) s stamp more buf (line_text, at_text, short, no_kill, talk) s_text
      other fits stamp_short long size =
    let message = line ++ 0 ∷ [] in
    let rest = drop (length message) buf in
    let sized : length message ≡ length line + 1 = length-append line (0 ∷ []) in
    let whole : message ++ rest ≡ line ++ 0 ∷ rest = append_assoc line (0 ∷ []) rest in
    let (left, answered, left_size) =
      answer_line_lem line at rest line_text at_text short
        (omega (arith, sized, size, length-drop (length message) buf, short)) in
    let buf' = reply line at ++ 0 ∷ left in
    later_beyond message at (messages lines ((s ++ 0 ∷ [], stamp) ∷ more)) buf buf'
      (shows line ∷ sends (reply line at ++ 0 ∷ []) ∷ [])
      (IsBytes-append line (0 ∷ []) (IsText-IsBytes line line_text) (omega arith))
      (omega (arith, sized, short)) size (ap is_kill whole ∙ is_kill-text line rest ∙ no_kill)
      (ap (answer_line at) whole ∙ answered)
      (overrun lines s stamp more buf' talk s_text other fits stamp_short long
        (omega (arith, left_size, length-append (reply line at) (0 ∷ left))))

-- After any lines that fit with their answers, a line of up to 255 characters that is no command
-- to stop and that, with the 27 bytes of the message and a time of up to 256 bytes, makes 256
-- bytes or more, makes the server of the conversation write over the end of its buffer, whatever
-- comes behind it.
pub talk_server_overrun :
    (lines : List (Bytes × Bytes)) (s stamp : Bytes) (more : List (Bytes × Bytes)) (buf : Bytes)
    → IsTalk lines
    → IsText s
    → is_kill s ≡ false
    → length s ≤ 255
    → length stamp ≤ 256
    → 256 ≤ length s + 27 + length stamp
    → length buf ≡ 256
    → talk_server (messages lines ((s ++ 0 ∷ [], stamp) ∷ more)) buf ≡ none
talk_server_overrun lines s stamp more buf talk s_text other fits stamp_short long size =
    unfold talk_server in
    rw (overrun lines s stamp more buf talk s_text other fits stamp_short long size) refl
