-- ===== src/Guide/Talk/Conversation.antt =====
-- What the talk server makes of lines that fit its buffer.
use simple_vpn.Base.{
  ◌+◌, ◌-◌, ◌≤◌, ◌<◌, ◌≡◌, refl, sym, ap, ap₂, ◌∙◌, arith, List, [], ◌∷◌, ◌++◌, append_assoc, Bool,
  true, false, ◌&&◌, ◌==◌, Option, some, ◌>>=◌, length, length-append, length-take, take, drop,
  take-append-drop, length-drop,
}
use simple_vpn.Memory.{Bytes, IsBytes, IsText, write, read}
use simple_vpn.Memory.Laws.{
  write_over, write-append, read-append, strlen-append, c_string-append, IsBytes-append,
  IsText-IsBytes, IsText-append,
}
use simple_vpn.Packet.Create.Shape.{take_all}
use simple_vpn.Hosts.{chars}
use simple_vpn.Guide.Talk.{
  kill_command, received_message, goodbye, TalkEvent, shows, sends, closes, begins, is_kill,
  next_line, strncat, answer_line, converse, talk_server,
}

-- A text appended to the string in a block that has room for it.
pub strncat_lem :
    (s t rest : Bytes)
    → IsText s
    → IsText t
    → length t ≤ 256
    → length t ≤ length rest
    → strncat (s ++ 0 ∷ rest) t 256 ≡ some ((s ++ t) ++ 0 ∷ drop (length t) rest)
strncat_lem s t rest s_text t_text small room =
    let new = t ++ 0 ∷ [] in
    let parts : s ++ 0 ∷ rest ≡ s ++ ((0 ∷ take (length t) rest) ++ drop (length t) rest) =
      ap (λ (b : Bytes). s ++ 0 ∷ b) (sym (take-append-drop (length t) rest)) in
    let same : length (0 ∷ take (length t) rest) ≡ length new =
      omega (arith, length-take (length t) rest, length-append t (0 ∷ [])) in
    let bytes : IsBytes new = IsBytes-append t (0 ∷ []) (IsText-IsBytes t t_text) (omega arith) in
    unfold strncat in
    rw (strlen-append s rest s_text, take_all 256 t small)
      (ap (λ (b : Bytes). write b (length s) new) parts
        ∙ write-append s (0 ∷ take (length t) rest) (drop (length t) rest) new same bytes
        ∙ ap some (
            ap (λ (b : Bytes). s ++ b) (append_assoc t (0 ∷ []) (drop (length t) rest))
            ∙ sym (append_assoc s t (0 ∷ drop (length t) rest))))

-- A string is read with its NUL.
pub read_terminated : (s left : Bytes) → read (s ++ 0 ∷ left) (length s + 1) ≡ some (s ++ 0 ∷ [])
read_terminated s left =
    ap₂ read (sym (append_assoc s (0 ∷ []) left)) (sym (length-append s (0 ∷ [])))
    ∙ read-append (s ++ 0 ∷ []) left

-- The server's line, and its answer to it.
abbrev pub reply : Bytes → Bytes → Bytes
reply s stamp = (s ++ received_message) ++ stamp

-- Where the line, the message and the time fit the buffer, the answer is the three.
pub answer_line_lem :
    (s stamp rest : Bytes)
    → IsText s
    → IsText stamp
    → length s + 27 + length stamp < 256
    → length s + length rest ≡ 255
    → (left : Bytes) × (answer_line stamp (s ++ 0 ∷ rest)
        ≡ some (reply s stamp ++ 0 ∷ left, shows s ∷ sends (reply s stamp ++ 0 ∷ []) ∷ []))
      × (length (reply s stamp) + length left ≡ 255)
answer_line_lem s stamp rest s_text stamp_text fits size =
    let message_text : IsText received_message = omega arith in
    let rest' = drop (length received_message) rest in
    let left = drop (length stamp) rest' in
    let once : IsText (s ++ received_message) =
      IsText-append s received_message s_text message_text in
    let whole : IsText (reply s stamp) =
      IsText-append (s ++ received_message) stamp once stamp_text in
    let room : length rest' ≡ length rest - 27 = length-drop 27 rest in
    let lengths : length (reply s stamp) ≡ length s + 27 + length stamp =
      omega
        (arith, length-append (s ++ received_message) stamp, length-append s received_message) in
    (
      left,
      unfold answer_line in
          rw
            (
              c_string-append s rest s_text,
              strncat_lem s received_message rest s_text message_text (omega arith)
                  (omega (arith, fits, size)),
              strncat_lem (s ++ received_message) stamp rest' once stamp_text (omega (arith, fits))
                  (omega (arith, fits, size, room)),
              strlen-append (reply s stamp) left whole,
            )
            (ap
              (λ (o : Option Bytes).
                o >>= (λ bytes. some (reply s stamp ++ 0 ∷ left, shows s ∷ sends bytes ∷ [])))
              (read_terminated (reply s stamp) left)),
      omega (arith, lengths, room, length-drop (length stamp) rest', fits, size),
    )

-- A conversation: lines with the times of their arrival, each of which fits the buffer with its answer, none
-- of them the command to stop.
abbrev pub IsTalk : List (Bytes × Bytes) → Type 0
IsTalk [] = Unit
IsTalk ((s, stamp) ∷ more) =
    IsText s
    × IsText stamp
    × (length s + 27 + length stamp < 256)
    × (is_kill s ≡ false)
    × IsTalk more

-- The messages of a conversation, the command to stop and whatever comes behind it.
abbrev pub messages : List (Bytes × Bytes) → List (Bytes × Bytes) → List (Bytes × Bytes)
messages [] last = last
messages ((s, stamp) ∷ more) last = (s ++ 0 ∷ [], stamp) ∷ messages more last

-- What the server does about them.
abbrev pub answers : List (Bytes × Bytes) → List TalkEvent → List TalkEvent
answers [] last = last
answers ((s, stamp) ∷ more) last = shows s ∷ sends (reply s stamp ++ 0 ∷ []) ∷ answers more last

begins-text : (s rest t : Bytes) → IsText t → begins (s ++ 0 ∷ rest) t ≡ begins s t
unfolding begins
begins-text [] rest [] h = refl
begins-text [] rest (d ∷ t) h = ground arith
begins-text (c ∷ s) rest [] h = refl
begins-text (c ∷ s) rest (d ∷ t) h = ap (λ (b : Bool). (c == d) && b) (begins-text s rest t h.2)

begins-append : (t rest : Bytes) → begins (t ++ rest) t ≡ true
unfolding begins
begins-append [] rest = refl
begins-append (d ∷ t) rest = ground (arith, begins-append t rest)

pub is_kill-text : (s rest : Bytes) → is_kill (s ++ 0 ∷ rest) ≡ is_kill s
unfolding is_kill
is_kill-text s rest = begins-text s rest kill_command (omega arith)

pub is_kill_command : (rest : Bytes) → is_kill (kill_command ++ rest) ≡ true
unfolding is_kill
is_kill_command rest = begins-append kill_command rest

converse_stop :
    (message stamp : Bytes) (more : List (Bytes × Bytes)) (buf : Bytes)
    → IsBytes message
    → length message ≤ 256
    → length buf ≡ 256
    → is_kill (message ++ drop (length message) buf) ≡ true
    → converse ((message, stamp) ∷ more) buf ≡ some []
unfolding converse next_line
converse_stop message stamp more buf bytes fits size stop =
    rw (take_all 256 message fits, write_over buf message (omega (arith, fits, size)) bytes)
      (rw stop refl)

converse_round :
    (message stamp : Bytes) (more : List (Bytes × Bytes)) (buf buf' : Bytes)
    (events rest : List TalkEvent)
    → IsBytes message
    → length message ≤ 256
    → length buf ≡ 256
    → is_kill (message ++ drop (length message) buf) ≡ false
    → answer_line stamp (message ++ drop (length message) buf) ≡ some (buf', events)
    → converse more buf' ≡ some rest
    → converse ((message, stamp) ∷ more) buf ≡ some (events ++ rest)
unfolding converse next_line
converse_round message stamp more buf buf' events rest bytes fits size other answered goes_on =
    rw (take_all 256 message fits, write_over buf message (omega (arith, fits, size)) bytes)
      (rw other (rw (answered, goes_on) refl))

-- The server answers every line, and stops at the command, whatever its buffer holds at first.
converse_lem :
    (lines : List (Bytes × Bytes)) (behind stamp : Bytes) (more : List (Bytes × Bytes))
    (buf : Bytes)
    → IsTalk lines
    → IsBytes behind
    → length behind ≤ 251
    → length buf ≡ 256
    → converse (messages lines ((kill_command ++ behind, stamp) ∷ more)) buf
      ≡ some (answers lines [])
converse_lem [] behind stamp more buf talk bytes fits size =
    let last = kill_command ++ behind in
    converse_stop last stamp more buf (IsBytes-append kill_command behind (omega arith) bytes)
      (omega (arith, length-append kill_command behind)) size
      (ap is_kill (append_assoc kill_command behind (drop (length last) buf))
        ∙ is_kill_command (behind ++ drop (length last) buf))
converse_lem ((s, at) ∷ lines) behind stamp more buf (s_text, at_text, short, other, talk) bytes
      fits size =
    let message = s ++ 0 ∷ [] in
    let rest = drop (length message) buf in
    let sized : length message ≡ length s + 1 = length-append s (0 ∷ []) in
    let whole : message ++ rest ≡ s ++ 0 ∷ rest = append_assoc s (0 ∷ []) rest in
    let (left, answered, left_size) =
      answer_line_lem s at rest s_text at_text short
        (omega (arith, sized, size, length-drop (length message) buf, short)) in
    let buf' = reply s at ++ 0 ∷ left in
    converse_round message at (messages lines ((kill_command ++ behind, stamp) ∷ more)) buf buf'
      (shows s ∷ sends (reply s at ++ 0 ∷ []) ∷ []) (answers lines [])
      (IsBytes-append s (0 ∷ []) (IsText-IsBytes s s_text) (omega arith))
      (omega (arith, sized, short)) size (ap is_kill whole ∙ is_kill-text s rest ∙ other)
      (ap (answer_line at) whole ∙ answered)
      (converse_lem lines behind stamp more buf' talk bytes fits
        (omega (arith, left_size, length-append (reply s at) (0 ∷ left))))

answers-append :
    (lines : List (Bytes × Bytes)) (last : List TalkEvent)
    → answers lines [] ++ last ≡ answers lines last
answers-append [] last = refl
answers-append ((s, at) ∷ lines) last =
    ap (λ (events : List TalkEvent). shows s ∷ sends (reply s at ++ 0 ∷ []) ∷ events)
      (answers-append lines last)

-- The run of the server on a conversation, whatever comes behind the command to stop.
pub talk_server_lem :
    (lines : List (Bytes × Bytes)) (behind stamp : Bytes) (more : List (Bytes × Bytes))
    (buf : Bytes)
    → IsTalk lines
    → IsBytes behind
    → length behind ≤ 251
    → length buf ≡ 256
    → talk_server (messages lines ((kill_command ++ behind, stamp) ∷ more)) buf
      ≡ some (
          answers lines
            (sends (goodbye ++ 0 ∷ []) ∷ closes ∷ shows (chars "connection terminated.\n") ∷ []))
talk_server_lem lines behind stamp more buf talk bytes fits size =
    unfold talk_server in
    rw (converse_lem lines behind stamp more buf talk bytes fits size)
      (ap some (answers-append lines _))
