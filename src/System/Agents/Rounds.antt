-- ===== src/System/Agents/Rounds.antt =====
-- A message that goes through a server to a destination, and an answer that comes back, between any
-- three agents.
use simple_vpn.Base.{
  ℕ, zero, suc, ◌+◌, ◌≡◌, refl, ap, ◌∙◌, arith, List, [], ◌∷◌, ◌++◌, Option, some, false, ◌>>=◌,
  length, replicate, if◌then◌else◌, ◌==◌,
}
use simple_vpn.Memory.{Bytes}
use simple_vpn.Process.{Exit, Event, sent}
use simple_vpn.System.Network.{Agent, takes, ends, Node, Net, move, steps}
use simple_vpn.System.Network.Turns.{
  Item, does, gives, script, speak, hear, steps-append, steps-speak, steps-hear,
}
use simple_vpn.System.Network.Schedules.{IsFinal, ended_stands, schedule_ends}
use simple_vpn.System.Agents.{client, server, destination}

-- A program at its beginning, and one that has ended.
abbrev pub fresh : Agent → Node
fresh agent = record { agent = agent; trace = [] }

abbrev pub done : Exit → List Event → Node
done exit trace = record { agent = ends exit; trace = trace }

-- Three programs, connected, with no message on the way.
abbrev pub trio : Exit → Agent → Agent → Agent → Net
trio exit c s d = record {
  nodes = λ n.
      if n == client
      then fresh c
      else (if n == server then fresh s else (if n == destination then fresh d else done exit []));
  queues = λ i j. [];
}

-- One turn behind the turns before it.
pub next_turn :
    (first second : List ℕ) (net t u : Net)
    → steps first net ≡ some t
    → steps second t ≡ some u
    → steps (first ++ second) net ≡ some u
next_turn first second net t u before then_on =
    steps-append first second net ∙ ap (λ (o : Option Net). o >>= steps second) before ∙ then_on

module _ (c s d : Agent)
    (client_waits server_waits server_waits_on destination_waits : Option Bytes → Agent)
    (exit : Exit)
    (dialled shown passed_on called shown_on answered closing closing_two back closing_back shutting
      read hung_up : Event)
    (fd fd_on fd_answer fd_back : ℕ) (request packet response reply : Bytes)
    (asks : c
      ≡ script
          (does dialled ∷ does shown ∷ gives server fd request ∷ [])
          (takes server client_waits))
    (serves : s ≡ takes client server_waits) (listens : d ≡ takes server destination_waits)
    (passes_on : server_waits (some request)
      ≡ script
          (does passed_on ∷ does called ∷ gives destination fd_on packet ∷ [])
          (takes destination server_waits_on))
    (responds : destination_waits (some packet)
      ≡ script
          (does shown_on
            ∷ does answered
            ∷ gives server fd_answer response
            ∷ does closing
            ∷ does closing_two
            ∷ [])
          (ends exit))
    (passes_back : server_waits_on (some response)
      ≡ script
          (does back ∷ gives client fd_back reply ∷ does closing_back ∷ does shutting ∷ [])
          (ends exit))
    (reads : client_waits (some reply) ≡ script (does read ∷ does hung_up ∷ []) (ends exit)) where
  abbrev start : Net
  start = trio exit c s d

  abbrev on_items : List Item
  on_items = does passed_on ∷ does called ∷ gives destination fd_on packet ∷ []

  abbrev answer_items : List Item
  answer_items =
      does shown_on
      ∷ does answered
      ∷ gives server fd_answer response
      ∷ does closing
      ∷ does closing_two
      ∷ []

  abbrev back_items : List Item
  back_items = does back ∷ gives client fd_back reply ∷ does closing_back ∷ does shutting ∷ []

  abbrev last_items : List Item
  last_items = does read ∷ does hung_up ∷ []

  -- The network after each turn.
  abbrev turn : ℕ → ℕ → List Item → Agent → Net → Net
  turn i from items rest net = speak i items rest (hear i from (script items rest) net)

  abbrev after_request : Net
  after_request =
      speak client (does dialled ∷ does shown ∷ gives server fd request ∷ [])
        (takes server client_waits) start

  abbrev after_packet : Net
  after_packet = turn server client on_items (takes destination server_waits_on) after_request

  abbrev after_response : Net
  after_response = turn destination server answer_items (ends exit) after_packet

  abbrev after_reply : Net
  after_reply = turn server destination back_items (ends exit) after_response

  abbrev at_end : Net
  at_end = turn client server last_items (ends exit) after_reply

  abbrev schedule : List ℕ
  schedule =
      (((replicate 3 client ++ replicate 4 server) ++ replicate 6 destination)
        ++ replicate 5 server)
      ++ replicate 3 client

  whole_schedule : steps schedule start ≡ some at_end
  whole_schedule =
      next_turn
        (((replicate 3 client ++ replicate 4 server) ++ replicate 6 destination)
          ++ replicate 5 server)
        (replicate 3 client) start after_reply at_end
        (next_turn ((replicate 3 client ++ replicate 4 server) ++ replicate 6 destination)
          (replicate 5 server) start after_response after_reply
          (next_turn (replicate 3 client ++ replicate 4 server) (replicate 6 destination) start
            after_packet after_response
            (next_turn (replicate 3 client) (replicate 4 server) start after_request after_packet
              (steps-speak client (does dialled ∷ does shown ∷ gives server fd request ∷ [])
                (takes server client_waits) start asks)
              (steps-hear server client server_waits request [] on_items
                (takes destination server_waits_on) after_request serves refl passes_on))
            (steps-hear destination server destination_waits packet [] answer_items (ends exit)
              after_packet listens refl responds))
          (steps-hear server destination server_waits_on response [] back_items (ends exit)
            after_response refl refl passes_back))
        (steps-hear client server client_waits reply [] last_items (ends exit) after_reply refl refl
          reads)

  at_end-IsFinal : IsFinal at_end
  unfolding move
  at_end-IsFinal zero = refl
  at_end-IsFinal (suc zero) = refl
  at_end-IsFinal (suc (suc zero)) = refl
  at_end-IsFinal (suc (suc (suc n))) =
      let i = suc (suc (suc n)) in
      let not_client : (i == client) ≡ false = ground arith in
      let not_server : (i == server) ≡ false = ground arith in
      let not_destination : (i == destination) ≡ false = ground arith in
      let idle : at_end.nodes i ≡ done exit [] =
        rw (not_client, not_server, not_destination) refl in
      ended_stands i at_end exit [] idle

  -- The end of every schedule, and what the three programs have done then.
  pub any_schedule :
      (picked : List ℕ) (t : Net)
      → steps picked start ≡ some t
      → (rest : List ℕ) × (end : Net) × (length picked + length rest ≡ 21)
        × (steps rest t ≡ some end)
        × IsFinal end
        × (end.nodes client ≡ done exit (dialled ∷ shown ∷ sent fd request ∷ read ∷ hung_up ∷ []))
        × (end.nodes server
            ≡ done exit (
                passed_on
                ∷ called
                ∷ sent fd_on packet
                ∷ back
                ∷ sent fd_back reply
                ∷ closing_back
                ∷ shutting
                ∷ []))
        × (end.nodes destination
            ≡ done exit
                (shown_on ∷ answered ∷ sent fd_answer response ∷ closing ∷ closing_two ∷ []))
  any_schedule picked t reached =
      let (rest, count, ends_there) =
        schedule_ends schedule picked start t at_end at_end-IsFinal whole_schedule reached in
      (rest, at_end, count, ends_there, at_end-IsFinal, refl, refl, refl)
