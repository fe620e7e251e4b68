-- ===== src/Tests/Transactions.antt =====
-- The transaction machines on short runs.
use wavekat_sip.Base.{◌≡◌, refl, [], ◌∷◌, Option, none, some, ◌>>=◌, arith}
use wavekat_sip.Sip.{ack, bye, invite, Request}
use wavekat_sip.Transaction.{unreliable, default_timers}
use wavekat_sip.Transaction.Key.{from_request}
use wavekat_sip.Transaction.Ack.{build_non_2xx_ack, build_non_2xx_ack_echoes}
use wavekat_sip.Transaction.Machine.{
  outcomes, terminations, World, begin, perform, Reach, started, handled,
}
use wavekat_sip.Transaction.ClientInvite
use wavekat_sip.Transaction.ClientInvite.Life as ClientInviteLife
use wavekat_sip.Transaction.ClientNonInvite
use wavekat_sip.Transaction.ClientNonInvite.Life as ClientNonInviteLife
use wavekat_sip.Transaction.ServerInvite
use wavekat_sip.Transaction.ServerInvite.Life as ServerInviteLife
use wavekat_sip.Transaction.ServerNonInvite
use wavekat_sip.Transaction.ServerNonInvite.Life as ServerNonInviteLife
use wavekat_sip.Tests.Fixtures.{rsip, rsip-RsipLaws, request_of, response_of, busy}

-- An INVITE over UDP that is refused.
abbrev refused : World ClientInvite.ClientInvite
refused =
    let w = begin (ClientInvite.start (request_of invite) default_timers unreliable) in
    perform w w.armed (ClientInvite.on_response rsip w.tx busy)

refused-Reach :
    Reach
      (ClientInvite.on_response rsip)
      ClientInvite.on_timer
      (ClientInvite.start (request_of invite) default_timers unreliable)
      refused
refused-Reach = handled busy started

client_invite_life_example :
    (outcomes refused.log ≡ ClientInviteLife.settled refused.tx.state)
    × (terminations refused.log ≡ ClientInviteLife.finished refused.tx.state)
    × ClientInviteLife.Alive refused.tx.state refused
    × ClientInviteLife.Resends refused.tx.rel refused.tx.state refused.armed
client_invite_life_example =
    ClientInviteLife.client_invite_life rsip (request_of invite) default_timers unreliable
      refused-Reach

-- A BYE over UDP that is accepted.
abbrev accepted : World ClientNonInvite.ClientNonInvite
accepted =
    let w = begin (ClientNonInvite.start (request_of bye) default_timers unreliable) in
    perform w w.armed (ClientNonInvite.on_response w.tx (response_of bye 200))

accepted-Reach :
    Reach ClientNonInvite.on_response ClientNonInvite.on_timer
      (ClientNonInvite.start (request_of bye) default_timers unreliable)
      accepted
accepted-Reach = handled (response_of bye 200) started

client_non_invite_life_example :
    (outcomes accepted.log ≡ ClientNonInviteLife.settled accepted.tx.state)
    × (terminations accepted.log ≡ ClientNonInviteLife.finished accepted.tx.state)
    × ClientNonInviteLife.Alive accepted.tx.state accepted
    × ClientNonInviteLife.Resends accepted.tx.rel accepted.tx.state accepted.armed
client_non_invite_life_example =
    ClientNonInviteLife.client_non_invite_life (request_of bye) default_timers unreliable
      accepted-Reach

-- An INVITE that was received over UDP and is refused.
abbrev refusing : World ServerInvite.ServerInvite
refusing =
    let w = begin (ServerInvite.start (request_of invite) default_timers unreliable) in
    perform w w.armed (ServerInviteLife.handle w.tx (ServerInviteLife.respond busy))

refusing-Reach :
    Reach ServerInviteLife.handle ServerInvite.on_timer
      (ServerInvite.start (request_of invite) default_timers unreliable)
      refusing
refusing-Reach = handled (ServerInviteLife.respond busy) started

server_invite_life_example :
    (terminations refusing.log ≡ ServerInviteLife.finished refusing.tx.state)
    × ServerInviteLife.Alive refusing.tx.state refusing
    × ServerInviteLife.Resends refusing.tx.rel refusing.tx.state refusing.armed
server_invite_life_example =
    ServerInviteLife.server_invite_life (request_of invite) default_timers unreliable refusing-Reach

refusing_completed : refusing.tx.state ≡ ServerInvite.State.completed
unfolding ServerInvite.start ServerInvite.send_response ServerInviteLife.handle
refusing_completed = refl

-- A BYE that was received over UDP and is accepted.
abbrev accepting : World ServerNonInvite.ServerNonInvite
accepting =
    let w = begin (ServerNonInvite.start (request_of bye) default_timers unreliable) in
    perform w w.armed
      (ServerNonInviteLife.handle w.tx (ServerNonInviteLife.respond (response_of bye 200)))

accepting-Reach :
    Reach ServerNonInviteLife.handle ServerNonInvite.on_timer
      (ServerNonInvite.start (request_of bye) default_timers unreliable)
      accepting
accepting-Reach = handled (ServerNonInviteLife.respond (response_of bye 200)) started

server_non_invite_life_example :
    ServerNonInviteLife.Alive accepting.tx.state accepting
    × (terminations accepting.log ≡ ServerNonInviteLife.finished accepting.tx.state)
server_non_invite_life_example =
    ServerNonInviteLife.server_non_invite_life (request_of bye) default_timers unreliable
      accepting-Reach

server_non_invite-Replays_example :
    ((ServerNonInvite.on_request accepting.tx (request_of bye)).0 ≡ accepting.tx)
    × ServerNonInviteLife.Replays accepting.tx.state
        (ServerNonInviteLife.last_sent none accepting.log)
        (ServerNonInvite.on_request accepting.tx (request_of bye)).1
server_non_invite-Replays_example =
    ServerNonInviteLife.server_non_invite-Replays (request_of bye) (request_of bye) default_timers
      unreliable accepting-Reach

-- The ACK for a refused INVITE.
abbrev acked : Option Request
acked = build_non_2xx_ack rsip (request_of invite) busy

abbrev the_ack : Request
the_ack = elim acked [ some req ↦ req | none ↦ request_of ack ]

built : acked ≡ some the_ack
unfolding build_non_2xx_ack
built = refl

build_non_2xx_ack_echoes_example :
    (from_request rsip the_ack ≡ from_request rsip (request_of invite))
    × (rsip.to_header the_ack.headers ≡ rsip.to_header busy.headers)
    × ((rsip.cseq_header the_ack.headers >>= λ t. rsip.typed_cseq t)
        ≡ some (record { seq = 7; cseq_method = ack }))
    × (the_ack.uri ≡ (request_of invite).uri)
    × (the_ack.method ≡ ack)
    × (the_ack.body ≡ [])
build_non_2xx_ack_echoes_example =
    build_non_2xx_ack_echoes rsip rsip-RsipLaws (request_of invite) busy {raw = 7 ∷ 4 ∷ 0 ∷ []}
      {c = record { seq = 7; cseq_method = invite }} refl refl refl (omega arith) built
