-- ===== src/Discovery/Reception/Leaving.antt =====
-- What another process makes of the datagram of `~Discovery` of src/Discovery.cc.
use ign_transport_git.Base.{
  ℕ, ◌+◌, ◌≤◌, ◌≡◌, refl, ◌∙◌, false, some, [], ◌∷◌, ◌++◌, length, drop, true, arith, Text, text_eq,
}
use ign_transport_git.Base.Map.{IsSorted}
use ign_transport_git.TransportTypes.{all, msg, srv}
use ign_transport_git.Packet.Header
use ign_transport_git.Packet.Header.RoundTrip as HeaderTrip
use ign_transport_git.Discovery.{Discovery, sent}
use ign_transport_git.Discovery.Send.{make_header}
use ign_transport_git.Discovery.Send.Laws.{send_msg_header}
use ign_transport_git.Discovery.Dispatch.{call_gone}
use ign_transport_git.Discovery.Withdrawal.{Forgotten, bye_heard}
use ign_transport_git.Discovery.Reception.Fits.{recv_discovery_update_lem}
use ign_transport_git.Discovery.Reception.{max_rcv_str, run_reception_round, destroy}

-- A process that ends tells the others. Where the storages of `b` are in order and `b` is another
-- process than `a`, whose UUID is not empty and leaves a header that fits the buffer of `b`, the
-- destructor at `a` sends one datagram and asks the loops of `a` to end; in the round in which `b`
-- receives the datagram, whatever its buffer held, it calls each disconnection callback that is set
-- once, for `a`; then it has no publisher of `a` on any topic or service and no activity of `a`, and
-- keeps those of all others.
pub destroy-run_reception_round :
    (a b : Discovery) (from_ip buffer : Text) (now : ℕ)
    → HeaderTrip.IsValid (make_header a Header.bye_type 0)
    → Header.is_incomplete (make_header a Header.bye_type 0) ≡ false
    → length a.p_uuid + 13 ≤ max_rcv_str
    → text_eq a.p_uuid b.p_uuid ≡ false
    → IsSorted b.info_msg
    → IsSorted b.info_srv
    → (datagram : Text) × (b' : Discovery) × (destroy a
        ≡ some (record a { exit = true }, sent datagram ∷ []))
      × (run_reception_round (some (some (from_ip, datagram))) buffer now b
          ≡ some (b', call_gone msg a.p_uuid b ++ call_gone srv a.p_uuid b))
      × Forgotten a.p_uuid b b'
unfolding run_reception_round destroy
destroy-run_reception_round a b from_ip buffer now v c room other hm hs =
    let datagram : Text = HeaderTrip.encode (make_header a Header.bye_type 0) in
    let p = bye_heard a b from_ip (drop (length datagram) buffer) now v other hm hs in
    (
      datagram,
      p.0,
      rw
          (
            send_msg_header (record a { exit = true }) Header.bye_type [] [] [] [] all 0 refl refl
                refl v c,
            destroy,
          )
          refl,
      recv_discovery_update_lem from_ip datagram buffer now b
            (omega (arith, HeaderTrip.length-encode (make_header a Header.bye_type 0)))
          ∙ p.1,
      p.2,
    )
