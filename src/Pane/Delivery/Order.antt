-- ===== src/Pane/Delivery/Order.antt =====
-- Subscribe: a subscriber sees the reset first, then what was broadcast meanwhile, in order.
use shellman.Base.{
  ℕ, ◌≤◌, ◌≡◌, ◌≢◌, refl, sym, ap, ◌∙◌, inl, inr, subst, Bool, true, false, List, [], ◌∷◌, ◌++◌,
  Option, if◌then◌else◌, Text, codes, trim_space, length, append_assoc, empty-cases, nil_of_empty,
  keep_last,
}
use shellman.Conn.{Message, outbound_cap}
use shellman.Stream.Pump.{is_pane_target_missing_error}
use shellman.Pane.Capture.{ResetSnapshot, reset, reset_failed}
use shellman.Pane.Delivery.{
  Seat, Delivery, pending_append_limit, broadcast, begin_subscribe, send_frames, Wire,
  term_output_messages, pane_ended_event_message, finish_subscribe, subscribe,
}
use shellman.Pane.Delivery.Seats.{
  Waiting, appends_in, blank, blank-Waiting, grown, grown-Waiting, grown-grown, less_room,
  others_in, send_frames-grown, sent_with, waiting_with,
}
use shellman.Pane.Delivery.Closing.{begun, failed_seat, reset_seat, started, begun-started}

-- What a subscriber has after `Subscribe`: its channel has the reset's frames, with the messages
-- other than appends where they were broadcast, and after them the last 64 of the appends that were
-- broadcast since the call began (none, for a client that recovers a gap). If the capture fails, it
-- has the message that the pane has ended, if the error says so, and the appends still wait.
module _ (mode_of : Text → Option Text) (wire : Wire) (target : Text) (channel : List Message)
    (gap_recover : Bool) (during : List Message) (between : ℕ → List Message) where
  unfoldable pub subscribed_seat : ResetSnapshot → Seat
  subscribed_seat (reset_failed err) = record {
    subscribed = true;
    reset_pending = false;
    pending = keep_last pending_append_limit (appends_in mode_of during);
    channel =
        channel
        ++ (others_in mode_of during
            ++ (if is_pane_target_missing_error err
                then pane_ended_event_message wire target err ∷ []
                else []));
  }
  subscribed_seat (reset snapshot cursor) =
      let frames = term_output_messages wire target (codes "reset") snapshot cursor in
      record {
        subscribed = true;
        reset_pending = false;
        pending = [];
        channel =
            channel
            ++ ((others_in mode_of during ++ sent_with mode_of frames between)
                ++ (if gap_recover
                    then []
                    else keep_last pending_append_limit
                        (appends_in mode_of during ++ waiting_with mode_of frames between)));
      }

module _ (mode_of : Text → Option Text) (wire : Wire) (target : Text) where
  module _ (c : Text) (channel : List Message) (gap_recover : Bool) (during : List Message)
      (between : ℕ → List Message) (d : Delivery)
      (begun : d c ≡ started mode_of c channel during) where
    finish-failed :
        (err : Text)
        → let seat =
            subscribed_seat mode_of wire target channel gap_recover during between
              (reset_failed err) in
          length seat.channel ≤ outbound_cap
          → finish_subscribe mode_of wire target d c gap_recover (reset_failed err) between c ≡ seat
    unfolding finish_subscribe subscribed_seat
    finish-failed err h =
        let ended =
          if is_pane_target_missing_error err
          then pane_ended_event_message wire target err ∷ []
          else [] in
        failed_seat mode_of c d (is_pane_target_missing_error err)
          (pane_ended_event_message wire target err) (ap (λ s. s.subscribed) begun)
          (subst (λ s. length (s.channel ++ ended) ≤ outbound_cap) (sym begun)
            (rw (append_assoc channel (others_in mode_of during) ended) h))
        ∙ ap {A = Seat} (λ s. record s { reset_pending = false; channel = s.channel ++ ended })
            begun
        ∙ rw (append_assoc channel (others_in mode_of during) ended) refl

    all_sent :
        (frames : List Message)
        → length (channel ++ (others_in mode_of during ++ sent_with mode_of frames between))
          ≤ outbound_cap
        → send_frames mode_of d c frames between c
          ≡ grown
              (blank channel)
              (appends_in mode_of during ++ waiting_with mode_of frames between)
              (others_in mode_of during ++ sent_with mode_of frames between)
    all_sent frames h =
        let a = appends_in mode_of during in
        let o = others_in mode_of during in
        let waiting = waiting_with mode_of frames between in
        let sent = sent_with mode_of frames between in
        send_frames-grown mode_of d c frames between
          (subst Waiting (sym begun) (grown-Waiting (blank channel) a o (blank-Waiting channel)))
          (subst (λ s. length (s.channel ++ sent) ≤ outbound_cap) (sym begun)
            (rw (append_assoc channel o sent) h))
        ∙ ap (λ s. grown s waiting sent) begun
        ∙ grown-grown (blank channel) a o waiting sent

    fitting :
        (frames : List Message)
        → length (
            channel
            ++ ((others_in mode_of during ++ sent_with mode_of frames between)
                ++ (if gap_recover
                    then []
                    else keep_last pending_append_limit
                        (appends_in mode_of during ++ waiting_with mode_of frames between))))
          ≤ outbound_cap
        → length (channel ++ (others_in mode_of during ++ sent_with mode_of frames between))
          ≤ outbound_cap
    fitting frames h =
        less_room mode_of (blank channel)
          (others_in mode_of during ++ sent_with mode_of frames between) _ h

    finish-reset :
        (snapshot : List ℕ) (cursor : Option (ℕ × ℕ))
        → let seat =
            subscribed_seat mode_of wire target channel gap_recover during between
              (reset snapshot cursor) in
          length seat.channel ≤ outbound_cap
          → finish_subscribe mode_of wire target d c gap_recover (reset snapshot cursor) between c
            ≡ seat
    unfolding finish_subscribe subscribed_seat
    finish-reset snapshot cursor h =
        let frames = term_output_messages wire target (codes "reset") snapshot cursor in
        let a = appends_in mode_of during in
        let o = others_in mode_of during in
        let waiting = waiting_with mode_of frames between in
        let sent = sent_with mode_of frames between in
        let full = all_sent frames (fitting frames h) in
        let waited = if gap_recover then [] else keep_last pending_append_limit (a ++ waiting) in
        reset_seat mode_of c (send_frames mode_of d c frames between) gap_recover
          (ap (λ s. s.subscribed) full)
          (subst (λ s. length (s.channel ++ (if gap_recover then [] else s.pending)) ≤ outbound_cap)
            (sym full) (rw (append_assoc channel (o ++ sent) waited) h))
        ∙ ap {A = Seat}
            (λ s. record s {
              reset_pending = false;
              pending = [];
              channel = s.channel ++ (if gap_recover then [] else s.pending);
            })
            full
        ∙ rw (append_assoc channel (o ++ sent) waited) refl

  finish-seat :
      (c : Text) (channel : List Message) (gap_recover : Bool) (during : List Message)
      (between : ℕ → List Message) (d : Delivery)
      → d c ≡ started mode_of c channel during
      → (result : ResetSnapshot)
      → let seat = subscribed_seat mode_of wire target channel gap_recover during between result in
        length seat.channel ≤ outbound_cap
        → finish_subscribe mode_of wire target d c gap_recover result between c ≡ seat
  finish-seat c channel gap_recover during between d begun (reset snapshot cursor) h =
      finish-reset c channel gap_recover during between d begun snapshot cursor h
  finish-seat c channel gap_recover during between d begun (reset_failed err) h =
      finish-failed c channel gap_recover during between d begun err h

  during_room :
      (channel : List Message) (gap_recover : Bool) (during : List Message)
      (between : ℕ → List Message) (result : ResetSnapshot)
      → let seat = subscribed_seat mode_of wire target channel gap_recover during between result in
        length seat.channel ≤ outbound_cap
        → length (channel ++ others_in mode_of during) ≤ outbound_cap
  unfolding subscribed_seat
  during_room channel gap_recover during between (reset snapshot cursor) h =
      less_room mode_of (blank channel) (others_in mode_of during) _
        (less_room mode_of (blank channel) (others_in mode_of during ++ _) _ h)
  during_room channel gap_recover during between (reset_failed err) h =
      less_room mode_of (blank channel) (others_in mode_of during) _ h

  subscribe_trimmed :
      (d : Delivery) (conn_id : Text) (gap_recover : Bool) (during : List Message)
      (result : ResetSnapshot) (between : ℕ → List Message)
      → trim_space conn_id ≢ []
      → subscribe mode_of wire target d conn_id gap_recover during result between
          (trim_space conn_id)
        ≡ finish_subscribe mode_of wire target
            (broadcast mode_of (begin_subscribe d (trim_space conn_id)) during)
            (trim_space conn_id)
            gap_recover
            result
            between
            (trim_space conn_id)
  unfolding subscribe
  subscribe_trimmed d conn_id gap_recover during result between p =
      elim (empty-cases (trim_space conn_id)) [
        | inl e ↦ absurd (p (nil_of_empty (trim_space conn_id) e))
        | inr e ↦ rw e.0 refl
      ]

  -- For a connection whose id is not blank, and whatever the capture's result and the broadcasts
  -- before the end of the reset are: if the channel has room for it all, `Subscribe` leaves the
  -- connection's seat as `subscribed_seat` says.
  pub subscribe-subscribed_seat :
      (d : Delivery) (conn_id : Text) (gap_recover : Bool) (during : List Message)
      (result : ResetSnapshot) (between : ℕ → List Message)
      → trim_space conn_id ≢ []
      → let seat =
          subscribed_seat mode_of wire target
            (d (trim_space conn_id)).channel
            gap_recover
            during
            between
            result in
        length seat.channel ≤ outbound_cap
        → subscribe mode_of wire target d conn_id gap_recover during result between
            (trim_space conn_id)
          ≡ seat
  subscribe-subscribed_seat d conn_id gap_recover during result between p h =
      subscribe_trimmed d conn_id gap_recover during result between p
      ∙ finish-seat (trim_space conn_id) (d (trim_space conn_id)).channel gap_recover during between
          (broadcast mode_of (begin_subscribe d (trim_space conn_id)) during)
          (begun-started mode_of (trim_space conn_id) d during
            (during_room (d (trim_space conn_id)).channel gap_recover during between result h))
          result h
