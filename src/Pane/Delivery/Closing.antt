-- ===== src/Pane/Delivery/Closing.antt =====
-- The seat of a subscriber at the beginning and at the end of Subscribe.
use shellman.Base.{
  ◌≤◌, ◌≡◌, refl, sym, ap, ◌∙◌, subst, Bool, true, false, List, [], ◌∷◌, ◌++◌, Option,
  if◌then◌else◌, Text, length, append-nil,
}
use shellman.Conn.{Message, outbound_cap}
use shellman.Pane.Delivery.{
  Seat, Delivery, send_seat, send_all, broadcast, send_to_conn, clear_reset_pending,
  clear_pending_appends, flush_pending_appends, begin_subscribe,
}
use shellman.Pane.Delivery.Seats.{
  Waiting, appends_in, at_conn_self, blank, blank-Waiting, broadcast-grown, grown, others_in,
  send_all_room, send_seat_room,
}

module _ (mode_of : Text → Option Text) (d : Delivery) (c : Text) where
  cleared : clear_reset_pending d c c ≡ record (d c) { reset_pending = false }
  unfolding clear_reset_pending
  cleared = at_conn_self c (λ s. record s { reset_pending = false }) d

  dropped : clear_pending_appends d c c ≡ record (d c) { pending = [] }
  unfolding clear_pending_appends
  dropped = at_conn_self c (λ s. record s { pending = [] }) d

  pub begun : begin_subscribe d c c ≡ blank (d c).channel
  unfolding begin_subscribe
  begun = at_conn_self c (λ s. record s { subscribed = true; reset_pending = true; pending = [] }) d

  sent_to :
      (msg : Message)
      → (d c).subscribed ≡ true
      → length ((d c).channel ++ msg ∷ []) ≤ outbound_cap
      → send_to_conn mode_of d c msg c ≡ record (d c) { channel = (d c).channel ++ msg ∷ [] }
  unfolding send_to_conn
  sent_to msg e h =
      at_conn_self c (λ s. send_seat mode_of s msg) d ∙ send_seat_room mode_of (d c) msg e h

  flushed :
      (d c).subscribed ≡ true
      → length ((d c).channel ++ (d c).pending) ≤ outbound_cap
      → flush_pending_appends mode_of d c c
        ≡ record (d c) { pending = []; channel = (d c).channel ++ (d c).pending }
  unfolding flush_pending_appends
  flushed e h =
      at_conn_self c (λ s. send_all mode_of (record s { pending = [] }) s.pending) d
      ∙ send_all_room mode_of (record (d c) { pending = [] }) (d c).pending e h

module _ (mode_of : Text → Option Text) (c : Text) where
  pub failed_seat :
      (d : Delivery) (gone : Bool) (msg : Message)
      → (d c).subscribed ≡ true
      → length ((d c).channel ++ (if gone then msg ∷ [] else [])) ≤ outbound_cap
      → let d' = clear_reset_pending d c in
        (if gone then send_to_conn mode_of d' c msg else d') c ≡ record (d c) {
          reset_pending = false;
          channel = (d c).channel ++ (if gone then msg ∷ [] else []);
        }
  failed_seat d true msg e h =
      let eq = cleared mode_of d c in
      sent_to mode_of (clear_reset_pending d c) c msg (ap (λ s. s.subscribed) eq ∙ e)
        (subst (λ s. length (s.channel ++ msg ∷ []) ≤ outbound_cap) (sym eq) h)
      ∙ ap {A = Seat} (λ s. record s { channel = s.channel ++ msg ∷ [] }) eq
  failed_seat d false msg e h = cleared mode_of d c ∙ rw (append-nil (d c).channel) refl

  pub reset_seat :
      (d : Delivery) (gap_recover : Bool)
      → (d c).subscribed ≡ true
      → let d' = clear_reset_pending d c in
        length ((d c).channel ++ (if gap_recover then [] else (d c).pending)) ≤ outbound_cap
        → (if gap_recover then clear_pending_appends d' c else flush_pending_appends mode_of d' c) c
          ≡ record (d c) {
            reset_pending = false;
            pending = [];
            channel = (d c).channel ++ (if gap_recover then [] else (d c).pending);
          }
  reset_seat d true e h =
      dropped mode_of (clear_reset_pending d c) c
      ∙ ap {A = Seat} (λ s. record s { pending = [] }) (cleared mode_of d c)
      ∙ rw (append-nil (d c).channel) refl
  reset_seat d false e h =
      let eq = cleared mode_of d c in
      flushed mode_of (clear_reset_pending d c) c (ap (λ s. s.subscribed) eq ∙ e)
        (subst (λ s. length (s.channel ++ s.pending) ≤ outbound_cap) (sym eq) h)
      ∙ ap {A = Seat} (λ s. record s { pending = []; channel = s.channel ++ s.pending }) eq

  -- The seat when the result of the capture is known.
  abbrev pub started : List Message → List Message → Seat
  started channel during =
      grown (blank channel) (appends_in mode_of during) (others_in mode_of during)

  pub begun-started :
      (d : Delivery) (during : List Message)
      → length ((d c).channel ++ others_in mode_of during) ≤ outbound_cap
      → broadcast mode_of (begin_subscribe d c) during c ≡ started (d c).channel during
  begun-started d during h =
      let eq = begun mode_of d c in
      broadcast-grown mode_of (begin_subscribe d c) c during
        (subst Waiting (sym eq) (blank-Waiting (d c).channel))
        (subst (λ s. length (s.channel ++ others_in mode_of during) ≤ outbound_cap) (sym eq) h)
      ∙ ap (λ s. grown s (appends_in mode_of during) (others_in mode_of during)) eq
