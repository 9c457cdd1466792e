-- ===== src/Pane/Delivery/Seats.antt =====
-- The seat of a subscriber while its reset is sent: what is put into its channel, and what waits.
use shellman.Base.{
  ℕ, suc, ◌≤◌, ◌≡◌, refl, sym, ap, ◌∙◌, inl, inr, keep_last-split, subst, dec_lt, true, false, not,
  List, [], ◌∷◌, ◌++◌, Option, arith, if◌then◌else◌, Text, text_eq_refl, length, length-append,
  append_assoc, append-nil, filter, Bool-cases, keep_last, keep_last_all, keep_last-append,
  length-keep_last, leb, ltb, drop,
}
use shellman.Conn.{Message, outbound_cap, is_append_term_output}
use shellman.Pane.Delivery.{
  Seat, Delivery, pending_append_limit, enqueue_pane_message, append_pending, deliver, deliver_all,
  send_seat, send_all, at_conn, broadcast, send_to_conn, send_frames,
}

module _ (mode_of : Text → Option Text) where
  -- The appends of a list of messages, and the others.
  unfoldable pub appends_in : List Message → List Message
  appends_in = filter (is_append_term_output mode_of)

  unfoldable pub others_in : List Message → List Message
  others_in = filter (λ msg. not (is_append_term_output mode_of msg))

  -- While the frames are sent: what is put into the channel, and the appends that wait.
  unfoldable pub sent_with : List Message → (ℕ → List Message) → List Message
  sent_with [] between = []
  sent_with (msg ∷ frames) between =
      msg ∷ others_in (between 0) ++ sent_with frames (λ k. between (suc k))

  unfoldable pub waiting_with : List Message → (ℕ → List Message) → List Message
  waiting_with [] between = []
  waiting_with (msg ∷ frames) between =
      appends_in (between 0) ++ waiting_with frames (λ k. between (suc k))

-- A subscriber whose reset is not over.
pub record Waiting (s : Seat) : Type 0 where
  pub subscribed : s.subscribed ≡ true
  pub reset_pending : s.reset_pending ≡ true
  pub bounded : length s.pending ≤ pending_append_limit

-- The seat of a new subscriber.
abbrev pub blank : List Message → Seat
blank channel = record { subscribed = true; reset_pending = true; pending = []; channel = channel }

pub blank-Waiting : (channel : List Message) → Waiting (blank channel)
blank-Waiting channel = record { subscribed = refl; reset_pending = refl; bounded = omega arith }

-- More appends wait, and more messages are in the channel.
abbrev pub grown : Seat → List Message → List Message → Seat
grown s waiting sent = record s {
  pending = keep_last pending_append_limit (s.pending ++ waiting);
  channel = s.channel ++ sent;
}

pub grown-Waiting :
    (s : Seat) (waiting sent : List Message) → Waiting s → Waiting (grown s waiting sent)
grown-Waiting s waiting sent w = record {
  subscribed = w.subscribed;
  reset_pending = w.reset_pending;
  bounded = length-keep_last pending_append_limit (s.pending ++ waiting);
}

grown_nil : (s : Seat) → Waiting s → grown s [] [] ≡ s
grown_nil s w =
    rw
      (
        append-nil s.pending,
        append-nil s.channel,
        keep_last_all pending_append_limit s.pending w.bounded,
      )
      refl

pub grown-grown :
    (s : Seat) (waiting sent waiting' sent' : List Message)
    → grown (grown s waiting sent) waiting' sent' ≡ grown s (waiting ++ waiting') (sent ++ sent')
grown-grown s waiting sent waiting' sent' =
    rw
      (
        keep_last-append pending_append_limit (s.pending ++ waiting) waiting',
        append_assoc s.pending waiting waiting',
        append_assoc s.channel sent sent',
      )
      refl

module _ (mode_of : Text → Option Text) where
  append_room :
      (queue : List Message) (msg : Message)
      → length queue ≤ pending_append_limit
      → (if leb pending_append_limit (length queue) then drop 1 queue else queue) ++ msg ∷ []
        ≡ keep_last pending_append_limit (queue ++ msg ∷ [])
  append_room queue msg h =
      rw (keep_last-split pending_append_limit queue (msg ∷ []) (omega arith))
        (elim (dec_lt (length queue) pending_append_limit) [
          | yes less ↦ rw (keep_last_all 63 queue (omega arith)) (ground arith)
          | no full ↦ unfold keep_last in ground arith
        ])

  has_room :
      (channel : List Message) (msg : Message)
      → is_append_term_output mode_of msg ≡ false
      → length (channel ++ others_in mode_of (msg ∷ [])) ≤ outbound_cap
      → ltb (length channel) outbound_cap ≡ true
  unfolding others_in
  has_room channel msg e h = ground (arith, length-append channel (msg ∷ []))

  deliver-grown :
      (s : Seat) (msg : Message)
      → Waiting s
      → length (s.channel ++ others_in mode_of (msg ∷ [])) ≤ outbound_cap
      → deliver mode_of s msg
        ≡ grown s (appends_in mode_of (msg ∷ [])) (others_in mode_of (msg ∷ []))
  unfolding deliver append_pending others_in appends_in
  deliver-grown s msg w room = elim (Bool-cases (is_append_term_output mode_of msg)) [
    | inl e ↦
        rw (e, w.reset_pending, append_room s.pending msg w.bounded, append-nil s.channel) refl
    | inr e ↦
        rw
          (
            e,
            has_room s.channel msg e room,
            append-nil s.pending,
            keep_last_all pending_append_limit s.pending w.bounded,
          )
          refl
  ]

  appends_in-cons :
      (msg : Message) (messages : List Message)
      → appends_in mode_of (msg ∷ messages)
        ≡ appends_in mode_of (msg ∷ []) ++ appends_in mode_of messages
  unfolding appends_in
  appends_in-cons msg messages = ground arith

  others_in-cons :
      (msg : Message) (messages : List Message)
      → others_in mode_of (msg ∷ messages)
        ≡ others_in mode_of (msg ∷ []) ++ others_in mode_of messages
  unfolding others_in
  others_in-cons msg messages = ground arith

  pub less_room :
      (s : Seat) (sent sent' : List Message)
      → length (s.channel ++ (sent ++ sent')) ≤ outbound_cap
      → length (s.channel ++ sent) ≤ outbound_cap
  less_room s sent sent' h = omega (
    arith,
    length-append s.channel sent,
    length-append s.channel (sent ++ sent'),
    length-append sent sent',
  )

  deliver_all-grown :
      (s : Seat) (messages : List Message)
      → Waiting s
      → length (s.channel ++ others_in mode_of messages) ≤ outbound_cap
      → deliver_all mode_of s messages
        ≡ grown s (appends_in mode_of messages) (others_in mode_of messages)
  unfolding deliver_all
  deliver_all-grown s [] w room = unfold others_in appends_in in sym (grown_nil s w)
  deliver_all-grown s (msg ∷ messages) w room =
      let waiting = appends_in mode_of (msg ∷ []) in
      let sent = others_in mode_of (msg ∷ []) in
      let split =
        subst (λ xs. length (s.channel ++ xs) ≤ outbound_cap) (others_in-cons msg messages) room in
      rw
        (
          deliver-grown s msg w (less_room s sent (others_in mode_of messages) split),
          appends_in-cons msg messages,
          others_in-cons msg messages,
          deliver_all-grown (grown s waiting sent) messages (grown-Waiting s waiting sent w)
              (rw (append_assoc s.channel sent (others_in mode_of messages)) split),
        )
        (grown-grown s waiting sent (appends_in mode_of messages) (others_in mode_of messages))

pub at_conn_self : (c : Text) (f : Seat → Seat) (d : Delivery) → at_conn c f d c ≡ f (d c)
unfolding at_conn
at_conn_self c f d = rw (text_eq_refl c) refl

module _ (mode_of : Text → Option Text) where
  pub send_seat_room :
      (s : Seat) (msg : Message)
      → s.subscribed ≡ true
      → length (s.channel ++ msg ∷ []) ≤ outbound_cap
      → send_seat mode_of s msg ≡ record s { channel = s.channel ++ msg ∷ [] }
  unfolding send_seat enqueue_pane_message
  send_seat_room s msg e h = ground (arith, length-append s.channel (msg ∷ []))

  pub send_all_room :
      (s : Seat) (queue : List Message)
      → s.subscribed ≡ true
      → length (s.channel ++ queue) ≤ outbound_cap
      → send_all mode_of s queue ≡ record s { channel = s.channel ++ queue }
  unfolding send_all
  send_all_room s [] e h = rw (append-nil s.channel) refl
  send_all_room s (msg ∷ queue) e h =
      rw
        (
          send_seat_room s msg e (
              omega
                (arith, length-append s.channel (msg ∷ queue), length-append s.channel (msg ∷ []))),
          send_all_room (record s { channel = s.channel ++ msg ∷ [] }) queue e
              (subst (λ xs. length xs ≤ outbound_cap)
                (sym (append_assoc s.channel (msg ∷ []) queue)) h),
          append_assoc s.channel (msg ∷ []) queue,
        )
        refl

  broadcast_subscribed :
      (d : Delivery) (c : Text) (messages : List Message)
      → (d c).subscribed ≡ true
      → broadcast mode_of d messages c ≡ deliver_all mode_of (d c) messages
  unfolding broadcast
  broadcast_subscribed d c messages e = ground arith

  pub broadcast-grown :
      (d : Delivery) (c : Text) (messages : List Message)
      → Waiting (d c)
      → length ((d c).channel ++ others_in mode_of messages) ≤ outbound_cap
      → broadcast mode_of d messages c
        ≡ grown (d c) (appends_in mode_of messages) (others_in mode_of messages)
  broadcast-grown d c messages w h =
      broadcast_subscribed d c messages w.subscribed ∙ deliver_all-grown mode_of (d c) messages w h

  sent_frame :
      (d : Delivery) (c : Text) (msg : Message)
      → Waiting (d c)
      → length ((d c).channel ++ msg ∷ []) ≤ outbound_cap
      → send_to_conn mode_of d c msg c ≡ grown (d c) [] (msg ∷ [])
  unfolding send_to_conn
  sent_frame d c msg w h =
      at_conn_self c (λ s. send_seat mode_of s msg) d
      ∙ send_seat_room (d c) msg w.subscribed h
      ∙ rw (append-nil (d c).pending, keep_last_all pending_append_limit (d c).pending w.bounded)
          refl

  one_frame :
      (d : Delivery) (c : Text) (msg : Message) (messages : List Message)
      → Waiting (d c)
      → length ((d c).channel ++ (msg ∷ others_in mode_of messages)) ≤ outbound_cap
      → broadcast mode_of (send_to_conn mode_of d c msg) messages c
        ≡ grown (d c) (appends_in mode_of messages) (msg ∷ others_in mode_of messages)
  one_frame d c msg messages w h =
      let framed =
        sent_frame d c msg w (less_room mode_of (d c) (msg ∷ []) (others_in mode_of messages) h) in
      broadcast-grown (send_to_conn mode_of d c msg) c messages
        (subst Waiting (sym framed) (grown-Waiting (d c) [] (msg ∷ []) w))
        (subst (λ s. length (s.channel ++ others_in mode_of messages) ≤ outbound_cap) (sym framed)
          (rw (append_assoc (d c).channel (msg ∷ []) (others_in mode_of messages)) h))
      ∙ ap (λ s. grown s (appends_in mode_of messages) (others_in mode_of messages)) framed
      ∙ grown-grown (d c) [] (msg ∷ []) (appends_in mode_of messages) (others_in mode_of messages)

  pub send_frames-grown :
      (d : Delivery) (c : Text) (frames : List Message) (between : ℕ → List Message)
      → Waiting (d c)
      → length ((d c).channel ++ sent_with mode_of frames between) ≤ outbound_cap
      → send_frames mode_of d c frames between c
        ≡ grown (d c) (waiting_with mode_of frames between) (sent_with mode_of frames between)
  unfolding send_frames sent_with waiting_with
  send_frames-grown d c [] between w h = sym (grown_nil (d c) w)
  send_frames-grown d c (msg ∷ frames) between w h =
      let a = appends_in mode_of (between 0) in
      let o = msg ∷ others_in mode_of (between 0) in
      let next = λ (k : ℕ). between (suc k) in
      let sent = sent_with mode_of frames next in
      let first = one_frame d c msg (between 0) w (less_room mode_of (d c) o sent h) in
      send_frames-grown (broadcast mode_of (send_to_conn mode_of d c msg) (between 0)) c frames next
        (subst Waiting (sym first) (grown-Waiting (d c) a o w))
        (subst (λ s. length (s.channel ++ sent) ≤ outbound_cap) (sym first)
          (rw (append_assoc (d c).channel o sent) h))
      ∙ ap (λ s. grown s (waiting_with mode_of frames next) sent) first
      ∙ grown-grown (d c) a o (waiting_with mode_of frames next) sent
