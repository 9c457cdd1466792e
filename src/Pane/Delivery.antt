-- ===== src/Pane/Delivery.antt =====
-- Subscribe, Unsubscribe, broadcast and what they call: how a pane's messages reach the channels of
-- its subscribers. Each call under the mutex is one step; what other goroutines broadcast between
-- the steps of Subscribe is its input. Nothing is read from a channel during a call.
use shellman.Base.{
  ℕ, zero, suc, Bool, true, false, not, ◌&&◌, List, [], ◌∷◌, ◌++◌, Option, none, some, ltb, leb,
  ◌==◌, if◌then◌else◌, Text, codes, text_eq, is_empty, trim_space, length, drop,
}
use shellman.Conn.{Message, outbound_cap, is_append_term_output}
use shellman.Stream.{TermFrame, chunk_term_data}
use shellman.Stream.Pump.{is_pane_target_missing_error}
use shellman.Pane.Capture.{ResetSnapshot, reset, reset_failed}
pub mod Seats
pub mod Closing
pub mod Order

-- What the maps `subscribers`, `resetPendingByConn` and `pendingAppendByConn` have for one
-- connection, and what is in its channel.
pub record Seat : Type 0 where
  pub subscribed : Bool
  pub reset_pending : Bool
  pub pending : List Message
  pub channel : List Message

abbrev pub pending_append_limit : ℕ
pending_append_limit = 64

module _ (mode_of : Text → Option Text) where
  -- A full channel whose oldest message is no append keeps it, behind the others.
  replace_oldest : List Message → Message → List Message × Bool
  replace_oldest [] msg = ([], false)
  replace_oldest (dropped ∷ queue) msg =
      if not (is_append_term_output mode_of dropped)
      then (queue ++ dropped ∷ [], false)
      else (queue ++ msg ∷ [], true)

  unfoldable pub enqueue_pane_message : List Message → Message → List Message × Bool
  unfolding replace_oldest
  enqueue_pane_message channel msg =
      if ltb (length channel) outbound_cap
      then (channel ++ msg ∷ [], true)
      else (if is_append_term_output mode_of msg
          then (channel, false)
          else replace_oldest channel msg)

  unfoldable pub append_pending : Seat → Message → Seat × Bool
  append_pending s msg =
      if not (is_append_term_output mode_of msg)
      then (s, false)
      else if not s.reset_pending
      then (s, false)
      else (
        record s {
          pending =
              (if leb pending_append_limit (length s.pending) then drop 1 s.pending else s.pending)
              ++ msg ∷ [];
        },
        true,
      )

  put : Seat → Message → Seat
  unfolding enqueue_pane_message
  put s msg = record s { channel = (enqueue_pane_message s.channel msg).0 }

  -- One message of a broadcast, for one subscriber.
  unfoldable pub deliver : Seat → Message → Seat
  unfolding append_pending put
  deliver s msg = let (t, kept) = append_pending s msg in if kept then t else put s msg

  unfoldable pub deliver_all : Seat → List Message → Seat
  unfolding deliver
  deliver_all s [] = s
  deliver_all s (msg ∷ messages) = deliver_all (deliver s msg) messages

  unfoldable pub send_seat : Seat → Message → Seat
  unfolding put
  send_seat s msg = if s.subscribed then put s msg else s

  unfoldable pub send_all : Seat → List Message → Seat
  unfolding send_seat
  send_all s [] = s
  send_all s (msg ∷ messages) = send_all (send_seat s msg) messages

-- The actor: a seat for every connection.
abbrev pub Delivery : Type 0
Delivery = Text → Seat

unfoldable pub at_conn : Text → (Seat → Seat) → Delivery → Delivery
at_conn conn_id f d k = if text_eq conn_id k then f (d k) else d k

unfoldable pub clear_reset_pending : Delivery → Text → Delivery
unfolding at_conn
clear_reset_pending d conn_id = at_conn conn_id (λ s. record s { reset_pending = false }) d

unfoldable pub clear_pending_appends : Delivery → Text → Delivery
unfolding at_conn
clear_pending_appends d conn_id = at_conn conn_id (λ s. record s { pending = [] }) d

unfoldable pub unsubscribe : Delivery → Text → Delivery
unfolding at_conn
unsubscribe d conn_id =
    if is_empty (trim_space conn_id)
    then d
    else at_conn (trim_space conn_id)
        (λ s. record s { subscribed = false; reset_pending = false; pending = [] }) d

-- `Subscribe` up to the capture.
unfoldable pub begin_subscribe : Delivery → Text → Delivery
unfolding at_conn
begin_subscribe d conn_id =
    at_conn conn_id (λ s. record s { subscribed = true; reset_pending = true; pending = [] }) d

module _ (mode_of : Text → Option Text) where
  unfoldable pub broadcast : Delivery → List Message → Delivery
  unfolding deliver_all
  broadcast d messages k = if (d k).subscribed then deliver_all mode_of (d k) messages else d k

  unfoldable pub send_to_conn : Delivery → Text → Message → Delivery
  unfolding at_conn send_seat
  send_to_conn d conn_id msg = at_conn conn_id (λ s. send_seat mode_of s msg) d

  unfoldable pub flush_pending_appends : Delivery → Text → Delivery
  unfolding at_conn send_all
  flush_pending_appends d conn_id =
      at_conn conn_id (λ s. send_all mode_of (record s { pending = [] }) s.pending) d

  -- The frames of the reset; `between k` is broadcast after the frame with the index `k`.
  unfoldable pub send_frames : Delivery → Text → List Message → (ℕ → List Message) → Delivery
  unfolding send_to_conn broadcast
  send_frames d conn_id [] between = d
  send_frames d conn_id (msg ∷ frames) between =
      send_frames (broadcast (send_to_conn d conn_id msg) (between 0)) conn_id frames
        (λ k. between (suc k))

-- How a message is written: its id, and the JSON of a frame with a cursor and of an ended pane.
pub record Wire : Type 0 where
  pub id : Text
  pub frame_json : Text → TermFrame → Option (ℕ × ℕ) → Text
  pub ended_json : Text → Text → Text

-- `strings.TrimSuffix(frameData, "\n")`.
unfoldable pub trim_newline : List ℕ → List ℕ
trim_newline [] = []
trim_newline (c ∷ []) = if c == 10 then [] else c ∷ []
trim_newline (c ∷ d ∷ rest) = c ∷ trim_newline (d ∷ rest)

frame_message : Wire → Text → TermFrame → Option (ℕ × ℕ) → Message
frame_message wire target frame cursor = record {
  id = wire.id;
  kind = codes "event";
  op = codes "term.output";
  payload = wire.frame_json target frame cursor;
}

-- The loop of termOutputMessages: the last frame of a reset loses a newline at its end, and the
-- last frame has the cursor.
frames_of : Wire → Text → Text → Option (ℕ × ℕ) → List TermFrame → List Message
unfolding frame_message trim_newline
frames_of wire target mode cursor [] = []
frames_of wire target mode cursor (frame ∷ []) =
    frame_message wire target
      (if text_eq mode (codes "reset")
        then record frame { payload = trim_newline frame.payload }
        else frame)
      cursor
    ∷ []
frames_of wire target mode cursor (frame ∷ next ∷ frames) =
    frame_message wire target frame none ∷ frames_of wire target mode cursor (next ∷ frames)

unfoldable pub term_output_messages : Wire → Text → Text → List ℕ → Option (ℕ × ℕ) → List Message
unfolding frames_of
term_output_messages wire target mode payload cursor =
    frames_of wire target mode cursor (chunk_term_data mode payload)

unfoldable pub pane_ended_event_message : Wire → Text → Text → Message
pane_ended_event_message wire target reason = record {
  id = wire.id;
  kind = codes "event";
  op = codes "pane.ended";
  payload = wire.ended_json target reason;
}

-- `Subscribe` from the result of the capture on, with the trimmed id of the connection. (That the
-- result is also the actor's last snapshot, and that the output is listened to, is not part of what
-- the subscribers get.)
module _ (mode_of : Text → Option Text) (wire : Wire) (target : Text) where
  unfoldable pub finish_subscribe :
      Delivery → Text → Bool → ResetSnapshot → (ℕ → List Message) → Delivery
  unfolding clear_reset_pending clear_pending_appends flush_pending_appends send_frames send_to_conn
  finish_subscribe d conn_id gap_recover (reset_failed err) between =
      let cleared = clear_reset_pending d conn_id in
      if is_pane_target_missing_error err
      then send_to_conn mode_of cleared conn_id (pane_ended_event_message wire target err)
      else cleared
  finish_subscribe d conn_id gap_recover (reset snapshot cursor) between =
      let frames = term_output_messages wire target (codes "reset") snapshot cursor in
      let cleared = clear_reset_pending (send_frames mode_of d conn_id frames between) conn_id in
      if gap_recover
      then clear_pending_appends cleared conn_id
      else flush_pending_appends mode_of cleared conn_id

  -- `Subscribe`. The messages `during` are broadcast while tmux is asked for the screen, and those
  -- of `between` while the frames are sent.
  unfoldable pub subscribe :
      Delivery → Text → Bool → List Message → ResetSnapshot → (ℕ → List Message) → Delivery
  unfolding begin_subscribe broadcast finish_subscribe
  subscribe d conn_id gap_recover during result between =
      if is_empty (trim_space conn_id)
      then d
      else finish_subscribe (broadcast mode_of (begin_subscribe d (trim_space conn_id)) during)
          (trim_space conn_id) gap_recover result between

  -- `NotifyEnded`: the subscribers are told.
  unfoldable pub notify_ended : Delivery → Text → Delivery
  unfolding broadcast
  notify_ended d reason = broadcast mode_of d (
      pane_ended_event_message wire target
        (if is_empty (trim_space reason) then codes "pane closed" else trim_space reason)
      ∷ [])
