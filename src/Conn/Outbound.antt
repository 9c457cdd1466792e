-- ===== src/Conn/Outbound.antt =====
-- Enqueue: the outbound queue is bounded, keeps the order, and gives way to anything but an append.
use shellman.Base.{
  ◌≤◌, ◌<◌, ◌≡◌, refl, Bool, true, false, List, [], ◌∷◌, ◌++◌, Option, arith, Text, length,
  length-append, ◌↔◌, some, none, codes, text_eq, text_eq_iff, ap,
}
use shellman.Conn.{Message, ConnActor, outbound_cap, is_append_term_output, enqueue_queue, enqueue}

-- A message `term.output` whose payload has the mode `append`.
pub IsAppendOutput : (Text → Option Text) → Message → Type 0
IsAppendOutput mode_of msg =
    (msg.op ≡ codes "term.output") × (mode_of msg.payload ≡ some (codes "append"))

-- What a call leaves in the queue, on every branch: with room the message goes to the end; into a
-- full queue an append is refused and changes nothing, and anything else takes the place of the
-- oldest message. The queue never holds more than its 128 places.
pub record Enqueued (Append : Type 0) (queue : List Message) (msg : Message)
    (result : List Message × Bool) : Type 0 where
  pub bounded : length result.0 ≤ outbound_cap
  pub with_room : length queue < outbound_cap → result ≡ (queue ++ msg ∷ [], true)
  pub full_append : length queue ≡ outbound_cap → Append → result ≡ (queue, false)
  pub full_other :
      (oldest : Message) (rest : List Message)
      → queue ≡ oldest ∷ rest
      → length queue ≡ outbound_cap
      → ¬ Append
      → result ≡ (rest ++ msg ∷ [], true)

mode_iff :
    (o : Option Text)
    → (elim o [ none ↦ false | some mode ↦ text_eq mode (codes "append") ] ≡ true)
      ↔ (o ≡ some (codes "append"))
mode_iff none = (λ e. absurd (cc e), λ e. absurd (cc e))
mode_iff (some mode) = (
  λ e. ap some ((text_eq_iff mode (codes "append")).0 e),
  λ e. (text_eq_iff mode (codes "append")).1 (cc e),
)

is_append_term_output_iff :
    (mode_of : Text → Option Text) (msg : Message)
    → (is_append_term_output mode_of msg ≡ true) ↔ IsAppendOutput mode_of msg
unfolding is_append_term_output IsAppendOutput
is_append_term_output_iff mode_of msg =
    ground (arith, text_eq_iff msg.op (codes "term.output"), mode_iff (mode_of msg.payload))

queue-Enqueued :
    (mode_of : Text → Option Text) (queue : List Message) (msg : Message)
    → length queue ≤ outbound_cap
    → Enqueued (IsAppendOutput mode_of msg) queue msg (enqueue_queue mode_of queue msg)
unfolding enqueue_queue
queue-Enqueued mode_of [] msg h = record {
  bounded = ground arith;
  with_room = ground arith;
  full_append = ground (arith, is_append_term_output_iff mode_of msg);
  full_other = λ oldest rest e. ground (arith, is_append_term_output_iff mode_of msg);
}
queue-Enqueued mode_of (x ∷ xs) msg h = record {
  bounded = ground (arith, length-append xs (msg ∷ []));
  with_room = ground arith;
  full_append = ground (arith, is_append_term_output_iff mode_of msg);
  full_other = λ oldest rest e. ground (arith, is_append_term_output_iff mode_of msg);
}

-- Every call of `Enqueue` on a queue within its bound does just what `Enqueued` says, and leaves
-- the rest of the actor alone.
pub enqueue-Enqueued :
    (mode_of : Text → Option Text) (c : ConnActor) (msg : Message)
    → length c.outbound ≤ outbound_cap
    → let (d, sent) = enqueue mode_of c msg in
      Enqueued (IsAppendOutput mode_of msg) c.outbound msg (d.outbound, sent)
      × (d ≡ record c { outbound = d.outbound })
unfolding enqueue
enqueue-Enqueued mode_of c msg h = (queue-Enqueued mode_of c.outbound msg h, refl)
