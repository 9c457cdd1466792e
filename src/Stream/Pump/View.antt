-- ===== src/Stream/Pump/View.antt =====
-- A terminal on which the data of the pump's messages is written, after their JSON coding. It is not
-- the terminal of the web interface, which has its own rules on what it draws.
use shellman.Base.{
  ℕ, ◌≡◌, refl, sym, ap, ◌∙◌, true, List, [], ◌∷◌, ◌++◌, Option, none, arith, if◌then◌else◌, Text,
  codes, text_eq, text_eq_iff, length, drop, All, has_prefix,
}
use shellman.Stream.{repaint, TermFrame, chunk_term_data}
use shellman.Stream.Chunks.{Led, IsAppend, joined, chunk_term_data-Chunked}
use shellman.Stream.Utf8.{valid_string}
use shellman.Stream.Runes.{chunk_term_data-valid}
use shellman.Stream.Pump.{Sent, output, ended, frame_messages, deliver, send_term_frame}

-- A terminal: a screen and what bytes do to it. Bytes are taken in one by one, so it makes no
-- difference how they are cut; and the sequence that resets the attributes, moves home and clears
-- the display leaves a blank screen. Before the data of a message comes to it, the data is encoded as
-- JSON text and decoded, which changes no valid UTF-8.
pub record Terminal : Type 1 where
  pub Screen : Type 0
  pub blank : Screen
  pub feed : Screen → List ℕ → Screen
  pub feed_append : (s : Screen) (x y : List ℕ) → feed (feed s x) y ≡ feed s (x ++ y)
  pub feed_repaint : (s : Screen) (x : List ℕ) → feed s (repaint ++ x) ≡ feed blank x
  pub feed_nil : (s : Screen) → feed s [] ≡ s
  pub coded : List ℕ → List ℕ
  pub coded_valid : (x : List ℕ) → valid_string x ≡ true → coded x ≡ x

pub has_prefix-drop :
    (prev curr : List ℕ) → has_prefix prev curr ≡ true → prev ++ drop (length prev) curr ≡ curr
unfolding has_prefix
has_prefix-drop [] curr h = refl
has_prefix-drop (a ∷ prev) [] h = cc
has_prefix-drop (a ∷ prev) (b ∷ curr) h = ground (arith, has_prefix-drop prev curr)

module _ (terminal : Terminal) where
  open terminal use {Screen, blank, feed, feed_append, feed_repaint, feed_nil, coded, coded_valid}

  -- A frame is written: a reset starts from a blank screen.
  unfoldable pub draw : Screen → TermFrame → Screen
  draw s f =
      if text_eq f.mode (codes "reset")
      then feed blank (coded f.payload)
      else feed s (coded f.payload)

  draw_all : Screen → List TermFrame → Screen
  draw_all s [] = s
  draw_all s (f ∷ fs) = draw_all (draw s f) fs

  -- There is a terminal for each pane.
  unfoldable pub show : (Text → Screen) → Sent → Text → Screen
  unfolding draw
  show screens (output target f cursor) k =
      if text_eq target k then draw (screens k) f else screens k
  show screens (ended target reason) k = screens k

  unfoldable pub show_all : (Text → Screen) → List Sent → Text → Screen
  unfolding show
  show_all screens [] = screens
  show_all screens (m ∷ ms) = show_all (show screens m) ms

  show_self :
      (screens : Text → Screen) (t : Text) (f : TermFrame) (cursor : Option (ℕ × ℕ))
      → show screens (output t f cursor) t ≡ draw (screens t) f
  unfolding show
  show_self screens t f cursor = ground (arith, text_eq_iff t t)

  show_all-frames :
      (fs : List TermFrame) (screens : Text → Screen) (t : Text) (cursor : Option (ℕ × ℕ))
      → show_all screens (frame_messages t cursor fs) t ≡ draw_all (screens t) fs
  unfolding frame_messages show_all draw_all
  show_all-frames [] screens t cursor = refl
  show_all-frames (f ∷ []) screens t cursor = show_self screens t f cursor
  show_all-frames (f ∷ g ∷ fs) screens t cursor =
      show_all-frames (g ∷ fs) (show screens (output t f none)) t cursor
      ∙ ap (λ s. draw_all s (g ∷ fs)) (show_self screens t f none)

  abbrev IsValid : TermFrame → Type 0
  IsValid f = valid_string f.payload ≡ true

  draw_all-append :
      (fs : List TermFrame) (s : Screen)
      → All IsAppend fs
      → All IsValid fs
      → draw_all s fs ≡ feed s (joined fs)
  unfolding draw_all draw joined
  draw_all-append [] s a v = sym (feed_nil s)
  draw_all-append (f ∷ fs) s a v =
      draw_all-append fs (draw s f) a.1 v.1
      ∙ (rw (a.0, coded_valid f.payload v.0)
          (unfold text_eq in feed_append s f.payload (joined fs)))

  draw_all-reset :
      (fs : List TermFrame) (s : Screen)
      → Led (codes "reset") fs
      → All IsValid fs
      → draw_all s fs ≡ feed blank (joined fs)
  unfolding draw_all draw joined
  draw_all-reset [] s h v = absurd h
  draw_all-reset (f ∷ fs) s h v =
      draw_all-append fs (draw s f) h.1 v.1
      ∙ (rw (h.0, coded_valid f.payload v.0)
          (unfold text_eq in feed_append blank f.payload (joined fs)))

  Led-IsAppend : (fs : List TermFrame) → Led (codes "append") fs → All IsAppend fs
  Led-IsAppend [] h = absurd h
  Led-IsAppend (f ∷ fs) h = h

  pub show_reset :
      (screens : Text → Screen) (t : Text) (snapshot : List ℕ) (cursor : Option (ℕ × ℕ))
      → valid_string snapshot ≡ true
      → show_all screens (send_term_frame none t (codes "reset") snapshot cursor) t
        ≡ feed blank snapshot
  unfolding send_term_frame deliver
  show_reset screens t snapshot cursor v =
      let c = chunk_term_data-Chunked (codes "reset") snapshot in
      show_all-frames (chunk_term_data (codes "reset") snapshot) screens t cursor
      ∙ draw_all-reset (chunk_term_data (codes "reset") snapshot) (screens t) c.led
          (chunk_term_data-valid (codes "reset") snapshot v)
      ∙ ap (feed blank) c.whole

  pub show_append :
      (screens : Text → Screen) (t : Text) (payload : List ℕ) (cursor : Option (ℕ × ℕ))
      → valid_string payload ≡ true
      → show_all screens (send_term_frame none t (codes "append") payload cursor) t
        ≡ feed (screens t) payload
  unfolding send_term_frame deliver
  show_append screens t payload cursor v =
      let c = chunk_term_data-Chunked (codes "append") payload in
      show_all-frames (chunk_term_data (codes "append") payload) screens t cursor
      ∙ draw_all-append (chunk_term_data (codes "append") payload) (screens t)
          (Led-IsAppend (chunk_term_data (codes "append") payload) c.led)
          (chunk_term_data-valid (codes "append") payload v)
      ∙ ap (feed (screens t)) c.whole
