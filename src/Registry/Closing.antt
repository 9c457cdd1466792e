-- ===== src/Registry/Closing.antt =====
-- A connection watches a pane just if the pane has it as a subscriber: closing a pane.
use shellman.Base.{
  ℕ, ◌≡◌, ◌≢◌, inl, inr, refl, sym, subst, ◌∙◌, Bool, true, false, ◌&&◌, [], arith, Text, text_eq,
  text_eq_iff, trim_space, trim_space_idem, Bool-cases, empty-cases, if◌then◌else◌, Option, none,
  some, is_none, Map, delete, is_empty,
}
use shellman.Conn.{ConnActor, drop_watch}
use shellman.Conn.Closing as C
use shellman.Registry.{
  RegistryActor, drop_from, on_pane_closed, on_pane_status_update, PaneStatusUpdate,
  SessionStatusItem,
}
use shellman.Registry.Views.{subscribers_of, watch_set_of, has_subscriber, watches}
use shellman.Registry.Watching.{WellFormed, Inv, same_view}

-- The subscribers after a pane is deleted.
deleted_subscribers :
    (r : RegistryActor) (target : Text) (items : Map SessionStatusItem) (t c : Text)
    → has_subscriber (record r { panes = delete target r.panes; pane_items = items }) t c
      ≡ (if text_eq target t then false else has_subscriber r t c)
unfolding has_subscriber delete subscribers_of
deleted_subscribers r target items t c = elim (Bool-cases (text_eq target t)) [
  | inl e ↦ rw e refl
  | inr e ↦ rw e refl
]

drop_ok :
    (target : Text) (o : Option ConnActor)
    → trim_space target ≢ []
    → ((c : ConnActor) → o ≡ some c → WellFormed c)
    → (d : ConnActor) → drop_from target o ≡ some d
    → WellFormed d
unfolding drop_from
drop_ok target none p h d e = cc
drop_ok target (some c) p h d e =
    let same : drop_watch c target ≡ d = cc in
    subst WellFormed same (
      (C.drop_watch-Dropped c target (h c refl).0 p).inv,
      omega (arith, C.length-drop_watch c target, (h c refl).1),
    )

drop_set :
    (target : Text) (o : Option ConnActor) (t : Text)
    → trim_space target ≡ target
    → target ≢ []
    → ((c : ConnActor) → o ≡ some c → WellFormed c)
    → watch_set_of (drop_from target o) t ≡ (if text_eq target t then false else watch_set_of o t)
unfolding drop_from watch_set_of
drop_set target none t e p h = ground arith
drop_set target (some c) t e p h =
    let d = C.drop_watch-Dropped c target (h c refl).0 (λ blank. p (sym e ∙ blank)) in
    d.inv.same t ∙ d.watched t ∙ rw (e, sym ((h c refl).0.same t)) refl

absent_subscribers :
    (o : Option (Text → Bool)) (c : Text) → is_none o ≡ true → subscribers_of o c ≡ false
unfolding subscribers_of
absent_subscribers none c h = refl
absent_subscribers (some s) c h = cc

module _ (r : RegistryActor) (id : Text) (inv : Inv r) where
  no_subscribers :
      is_none (r.panes id) ≡ true
      → (t c : Text) → text_eq id t ≡ true
      → has_subscriber r t c ≡ false
  unfolding has_subscriber
  no_subscribers h t c e =
      absent_subscribers (r.panes t) c
        (subst (λ k. is_none (r.panes k) ≡ true) ((text_eq_iff id t).0 e) h)

  abbrev gone : RegistryActor
  gone = record r { panes = delete id r.panes; pane_items = delete id r.pane_items }

  gone-Inv : is_none (r.panes id) ≡ true → Inv gone
  gone-Inv h = same_view r gone inv refl refl (λ t c.
      ground (arith, deleted_subscribers r id (delete id r.pane_items) t c, no_subscribers h t c))

  gone_subscribers :
      (f : Map ConnActor) (t c : Text)
      → has_subscriber (record gone { conns = f }) t c ≡ has_subscriber gone t c
  unfolding has_subscriber
  gone_subscribers f t c = refl

  dropped-Inv :
      trim_space id ≡ id → id ≢ [] → Inv (record gone { conns = λ k. drop_from id (r.conns k) })
  unfolding watches
  dropped-Inv e p = record {
    configured = inv.configured;
    conns = λ k d h. drop_ok id (r.conns k) (λ blank. p (sym e ∙ blank)) (inv.conns k) d h;
    agree = λ t k. ground (
      arith,
      gone_subscribers (λ c. drop_from id (r.conns c)) t k,
      deleted_subscribers r id (delete id r.pane_items) t k,
      inv.agree t k,
      drop_set id (r.conns k) t e p (inv.conns k),
    );
  }

  closed-Inv :
      (absent : Bool)
      → (absent ≡ true → is_none (r.panes id) ≡ true)
      → trim_space id ≡ id
      → id ≢ []
      → let result : RegistryActor × Bool =
          if absent
          then (gone, false)
          else (record gone { conns = λ k. drop_from id (r.conns k) }, true) in
        Inv result.0
  closed-Inv true h e p = gone-Inv (h refl)
  closed-Inv false h e p = dropped-Inv e p

both_none : (a b : Bool) → (a && b) ≡ true → a ≡ true
both_none a b h = ground arith

pub on_pane_closed-Inv :
    (r : RegistryActor) (target : Text) → Inv r → Inv (on_pane_closed r target).0
unfolding on_pane_closed
on_pane_closed-Inv r target inv = elim (empty-cases (trim_space target)) [
  | inl e ↦ rw e inv
  | inr e ↦ simp e.0 (
      closed-Inv r (trim_space target) inv
        (is_none (r.panes (trim_space target)) && is_none (r.pane_items (trim_space target)))
        (both_none _ _) (trim_space_idem target) e.1)
]

pub on_pane_status_update-Inv :
    (r : RegistryActor) (update : PaneStatusUpdate) (now : ℕ)
    → Inv r
    → Inv (on_pane_status_update r update now).0
unfolding on_pane_status_update has_subscriber watches
on_pane_status_update-Inv r update now inv =
    elim (Bool-cases (is_empty (trim_space update.target))) [
      | inl e ↦ rw e inv
      | inr e ↦ rw e (record { configured = inv.configured; conns = inv.conns; agree = inv.agree })
    ]
