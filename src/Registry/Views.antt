-- ===== src/Registry/Views.antt =====
-- Which connections a pane has as subscribers, and which panes a connection watches.
use shellman.Base.{
  ℕ, ◌<◌, ◌≡◌, ◌≢◌, inl, inr, refl, sym, subst, All, Bool, true, false, not, ◌&&◌, ◌||◌, List, [],
  ◌∷◌, ◌++◌, arith, Text, text_eq, text_eq_iff, trim_space, length, mem, mem-append, IsDistinct,
  Bool-cases, if◌then◌else◌, Option, none, some, is_some, is_empty,
}
use shellman.Conn.{ConnActor, add_key, delete_key, remove_first}
use shellman.Conn.Watch as W
use shellman.Registry.{RegistryActor, on_subscribers, at_pane, subscribe_pane, unsubscribe_pane}

unfoldable pub subscribers_of : Option (Text → Bool) → Text → Bool
subscribers_of none c = false
subscribers_of (some s) c = s c

unfoldable pub watch_set_of : Option ConnActor → Text → Bool
watch_set_of none t = false
watch_set_of (some c) t = c.watch_set t

-- Whether a pane has a subscriber, and whether a connection watches a pane.
unfoldable pub has_subscriber : RegistryActor → Text → Text → Bool
unfolding subscribers_of
has_subscriber r target conn_id = subscribers_of (r.panes target) conn_id

unfoldable pub watches : RegistryActor → Text → Text → Bool
unfolding watch_set_of
watches r conn_id target = watch_set_of (r.conns conn_id) target

pub not_empty : (s : Text) → s ≢ [] → is_empty s ≡ false
not_empty [] h = absurd (h refl)
not_empty (c ∷ s) h = refl

full_after :
    (before : List Text) (target evicted t : Text) (after : List Text) (old new : Bool)
    → 0 < length before
    → IsDistinct before
    → All (λ x. (trim_space x ≡ x) × (x ≢ [])) before
    → mem target before ≡ false
    → before ++ target ∷ [] ≡ evicted ∷ after
    → old ≡ mem t before
    → new ≡ mem t after
    → new ≡ (
        if text_eq target t
        then true
        else (if not (is_empty evicted) && text_eq evicted t then false else old))
unfolding mem
full_after [] target evicted t after old new p d a m e o n = absurd (omega arith)
full_after (x ∷ xs) target evicted t after old new p d a m e o n =
    let head : x ≡ evicted = cc in
    let rest : xs ++ target ∷ [] ≡ after = cc in
    ground (
      arith,
      d.0,
      not_empty x a.0.1,
      text_eq_iff target t,
      text_eq_iff x t,
      head,
      subst (λ zs. mem t zs ≡ (mem t xs || mem t (target ∷ []))) rest
          (mem-append t xs (target ∷ [])),
    )

-- What `SelectAndWatch` does to the set: the target is added and the pane that is given up is
-- removed.
pub watch_after :
    (c : ConnActor) (target : Text) (limit : ℕ) (r : ConnActor × Text)
    → W.Inv c
    → 0 < limit
    → target ≢ []
    → W.Watched c target limit r
    → (t : Text)
    → r.0.watch_set t ≡ (
        if text_eq target t
        then true
        else (if not (is_empty r.1) && text_eq r.1 t then false else c.watch_set t))
unfolding mem
watch_after c target limit r inv p h w t = elim w.order [
  | inl kept ↦ ground (
    arith,
    kept,
    w.inv.same t,
    inv.same t,
    subst
        (λ order. mem t order ≡ (mem t (remove_first target c.watch_order) || mem t (target ∷ [])))
        (sym kept.1) (mem-append t (remove_first target c.watch_order) (target ∷ [])),
    W.mem-remove_first_other target t c.watch_order,
    text_eq_iff target t,
  )
  | inr full ↦
      full_after c.watch_order target r.1 t r.0.watch_order (c.watch_set t) (r.0.watch_set t)
        (subst (λ n. 0 < n) (sym full.1) p) inv.distinct inv.trimmed full.0 full.2 (inv.same t)
        (w.inv.same t)
]

subscribed_some :
    (o : Option (Text → Bool)) (c c' : Text)
    → is_some o ≡ true
    → subscribers_of (on_subscribers o (add_key c)) c'
      ≡ (if text_eq c c' then true else subscribers_of o c')
unfolding subscribers_of on_subscribers add_key
subscribed_some none c c' h = cc
subscribed_some (some s) c c' h = refl

pub has_subscriber-subscribe_pane :
    (r : RegistryActor) (t c t' c' : Text)
    → is_some (r.panes t) ≡ true
    → has_subscriber (subscribe_pane r t c) t' c'
      ≡ (if text_eq t t' && text_eq c c' then true else has_subscriber r t' c')
unfolding has_subscriber subscribe_pane at_pane
has_subscriber-subscribe_pane r t c t' c' h = elim (Bool-cases (text_eq t t')) [
  | inl e ↦ rw e (
      subscribed_some (r.panes t') c c'
        (subst (λ k. is_some (r.panes k) ≡ true) ((text_eq_iff t t').0 e) h))
  | inr e ↦ rw e refl
]

unsubscribed :
    (o : Option (Text → Bool)) (c c' : Text)
    → subscribers_of (on_subscribers o (delete_key c)) c'
      ≡ (if text_eq c c' then false else subscribers_of o c')
unfolding subscribers_of on_subscribers delete_key
unsubscribed none c c' = ground arith
unsubscribed (some s) c c' = refl

pub has_subscriber-unsubscribe_pane :
    (r : RegistryActor) (t c t' c' : Text)
    → has_subscriber (unsubscribe_pane r t c) t' c'
      ≡ (if text_eq t t' && text_eq c c' then false else has_subscriber r t' c')
unfolding has_subscriber unsubscribe_pane at_pane
has_subscriber-unsubscribe_pane r t c t' c' = elim (Bool-cases (text_eq t t')) [
  | inl e ↦ rw e (unsubscribed (r.panes t') c c')
  | inr e ↦ rw e refl
]
