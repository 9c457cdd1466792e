-- ===== src/Registry/Creating.antt =====
-- A pane is created with no subscribers, and nothing else changes for the connections.
use shellman.Base.{
  ℕ, ◌≡◌, inl, inr, refl, sym, subst, ◌∙◌, Bool, true, false, arith, Text, text_eq, text_eq_iff,
  Bool-cases, if◌then◌else◌, Option, none, some, is_some, Map, insert_self, insert,
}
use shellman.Registry.{RegistryActor, create_pane, seed_pane_status, SessionStatusItem}
use shellman.Registry.Views.{subscribers_of, has_subscriber}

-- What the creation of a pane leaves as it was, and that the pane is there.
pub record Created (r : RegistryActor) (target : Text) (q : RegistryActor) : Type 0 where
  pub conns : q.conns ≡ r.conns
  pub configured : q.configured ≡ r.configured
  pub subscribers : (t c : Text) → has_subscriber q t c ≡ has_subscriber r t c
  pub present : is_some (q.panes target) ≡ true

seeded_if :
    (r : RegistryActor) (b : Bool) (items : Map SessionStatusItem)
    → let q = if b then r else record r { pane_items = items } in
      (q.conns ≡ r.conns) × (q.panes ≡ r.panes) × (q.configured ≡ r.configured)
seeded_if r true items = (refl, refl, refl)
seeded_if r false items = (refl, refl, refl)

seeded :
    (r : RegistryActor) (target : Text) (now : ℕ)
    → let q = seed_pane_status r target now in
      (q.conns ≡ r.conns) × (q.panes ≡ r.panes) × (q.configured ≡ r.configured)
unfolding seed_pane_status
seeded r target now = seeded_if r _ _

none_subscribers :
    (o : Option (Text → Bool)) (c : Text) → is_some o ≡ false → subscribers_of o c ≡ false
unfolding subscribers_of
none_subscribers none c h = refl
none_subscribers (some s) c h = cc

new_pane : RegistryActor → Text → RegistryActor
new_pane r target = record r { panes = insert target (λ _. false) r.panes }

create_pane_new :
    (r : RegistryActor) (target : Text) (now : ℕ)
    → is_some (r.panes target) ≡ false
    → r.configured ≡ true
    → create_pane r target now ≡ seed_pane_status (new_pane r target) target now
unfolding create_pane new_pane
create_pane_new r target now h e = ground arith

new_subscribers :
    (r : RegistryActor) (target : Text)
    → is_some (r.panes target) ≡ false
    → (t c : Text) → has_subscriber (new_pane r target) t c ≡ has_subscriber r t c
unfolding new_pane has_subscriber insert
new_subscribers r target h t c = elim (Bool-cases (text_eq target t)) [
  | inl e ↦ rw e (
      sym (
        none_subscribers (r.panes t) c
          (subst (λ k. is_some (r.panes k) ≡ false) ((text_eq_iff target t).0 e) h)))
  | inr e ↦ rw e refl
]

new_pane-Created :
    (r : RegistryActor) (target : Text)
    → is_some (r.panes target) ≡ false
    → Created r target (new_pane r target)
unfolding new_pane
new_pane-Created r target h = record {
  conns = refl;
  configured = refl;
  subscribers = new_subscribers r target h;
  present = rw (insert_self target (λ (c : Text). false) r.panes) refl;
}

pub create_pane-Created :
    (r : RegistryActor) (target : Text) (now : ℕ)
    → r.configured ≡ true
    → Created r target (create_pane r target now)
unfolding create_pane
create_pane-Created r target now e = elim (Bool-cases (is_some (r.panes target))) [
  | inl there ↦
      rw there
        (record { conns = refl; configured = refl; subscribers = λ t c. refl; present = there })
  | inr absent ↦
      let made = new_pane-Created r target absent in
      let seeds = seeded (new_pane r target) target now in
      subst (Created r target) (sym (create_pane_new r target now absent e)) (record {
        conns = seeds.0 ∙ made.conns;
        configured = seeds.2 ∙ made.configured;
        subscribers = λ t c. unfold has_subscriber in rw seeds.1 (made.subscribers t c);
        present = rw seeds.1 made.present;
      })
]
