-- ===== src/Telemetry/Sections/Reflects.antt =====
-- A section that ends without an error reflects its child.
use ceilometer_operator.Prelude.{
  String, ◌≡◌, ◌∙◌, sym, subst, Bool-cases, inl, inr, refl, Bool, true, false, Option, none, some,
  if◌then◌else◌,
}
use ceilometer_operator.Conditions.{
  CondType, Status, type_eq, ready, condition_true, condition_false, ConditionsLaws, status_at,
}
use ceilometer_operator.Conditions.Laws.{
  type_eq_refl, get-mark_true, get-set_false, status_at-mark_true, status_at-set_false,
}
use ceilometer_operator.Object.{Meta, State}
use ceilometer_operator.Cluster.{Cluster, Obj}
use ceilometer_operator.Telemetry.{Child, Texts, mutate}
use ceilometer_operator.Telemetry.Sections.{shows, gone, section_run}

-- the status that shows whether a child is ready
abbrev pub status_of_ready : Bool → Status
status_of_ready b = if b then condition_true else condition_false

module _ (k : Cluster) {Spec' Status' : Type 0} (child : Child k Spec' Status') where
  -- A patch of the child with the template has succeeded, and the condition of type `t` is true
  -- exactly if the child, as the patch left it, is ready.
  pub record Shown (t : CondType) (name : String) (copy : Spec' → Spec') (owner : Meta)
      (cs : k.conditions.Conditions) : Type 0 where
    pub obj : Obj k Spec' Status'
    pub before : k.World
    pub after : k.World
    pub patched :
        child.create_or_patch name owner.namespace (mutate k child copy owner) before
        ≡ ((none, obj), after)
    pub status :
        status_at k.conditions cs t
        ≡ some (status_of_ready (k.conditions.is_true obj.conditions ready))

  -- The condition of a section: absent if it is disabled, and otherwise it shows the child.
  abbrev pub Reflects :
      CondType → String → Bool → (Spec' → Spec') → Meta → k.conditions.Conditions → Type 0
  Reflects t name true copy owner cs = Shown t name copy owner cs
  Reflects t name false copy owner cs = k.conditions.get cs t ≡ none

  -- what a section shows is read off its own condition alone
  pub Reflects-get :
      (t : CondType) (name : String) (enabled : Bool) (copy : Spec' → Spec') (owner : Meta)
      → (cs cs' : k.conditions.Conditions) → k.conditions.get cs' t ≡ k.conditions.get cs t
      → Reflects t name enabled copy owner cs
      → Reflects t name enabled copy owner cs'
  unfolding status_at
  Reflects-get t name true copy owner cs cs' g h = record {
    obj = h.obj;
    before = h.before;
    after = h.after;
    patched = h.patched;
    status = rw g h.status;
  }
  Reflects-get t name false copy owner cs cs' g h = g ∙ h

  module _ (l : ConditionsLaws k.conditions) (texts : Texts) where
    get-shows :
        (p : Option k.Error × Obj k Spec' Status') (cs : k.conditions.Conditions) (u : CondType)
        → type_eq texts.type u ≡ false
        → k.conditions.get (shows k child texts p cs) u ≡ k.conditions.get cs u
    unfolding shows
    get-shows (some e, o) cs u n = rw (get-set_false k.conditions l, n) refl
    get-shows (none, o) cs u n = elim (Bool-cases (k.conditions.is_true o.conditions ready)) [
      | inl h ↦ rw (h, get-mark_true k.conditions l, n) refl
      | inr h ↦ rw (h, get-set_false k.conditions l, n) refl
    ]

    status-shows :
        (o : Obj k Spec' Status') (cs : k.conditions.Conditions)
        → status_at k.conditions (shows k child texts (none, o) cs) texts.type
          ≡ some (status_of_ready (k.conditions.is_true o.conditions ready))
    unfolding shows
    status-shows o cs = elim (Bool-cases (k.conditions.is_true o.conditions ready)) [
      | inl h ↦ rw (h, status_at-mark_true k.conditions l, type_eq_refl) refl
      | inr h ↦ rw (h, status_at-set_false k.conditions l, type_eq_refl) refl
    ]

    get-gone :
        (e : Option k.Error) (cs : k.conditions.Conditions) (u : CondType)
        → type_eq texts.type u ≡ false
        → k.conditions.get (gone k child texts e cs) u ≡ k.conditions.get cs u
    unfolding gone
    get-gone none cs u n = rw (l.get-remove, n) refl
    get-gone (some e) cs u n = refl

    module _ (name : String) (copy : Spec' → Spec') {Spec Status : Type 0}
        (s : State k.World (Obj k Spec Status)) where
      -- A section touches no condition but its own.
      pub get-section_run :
          (enabled : Bool) (u : CondType)
          → type_eq texts.type u ≡ false
          → k.conditions.get (section_run k child texts name copy s enabled).1.instance.conditions u
            ≡ k.conditions.get s.instance.conditions u
      unfolding section_run
      get-section_run true u n = get-shows _ s.instance.conditions u n
      get-section_run false u n = get-gone _ s.instance.conditions u n

      -- A section that is enabled shows the child that the patch has left.
      pub status-section_run :
          (enabled : Bool)
          → enabled ≡ true
          → (section_run k child texts name copy s enabled).0 ≡ none
          → let f = mutate k child copy s.instance.meta in
            let patched = child.create_or_patch name s.instance.meta.namespace f s.world in
            (patched.0.0 ≡ none)
            × (status_at k.conditions
                  (section_run k child texts name copy s enabled).1.instance.conditions
                  texts.type
                ≡ some (status_of_ready (k.conditions.is_true patched.0.1.conditions ready)))
      unfolding section_run
      status-section_run true e h = (
        h,
        subst
            (λ x.
              status_at k.conditions (shows k child texts (x, patched.0.1) s.instance.conditions)
                texts.type
              ≡ some (status_of_ready (k.conditions.is_true patched.0.1.conditions ready)))
            (sym h) (status-shows patched.0.1 s.instance.conditions),
      )
        where
          patched : (Option k.Error × Obj k Spec' Status') × k.World
          patched =
              child.create_or_patch name s.instance.meta.namespace
                (mutate k child copy s.instance.meta) s.world
      status-section_run false e h = cc

      pub section_run-Reflects :
          (enabled : Bool)
          → (section_run k child texts name copy s enabled).0 ≡ none
          → Reflects texts.type name enabled copy s.instance.meta
              (section_run k child texts name copy s enabled).1.instance.conditions
      unfolding section_run gone
      section_run-Reflects true h =
          shown_by
            (child.create_or_patch name s.instance.meta.namespace
              (mutate k child copy s.instance.meta) s.world)
            refl h
        where
          shown_by :
              (r : (Option k.Error × Obj k Spec' Status') × k.World)
              → child.create_or_patch name s.instance.meta.namespace
                  (mutate k child copy s.instance.meta)
                  s.world
                ≡ r
              → r.0.0 ≡ none
              → Shown texts.type name copy s.instance.meta
                  (shows k child texts r.0 s.instance.conditions)
          shown_by ((none, o), w) p q = record {
            obj = o;
            before = s.world;
            after = w;
            patched = p;
            status = status-shows o s.instance.conditions;
          }
          shown_by ((some e, o), w) p q = cc
      section_run-Reflects false h =
          rw h (l.get-remove texts.type s.instance.conditions texts.type ∙ rw type_eq_refl refl)
