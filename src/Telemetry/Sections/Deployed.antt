-- ===== src/Telemetry/Sections/Deployed.antt =====
-- What a section does to the objects of its kind, as a map from names and namespaces to objects.
use ceilometer_operator.Prelude.{
  String, ◌≡◌, ◌∙◌, refl, sym, ap, subst, Bool, true, false, Option, none, some, Bool-cases, inl,
  inr, if◌then◌else◌,
}
use ceilometer_operator.Go.{Result, ok, err}
use ceilometer_operator.Object.{Meta, State}
use ceilometer_operator.Cluster.{Cluster, Obj}
use ceilometer_operator.Telemetry.{Child, Texts, mutate}
use ceilometer_operator.Telemetry.Sections.{delete_effect, section_run}

-- The objects of a kind that a cluster stores.
abbrev pub Stored : (k : Cluster) → Type 0 → Type 0 → Type 0
Stored k Spec' Status' = String → String → k.World → Option (Obj k Spec' Status')

-- An object that is gone, or on its way.
abbrev pub Going : (k : Cluster) {Spec' Status' : Type 0} → Option (Obj k Spec' Status') → Type 0
Going k none = Unit
Going k (some o) = o.meta.deleting ≡ true

-- What the calls do to the stored objects: `admit` is what the API server makes of the spec of an
-- object that it is given, by the webhook of its kind.
pub record Stores (k : Cluster) {Spec' Status' : Type 0} (child : Child k Spec' Status')
    (stored : Stored k Spec' Status') (admit : Spec' → Spec') : Type 0 where
  pub get_reads : (name namespace : String) (w : k.World) → (child.get name namespace w).1 ≡ w
  pub get_found :
      (name namespace : String) (w : k.World) (o : Obj k Spec' Status')
      → (child.get name namespace w).0 ≡ ok o
      → stored name namespace w ≡ some o
  pub get_missing :
      (name namespace : String) (w : k.World) (e : k.Error)
      → (child.get name namespace w).0 ≡ err e
      → k.is_not_found e ≡ true
      → stored name namespace w ≡ none
  pub delete_going :
      (name namespace : String) (w : k.World) (o : Obj k Spec' Status')
      → stored name namespace w ≡ some o
      → (child.delete o w).0 ≡ none
      → Going k (stored name namespace (child.delete o w).1)
  pub patch_stored :
      (name namespace : String) (f : Obj k Spec' Status' → Option k.Error × Obj k Spec' Status')
      → (w : k.World) → (child.create_or_patch name namespace f w).0.0 ≡ none
      → stored name namespace (child.create_or_patch name namespace f w).1
        ≡ some (child.create_or_patch name namespace f w).0.1
  pub patch_spec :
      (name namespace : String) (f : Obj k Spec' Status' → Option k.Error × Obj k Spec' Status')
      → (w : k.World) → (child.create_or_patch name namespace f w).0.0 ≡ none
      → (x : Obj k Spec' Status') × ((child.create_or_patch name namespace f w).0.1.spec
          ≡ admit (f x).1.spec)
  pub owner_spec :
      (owner : Meta) (o : Obj k Spec' Status')
      → (child.set_controller_reference owner o).1.spec ≡ o.spec

-- The calls on the objects of one kind leave those of another kind as they are.
pub record Apart (k : Cluster) {Spec' Status' Spec'' Status'' : Type 0}
    (child : Child k Spec' Status') (stored : Stored k Spec'' Status'') : Type 0 where
  pub get_apart :
      (name namespace : String) (w : k.World) (n ns : String)
      → stored n ns (child.get name namespace w).1 ≡ stored n ns w
  pub delete_apart :
      (o : Obj k Spec' Status') (w : k.World) (n ns : String)
      → stored n ns (child.delete o w).1 ≡ stored n ns w
  pub patch_apart :
      (name namespace : String) (f : Obj k Spec' Status' → Option k.Error × Obj k Spec' Status')
      → (w : k.World) (n ns : String)
      → stored n ns (child.create_or_patch name namespace f w).1 ≡ stored n ns w

-- What a section asks for: an object whose spec was made from the template, or none that stays.
abbrev pub Deployed :
    (k : Cluster) {Spec' Status' : Type 0}
    → (Spec' → Spec')
    → Bool
    → (Spec' → Spec')
    → Option (Obj k Spec' Status')
    → Type 0
Deployed k {Spec'} {Status'} admit true copy found =
    (o : Obj k Spec' Status') × (old : Spec') × (found ≡ some o) × (o.spec ≡ admit (copy old))
Deployed k admit false copy found = Going k found

module _ (k : Cluster) {Spec' Status' : Type 0} (child : Child k Spec' Status') (texts : Texts)
    (name : String) (copy : Spec' → Spec') {Spec Status : Type 0}
    (s : State k.World (Obj k Spec Status)) where
  open s.instance.meta use {namespace}

  module _ (stored : Stored k Spec' Status') (admit : Spec' → Spec')
      (l : Stores k child stored admit) where
    deleted :
        (found : Result k.Error (Obj k Spec' Status'))
        → (child.get name namespace s.world).0 ≡ found
        → (delete_effect k child found s.world).0 ≡ none
        → Going k (stored name namespace (delete_effect k child found s.world).1)
    unfolding delete_effect
    deleted (err e) p h = elim (Bool-cases (k.is_not_found e)) [
      | inl q ↦ rw (l.get_missing name namespace s.world e p q) tt
      | inr q ↦ absurd (some≢none (rw q at h))
    ]
      where
        some≢none : some e ≡ none → ⊥
        some≢none q = cc
    deleted (ok o) p h = unless_deleting o.meta.deleting refl h
      where
        unless_deleting :
            (b : Bool)
            → o.meta.deleting ≡ b
            → (if b then (none, s.world) else child.delete o s.world).0 ≡ none
            → Going k
                (stored name namespace (if b then (none, s.world) else child.delete o s.world).1)
        unless_deleting true d h = rw (l.get_found name namespace s.world o p) d
        unless_deleting false d h =
            l.delete_going name namespace s.world o (l.get_found name namespace s.world o p) h

    -- A section that ends without an error has deployed what it asks for.
    pub section_run-Deployed :
        (enabled : Bool)
        → (section_run k child texts name copy s enabled).0 ≡ none
        → Deployed k admit enabled copy
            (stored name namespace (section_run k child texts name copy s enabled).1.world)
    unfolding section_run mutate
    section_run-Deployed true h =
        let f = mutate k child copy s.instance.meta in
        let (x, p) = l.patch_spec name namespace f s.world h in
        (
          (child.create_or_patch name namespace f s.world).0.1,
          x.spec,
          l.patch_stored name namespace f s.world h,
          p ∙ ap admit (l.owner_spec s.instance.meta (record x { spec = copy x.spec })),
        )
    section_run-Deployed false h =
        let found = (child.get name namespace s.world).0 in
        subst
          (λ w.
            (delete_effect k child found w).0 ≡ none
            → Going k (stored name namespace (delete_effect k child found w).1))
          (sym (l.get_reads name namespace s.world)) (deleted found refl) h

  module _ {Spec'' Status'' : Type 0} (stored : Stored k Spec'' Status'')
      (a : Apart k child stored) where
    delete_effect-apart :
        (found : Result k.Error (Obj k Spec' Status')) (w : k.World) (n ns : String)
        → stored n ns (delete_effect k child found w).1 ≡ stored n ns w
    unfolding delete_effect
    delete_effect-apart (err e) w n ns = refl
    delete_effect-apart (ok o) w n ns = unless_deleting o.meta.deleting
      where
        unless_deleting :
            (b : Bool) → stored n ns (if b then (none, w) else child.delete o w).1 ≡ stored n ns w
        unless_deleting true = refl
        unless_deleting false = a.delete_apart o w n ns

    -- A section leaves the objects of the other kinds as they are.
    pub section_run-apart :
        (enabled : Bool) (n ns : String)
        → stored n ns (section_run k child texts name copy s enabled).1.world ≡ stored n ns s.world
    unfolding section_run delete_effect
    section_run-apart true n ns = a.patch_apart _ _ _ s.world n ns
    section_run-apart false n ns =
        delete_effect-apart (child.get name namespace s.world).0
          (child.get name namespace s.world).1 n ns
        ∙ a.get_apart name namespace s.world n ns
