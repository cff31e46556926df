-- ===== src/Cluster/Reconcile/Errors.antt =====
-- When a `Reconcile` returns no error.
use ceilometer_operator.Prelude.{
  ◌≡◌, ◌↔◌, ◌⊎◌, inl, inr, refl, sym, ap, Bool, true, false, Bool-cases, Option, none, some,
  is_some, ◌&&◌,
}
use ceilometer_operator.Go.{Flow, next, return, panic, Result, ok, err}
use ceilometer_operator.Object.{CtrlResult, done, Ret, ret}
use ceilometer_operator.Cluster.{Cluster, Obj, Handler}
use ceilometer_operator.Cluster.Reconcile.{
  Frame, override, outcome, closed, deferred, with_helper, with_object, reconcile,
}

module _ {Error : Type 0} where
  -- the answer of a body that did not panic
  abbrev pub Answers : Flow (Ret Error) (Ret Error) → Ret Error → Type 0
  Answers m r = (m ≡ return r) ⊎ (m ≡ next r)

  no_error_overridden :
      (named : Bool) (r : Ret Error) (e : Option Error) (result : CtrlResult)
      → (override named r e ≡ ret result none)
        ↔ ((r ≡ ret result none) × ((named && is_some e) ≡ false))
  no_error_overridden true r (some e) result = (λ h. cc, λ h. cc (h.1))
  no_error_overridden true r none result = (λ h. (h, refl), λ h. h.0)
  no_error_overridden false r e result = (λ h. (h, refl), λ h. h.0)

  outcome_iff :
      (named : Bool) (m : Flow (Ret Error) (Ret Error)) (e : Option Error) (result : CtrlResult)
      → (outcome named m e ≡ some (ret result none))
        ↔ (Answers m (ret result none) × ((named && is_some e) ≡ false))
  outcome_iff named (next r) e result =
      let i = no_error_overridden named r e result in
      (
        λ h. let (p, q) = i.0 (cc) in (inr (cc), q),
        λ (a, q). elim a [ inl p ↦ cc | inr p ↦ let c = i.1 (cc, q) in cc ],
      )
  outcome_iff named (return r) e result =
      let i = no_error_overridden named r e result in
      (
        λ h. let (p, q) = i.0 (cc) in (inl (cc), q),
        λ (a, q). elim a [ inr p ↦ cc | inl p ↦ let c = i.1 (cc, q) in cc ],
      )
  outcome_iff named panic e result = (λ h. cc, λ (a, q). elim a [ inl p ↦ cc | inr p ↦ cc ])

module _ (k : Cluster) {Spec Status : Type 0} (f : Frame k Spec Status)
    (body : Handler k Spec Status) where
  -- The answer to `Get` is that the object is gone; the cluster is left as `Get` left it.
  abbrev pub Gone : Result k.Error (Obj k Spec Status) × k.World → k.World → Type 0
  Gone read w2 = (e : k.Error) × (read.0 ≡ err e) × (k.is_not_found e ≡ true) × (w2 ≡ read.1)

  -- The object was read, the helper made, the body returned no error for it, and the object as the
  -- body left it, closed, was patched; the patch has not failed if the error is a named result.
  abbrev pub WellWritten :
      Bool → Result k.Error (Obj k Spec Status) × k.World → CtrlResult → k.World → Type 0
  WellWritten named read result w2 =
      (o : Obj k Spec Status) × (read.0 ≡ ok o)
      × (f.new_helper o ≡ none)
      × (let (m, s) = body (record { world = read.1; instance = o }) in
          let (e, w) = f.patch_instance o (closed k s.instance) s.world in
          Answers m (ret result none) × ((named && is_some e) ≡ false) × (w2 ≡ w))

  same : {a b : Ret k.Error} → some a ≡ some b → a ≡ b
  same h = cc

  with_helper_iff :
      (named : Bool) (o : Obj k Spec Status) (w : k.World) (h : Option k.Error)
      → (result : CtrlResult)
      → let (answer, w2) = with_helper k named f body o w h in
        (answer ≡ some (ret result none)) ↔ (
          (h ≡ none)
          × (let (m, s) = body (record { world = w; instance = o }) in
              let (e, w') = f.patch_instance o (closed k s.instance) s.world in
              Answers m (ret result none) × ((named && is_some e) ≡ false) × (w2 ≡ w')))
  unfolding with_helper deferred
  with_helper_iff named o w (some e) result = (
    λ p. absurd (some≢none (ap (λ (r : Ret k.Error). r.error) (same p))),
    λ p. absurd (some≢none p.0),
  )
    where
      some≢none : some e ≡ none → ⊥
      some≢none p = cc
  with_helper_iff named o w none result =
      let (m, s) = body (record { world = w; instance = o }) in
      let i = outcome_iff named m (f.patch_instance o (closed k s.instance) s.world).0 result in
      (λ p. (refl, ((i.0 p).0, (i.0 p).1, refl)), λ p. i.1 (p.1.0, p.1.1))

  with_object_iff :
      (named : Bool) (read : Result k.Error (Obj k Spec Status) × k.World) (result : CtrlResult)
      → let (answer, w2) = with_object k named f body read in
        (answer ≡ some (ret result none))
        ↔ ((Gone read w2 × (result ≡ done)) ⊎ WellWritten named read result w2)
  unfolding with_object
  with_object_iff named (err e, w) result = (
    λ h. elim (Bool-cases (k.is_not_found e)) [
      | inl n ↦
          inl ((e, refl, n, refl), sym (ap (λ (r : Ret k.Error). r.result) (same (rw n at h))))
      | inr n ↦ absurd (some≢none (ap (λ (r : Ret k.Error). r.error) (same (rw n at h))))
    ],
    λ x. elim x [
      | inl ((e', p, n, _), d) ↦ rw (same_error e' p, n, d) refl
      | inr (o, p, _, _) ↦ cc
    ],
  )
    where
      some≢none : some e ≡ none → ⊥
      some≢none p = cc

      same_error :
          (e' : k.Error) → ◌≡◌ {A = Result k.Error (Obj k Spec Status)} (err e) (err e') → e ≡ e'
      same_error e' p = cc
  with_object_iff named (ok o, w) result =
      let i = with_helper_iff named o w (f.new_helper o) result in
      (
        λ h. inr (o, refl, (i.0 h).0, (i.0 h).1),
        λ x. elim x [
          | inl ((e, p, _, _), _) ↦ cc
          | inr (o', p, n, h) ↦
              i.1 (rw (sym (same_object o' p)) at n, rw (sym (same_object o' p)) at h)
        ],
      )
    where
      same_object :
          (o' : Obj k Spec Status)
          → ◌≡◌ {A = Result k.Error (Obj k Spec Status)} (ok o) (ok o')
          → o ≡ o'
      same_object o' p = cc

  -- `Reconcile` returns no error exactly if the object is gone, and then it writes nothing and asks for
  -- no other pass, or if the object was read, the helper made, the body returned no error, and the
  -- object as the body left it was patched, without an error if the error is a named result; the
  -- result is then that of the body.
  pub reconcile_no_error_iff :
      (named : Bool) (w : k.World) (result : CtrlResult)
      → let (answer, w2) = reconcile k named f body w in
        (answer ≡ some (ret result none))
        ↔ ((Gone (f.get w) w2 × (result ≡ done)) ⊎ WellWritten named (f.get w) result w2)
  unfolding reconcile
  reconcile_no_error_iff named w result = with_object_iff named (f.get w) result
