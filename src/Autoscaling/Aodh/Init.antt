-- ===== src/Autoscaling/Aodh/Init.antt =====
-- What the initialization of Aodh leaves true of the conditions: its database and its job.
use ceilometer_operator.Prelude.{◌∷◌, ◌≡◌, refl, true, List, StringMap, some}
use ceilometer_operator.Go.{pure}
use ceilometer_operator.Go.Ensures.{
  Ensures, Ensures-bind, Ensures-exit, Ensures-pure, Ensures-check_error, Ensures-if,
}
use ceilometer_operator.Conditions.{
  CondType, ConditionsLaws, Format, db_ready, db_sync_ready, keystone_service_ready,
}
use ceilometer_operator.Object.{Ret, pending}
use ceilometer_operator.Cluster.{Cluster}
use ceilometer_operator.Cluster.Marks.{
  On, Ensures-ask, Ensures-the_object, Ensures-set_status, Ensures-marks_false,
}
use ceilometer_operator.Cluster.Success.{
  AllTrue, outside, IfDone, failed, unfinished, Ensures-one_more,
}
use ceilometer_operator.Services.Children.Kept.{MirrorsKeystone, Ensures-reconcile_keystone_service}
use ceilometer_operator.Autoscaling.Calls.{Calls}
use ceilometer_operator.Autoscaling.Aodh.{
  require_secret, reconcile_keystone, awaits, database_failed, reconcile_database,
  reconcile_db_sync, reconcile_init_aodh,
}

module _ (k : Cluster) (c : Calls k) (l : ConditionsLaws k.conditions) where
  open k.conditions use {Conditions}

  module _ (P Q : Conditions → Type 0) where
    pub Ensures-awaits :
        (t : CondType) (f : Format) (r : Ret k.Error)
        → Ensures (On k P) (awaits k c t f r) (λ _. On k P) (IfDone k Q)
    unfolding awaits
    Ensures-awaits t f r =
        Ensures-if (pending r.result) _ (pure tt)
          (λ h.
            Ensures-bind (λ _ _. Unit) _ _ _
              (Ensures-marks_false k P l _ _ _ _ _ (λ _. Unit) λ cs cs' p q. tt)
              λ _. Ensures-exit _ λ s p. unfinished k Q r.result h s)
          λ h. Ensures-pure tt λ s p. p

    Ensures-database_failed :
        (r : Ret k.Error) (e : k.Error)
        → r.error ≡ some e
        → Ensures (On k P) (database_failed k c r e) (λ _. On k P) (IfDone k Q)
    unfolding database_failed
    Ensures-database_failed r e h =
        Ensures-bind (λ _ _. Unit) _ _ _
          (Ensures-marks_false k P l _ _ _ _ _ (λ _. Unit) λ cs cs' p q. tt)
          λ _. Ensures-exit _ λ s p. failed k Q r (rw h refl) s

  module _ (ts : List CondType) (Q : Conditions → Type 0) where
    Ensures-reconcile_database :
        Ensures
          (On k (AllTrue k ts))
          (reconcile_database k c)
          (λ _. On k (AllTrue k (db_ready ∷ ts)))
          (IfDone k Q)
    unfolding reconcile_database
    Ensures-reconcile_database = Ensures-bind _ _ _ _ (Ensures-the_object k _) λ o.
        Ensures-bind _ _ _ _ (Ensures-ask k _ _) λ created.
          Ensures-bind _ _ _ _ (Ensures-check_error _ _ λ e h. Ensures-database_failed _ Q _ e refl)
            λ _. Ensures-bind _ _ _ _ (Ensures-awaits _ Q _ _ created.0) λ _.
              Ensures-bind _ _ _ _ (Ensures-ask k _ _) λ waited.
                Ensures-bind _ _ _ _
                  (Ensures-check_error _ _ λ e h. Ensures-database_failed _ Q _ e h)
                  λ _. Ensures-bind _ _ _ _ (Ensures-awaits _ Q _ _ waited.0) λ _.
                    Ensures-bind _ _ _ _ (Ensures-set_status k _ _) λ _. Ensures-one_more k l ts _ _

    Ensures-reconcile_db_sync :
        (labels : StringMap)
        → Ensures
            (On k (AllTrue k ts))
            (reconcile_db_sync k c labels)
            (λ _. On k (AllTrue k (db_sync_ready ∷ ts)))
            (IfDone k Q)
    unfolding reconcile_db_sync
    Ensures-reconcile_db_sync labels = Ensures-bind _ _ _ _ (Ensures-the_object k _) λ o.
        Ensures-bind _ _ _ _ (Ensures-ask k _ _) λ run.
          Ensures-bind _ _ _ _ (Ensures-awaits _ Q _ _ run.answer) λ _.
            Ensures-bind _ _ _ _
              (Ensures-check_error _ _ λ e h.
                Ensures-bind (λ _ _. Unit) _ _ _
                  (Ensures-marks_false k _ l _ _ _ _ _ (λ _. Unit) λ cs cs' p q. tt)
                  λ _. Ensures-exit _ λ s p. failed k Q _ refl s)
              λ _.
                Ensures-bind (λ _. On k (AllTrue k ts)) _ _ _
                  (Ensures-if run.has_changed _ (pure tt) (λ h. Ensures-set_status k _ _)
                    λ h. Ensures-pure tt λ s p. p)
                  λ _. Ensures-one_more k l ts _ _

  module _ (ts : List CondType) (Q : Conditions → Type 0) where
    Ensures-require_secret :
        Ensures (On k (AllTrue k ts)) (require_secret k c) (λ _. On k (AllTrue k ts)) (IfDone k Q)
    unfolding require_secret
    Ensures-require_secret = Ensures-bind _ _ _ _ (Ensures-the_object k _) λ o.
        Ensures-bind _ _ _ _ (Ensures-ask k _ _) λ read. Ensures-check_error _ _ λ e h.
          Ensures-if (k.is_not_found e) _ _ (λ p. Ensures-exit _ λ s q. failed k Q _ refl s)
            λ p. Ensures-exit _ λ s q. failed k Q _ refl s

  module _ (m : MirrorsKeystone k c.services keystone_service_ready) (ts : List CondType)
      (n : outside keystone_service_ready ts ≡ true) where
    Ensures-reconcile_keystone :
        (Q : Conditions → Type 0) (labels : StringMap)
        → Ensures
            (On k (AllTrue k ts))
            (reconcile_keystone k c labels)
            (λ _. On k (AllTrue k ts))
            (IfDone k Q)
    unfolding reconcile_keystone
    Ensures-reconcile_keystone Q labels =
        Ensures-bind _ _ _ _ (Ensures-the_object k _)
          λ o. Ensures-reconcile_keystone_service k c.services l ts _ m n Q _ labels

    -- The conditions that are true after the initialization of Aodh.
    pub Ensures-reconcile_init_aodh :
        (labels : StringMap)
        → let Q = AllTrue k (db_sync_ready ∷ db_ready ∷ ts) in
          Ensures (On k (AllTrue k ts)) (reconcile_init_aodh k c labels) (IfDone k Q) (IfDone k Q)
    unfolding reconcile_init_aodh
    Ensures-reconcile_init_aodh labels = Ensures-bind _ _ _ _ (Ensures-require_secret ts _) λ _.
        Ensures-bind _ _ _ _ (Ensures-reconcile_keystone _ labels) λ _.
          Ensures-bind _ _ _ _ (Ensures-set_status k _ _) λ _.
            Ensures-bind _ _ _ _ (Ensures-reconcile_database ts _) λ _.
              Ensures-bind _ _ _ _ (Ensures-reconcile_db_sync (db_ready ∷ ts) _ labels)
                λ _. Ensures-exit _ λ s p _. p
