-- ===== src/Autoscaling/Aodh.antt =====
-- controllers/aodh_controller.go: the deletion of Aodh, and its secret, Keystone service, database
-- and database job.
pub mod Expose
pub mod Delete
pub mod Init
use ceilometer_operator.Prelude.{
  [], String, append, true, none, some, ◌∷◌, StringMap, if◌then◌else◌,
}
use ceilometer_operator.Go.{◌>>◌, ◌>>=◌, Result, ok, err, exit, pure, check_error}
use ceilometer_operator.Conditions.{
  CondType, Format, lib, db_ready, db_sync_ready, error_reason, requested_reason, severity_info,
  severity_warning,
}
use ceilometer_operator.Object.{Ret, ret, done, after, seconds, pending}
use ceilometer_operator.Cluster.{Cluster, ask, the_object, set_status, marks_true, marks_false}
use ceilometer_operator.Services.{KeystoneServiceSpec}
use ceilometer_operator.Services.Children.{reconcile_keystone_service}
use ceilometer_operator.Services.Release.{Held, release}
use ceilometer_operator.Autoscaling.Pods.{service_name, service_type, db_sync_job}
use ceilometer_operator.Autoscaling.Calls.{Calls, DatabaseSpec, Do, Fn}

-- telemetryv1.DbSyncHash
abbrev db_sync_hash : String
db_sync_hash = "dbsync"

module _ (k : Cluster) (c : Calls k) where
  open c.services use {
    get_keystone_service, keystone_service_meta, with_meta, update_keystone_service,
  }

  -- The Keystone service, as an object whose finalizer is taken.
  abbrev pub held_service : Held k c.services.KeystoneService
  held_service = record {
    meta = keystone_service_meta;
    with_meta = with_meta;
    update = update_keystone_service;
  }

  -- What follows the question for the database, which may be gone.
  unfoldable pub release_database : Result k.Error c.Database → Do k c Unit
  release_database (err e) = if k.is_not_found e then pure tt else exit (ret done (some e))
  release_database (ok db) = do
    error ← ask k (c.delete_finalizer db)
    check_error error (λ e. exit (ret done (some e)))

  -- `reconcileDeleteAodh`
  unfoldable pub reconcile_delete_aodh : Fn k c
  unfolding release_database
  reconcile_delete_aodh = do
    o ← the_object k
    db ← ask k (c.get_database_by_name service_name)
    release_database db
    service ← ask k (get_keystone_service service_name o.meta.namespace)
    release k held_service service
    endpoint ← ask k (c.get_keystone_endpoint service_name o.meta.namespace)
    release k c.held_endpoint endpoint
    exit (ret done none)

  -- The secret with the passwords is there.
  unfoldable pub require_secret : Do k c Unit
  require_secret = do
    o ← the_object k
    read ← ask k (c.services.get_secret o.spec.aodh.secret o.meta.namespace)
    check_error read.error (λ e.
        if k.is_not_found e
        then exit (
            ret (after (seconds 10)) (
              some
                (k.errorf (append "OpenStack secret " (append o.spec.aodh.secret " not found")))))
        else exit (ret done (some e)))

  unfoldable pub reconcile_keystone : StringMap → Do k c Unit
  reconcile_keystone labels = do
    o ← the_object k
    let spec : KeystoneServiceSpec = record {
      service_type = service_type;
      service_name = service_name;
      service_description = "Aodh for autoscaling Service";
      enabled = true;
      service_user = o.spec.aodh.service_user;
      secret = o.spec.aodh.secret;
      password_selector = o.spec.aodh.password_selectors.aodh_service;
    }
    reconcile_keystone_service k c.services spec labels

  -- an error of a step of the database, which its condition shows; `r` is returned
  unfoldable pub database_failed : Ret k.Error → k.Error → Do k c Unit
  database_failed r e = do
    marks_false k db_ready error_reason severity_warning (lib "DBReadyErrorMessage")
        (k.error_text e ∷ [])
    exit r

  -- a step that has to be waited for, which its condition shows
  unfoldable pub awaits : CondType → Format → Ret k.Error → Do k c Unit
  awaits t f r =
      if pending r.result
      then (do marks_false k t requested_reason severity_info f []; exit (ret r.result none))
      else pure tt

  -- The database is created or patched, and waited for.
  unfoldable pub reconcile_database : Do k c Unit
  unfolding database_failed awaits
  reconcile_database = do
    o ← the_object k
    let spec : DatabaseSpec = record {
      database_name = o.spec.aodh.database_user;
      database_user = o.spec.aodh.database_user;
      secret = o.spec.aodh.secret;
      labels = ("dbName", o.spec.aodh.database_instance) ∷ [];
      name = service_name;
      namespace = o.meta.namespace;
    }
    created ←
        ask k (c.create_or_patch_db_by_name (c.new_database spec) o.spec.aodh.database_instance)
    check_error created.0.error (λ e. database_failed (ret done (some e)) e)
    awaits db_ready (lib "DBReadyRunningMessage") created.0
    waited ← ask k (c.wait_for_db_created created.1)
    check_error waited.0.error (λ e. database_failed waited.0 e)
    awaits db_ready (lib "DBReadyRunningMessage") waited.0
    set_status k (λ t. record t { database_hostname = c.get_database_hostname waited.1 })
    marks_true k db_ready (lib "DBReadyMessage")

  -- The database job. Its result is looked at before its error.
  unfoldable pub reconcile_db_sync : StringMap → Do k c Unit
  unfolding awaits
  reconcile_db_sync labels = do
    o ← the_object k
    run ← ask k (
        c.do_job (db_sync_job o.meta o.spec labels) db_sync_hash o.spec.aodh.preserve_jobs
          (k.hash_get o.status.hash db_sync_hash))
    awaits db_sync_ready (lib "DBSyncReadyRunningMessage") run.answer
    check_error run.answer.error (λ e. do
      marks_false k db_sync_ready error_reason severity_warning (lib "DBSyncReadyErrorMessage")
          (k.error_text e ∷ [])
      exit (ret done (some e)))
    (if run.has_changed
        then set_status k (λ t. record t { hash = k.hash_put t.hash db_sync_hash run.hash })
        else pure tt)
    marks_true k db_sync_ready (lib "DBSyncReadyMessage")

  -- `reconcileInitAodh`
  unfoldable pub reconcile_init_aodh : StringMap → Fn k c
  unfolding require_secret reconcile_keystone reconcile_database reconcile_db_sync
  reconcile_init_aodh labels = do
    require_secret
    reconcile_keystone labels
    set_status k (λ t. if k.hash_is_nil t.hash then record t { hash = k.empty_hash } else t)
    reconcile_database
    reconcile_db_sync labels
    exit (ret done none)
