-- ===== src/Persistence/Idempotence/Effects.antt =====
-- What each operation of the idempotence store reads and changes, on a Redis server that answers.
use k8s_sched_demo.Base.{◌≡◌, refl, Option, none, some, Text, text_eq, if◌then◌else◌, codes, not}
use k8s_sched_demo.Errors.{ok, is_some}
use k8s_sched_demo.Types.Ids.{SandboxId}
use k8s_sched_demo.Persistence.Redis.{IsServed, Db, put, apply_all, reply_of}
use k8s_sched_demo.Persistence.Idempotence.{
  check, Check, IdempotenceStore, form_key, form_pending_key, get_sandbox_id, mark_pending_creation,
  read_sandbox_id, complete_commands, complete_pending_creation, drop_pending_creation,
}
use k8s_sched_demo.Persistence.Idempotence.Keys.{idempotence_keys}

module _ {R : Type 0} (r : IdempotenceStore R) where
  -- The recorded sandbox and the pending marker of a key.
  abbrev pub recorded : Text → Db → Option Text
  recorded k d = d.value (form_key r k)

  abbrev pub pending : Text → Db → Option Text
  pending k d = d.value (form_pending_key r k)

  -- What a lookup of the key finds.
  abbrev pub lookup_check : Text → Db → Check
  lookup_check k d = check (read_sandbox_id (reply_of (recorded k d)))

  pub complete_commands-recorded :
      (k l : Text) (x : SandboxId) (d : Db)
      → recorded l (apply_all (complete_commands r k x) d)
        ≡ (if text_eq k l then some x else recorded l d)
  unfolding apply_all complete_commands
  complete_commands-recorded k l x d = simp idempotence_keys

  pub complete_commands-pending :
      (k l : Text) (x : SandboxId) (d : Db)
      → pending l (apply_all (complete_commands r k x) d)
        ≡ (if text_eq k l then none else pending l d)
  unfolding apply_all complete_commands
  complete_commands-pending k l x d = simp idempotence_keys

  pub put-recorded :
      (k l : Text) (v : Option Text) (d : Db)
      → recorded l (put (form_pending_key r k) v d) ≡ recorded l d
  unfolding put
  put-recorded k l v d = simp idempotence_keys

  pub put-pending :
      (k l : Text) (v : Option Text) (d : Db)
      → pending l (put (form_pending_key r k) v d) ≡ (if text_eq k l then v else pending l d)
  unfolding put
  put-pending k l v d = simp idempotence_keys

module _ {R : Type 0} (r : IdempotenceStore R) (served : IsServed r.client) where
  open served use {db}

  pub get_sandbox_id-reply :
      (k : Text) (s : R)
      → (get_sandbox_id r k s).0 ≡ read_sandbox_id (reply_of (recorded r k (db s)))
  unfolding get_sandbox_id
  get_sandbox_id-reply k s = rw (served.get_reply (form_key r k) s)

  pub get_sandbox_id-db : (k : Text) (s : R) → db (get_sandbox_id r k s).1 ≡ db s
  unfolding get_sandbox_id
  get_sandbox_id-db k s = served.get_db (form_key r k) s

  pub mark_pending-reply :
      (k : Text) (s : R) → (mark_pending_creation r k s).0 ≡ ok (not (is_some (pending r k (db s))))
  unfolding mark_pending_creation
  mark_pending-reply k s = rw (served.set_nx_reply (form_pending_key r k) (codes "1") 60 s)

  pub mark_pending-db :
      (k : Text) (s : R)
      → db (mark_pending_creation r k s).1 ≡ (
          if is_some (pending r k (db s))
          then db s
          else put (form_pending_key r k) (some (codes "1")) (db s))
  unfolding mark_pending_creation
  mark_pending-db k s = served.set_nx_db (form_pending_key r k) (codes "1") 60 s

  pub complete_pending-error :
      (k : Text) (x : SandboxId) (s : R) → (complete_pending_creation r k x s).0 ≡ none
  unfolding complete_pending_creation complete_commands
  complete_pending-error k x s = rw (served.exec_tx_error (complete_commands r k x) s refl)

  pub complete_pending-db :
      (k : Text) (x : SandboxId) (s : R)
      → db (complete_pending_creation r k x s).1 ≡ apply_all (complete_commands r k x) (db s)
  unfolding complete_pending_creation
  complete_pending-db k x s = served.exec_tx_db (complete_commands r k x) s

  pub drop_pending-db :
      (k : Text) (s : R)
      → db (drop_pending_creation r k s).1 ≡ put (form_pending_key r k) none (db s)
  unfolding drop_pending_creation
  drop_pending-db k s = served.del_db (form_pending_key r k) s
