-- ===== src/Worker/Rds/Laws.antt =====
-- When the polling tasks for RDS act, wait, end and fail.
use automated_actions.Prelude.{
  String, ◌≡◌, ◌≢◌, ◌↔◌, refl, sym, ap, ◌∙◌, Bool, true, false, some, List, [], ◌∷◌, ◌==◌,
  if◌then◌else◌, eq_iff, Bool-cases, Option-cases, inl, inr,
}
use automated_actions.Errors.{Exc}
use automated_actions.Exec.{
  Exec, Result, ok, err, pure, raise, continue, ◌>>◌, ok-ne-err, ok-injective,
}
use automated_actions.Utils.ExternalResource.{ExternalResource}
use automated_actions.Worker.Rds.{
  RdsInstanceStatus, available, backing_up, creating, deleting, failed,
  inaccessible_encryption_credentials, inaccessible_encryption_credentials_recoverable,
  incompatible_network, incompatible_option_group, incompatible_parameters, incompatible_restore,
  maintenance, modifying, rebooting, restore_error, starting, stopped, stopping, storage_full,
  storage_optimization, upgrading, status_text, statuses, with_text, read_status, is_terminal_error,
  is_available, is_stopped, RdsClient, get_rds_instance_status, start_in, stop_in, run_start,
  run_stop,
}

read_text : (status : RdsInstanceStatus) → read_status (status_text status) ≡ ok status
unfolding read_status with_text status_text
read_text available = refl
read_text backing_up = refl
read_text creating = refl
read_text deleting = refl
read_text failed = refl
read_text inaccessible_encryption_credentials = refl
read_text inaccessible_encryption_credentials_recoverable = refl
read_text incompatible_network = refl
read_text incompatible_option_group = refl
read_text incompatible_parameters = refl
read_text incompatible_restore = refl
read_text maintenance = refl
read_text modifying = refl
read_text rebooting = refl
read_text restore_error = refl
read_text starting = refl
read_text stopped = refl
read_text stopping = refl
read_text storage_full = refl
read_text storage_optimization = refl
read_text upgrading = refl

some-injective : {a b : RdsInstanceStatus} → some a ≡ some b → a ≡ b
some-injective h = cc

with_text-some :
    (s : String) (l : List RdsInstanceStatus) (status : RdsInstanceStatus)
    → with_text s l ≡ some status
    → status_text status ≡ s
unfolding with_text
with_text-some s [] status h = cc
with_text-some s (x ∷ l) status h = elim (Bool-cases (status_text x == s)) [
  | inl e ↦ ap status_text (sym (some-injective (rw e at h))) ∙ (eq_iff _ _).0 e
  | inr e ↦ with_text-some s l status (rw e at h)
]

text_read :
    (s : String) (status : RdsInstanceStatus) → read_status s ≡ ok status → status_text status ≡ s
unfolding read_status
text_read s status h = elim (Option-cases (with_text s statuses)) [
  | inl e ↦ absurd (ok-ne-err (sym (rw (read_status, e) at h)))
  | inr (x, e) ↦
      with_text-some s statuses status (e ∙ ap some (ok-injective (rw (read_status, e) at h)))
]

-- The texts of the statuses are told apart, and no other text is read as a status.
pub read_status_iff :
    (s : String) (status : RdsInstanceStatus)
    → (read_status s ≡ ok status) ↔ (status_text status ≡ s)
read_status_iff s status = (text_read s status, λ h. ap read_status (sym h) ∙ read_text status)

available_iff : (status : RdsInstanceStatus) → (is_available status ≡ true) ↔ (status ≡ available)
unfolding is_available
available_iff available = (λ h. refl, λ h. refl)
available_iff backing_up = (λ h. cc, λ h. cc)
available_iff creating = (λ h. cc, λ h. cc)
available_iff deleting = (λ h. cc, λ h. cc)
available_iff failed = (λ h. cc, λ h. cc)
available_iff inaccessible_encryption_credentials = (λ h. cc, λ h. cc)
available_iff inaccessible_encryption_credentials_recoverable = (λ h. cc, λ h. cc)
available_iff incompatible_network = (λ h. cc, λ h. cc)
available_iff incompatible_option_group = (λ h. cc, λ h. cc)
available_iff incompatible_parameters = (λ h. cc, λ h. cc)
available_iff incompatible_restore = (λ h. cc, λ h. cc)
available_iff maintenance = (λ h. cc, λ h. cc)
available_iff modifying = (λ h. cc, λ h. cc)
available_iff rebooting = (λ h. cc, λ h. cc)
available_iff restore_error = (λ h. cc, λ h. cc)
available_iff starting = (λ h. cc, λ h. cc)
available_iff stopped = (λ h. cc, λ h. cc)
available_iff stopping = (λ h. cc, λ h. cc)
available_iff storage_full = (λ h. cc, λ h. cc)
available_iff storage_optimization = (λ h. cc, λ h. cc)
available_iff upgrading = (λ h. cc, λ h. cc)

stopped_iff : (status : RdsInstanceStatus) → (is_stopped status ≡ true) ↔ (status ≡ stopped)
unfolding is_stopped
stopped_iff available = (λ h. cc, λ h. cc)
stopped_iff backing_up = (λ h. cc, λ h. cc)
stopped_iff creating = (λ h. cc, λ h. cc)
stopped_iff deleting = (λ h. cc, λ h. cc)
stopped_iff failed = (λ h. cc, λ h. cc)
stopped_iff inaccessible_encryption_credentials = (λ h. cc, λ h. cc)
stopped_iff inaccessible_encryption_credentials_recoverable = (λ h. cc, λ h. cc)
stopped_iff incompatible_network = (λ h. cc, λ h. cc)
stopped_iff incompatible_option_group = (λ h. cc, λ h. cc)
stopped_iff incompatible_parameters = (λ h. cc, λ h. cc)
stopped_iff incompatible_restore = (λ h. cc, λ h. cc)
stopped_iff maintenance = (λ h. cc, λ h. cc)
stopped_iff modifying = (λ h. cc, λ h. cc)
stopped_iff rebooting = (λ h. cc, λ h. cc)
stopped_iff restore_error = (λ h. cc, λ h. cc)
stopped_iff starting = (λ h. cc, λ h. cc)
stopped_iff stopped = (λ h. refl, λ h. refl)
stopped_iff stopping = (λ h. cc, λ h. cc)
stopped_iff storage_full = (λ h. cc, λ h. cc)
stopped_iff storage_optimization = (λ h. cc, λ h. cc)
stopped_iff upgrading = (λ h. cc, λ h. cc)

is_false : {b : Bool} → (b ≡ true → ⊥) → b ≡ false
is_false {b} h = elim (Bool-cases b) [ inl e ↦ absurd (h e) | inr e ↦ e ]

module _ {S : Type 0} (e : Exc) (act : Exec S Exc (Unit {0})) where
  -- A polling run: done, failed, acting, or waiting.
  poll : Bool → Bool → Bool → Exec S Exc Bool
  poll d t a =
      if d then pure true else if t then raise e else if a then (act >> pure false) else pure false

  poll-true : (d t a : Bool) (s : S) → ((poll d t a s).0 ≡ ok true) ↔ (d ≡ true)
  unfolding poll
  poll-true true t a s = (λ h. refl, λ h. refl)
  poll-true false true a s = (λ h. absurd (ok-ne-err (sym h)), λ h. cc)
  poll-true false false false s = (λ h. sym (sym (ok-injective h)), λ h. ap ok h)
  poll-true false false true s = (λ h. acted (act s).0 (act s).1 h, λ h. cc)
    where
      acted :
          (r : Result Exc (Unit {0})) (s : S)
          → (continue r (λ _. pure false) s).0 ≡ ok true
          → false ≡ true
      acted (ok u) s h = ok-injective h
      acted (err e) s h = absurd (ok-ne-err (sym h))

  poll-unchanged : (d t a : Bool) (s : S) → (a ≡ false) → (poll d t a s).1 ≡ s
  unfolding poll
  poll-unchanged true t a s h = refl
  poll-unchanged false true a s h = refl
  poll-unchanged false false a s h = rw h refl

module _ (client : RdsClient) (rds : ExternalResource) (s s' : client.Cloud)
    (status : RdsInstanceStatus) where
  -- Starting, by the status that is read: the run is done exactly if the instance is
  -- available, and nothing is changed unless the instance is stopped.
  pub run_start_polls :
      get_rds_instance_status client rds.identifier s ≡ (ok status, s')
      → (((run_start client rds s).0 ≡ ok true) ↔ (status ≡ available))
        × (status ≢ stopped → (run_start client rds s).1 ≡ s')
  unfolding run_start start_in poll
  run_start_polls read = rw read (
    (
      λ h. (available_iff status).0 (
          (poll-true _ _ (is_available status) (is_terminal_error status) (is_stopped status) s').0
            h),
      λ h.
          (poll-true _ _ _ (is_terminal_error status) (is_stopped status) s').1
            ((available_iff status).1 h),
    ),
    λ other.
        poll-unchanged _ _ (is_available status) (is_terminal_error status) (is_stopped status) s'
          (is_false (λ h. other ((stopped_iff status).0 h))),
  )

  -- Stopping, by the status that is read: the run is done exactly if the instance is stopped, and
  -- nothing is changed unless the instance is available.
  pub run_stop_polls :
      get_rds_instance_status client rds.identifier s ≡ (ok status, s')
      → (((run_stop client rds s).0 ≡ ok true) ↔ (status ≡ stopped))
        × (status ≢ available → (run_stop client rds s).1 ≡ s')
  unfolding run_stop stop_in poll
  run_stop_polls read = rw read (
    (
      λ h. (stopped_iff status).0 (
          (poll-true _ _ (is_stopped status) (is_terminal_error status) (is_available status) s').0
            h),
      λ h.
          (poll-true _ _ _ (is_terminal_error status) (is_available status) s').1
            ((stopped_iff status).1 h),
    ),
    λ other.
        poll-unchanged _ _ (is_stopped status) (is_terminal_error status) (is_available status) s'
          (is_false (λ h. other ((available_iff status).0 h))),
  )
