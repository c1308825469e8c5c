-- ===== src/Command/Status.antt =====
-- How vncdo ends, of vncdotool/command.py: `ExitStatus` and `VNCDoCLIFactory`.
use awc_remote.Base.{
  ℕ, ◌≡◌, ◌≢◌, refl, sym, ◌∙◌, Bool, Option, none, some, List, [], ◌∷◌, if◌then◌else◌, if_both,
}

-- `ExitStatus`
pub data ExitStatus : Type 0 where
  success error usage authentication_failed connection_failed connection_lost protocol_error :
      ExitStatus
  command_failed timeout : ExitStatus

abbrev pub exit_code : ExitStatus → ℕ
exit_code success = 0
exit_code error = 1
exit_code usage = 2
exit_code authentication_failed = 3
exit_code connection_failed = 10
exit_code connection_lost = 11
exit_code protocol_error = 20
exit_code command_failed = 30
exit_code timeout = 40

-- The classes that `EXIT_STATUS_FOR_ERROR` tells apart.
pub data ErrorType : Type 0 where
  authentication_error protocol_error_type timeout_error connect_error dns_lookup_error : ErrorType
  connection_closed : ErrorType

abbrev pub exit_status_for_error : List (ErrorType × ExitStatus)
exit_status_for_error =
    (authentication_error, authentication_failed)
    ∷ (protocol_error_type, protocol_error)
    ∷ (timeout_error, timeout)
    ∷ (connect_error, connection_failed)
    ∷ (dns_lookup_error, connection_failed)
    ∷ (connection_closed, connection_lost)
    ∷ []

-- A failure, as `Failure.check` answers for it.
abbrev pub Reason : Type 0
Reason = ErrorType → Bool

abbrev pub first_match : Reason → ExitStatus → List (ErrorType × ExitStatus) → ExitStatus
first_match reason default [] = default
first_match reason default ((error_type, status) ∷ rest) =
    if reason error_type then status else first_match reason default rest

-- `status_for`
unfoldable pub status_for : Reason → ExitStatus → ExitStatus
status_for reason default = first_match reason default exit_status_for_error

-- What happens to a run: the last of its commands is done, `error` is called by the chain of commands or by the timeout,
-- or the reactor reports that the connection was lost or never made.
pub data RunEvent : Type 0 where
  completed : RunEvent
  failed lost_connection no_connection : Reason → RunEvent

-- `done`, on `reactor.exit_status`: the first outcome wins.
abbrev pub done_with : ExitStatus → Option ExitStatus → Option ExitStatus
done_with code none = some code
done_with code (some earlier) = some earlier

-- `factory.error`
abbrev pub on_error : Reason → ExitStatus → Option ExitStatus → Option ExitStatus
on_error reason default (some earlier) = some earlier
on_error reason default none = done_with (status_for reason default) none

abbrev pub on_event : RunEvent → Option ExitStatus → Option ExitStatus
on_event completed s = done_with success s
on_event (failed reason) s = on_error reason command_failed s
on_event (lost_connection reason) s = on_error reason connection_lost s
on_event (no_connection reason) s = on_error reason connection_failed s

abbrev pub run_events : List RunEvent → Option ExitStatus → Option ExitStatus
run_events [] s = s
run_events (e ∷ es) s = run_events es (on_event e s)

-- The argument of `sys.exit`.
abbrev pub exit_argument : Option ExitStatus → ExitStatus
exit_argument none = error
exit_argument (some status) = status

settled : (es : List RunEvent) (s : ExitStatus) → run_events es (some s) ≡ some s
settled [] s = refl
settled (completed ∷ es) s = settled es s
settled (failed r ∷ es) s = settled es s
settled (lost_connection r ∷ es) s = settled es s
settled (no_connection r ∷ es) s = settled es s

-- What a run's first event says of it.
abbrev pub outcome : List RunEvent → ExitStatus
outcome [] = error
outcome (completed ∷ es) = success
outcome (failed r ∷ es) = status_for r command_failed
outcome (lost_connection r ∷ es) = status_for r connection_lost
outcome (no_connection r ∷ es) = status_for r connection_failed

first_outcome : (es : List RunEvent) → exit_argument (run_events es none) ≡ outcome es
unfolding status_for
first_outcome [] = refl
first_outcome (completed ∷ es) = rw (settled es success)
first_outcome (failed r ∷ es) = rw (settled es (status_for r command_failed))
first_outcome (lost_connection r ∷ es) = rw (settled es (status_for r connection_lost))
first_outcome (no_connection r ∷ es) = rw (settled es (status_for r connection_failed))

-- Not 0.
unfoldable Fails : ExitStatus → Type 0
Fails s = s ≢ success

matched-Fails : (r : Reason) (default : ExitStatus) → Fails default → Fails (status_for r default)
unfolding status_for Fails
matched-Fails r default h =
    if_both Fails (r authentication_error) (λ e f. absurd cc)
      (λ e.
        if_both Fails (r protocol_error_type) (λ e f. absurd cc)
          (λ e.
            if_both Fails (r timeout_error) (λ e f. absurd cc)
              (λ e.
                if_both Fails (r connect_error) (λ e f. absurd cc)
                  (λ e.
                    if_both Fails (r dns_lookup_error) (λ e f. absurd cc)
                      (λ e. if_both Fails (r connection_closed) (λ e f. absurd cc) (λ e. h))))))

-- The run's first event is that its commands are done.
abbrev pub CompletesFirst : List RunEvent → Type 0
CompletesFirst [] = ⊥
CompletesFirst (completed ∷ es) = Unit
CompletesFirst (failed r ∷ es) = ⊥
CompletesFirst (lost_connection r ∷ es) = ⊥
CompletesFirst (no_connection r ∷ es) = ⊥

only_completed : (es : List RunEvent) → outcome es ≡ success → CompletesFirst es
unfolding Fails
only_completed [] h = absurd cc
only_completed (completed ∷ es) h = tt
only_completed (failed r ∷ es) h = absurd (matched-Fails r command_failed (λ e. absurd cc) h)
only_completed (lost_connection r ∷ es) h =
    absurd (matched-Fails r connection_lost (λ e. absurd cc) h)
only_completed (no_connection r ∷ es) h =
    absurd (matched-Fails r connection_failed (λ e. absurd cc) h)

-- Whatever happens to a run, in whatever order, its exit status is that of the first event, and the status of success is given
-- only if that event is that all its commands are done; a run to which nothing happens ends with the status of an error.
pub run_events-outcome :
    (es : List RunEvent)
    → (exit_argument (run_events es none) ≡ outcome es)
      × (exit_argument (run_events es none) ≡ success → CompletesFirst es)
run_events-outcome es = (first_outcome es, λ h. only_completed es (sym (first_outcome es) ∙ h))
