-- ===== src/Cli/Health.antt =====
-- cli/commands/health.py. The answer of each adapter to its check is a parameter, as is the text
-- of its latency and detail.
pub mod Report
use krossdb.Common.{
  ℕ, String, Bool, true, false, not, List, [], ◌∷◌, Result, ok, raise, Exec, ◌>>=◌, ◌>>◌, pure,
  lift, gets, if◌then◌else◌,
}
use krossdb.Common.Dict.{Dict}
use krossdb.Common.Text.{◌+++◌}
use krossdb.Config.{DatabaseKind, ConnectionConfig}
use krossdb.Config.Files.{ConfigFiles, load_connections}
use krossdb.Errors.{Exn}
use krossdb.Factory.{Respond, health_check_all}
use krossdb.Adapter.Relational.Lifecycle.{
  HealthStatus, healthy, degraded, unhealthy, HealthCheckResult,
}
use krossdb.Cli.{Command, Stop, Color, green, yellow, red, secho, quit, or_crash}
use krossdb.Cli.Connected.{Connected, inside, in_factory}

abbrev pub color_of : HealthStatus → Color
color_of healthy = green
color_of degraded = yellow
color_of unhealthy = red

abbrev pub status_name : HealthStatus → String
status_name healthy = "healthy"
status_name degraded = "degraded"
status_name unhealthy = "unhealthy"

abbrev pub is_unhealthy : HealthCheckResult → Bool
is_unhealthy r = elim r.status [ unhealthy ↦ true | _ ↦ false ]

-- What a call raises ends the command.
abbrev pub crashing : {S A : Type 0} → Exec S Exn A → Exec S Stop A
crashing m s = let (r, t) = m s in (or_crash r, t)

abbrev pub health_line : (HealthCheckResult → String) → String → HealthCheckResult → String
health_line measured name result = name +++ ": " +++ status_name result.status +++ measured result

module _ {S : Type 0} (measured : HealthCheckResult → String) where
  -- The loop over the results, with the exit code.
  unfoldable pub report_each : Dict HealthCheckResult → ℕ → Exec (Command (Connected S)) Exn ℕ
  report_each [] exit_code = pure exit_code
  report_each ((name, result) ∷ results) exit_code =
      secho (color_of result.status) (health_line measured name result)
      >> report_each results (if is_unhealthy result then 1 else exit_code)

  module _ (respond : Respond) (resolve : DatabaseKind → Result Exn Unit)
      (check : String → Result Exn HealthCheckResult) where
    unfoldable pub check_and_report : Exec (Command (Connected S)) Exn ℕ
    unfolding report_each health_check_all
    check_and_report = gets (λ s. s.own.factory.adapters) >>= λ names.
        health_check_all (λ name. lift (check name)) names [] >>= λ results. report_each results 0

    unfoldable pub run_health_checks :
        List ConnectionConfig → Exec (Command (Connected S)) Stop Unit
    unfolding in_factory check_and_report
    run_health_checks [] = secho yellow "No connections defined in config file."
    run_health_checks (c ∷ cs) =
        crashing (in_factory respond resolve (c ∷ cs) check_and_report) >>= λ exit_code.
        quit exit_code

    -- `krossdb health --config ...`
    unfoldable pub health :
        {Item : Type 0} → ConfigFiles Item → String → Exec (Command (Connected S)) Stop Unit
    unfolding run_health_checks
    health files config =
        if not (files.exists config)
        then secho red ("Config file not found: " +++ config) >> quit 1
        else lift (or_crash (load_connections files config)) >>= run_health_checks
