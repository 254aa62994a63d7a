-- ===== src/Cli/Health/Report.antt =====
-- cli/commands/health.py: the report and the exit code.
use krossdb.Common.{
  ℕ, String, Bool, true, false, List, [], ◌∷◌, ◌++◌, map, any, ◌≡◌, ◌≢◌, refl, sym, ap, ap₂, ◌∙◌,
  ◌⊎◌, inl, inr, Result, ok, raise, arith, append_assoc, append-nil, ◌==◌, if◌then◌else◌, lift,
  continue, ◌>>=◌,
}
use krossdb.Common.Dict.{Dict, put, keys}
use krossdb.Config.{DatabaseKind, ConnectionConfig}
use krossdb.Errors.{Exn, cancelled}
use krossdb.Factory.{
  Action, connect, disconnect, Factory, Respond, names, distinct, create, health_check_all,
  connect_all, disconnect_all,
}
use krossdb.Factory.Outcomes.{attempt, AllConnect, Fails, AllOrNone}
use krossdb.Factory.AllOrNone.{connect_all-AllOrNone, disconnect_each_lem, distinct-new}
use krossdb.Adapter.Relational.Lifecycle.{HealthCheckResult}
use krossdb.Cli.{Command, Line, Stop, quit, exit, crashed}
use krossdb.Cli.Connected.{Connected, put_factory, leave, in_factory}
use krossdb.Cli.Health.{
  crashing, color_of, is_unhealthy, health_line, report_each, check_and_report, run_health_checks,
}

-- A new key goes last.
put-new :
    {V : Type 0} (k : String) (v : V) (d : Dict V)
    → any (λ j. j == k) (keys d) ≡ false
    → put k v d ≡ d ++ (k, v) ∷ []
unfolding put
put-new k v [] h = refl
put-new k v ((j, w) ∷ d) h = ground (arith, put-new k v d)

keys-last :
    {V : Type 0} (k : String) (v : V) (d : Dict V) → keys (d ++ (k, v) ∷ []) ≡ keys d ++ k ∷ []
keys-last k v [] = refl
keys-last k v ((j, w) ∷ d) = ap (λ ks. j ∷ ks) (keys-last k v d)

abbrev pub reported : (String → HealthCheckResult) → List String → Dict HealthCheckResult
reported status ns = map (λ n. (n, status n)) ns

module _ {S : Type 0} (check : String → Result Exn HealthCheckResult)
    (status : String → HealthCheckResult) (answered : (n : String) → check n ≡ ok (status n)) where
  health_check_all-reported :
      (ns : List String) (d : Dict HealthCheckResult) (s : S)
      → distinct (keys d ++ ns) ≡ true
      → health_check_all (λ n. lift (check n)) ns d s ≡ (ok (d ++ reported status ns), s)
  unfolding health_check_all
  health_check_all-reported [] d s h = ap (λ r. (ok r, s)) (sym (append-nil d))
  health_check_all-reported (n ∷ ns) d s h =
      rw (answered n, put-new n (status n) d (distinct-new (keys d) ns n h))
        (health_check_all-reported ns (d ++ (n, status n) ∷ []) s (
            ap (λ ks. distinct (ks ++ ns)) (keys-last n (status n) d)
            ∙ ap distinct (append_assoc (keys d) (n ∷ []) ns)
            ∙ h)
          ∙ ap (λ r. (ok r, s)) (append_assoc d ((n, status n) ∷ []) (reported status ns)))

abbrev pub unhealthy_among : Dict HealthCheckResult → ℕ → ℕ
unhealthy_among results exit_code = if any (λ r. is_unhealthy r.1) results then 1 else exit_code

abbrev pub report_lines : (HealthCheckResult → String) → Dict HealthCheckResult → List Line
report_lines measured results =
    map (λ r. record { color = color_of r.1.status; message = health_line measured r.0 r.1 })
      results

module _ {S : Type 0} (measured : HealthCheckResult → String) where
  report_each_lem :
      (results : Dict HealthCheckResult) (exit_code : ℕ) (s : Command (Connected S))
      → report_each measured results exit_code s ≡ (
        ok (unhealthy_among results exit_code),
        record s { lines = s.lines ++ report_lines measured results },
      )
  unfolding report_each
  report_each_lem [] exit_code s =
      ap (λ ls. (ok exit_code, record s { lines = ls })) (sym (append-nil s.lines))
  report_each_lem ((name, result) ∷ results) exit_code s =
      let here : Line = record {
        color = color_of result.status;
        message = health_line measured name result;
      } in
      report_each_lem results (if is_unhealthy result then 1 else exit_code)
        (record s { lines = s.lines ++ here ∷ [] })
      ∙ ap₂ (λ code ls. (ok code, record s { lines = ls })) (ground arith)
          (append_assoc s.lines (here ∷ []) (report_lines measured results))

  module _ (respond : Respond) (resolve : DatabaseKind → Result Exn Unit)
      (status : String → HealthCheckResult) where
    -- How the block of the factory ends for a command in a state.
    abbrev pub Outcome :
        List ConnectionConfig
        → Command (Connected S)
        → Result Stop Unit × Command (Connected S)
        → Type 0
    Outcome cs s out =
        ((out.0 ≡ raise (exit (unhealthy_among (reported status (names cs)) 0)))
          × AllConnect respond resolve [] cs
          × (out.1.lines ≡ s.lines ++ report_lines measured (reported status (names cs)))
          × (out.1.own.factory.history ≡ map connect (names cs) ++ map disconnect (names cs)))
        ⊎ ((e : Exn) × (done : List ConnectionConfig) × (c : ConnectionConfig) × (rest : List
              ConnectionConfig)
            × (tried : Bool) × (cs ≡ done ++ c ∷ rest)
            × AllConnect respond resolve [] done
            × Fails respond resolve (map connect (names done)) c tried e
            × (out.0 ≡ raise (crashed e))
            × (out.1.lines ≡ s.lines)
            × (out.1.own.factory.history
                ≡ (map connect (names done) ++ attempt tried c.name)
                  ++ map disconnect (names done)))

  module _ (respond : Respond) (resolve : DatabaseKind → Result Exn Unit)
      (check : String → Result Exn HealthCheckResult) (status : String → HealthCheckResult)
      (answered : (n : String) → check n ≡ ok (status n))
      (quiet : (h : List Action) (n : String) → respond h (disconnect n) ≢ raise cancelled) where
    check_and_report_lem :
        (s : Command (Connected S))
        → distinct s.own.factory.adapters ≡ true
        → check_and_report measured respond resolve check s ≡ (
          ok (unhealthy_among (reported status s.own.factory.adapters) 0),
          record s {
            lines = s.lines ++ report_lines measured (reported status s.own.factory.adapters);
          },
        )
    unfolding check_and_report
    check_and_report_lem s h =
        rw (health_check_all-reported check status answered s.own.factory.adapters [] s h)
          (report_each_lem (reported status s.own.factory.adapters) 0 s)

    -- What follows the connecting.
    abbrev run_block :
        Command (Connected S) → Result Exn Unit × Factory → Result Stop Unit × Command (Connected S)
    run_block s p =
        (crashing (λ s.
              continue p.0
                (λ _ t. leave respond resolve (check_and_report measured respond resolve check t))
                (put_factory p.1 s))
            >>= λ exit_code. quit exit_code)
          s

    run_block-connected :
        (s : Command (Connected S)) (g : Factory)
        → distinct g.adapters ≡ true
        → run_block s (ok tt, g) ≡ (
          raise (exit (unhealthy_among (reported status g.adapters) 0)),
          put_factory
              (record g { adapters = []; history = g.history ++ map disconnect g.adapters })
              (record s { lines = s.lines ++ report_lines measured (reported status g.adapters) }),
        )
    unfolding disconnect_all
    run_block-connected s g h =
        rw
          (
            check_and_report_lem (put_factory g s) h,
            disconnect_each_lem respond resolve quiet g.adapters g,
          )
          refl

    run_block-Outcome :
        (s : Command (Connected S)) (cs : List ConnectionConfig) (p : Result Exn Unit × Factory)
        → distinct (names cs) ≡ true
        → AllOrNone respond resolve cs p
        → Outcome respond resolve status cs s (run_block s p)
    run_block-Outcome s cs (r, g) h (inl (o, ups, a, b)) =
        let run = run_block-connected s g (ap distinct a ∙ h) in
        rw o (
          inl (
            ap (λ x. x.0) run ∙ ap (λ ks. raise (exit (unhealthy_among (reported status ks) 0))) a,
            ups,
            ap (λ x. x.1.lines) run
                ∙ ap (λ ks. s.lines ++ report_lines measured (reported status ks)) a,
            ap (λ x. x.1.own.factory.history) run ∙ ap₂ (λ hs ks. hs ++ map disconnect ks) b a,
          ))
    run_block-Outcome s cs (r, g) h (inr (e, done, c, rest, tried, q, ups, why, o, a, b)) =
        rw o (inr (e, done, c, rest, tried, q, ups, why, refl, refl, b))

    -- A health run over connections with different names, whose adapters answer their checks and
    -- whose disconnecting is not cancelled: either all their classes are resolved and all their
    -- connects succeed, and then it prints one line for each in their order, disconnects them all,
    -- and exits with 1 if one of them is unhealthy and with 0 otherwise; or those before some `c`
    -- connect and the class of `c` is not resolved or its connect raises, and then the command ends
    -- with that exception, prints nothing, and disconnects those that were tried.
    pub run_health_checks-Outcome :
        (c : ConnectionConfig) (cs : List ConnectionConfig) (s : Command (Connected S))
        → distinct (names (c ∷ cs)) ≡ true
        → Outcome respond resolve status
            (c ∷ cs)
            s
            (run_health_checks measured respond resolve check (c ∷ cs) s)
    unfolding run_health_checks in_factory create
    run_health_checks-Outcome c cs s h =
        let start : Factory = record { configs = c ∷ cs; adapters = []; history = [] } in
        rw h (
          run_block-Outcome s (c ∷ cs) (connect_all respond resolve start) h
            (connect_all-AllOrNone respond resolve quiet (c ∷ cs) start (rw h refl)))
