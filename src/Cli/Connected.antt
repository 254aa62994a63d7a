-- ===== src/Cli/Connected.antt =====
-- `async with DatabaseFactory(configs) as factory` in cli/commands/: a block that runs while the
-- adapters of a factory are connected.
use krossdb.Common.{List, Result, Exec, ◌>>=◌, ◌>>◌, lift, modify}
use krossdb.Config.{DatabaseKind, ConnectionConfig}
use krossdb.Errors.{Exn}
use krossdb.Factory.{Factory, Respond, create, connect_all, disconnect_all, released}
use krossdb.Cli.{Command}

-- The factory, and what is behind the adapters.
pub record Connected (S : Type 0) : Type 0 where
  pub factory : Factory
  pub world : S

module _ {S : Type 0} where
  abbrev pub put_factory : Factory → Command (Connected S) → Command (Connected S)
  put_factory f s = record s { own = record { factory = f; world = s.own.world } }

  abbrev pub inside : {A : Type 0} → Exec Factory Exn A → Exec (Command (Connected S)) Exn A
  inside m s = let (r, f) = m s.own.factory in (r, put_factory f s)

  module _ (respond : Respond) (resolve : DatabaseKind → Result Exn Unit) where
    abbrev pub leave :
        {A : Type 0} → Result Exn A × Command (Connected S) → Result Exn A × Command (Connected S)
    leave (r, t) =
        let (x, u) = inside (disconnect_all respond) t in (released respond resolve x r, u)

    unfoldable pub in_factory :
        {A : Type 0}
        → List ConnectionConfig
        → Exec (Command (Connected S)) Exn A
        → Exec (Command (Connected S)) Exn A
    unfolding create connect_all disconnect_all
    in_factory configs body = lift (create configs) >>= λ f.
        modify (put_factory f) >> inside (connect_all respond resolve) >> λ s. leave (body s)
