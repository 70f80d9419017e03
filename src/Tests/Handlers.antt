-- ===== src/Tests/Handlers.antt =====
-- Executions on the sample chain: an acceptance, a new wallet, and a step that spends.
use private_currency.Consistency.Authority.{Entitled}
use private_currency.Consistency.Authority.Steps.{Step-Entitled}
use private_currency.Consistency.Handlers.{
  IsRefused, IsCredited, IsOpened, execute_accept-outcome, execute_create_wallet-outcome,
}
use private_currency.Crypto.Sample.{suite, suite-IsLawful}
use private_currency.Exonum.Sample.{node, node-IsLawful}
use private_currency.Prelude.{◌≡◌, ◌⊎◌, refl, some, none, arith}
use private_currency.Scenario.{opened, pay}
use private_currency.Service.Chain.{commit}
use private_currency.Storage.State.{State, wallet, maybe_transfer}
use private_currency.Storage.Wallet.{Wallet}
use private_currency.Tests.{
  opened-Reachable, room_opened, verified_pay, fresh_pay, paid_at, with_payment,
}
use private_currency.Tests.Examples.{paid_at-Inv, opened_Inv}
use private_currency.Tests.Honest.{alice}
use private_currency.Tests.Later.{alice_known}
use private_currency.Transactions.Errors.{Error, ok, err, wallet_exists}
use private_currency.Transactions.Execute.{execute_accept, execute_create_wallet}
use private_currency.Transactions.Messages.{Accept, CreateWallet, Transfer}

abbrev acceptance : Accept
acceptance = record { receiver = 8; transfer_id = 103; signature = 105 }

execute_accept-outcome_example :
    ((t : Transfer suite) × (w : Wallet suite) × (s' : State node) × (maybe_transfer (paid_at 7) 103
        ≡ some t)
      × (t.to ≡ 8)
      × (node.map_get (paid_at 7).wallets 8 ≡ some w)
      × (execute_accept acceptance (paid_at 7) ≡ (ok tt, s'))
      × IsCredited acceptance (paid_at 7) t w s')
    ⊎ ((e : Error) × IsRefused acceptance (paid_at 7) e
        × ((execute_accept acceptance (paid_at 7)).0 ≡ err e))
execute_accept-outcome_example =
    execute_accept-outcome node-IsLawful acceptance (paid_at 7) (omega arith) paid_at-Inv

abbrev carol : CreateWallet
carol = record { key = 9; signature = 109 }

execute_create_wallet-outcome_example :
    ((s' : State node) × (node.map_get opened.wallets 9 ≡ none)
      × (execute_create_wallet carol opened ≡ (ok tt, s'))
      × IsOpened node-IsLawful carol opened s')
    ⊎ ((w : Wallet suite) × (node.map_get opened.wallets 9 ≡ some w)
        × (execute_create_wallet carol opened ≡ (err wallet_exists, opened)))
execute_create_wallet-outcome_example =
    execute_create_wallet-outcome node-IsLawful carol opened opened_Inv

Step-Entitled_example :
    (w' : Wallet suite) × (wallet with_payment 7 ≡ some w')
    × Entitled opened with_payment 7 alice w'
Step-Entitled_example =
    Step-Entitled suite-IsLawful node-IsLawful opened-Reachable
      (commit pay room_opened verified_pay fresh_pay refl) 7 alice alice_known
