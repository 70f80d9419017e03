-- ===== src/Tests/Money.antt =====
-- The supply of money after a payment: the tables of src/storage.rs.
use private_currency.Consistency.Money.{supply-Reachable}
use private_currency.Consistency.Supply.{supply}
use private_currency.Crypto.Sample.{suite-IsLawful}
use private_currency.Crypto.Sums.{times}
use private_currency.Exonum.Sample.{node, node-IsLawful}
use private_currency.Prelude.{◌≡◌, length}
use private_currency.Scenario.{paid}
use private_currency.Storage.Wallet.{initial_balance}
use private_currency.Tests.{paid-Reachable}

supply-Reachable_example : supply paid ≡ times (length (node.map_keys paid.wallets)) initial_balance
supply-Reachable_example = supply-Reachable suite-IsLawful node-IsLawful paid-Reachable
